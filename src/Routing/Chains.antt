-- ===== src/Routing/Chains.antt =====
-- The fallback chains of xibi/router.py end.
use xibi.Base.{
  ℕ, zero, suc, ◌≤◌, ◌≡◌, false, Option, none, some, String, List, [], ◌∷◌, arith, eq_iff,
  if◌then◌else◌, Dict, lookup, member, length, Option-cases, inl, inr,
}
use mathlib.Core.Option.{none-ne-some}
use xibi.Routing.{RoleConfig, next_role, follow, truthy}

-- The chain of the loop without a bound: it ends where there is no fallback, or where the next role is
-- missing or has been seen.
pub data Follows (efforts : Dict RoleConfig)
    : List String → Option String → List (String × RoleConfig) → Type 0 where
  no_fallback : {seen : List String} → Follows efforts seen none []
  ends :
      {seen : List String} {effort : String}
      → next_role efforts seen effort ≡ none
      → Follows efforts seen (some effort) []
  goes_on :
      {seen : List String} {effort : String} {role : RoleConfig} {rest : List (String × RoleConfig)}
      → next_role efforts seen effort ≡ some role
      → Follows efforts (effort ∷ seen) (truthy role.fallback) rest
      → Follows efforts seen (some effort) ((effort, role) ∷ rest)

-- The efforts that have not been seen.
abbrev unseen : List String → Dict RoleConfig → ℕ
unseen seen [] = 0
unseen seen ((k, r) ∷ d) = let rest = unseen seen d in if member k seen then rest else suc rest

unseen_mono :
    (seen : List String) (e : String) (d : Dict RoleConfig) → unseen (e ∷ seen) d ≤ unseen seen d
unseen_mono seen e [] = omega arith
unseen_mono seen e ((k, r) ∷ d) = ground (arith, unseen_mono seen e d)

unseen-lt :
    (seen : List String) (e : String) (d : Dict RoleConfig) (role : RoleConfig)
    → member e seen ≡ false
    → lookup e d ≡ some role
    → suc (unseen (e ∷ seen) d) ≤ unseen seen d
unseen-lt seen e [] role new h = absurd (none-ne-some role h)
unseen-lt seen e ((k, r) ∷ d) role new h =
    ground (arith, eq_iff k e, eq_iff e k, unseen_mono seen e d, unseen-lt seen e d role)

unseen-le : (seen : List String) (d : Dict RoleConfig) → unseen seen d ≤ length d
unseen-le seen [] = omega arith
unseen-le seen ((k, r) ∷ d) = ground (arith, unseen-le seen d)

next_role-unseen :
    (seen : List String) (e : String) (d : Dict RoleConfig) (role : RoleConfig)
    → next_role d seen e ≡ some role
    → suc (unseen (e ∷ seen) d) ≤ unseen seen d
next_role-unseen seen e d role h = ground (arith, unseen-lt seen e d role)

follow-Follows :
    (fuel : ℕ) (efforts : Dict RoleConfig) (seen : List String) (current : Option String)
    → unseen seen efforts ≤ fuel
    → Follows efforts seen current (follow (suc fuel) efforts seen current)
unfolding follow
follow-Follows fuel efforts seen none le = no_fallback
follow-Follows zero efforts seen (some effort) le =
    elim (Option-cases (next_role efforts seen effort)) [
      | inl e ↦ rw (follow, e) (ends e)
      | inr (role, e) ↦ absurd (omega (arith, next_role-unseen seen effort efforts role e))
    ]
follow-Follows (suc fuel) efforts seen (some effort) le =
    elim (Option-cases (next_role efforts seen effort)) [
      | inl e ↦ rw (follow, e) (ends e)
      | inr (role, e) ↦
          rw (follow, e)
            (goes_on e (
              follow-Follows fuel efforts (effort ∷ seen) (truthy role.fallback)
                (omega (arith, next_role-unseen seen effort efforts role e))))
    ]

-- The loop over fallbacks ends by itself within one round more than there are efforts, also when the
-- fallbacks form a circle or name a missing role: with that bound it gives the whole chain, each role of it the fallback of
-- the one before and none of them twice.
pub follow_is_complete :
    (efforts : Dict RoleConfig) (current : Option String)
    → Follows efforts [] current (follow (suc (length efforts)) efforts [] current)
follow_is_complete efforts current =
    follow-Follows (length efforts) efforts [] current (unseen-le [] efforts)
