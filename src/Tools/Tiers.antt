-- ===== src/Tools/Tiers.antt =====
-- What `resolve_tier` of xibi/tools.py guarantees: a profile only relaxes, content from outside only
-- tightens, and only for the tools that write.
use mathlib.Core.Bool.{◌&&◌}
use xibi.Base.{
  ◌+◌, ◌≤◌, ◌≡◌, refl, ◌≢◌, Bool, true, false, Option, none, some, String, List, [], ◌∷◌, arith,
  eq_iff, if◌then◌else◌, member, all, lookup, inl, inr, Option-cases,
}
use xibi.Tools.{
  PermissionTier, green, red, write_tools, Profile, base_tier, override, rank, is_external,
  resolve_tier, is_write_tool, bump,
}

-- A test that all texts of a list pass is passed by each.
all-member :
    (p : String → Bool) (names : List String) (k : String)
    → all p names ≡ true
    → member k names ≡ true
    → p k ≡ true
all-member p [] k h m = cc
all-member p (n ∷ ns) k h m = ground (arith, eq_iff n k, all-member p ns k)

abbrev is_restricted : PermissionTier → Bool
is_restricted green = false
is_restricted _ = true

write_tools_restricted : all (λ name. is_restricted (base_tier name)) write_tools ≡ true
unfolding base_tier
write_tools_restricted = refl

-- Every tool that writes has a tier above green.
pub write_tools_not_green : (tool : String) → is_write_tool tool ≡ true → base_tier tool ≢ green
unfolding is_write_tool
write_tools_not_green tool m = ground (
  arith,
  all-member (λ name. is_restricted (base_tier name)) write_tools tool write_tools_restricted m,
)

-- Without content from outside, a profile leaves the tier of the table as it is or relaxes it.
profile_only_relaxes :
    (tool : String) (profile : Profile) (t : PermissionTier)
    → resolve_tier tool profile none ≡ some t
    → rank t ≤ rank (base_tier tool)
unfolding override is_external resolve_tier
profile_only_relaxes tool profile t h = ground arith

-- Where a tier is found at all, the source of the content before it decides neither whether it is,
-- nor lowers it; it raises the tier by one step at most, and only for a tool that writes after
-- content from an MCP server.
source_only_tightens :
    (tool : String) (profile : Profile) (source : Option String) (t : PermissionTier)
    → resolve_tier tool profile none ≡ some t
    → (t' : PermissionTier) × (resolve_tier tool profile source ≡ some t')
      × (rank t ≤ rank t')
      × (rank t' ≤ rank t + 1)
      × (t' ≢ t → (is_write_tool tool ≡ true) × (is_external source ≡ true))
unfolding is_external resolve_tier
source_only_tightens tool profile source t h =
    elim (Option-cases (override (base_tier tool) (lookup tool profile.tool_permissions))) [
      | inl none_found ↦ ground arith
      | inr (tier, e) ↦ (
        if is_external source && is_write_tool tool then bump tier else tier,
        ground arith,
        ground arith,
        ground arith,
        ground arith,
      )
    ]

-- A tool that writes, and for which the profile has no override, needs the user's confirmation
-- after content from an MCP server.
external_write_needs_confirmation :
    (tool : String) (profile : Profile) (source : Option String)
    → is_write_tool tool ≡ true
    → lookup tool profile.tool_permissions ≡ none
    → is_external source ≡ true
    → resolve_tier tool profile source ≡ some red
unfolding resolve_tier override
external_write_needs_confirmation tool profile source m o e =
    ground (arith, write_tools_not_green tool m)
