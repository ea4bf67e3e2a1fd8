-- ===== src/Routing/Walking.antt =====
-- Which clients a call of xibi/router.py asks, and what it does to the breakers.
use xibi.Base.{
  ◌==◌, ap, if◌then◌else◌, Store, ℕ, ◌≡◌, refl, sym, ◌∙◌, Bool, true, false, List, [], ◌∷◌, ◌++◌,
  arith, all, sym, ◌∙◌,
}
use mathlib.Core.Bool.{true≢false}
use xibi.Errors.{
  ErrorCategory, timeout, tool_not_found, parse_failure, provider_down, validation, circuit_open,
  permission, precondition_missing, ambiguous_calendar, unknown,
}
use xibi.CircuitBreaker.{Config, Table, persistent, transient, record_success, record_failure}
use mathlib.Core.List.{append-nil}
use xibi.Routing.{
  category_after, decided, Client, Breakers, Reply, answered, raises, breaks, charge, record_call,
  failure_type, Walked, result, raised, broken, all_failed, walk_from, walk,
}

module _ {A : Type 0} (cfg : Config) (now : ℕ) (ask : Client → Reply A) where
  -- An answer after which the next client is asked: the provider is down, too slow, or has answered
  -- with what cannot be parsed.
  abbrev walks : Reply A → Bool
  walks (raises e) = elim e.category [
    | provider_down ↦ true
    | timeout ↦ true
    | parse_failure ↦ true
    | _ ↦ false
  ]
  walks _ = false

  abbrev pub outcome : Reply A → Walked A
  outcome (answered a) = result a
  outcome (raises e) = raised e
  outcome breaks = broken

  abbrev last_category : ErrorCategory → List Client → ErrorCategory
  last_category last [] = last
  last_category last (c ∷ cs) = last_category (category_after last (ask c)) cs

  abbrev charge_all : List Client → Breakers → Breakers
  charge_all [] breakers = breakers
  charge_all (c ∷ cs) breakers = charge_all cs (charge cfg now c (ask c) breakers)

  decided-walks :
      (r : Reply A) (charged : Breakers) (rest : Walked A × Breakers)
      → walks r ≡ true
      → decided r charged rest ≡ rest
  decided-walks (answered a) charged rest h = absurd (true≢false (sym h))
  decided-walks (raises e) charged rest h = rw h refl
  decided-walks breaks charged rest h = absurd (true≢false (sym h))

  decided-stops :
      (r : Reply A) (charged : Breakers) (rest : Walked A × Breakers)
      → walks r ≡ false
      → decided r charged rest ≡ (outcome r, charged)
  decided-stops (answered a) charged rest h = refl
  decided-stops (raises e) charged rest h = rw h refl
  decided-stops breaks charged rest h = refl

  pub walk_from-step :
      (last : ErrorCategory) (c : Client) (cs : List Client) (breakers : Breakers)
      → walks (ask c) ≡ true
      → walk_from cfg now ask last (c ∷ cs) breakers
        ≡ walk_from cfg now ask (category_after last (ask c)) cs (charge cfg now c (ask c) breakers)
  unfolding walk_from
  walk_from-step last c cs breakers h = decided-walks (ask c) _ _ h

  walk_from-skip :
      (last : ErrorCategory) (before rest : List Client) (breakers : Breakers)
      → all (λ c. walks (ask c)) before ≡ true
      → walk_from cfg now ask last (before ++ rest) breakers
        ≡ walk_from cfg now ask (last_category last before) rest (charge_all before breakers)
  walk_from-skip last [] rest breakers h = refl
  walk_from-skip last (c ∷ before) rest breakers h =
      walk_from-step last c (before ++ rest) breakers (ground (arith, h))
      ∙ walk_from-skip (category_after last (ask c)) before rest (charge cfg now c (ask c) breakers)
          (ground (arith, h))

  walk_from-stop :
      (last : ErrorCategory) (c : Client) (cs : List Client) (breakers : Breakers)
      → walks (ask c) ≡ false
      → walk_from cfg now ask last (c ∷ cs) breakers
        ≡ (outcome (ask c), charge cfg now c (ask c) breakers)
  unfolding walk_from
  walk_from-stop last c cs breakers h = decided-stops (ask c) _ _ h

  -- What a client's answer does to the breaker of its provider: a success, a failure that counts if the
  -- provider is down or too slow or the exception is none of the program's own, or one that does not.
  abbrev judged : Reply A → Store Table → Store Table
  judged (answered a) s = (record_success cfg s).1
  judged (raises e) s = elim e.category [
    | provider_down ↦ (record_failure cfg now persistent s).1
    | timeout ↦ (record_failure cfg now persistent s).1
    | _ ↦ (record_failure cfg now transient s).1
  ]
  judged breaks s = (record_failure cfg now persistent s).1

  -- The breakers after one client was asked, and after several.
  abbrev pub asked : Client → Breakers → Breakers
  asked c breakers =
      λ p. if p == c.provider then judged (ask c) (breakers c.provider) else breakers p

  abbrev pub all_asked : List Client → Breakers → Breakers
  all_asked [] breakers = breakers
  all_asked (c ∷ cs) breakers = all_asked cs (asked c breakers)

  record_call-judged : (r : Reply A) (s : Store Table) → record_call cfg now r s ≡ judged r s
  unfolding record_call
  record_call-judged (answered a) s = refl
  record_call-judged (raises e) s = by_category e.category
    where
      by_category :
          (category : ErrorCategory)
          → (record_failure cfg now (failure_type (record e { category = category })) s).1
            ≡ judged (raises (record e { category = category })) s
      by_category provider_down = refl
      by_category timeout = refl
      by_category tool_not_found = refl
      by_category parse_failure = refl
      by_category validation = refl
      by_category circuit_open = refl
      by_category permission = refl
      by_category precondition_missing = refl
      by_category ambiguous_calendar = refl
      by_category unknown = refl
  record_call-judged breaks s = refl

  charge-asked :
      (c : Client) (breakers : Breakers) → charge cfg now c (ask c) breakers ≡ asked c breakers
  charge-asked c breakers =
      let paid : Store Table → Breakers = λ s p. if p == c.provider then s else breakers p in
      ap paid (record_call-judged (ask c) (breakers c.provider))

  charge_all-asked :
      (cs : List Client) (breakers : Breakers) → charge_all cs breakers ≡ all_asked cs breakers
  charge_all-asked [] breakers = refl
  charge_all-asked (c ∷ cs) breakers =
      ap (charge_all cs) (charge-asked c breakers) ∙ charge_all-asked cs (asked c breakers)

  -- A call's outcome is that of the first client that does not fail with an error to walk on, and
  -- exactly the clients up to that one are asked, each judged by the breaker of its provider: a
  -- success, a failure that counts, or one that does not.
  pub walk_decides :
      (before after : List Client) (c : Client) (breakers : Breakers)
      → all (λ b. walks (ask b)) before ≡ true
      → walks (ask c) ≡ false
      → walk cfg now ask (before ++ c ∷ after) breakers
        ≡ (outcome (ask c), asked c (all_asked before breakers))
  unfolding walk
  walk_decides before after c breakers h stop =
      walk_from-skip provider_down before (c ∷ after) breakers h
      ∙ walk_from-stop (last_category provider_down before) c after (charge_all before breakers)
          stop
      ∙ ap (λ b. (outcome (ask c), b))
          (charge-asked c (charge_all before breakers)
            ∙ ap (asked c) (charge_all-asked before breakers))

  walk_from-nil :
      (last : ErrorCategory) (breakers : Breakers)
      → walk_from cfg now ask last [] breakers ≡ (all_failed last, breakers)
  unfolding walk_from
  walk_from-nil last breakers = refl

  -- If every client fails with an error to walk on, each is asked once, and the call raises an error of
  -- the last one's category, or of a provider that is down if the chain is empty.
  walk_exhausts :
      (clients : List Client) (breakers : Breakers)
      → all (λ b. walks (ask b)) clients ≡ true
      → walk cfg now ask clients breakers
        ≡ (all_failed (last_category provider_down clients), charge_all clients breakers)
  unfolding walk
  walk_exhausts clients breakers h =
      rw (append-nil clients) at (walk_from-skip provider_down clients [] breakers h)
      ∙ walk_from-nil _ _
