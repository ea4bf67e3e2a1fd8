-- ===== src/Routing/Skipping.antt =====
-- A provider that keeps failing is left out of the chains of xibi/router.py: the calls' failures open
-- its breaker (xibi/circuit_breaker.py), and `get_model` asks the breaker.
use xibi.Base.{
  ℕ, suc, ◌+◌, ◌*◌, ◌≤◌, ◌<◌, ◌≡◌, refl, ap, ◌∙◌, inl, inr, true, false, String, List, [], ◌∷◌,
  arith, ◌==◌, eq_iff, eq_refl, leb, length, all, not, Store, Bool-cases,
}
use xibi.Errors.{ErrorCategory, provider_down, XibiError}
use xibi.CircuitBreaker.{Config, Table, persistent, is_open, record_failure}
use xibi.CircuitBreaker.Machine.{
  Phase, healthy, tripped, probing, fail_at, Represents, failure-Represents, query-Simulates,
}
use xibi.CircuitBreaker.Machine
use xibi.Routing.{
  breaks, answered, should_walk, Walked, RoleConfig, Network, Client, Breakers, Reply, raises,
  record_call, failure_type, charge, walk_from, walk, category_after, decided, unavailable,
  build_role_client, Walked, answered, should_walk,
}
use xibi.Routing.Walking.{walk_from-step}

-- A call that is made: its time, and what each client answers then.
pub record Attempt (A : Type 0) : Type 0 where
  pub at : ℕ
  pub ask : Client → Reply A

module _ (cfg : Config) where
  -- The phase after so many failures in a row, none before `start`.
  abbrev PhaseAfter : ℕ → ℕ → Phase → Type 0
  PhaseAfter start n (healthy k) = (k ≡ n) × (n < cfg.failure_threshold)
  PhaseAfter start n (tripped t s) = start ≤ t
  PhaseAfter start n (probing s) = ⊥

  fail_at-PhaseAfter :
      (start n at : ℕ) (p : Phase)
      → start ≤ at
      → PhaseAfter start n p
      → PhaseAfter start (suc n) (fail_at cfg at p)
  fail_at-PhaseAfter start n at (healthy k) le h =
      elim (Bool-cases (leb cfg.failure_threshold (k + 1))) [
        | inl e ↦ rw e le
        | inr e ↦ rw e (omega (arith, h), ground (arith, e, h))
      ]
  fail_at-PhaseAfter start n at (tripped t s) le h = h
  fail_at-PhaseAfter start n at (probing s) le h = absurd h

  blocks :
      (start n later : ℕ) (p : Phase)
      → PhaseAfter start n p
      → cfg.failure_threshold ≤ n
      → later ≤ start + 1_000_000 * cfg.recovery_timeout_secs
      → (Machine.ask cfg later p).0 ≡ true
  blocks start n later (healthy k) h enough soon = absurd (omega (arith, h, enough))
  blocks start n later (tripped t s) h enough soon = ground (arith, h, soon)
  blocks start n later (probing s) h enough soon = absurd h

module _ (cfg : Config) (at : ℕ) where
  module _ {A : Type 0} (ask : Client → Reply A) (provider : String) where
    abbrev AreOthers : List Client → Type 0
    AreOthers cs = all (λ c. not (c.provider == provider)) cs ≡ true

    charge-other :
        (c : Client) (r : Reply A) (breakers : Breakers)
        → (c.provider == provider) ≡ false
        → charge cfg at c r breakers provider ≡ breakers provider
    charge-other c r breakers ne = rw (provider_differs c ne) refl
      where
        provider_differs :
            (c : Client) → (c.provider == provider) ≡ false → (provider == c.provider) ≡ false
        provider_differs c ne =
            ground (arith, eq_iff c.provider provider, eq_iff provider c.provider)

    decided-keeps :
        (r : Reply A) (charged : Breakers) (rest : Walked A × Breakers) (s : Store Table)
        → charged provider ≡ s
        → rest.1 provider ≡ s
        → (decided r charged rest).1 provider ≡ s
    decided-keeps (answered a) charged rest s e f = e
    decided-keeps (raises x) charged rest s e f = elim (Bool-cases (should_walk x)) [
      | inl g ↦ rw g f
      | inr g ↦ rw g e
    ]
    decided-keeps breaks charged rest s e f = e

    walk_from-others :
        (last : ErrorCategory) (cs : List Client) (breakers : Breakers)
        → AreOthers cs
        → (walk_from cfg at ask last cs breakers).1 provider ≡ breakers provider
    unfolding walk_from
    walk_from-others last [] breakers others = refl
    walk_from-others last (c ∷ cs) breakers others =
        let same = charge-other c (ask c) breakers (ground (arith, others)) in
        decided-keeps (ask c) _ _ (breakers provider) same (
          walk_from-others (category_after last (ask c)) cs (charge cfg at c (ask c) breakers)
            (ground (arith, others))
          ∙ same)

    persistent-walks : (e : XibiError) → failure_type e ≡ persistent → should_walk e ≡ true
    persistent-walks e h = ground arith

    charge-own :
        (c : Client) (r : Reply A) (e : XibiError) (breakers : Breakers)
        → c.provider ≡ provider
        → r ≡ raises e
        → failure_type e ≡ persistent
        → charge cfg at c r breakers provider
          ≡ (record_failure cfg at persistent (breakers provider)).1
    unfolding record_call
    charge-own c r e breakers own same h = rw (own, same, eq_refl provider, record_call, h) refl

    walk-charges :
        (c : Client) (cs : List Client) (e : XibiError) (breakers : Breakers)
        → c.provider ≡ provider
        → AreOthers cs
        → ask c ≡ raises e
        → failure_type e ≡ persistent
        → (walk cfg at ask (c ∷ cs) breakers).1 provider
          ≡ (record_failure cfg at persistent (breakers provider)).1
    unfolding walk
    walk-charges c cs e breakers own others fails down =
        ap (λ q. q.1 provider)
          (walk_from-step cfg at ask provider_down c cs breakers
            (rw fails (persistent-walks e down)))
        ∙ (walk_from-others (category_after provider_down (ask c)) cs
              (charge cfg at c (ask c) breakers) others
            ∙ charge-own c (ask c) e breakers own fails down)

module _ {A : Type 0} (cfg : Config) (c : Client) (cs : List Client)
    (others : all (λ d. not (d.provider == c.provider)) cs ≡ true) where
  -- The calls of the chain, one after the other.
  abbrev pub calls : List (Attempt A) → Breakers → Breakers
  calls [] breakers = breakers
  calls (a ∷ attempts) breakers = calls attempts (walk cfg a.at a.ask (c ∷ cs) breakers).1

  -- In each the first client fails as a provider that is down or too slow does; none is before `start`.
  abbrev pub AllFail : ℕ → List (Attempt A) → Type 0
  AllFail start [] = Unit
  AllFail start (a ∷ attempts) =
      (start ≤ a.at)
      × ((e : XibiError) × (a.ask c ≡ raises e) × (failure_type e ≡ persistent))
      × AllFail start attempts

  calls-block :
      (start n later : ℕ) (attempts : List (Attempt A)) (breakers : Breakers) (p : Phase)
      → AllFail start attempts
      → cfg.failure_threshold ≤ n + length attempts
      → later ≤ start + 1_000_000 * cfg.recovery_timeout_secs
      → PhaseAfter cfg start n p
      → Represents cfg (breakers c.provider) p
      → (is_open cfg later (calls attempts breakers c.provider)).0 ≡ true
  calls-block start n later [] breakers p fail enough soon phase h =
      (query-Simulates cfg later (breakers c.provider) p h).0
      ∙ blocks cfg start n later p phase (omega (arith, enough)) soon
  calls-block start n later (a ∷ attempts) breakers p fail enough soon phase h =
      let (le, (e, fails, down), more) = fail in
      calls-block start (suc n) later attempts (walk cfg a.at a.ask (c ∷ cs) breakers).1
        (fail_at cfg a.at p) more (omega (arith, enough)) soon
        (fail_at-PhaseAfter cfg start n a.at p le phase)
        (rw (walk-charges cfg a.at a.ask c.provider c cs e breakers refl others fails down)
          (failure-Represents cfg a.at (breakers c.provider) p h))

  -- After calls, as many as the failure threshold, positive, or more, each at its own time, in each of
  -- which the first client fails as a provider that is down or too slow does, the other clients being
  -- of other providers: no role of that provider gets a client until the recovery timeout has passed,
  -- counted from a time before which none of the calls was made; the breaker was healthy at first, and
  -- its database answers.
  pub failing_provider_is_skipped :
      (w : Network) (name : String) (role : RoleConfig) (start later : ℕ)
      (attempts : List (Attempt A)) (breakers : Breakers)
      → role.provider ≡ c.provider
      → AllFail start attempts
      → 0 < cfg.failure_threshold
      → cfg.failure_threshold ≤ length attempts
      → later ≤ start + 1_000_000 * cfg.recovery_timeout_secs
      → Represents cfg (breakers c.provider) (healthy 0)
      → (build_role_client w cfg later (name, role) (calls attempts breakers)).0 ≡ unavailable
  unfolding build_role_client
  failing_provider_is_skipped w name role start later attempts breakers same fail pos enough soon
        h =
      rw
        (
          same,
          calls-block start 0 later attempts breakers (healthy 0) fail (omega (arith, enough)) soon
              (refl, pos) h,
        )
        refl
