-- ===== src/TrustGradient/Promotion.antt =====
-- How trust is earned in xibi/trust/gradient.py: rounds of successes on one role.
use xibi.Base.{
  zero_add, suc_add, ℕ, zero, suc, ◌+◌, ◌*◌, ◌^◌, ◌≤◌, ◌<◌, ◌≡◌, refl, sym, ap, ◌∙◌, ◌⊎◌, inl, inr,
  false, Option, some, String, arith, Store,
}
use xibi.TrustGradient.{
  TrustConfig, TrustRecord, Gradient, Table, config_of, model_hash_of, find, upsert, succeeded,
  record_success, has_changed, min,
}
use xibi.TrustGradient.Effects.{sound, revise-found, find-revise, succeeded_same}

-- The record after a number of successes.
abbrev pub repeat : TrustConfig → ℕ → ℕ → TrustRecord → TrustRecord
repeat cfg now zero r = r
repeat cfg now (suc n) r = repeat cfg now n (succeeded cfg now r)

-- The database after a number of calls of `record_success`.
abbrev successes : Gradient → ℕ → ℕ → String → String → Store Table → Store Table
successes g now zero specialty effort s = s
successes g now (suc n) specialty effort s =
    successes g now n specialty effort (record_success g now specialty effort s).1

succeeded_below :
    (cfg : TrustConfig) (now : ℕ) (r : TrustRecord)
    → suc r.consecutive_clean < cfg.promote_after
    → ((succeeded cfg now r).audit_interval ≡ r.audit_interval)
      × ((succeeded cfg now r).consecutive_clean ≡ suc r.consecutive_clean)
unfolding succeeded
succeeded_below cfg now r h = ground arith

succeeded_last :
    (cfg : TrustConfig) (now : ℕ) (r : TrustRecord)
    → suc r.consecutive_clean ≡ cfg.promote_after
    → r.audit_interval < cfg.max_interval
    → ((succeeded cfg now r).audit_interval ≡ min (r.audit_interval * 2) cfg.max_interval)
      × ((succeeded cfg now r).consecutive_clean ≡ 0)
unfolding succeeded
succeeded_last cfg now r h k = ground arith

repeat_round :
    (cfg : TrustConfig) (now k : ℕ) (r : TrustRecord)
    → r.consecutive_clean + suc k ≡ cfg.promote_after
    → r.audit_interval < cfg.max_interval
    → ((repeat cfg now (suc k) r).audit_interval ≡ min (r.audit_interval * 2) cfg.max_interval)
      × ((repeat cfg now (suc k) r).consecutive_clean ≡ 0)
repeat_round cfg now zero r h k = succeeded_last cfg now r (omega arith) k
repeat_round cfg now (suc n) r h k =
    let step = succeeded_below cfg now r (omega arith) in
    let rest = repeat_round cfg now n (succeeded cfg now r) (omega arith) (omega arith) in
    (rest.0 ∙ ap (λ i. min (i * 2) cfg.max_interval) step.0, rest.1)

succeeded_at_max :
    (cfg : TrustConfig) (now : ℕ) (r : TrustRecord)
    → r.audit_interval ≡ cfg.max_interval
    → (succeeded cfg now r).audit_interval ≡ cfg.max_interval
unfolding succeeded
succeeded_at_max cfg now r h = ground arith

repeat_at_max :
    (cfg : TrustConfig) (now n : ℕ) (r : TrustRecord)
    → r.audit_interval ≡ cfg.max_interval
    → (repeat cfg now n r).audit_interval ≡ cfg.max_interval
repeat_at_max cfg now zero r h = h
repeat_at_max cfg now (suc n) r h =
    repeat_at_max cfg now n (succeeded cfg now r) (succeeded_at_max cfg now r h)

suc_mul : (n p : ℕ) → suc n * p ≡ p + n * p
suc_mul n p = ground arith

repeat_add :
    (cfg : TrustConfig) (now m n : ℕ) (r : TrustRecord)
    → repeat cfg now (m + n) r ≡ repeat cfg now n (repeat cfg now m r)
repeat_add cfg now zero n r = ap (λ k. repeat cfg now k r) (zero_add n)
repeat_add cfg now (suc m) n r =
    ap (λ k. repeat cfg now k r) (suc_add m n) ∙ repeat_add cfg now m n (succeeded cfg now r)

pow_positive : (n : ℕ) → 1 ≤ 2 ^ n
pow_positive zero = omega arith
pow_positive (suc n) = omega (arith, pow_positive n)

min_scaled : (a m x : ℕ) → 1 ≤ x → min (min a m * x) m ≡ min (a * x) m
min_scaled a m zero h = absurd (omega (arith, h))
min_scaled a m (suc y) h = ground arith

-- One round of `promote_after` successes, from an interval below the greatest.
repeat_whole_round :
    (cfg : TrustConfig) (now p : ℕ) (r : TrustRecord)
    → p ≡ cfg.promote_after
    → r.consecutive_clean ≡ 0
    → 1 ≤ p
    → r.audit_interval < cfg.max_interval
    → ((repeat cfg now p r).audit_interval ≡ min (r.audit_interval * 2) cfg.max_interval)
      × ((repeat cfg now p r).consecutive_clean ≡ 0)
repeat_whole_round cfg now zero r same clean needed below = absurd (omega (arith, needed))
repeat_whole_round cfg now (suc k) r same clean needed below =
    repeat_round cfg now k r (omega arith) below

min_at : (m x : ℕ) → 1 ≤ x → min (m * x) m ≡ m
min_at m zero h = absurd (omega (arith, h))
min_at m (suc y) h = ground arith

doubled : (a n : ℕ) → a * 2 * 2 ^ n ≡ a * 2 ^ suc n
doubled a n = grind arith

repeat_rounds :
    (cfg : TrustConfig) (now n : ℕ) (r : TrustRecord)
    → r.consecutive_clean ≡ 0
    → 1 ≤ cfg.promote_after
    → r.audit_interval ≤ cfg.max_interval
    → (repeat cfg now (n * cfg.promote_after) r).audit_interval
      ≡ min (r.audit_interval * 2 ^ n) cfg.max_interval
repeat_rounds cfg now zero r clean needed below = ground arith
repeat_rounds cfg now (suc n) r clean needed below =
    let p = cfg.promote_after in
    let top = cfg.max_interval in
    elim (le_cases r.audit_interval top below) [
      | inl less ↦
          let mid = repeat cfg now p r in
          let round = repeat_whole_round cfg now p r refl clean needed less in
          ap (λ k. (repeat cfg now k r).audit_interval) (suc_mul n p)
          ∙ ap (λ x. x.audit_interval) (repeat_add cfg now p (n * p) r)
          ∙ repeat_rounds cfg now n mid round.1 needed (min_le (r.audit_interval * 2) top _ round.0)
          ∙ ap (λ i. min (i * 2 ^ n) top) round.0
          ∙ min_scaled (r.audit_interval * 2) top (2 ^ n) (pow_positive n)
          ∙ ap (λ i. min i top) (doubled r.audit_interval n)
      | inr same ↦
          repeat_at_max cfg now (suc n * p) r same
          ∙ sym (min_at top (2 ^ suc n) (pow_positive (suc n)))
          ∙ ap (λ i. min (i * 2 ^ suc n) top) (sym same)
    ]
  where
    le_cases : (a b : ℕ) → a ≤ b → (a < b) ⊎ (a ≡ b)
    le_cases a b h = ground arith

    min_le : (a b m : ℕ) → m ≡ min a b → m ≤ b
    min_le a b m e = ground arith

has_changed-succeeded :
    (hash : Option String) (cfg : TrustConfig) (now : ℕ) (r : TrustRecord)
    → has_changed hash (succeeded cfg now r) ≡ has_changed hash r
unfolding succeeded
has_changed-succeeded hash cfg now r = ground arith

-- `record_success` on a sound database, again and again, is `repeat` on the stored record.
find-successes :
    (g : Gradient) (now n : ℕ) (specialty effort : String) (t : Table) (r : TrustRecord)
    → find specialty effort t ≡ some r
    → r.specialty ≡ specialty
    → r.effort ≡ effort
    → has_changed (model_hash_of g specialty effort) r ≡ false
    → find specialty effort (successes g now n specialty effort (sound t)).table
      ≡ some (repeat (config_of g specialty effort) now n r)
unfolding record_success
find-successes g now zero specialty effort t r found a b c = found
find-successes g now (suc n) specialty effort t r found a b c =
    let cfg = config_of g specialty effort in
    let next = succeeded cfg now r in
    let same = succeeded_same cfg now r in
    ap (λ o. find specialty effort (successes g now n specialty effort o.1).table)
      (revise-found g now (succeeded cfg now) specialty effort t r found c)
    ∙ find-successes g now n specialty effort (upsert next t) next
        (find-revise specialty effort next t (same.0 ∙ a) (same.1 ∙ b)) (same.0 ∙ a) (same.1 ∙ b)
        (has_changed-succeeded (model_hash_of g specialty effort) cfg now r ∙ c)

-- On a database that raises nothing, a role whose record counts no clean output yet, and which is
-- not outdated by a change of model, has, after `n` times `promote_after` successes in a row, its
-- audit interval doubled `n` times, up to the greatest interval; `promote_after` is not zero and
-- the interval at first at most the greatest.
successes_double :
    (g : Gradient) (now n : ℕ) (specialty effort : String) (t : Table) (r : TrustRecord)
    → find specialty effort t ≡ some r
    → r.specialty ≡ specialty
    → r.effort ≡ effort
    → has_changed (model_hash_of g specialty effort) r ≡ false
    → r.consecutive_clean ≡ 0
    → 1 ≤ (config_of g specialty effort).promote_after
    → r.audit_interval ≤ (config_of g specialty effort).max_interval
    → (x : TrustRecord) × (find specialty effort
          (successes g now
            (n * (config_of g specialty effort).promote_after)
            specialty
            effort
            (sound t)).table
        ≡ some x)
      × (x.audit_interval
          ≡ min (r.audit_interval * 2 ^ n) (config_of g specialty effort).max_interval)
successes_double g now n specialty effort t r found a b c clean needed below =
    let cfg = config_of g specialty effort in
    (
      repeat cfg now (n * cfg.promote_after) r,
      find-successes g now (n * cfg.promote_after) specialty effort t r found a b c,
      repeat_rounds cfg now n r clean needed below,
    )
