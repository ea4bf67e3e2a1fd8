-- ===== src/TrustGradient/Keeps.antt =====
-- What one call of xibi/trust/gradient.py keeps: every stored audit interval between the bounds
-- of its role. Computations are composed by `bind-Keeps` and its companions.
use xibi.Base.{
  ℕ, ◌≡◌, refl, Bool, true, false, Option, none, some, List, [], ◌∷◌, String, arith, ◌>>=◌, pure,
  if◌then◌else◌, Store,
}
use mathlib.Core.Path.{subst}
use mathlib.Core.Option.{some-injective, none-ne-some}
use xibi.TrustGradient.{
  TrustRecord, Gradient, Table, Trust, config_of, model_hash_of, find, fresh, get_record,
  upsert_record, reset_record, rehashed, after_reset, current, revise, has_changed, ◌>>?◌, save,
}
use xibi.TrustGradient.Within.{
  IsValid, IsWithin, AllWithin, IsOfRole, find-IsOfRole, upsert-AllWithin,
}

-- What a computation keeps of the table, and what it promises of its result.
abbrev pub Keeps : Gradient → {A : Type 0} → Trust A → (A → Type 0) → Type 0
Keeps g {A} m Q =
    (s : Store Table)
    → AllWithin g s.table
    → AllWithin g (m s).1.table × ((a : A) → (m s).0 ≡ some a → Q a)

pub pure-Keeps :
    (g : Gradient) {A : Type 0} (Q : A → Type 0) (a : A) → Q a → Keeps g (pure (some a)) Q
pure-Keeps g Q a q s within = (within, λ b e. subst Q (some-injective a b e) q)

outcome-Keeps :
    (g : Gradient) {A B : Type 0} (Q : A → Type 0) (R : B → Type 0) (k : A → Trust B) (o : Option A)
    → ((a : A) → o ≡ some a → Q a)
    → ((a : A) → Q a → Keeps g (k a) R)
    → Keeps g (pure o >>? k) R
outcome-Keeps g Q R k none holds next s within = (within, λ b e. absurd (none-ne-some b e))
outcome-Keeps g Q R k (some a) holds next s within = next a (holds a refl) s within

bind-Keeps :
    (g : Gradient) {A B : Type 0} (Q : A → Type 0) (R : B → Type 0) (m : Trust A) (k : A → Trust B)
    → Keeps g m Q
    → ((a : A) → Q a → Keeps g (k a) R)
    → Keeps g (m >>? k) R
bind-Keeps g Q R m k first next s within =
    outcome-Keeps g Q R k (m s).0 (first s within).1 next (m s).1 (first s within).0

pub get_record-Keeps :
    (g : Gradient) (specialty effort : String) {B : Type 0} (R : B → Type 0)
    (k : Option TrustRecord → Trust B)
    → Keeps g (k none) R
    → ((r : TrustRecord) → IsOfRole g specialty effort r → Keeps g (k (some r)) R)
    → Keeps g (get_record specialty effort >>= k) R
unfolding get_record
get_record-Keeps g specialty effort {B = B} R k absent present s within = go s.faults s.table within
  where
    found :
        (faults : List Bool) (t : Table) (o : Option TrustRecord)
        → find specialty effort t ≡ o
        → AllWithin g t
        → AllWithin g (k o (record { table = t; faults = faults })).1.table
          × ((b : B) → (k o (record { table = t; faults = faults })).0 ≡ some b → R b)
    found faults t none e ok = absent (record { table = t; faults = faults }) ok
    found faults t (some a) e ok =
        present a (find-IsOfRole g specialty effort t a ok e)
          (record { table = t; faults = faults }) ok

    go :
        (faults : List Bool) (t : Table)
        → AllWithin g t
        → AllWithin g
            ((get_record specialty effort >>= k) (record { table = t; faults = faults })).1.table
          × ((b : B)
              → ((get_record specialty effort >>= k) (record { table = t; faults = faults })).0
                ≡ some b
              → R b)
    go [] t ok = found [] t (find specialty effort t) refl ok
    go (true ∷ faults) t ok = absent (record { table = t; faults = faults }) ok
    go (false ∷ faults) t ok = found faults t (find specialty effort t) refl ok

upsert_record-Keeps :
    (g : Gradient) (new : TrustRecord)
    → IsWithin (config_of g new.specialty new.effort) new
    → Keeps g (upsert_record new) (λ _. Unit)
unfolding upsert_record
upsert_record-Keeps g new ok s within = ground (arith, upsert-AllWithin g new s.table ok within)

save-Keeps :
    (g : Gradient) (r : TrustRecord)
    → IsWithin (config_of g r.specialty r.effort) r
    → Keeps g (save r) (λ _. Unit)
save-Keeps g r ok =
    bind-Keeps g (λ _. Unit) (λ _. Unit) (upsert_record r) (λ _. pure (some r))
      (upsert_record-Keeps g r ok) (λ _ _. pure-Keeps g (λ _. Unit) r tt)

pub reset_record-Keeps :
    (g : Gradient) (now : ℕ) (specialty effort : String)
    → IsValid (config_of g specialty effort)
    → Keeps g (reset_record g now specialty effort) (λ _. Unit)
unfolding reset_record
reset_record-Keeps g now specialty effort valid =
    save-Keeps g (fresh g now specialty effort none) (valid.1, valid.2)

-- The result of an operation on a role is a record of that role, within its bounds.
after_reset-Keeps :
    (g : Gradient) (now : ℕ) (specialty effort : String)
    → IsValid (config_of g specialty effort)
    → Keeps g (after_reset g now specialty effort) (IsOfRole g specialty effort)
after_reset-Keeps g now specialty effort valid =
    bind-Keeps g (λ _. Unit) (IsOfRole g specialty effort) (reset_record g now specialty effort) _
      (reset_record-Keeps g now specialty effort valid)
      (λ _ _.
        get_record-Keeps g specialty effort (IsOfRole g specialty effort)
          (λ again. pure (some (rehashed g now specialty effort again)))
          (pure-Keeps g (IsOfRole g specialty effort) _ (refl, refl, (valid.1, valid.2)))
          (λ r ok. pure-Keeps g (IsOfRole g specialty effort) _ ok))

if-Keeps :
    (g : Gradient) {A : Type 0} (Q : A → Type 0) (b : Bool) (m k : Trust A)
    → Keeps g m Q
    → Keeps g k Q
    → Keeps g (if b then m else k) Q
if-Keeps g Q true m k first second = first
if-Keeps g Q false m k first second = second

current-Keeps :
    (g : Gradient) (now : ℕ) (specialty effort : String) (r : TrustRecord)
    → IsValid (config_of g specialty effort)
    → IsOfRole g specialty effort r
    → Keeps g (current g now specialty effort (some r)) (IsOfRole g specialty effort)
current-Keeps g now specialty effort r valid ok =
    if-Keeps g (IsOfRole g specialty effort) (has_changed (model_hash_of g specialty effort) r)
      (after_reset g now specialty effort) (pure (some r))
      (after_reset-Keeps g now specialty effort valid)
      (pure-Keeps g (IsOfRole g specialty effort) r ok)

placed :
    (g : Gradient) (specialty effort : String) (r : TrustRecord)
    → IsOfRole g specialty effort r
    → IsWithin (config_of g r.specialty r.effort) r
placed g specialty effort r ok = rw (ok.0, ok.1) ok.2

pub revise-Keeps :
    (g : Gradient) (now : ℕ) (change : TrustRecord → TrustRecord) (specialty effort : String)
    → IsValid (config_of g specialty effort)
    → ((r : TrustRecord) → IsOfRole g specialty effort r → IsOfRole g specialty effort (change r))
    → Keeps g (revise g now change specialty effort) (λ _. Unit)
revise-Keeps g now change specialty effort valid good =
    get_record-Keeps g specialty effort (λ _. Unit)
      (λ found. current g now specialty effort found >>? λ r. save (change r))
      (write (pure (some new))
        (pure-Keeps g (IsOfRole g specialty effort) new (refl, refl, (valid.1, valid.2))))
      (λ r ok.
        write (current g now specialty effort (some r))
          (current-Keeps g now specialty effort r valid ok))
  where
    new : TrustRecord
    new = fresh g now specialty effort (model_hash_of g specialty effort)

    write :
        (m : Trust TrustRecord)
        → Keeps g m (IsOfRole g specialty effort)
        → Keeps g (m >>? λ r. save (change r)) (λ _. Unit)
    write m kept =
        bind-Keeps g (IsOfRole g specialty effort) (λ _. Unit) m (λ r. save (change r)) kept
          (λ r ok. save-Keeps g (change r) (placed g specialty effort (change r) (good r ok)))
