-- ===== src/CommandLayer/Dedup.antt =====
-- Duplicates of a nudge: what `_check_dedup` of xibi/command_layer.py finds in the log that `audit`
-- writes.
use xibi.Base.{
  ℕ, ◌+◌, ◌<◌, ◌≡◌, refl, ◌≢◌, Bool, true, false, ◌&&◌, Option, none, some, String, List, [], ◌∷◌,
  ◌++◌, arith, ◌==◌, eq_iff, eq_refl, ltb, Dict, any, all, member, Bool-cases, inl, inr, ◌∙◌,
  Option,
}
use mathlib.Core.Bool.{◌||◌}
use xibi.Tools.{Value, Profile}
use xibi.CommandLayer.{
  Database, rows, LogRow, Payload, bad_json, not_dict, details, Verdict, covered, verdict, scan,
  recent, dedup_window, check_dedup, audit, audit_row, field_or, empty_text, empty_list, same_value,
  is_subset,
}

-- A row that can be read as a dict, or that is no JSON at all; only another JSON value ends the loop.
abbrev Readable : Payload → Type 0
Readable not_dict = ⊥
Readable _ = Unit

abbrev AllReadable : List LogRow → Type 0
AllReadable [] = Unit
AllReadable (r ∷ rs) = Readable r.user_name × AllReadable rs

abbrev is_covered : Verdict → Bool
is_covered covered = true
is_covered _ = false

abbrev all_in : List String → Option (List String) → Bool
all_in new none = false
all_in new (some stored) = all (λ r. member r stored) new

-- A row's details name the thread, the category and all the references.
abbrev pub is_about : Value → Value → List String → Payload → Bool
is_about thread category new bad_json = false
is_about thread category new not_dict = false
is_about thread category new (details t c refs) =
    same_value t thread && same_value c category && all_in new refs.items

verdict-is_about :
    (thread category : Value) (new : List String) (p : Payload)
    → is_covered (verdict thread category new p) ≡ is_about thread category new p
verdict-is_about thread category new bad_json = refl
verdict-is_about thread category new not_dict = refl
verdict-is_about thread category new (details t c refs) = ground arith

-- The row is of the chat, younger than the window, of the same thread and category, and names all
-- the references.
abbrev pub covers : String → ℕ → ℕ → Value → Value → List String → LogRow → Bool
covers chat now window thread category new r =
    (r.chat_id == chat && ltb now (r.timestamp + window))
    && is_about thread category new r.user_name

scan-cons :
    (thread category : Value) (new : List String) (p : Payload) (ps : List Payload)
    → Readable p
    → scan thread category new (p ∷ ps)
      ≡ (is_about thread category new p || scan thread category new ps)
unfolding scan
scan-cons thread category new bad_json ps h = refl
scan-cons thread category new not_dict ps h = absurd h
scan-cons thread category new (details t c refs) ps h =
    ground (arith, verdict-is_about thread category new (details t c refs))

scan-nil : (thread category : Value) (new : List String) → scan thread category new [] ≡ false
unfolding scan
scan-nil thread category new = refl

scan-recent :
    (chat : String) (now window : ℕ) (thread category : Value) (new : List String)
    (log : List LogRow)
    → AllReadable log
    → scan thread category new (recent chat now window log)
      ≡ any (covers chat now window thread category new) log
unfolding recent
scan-recent chat now window thread category new [] h = scan-nil thread category new
scan-recent chat now window thread category new (r ∷ rs) h =
    elim (Bool-cases (r.chat_id == chat && ltb now (r.timestamp + window))) [
      | inl within ↦
          rw (within, scan-cons thread category new r.user_name (recent chat now window rs) h.0)
            (rw (scan-recent chat now window thread category new rs h.1))
      | inr outside ↦ rw outside (scan-recent chat now window thread category new rs h.1)
    ]

-- A nudge is suppressed exactly if a row of the log is a nudge that is younger than the window, of
-- the same thread and category, and names all references of the new one; the log holds no row that
-- is JSON but no dict, and the references of the new call can be collected.
pub check_dedup-eq-any :
    (profile : Profile) (now : ℕ) (log : List LogRow) (input : Dict Value) (new : List String)
    → AllReadable log
    → (field_or "refs" empty_list input).items ≡ some new
    → check_dedup profile now (rows log) "nudge" input
      ≡ any
          (covers "tool:nudge" now
            (dedup_window profile)
            (field_or "thread_id" empty_text input)
            (field_or "category" empty_text input)
            new)
          log
unfolding check_dedup
check_dedup-eq-any profile now log input new h e = rw e (
    scan-recent "tool:nudge" now (dedup_window profile) (field_or "thread_id" empty_text input)
      (field_or "category" empty_text input) new log h)

-- No other tool is ever suppressed.
check_dedup_others :
    (profile : Profile) (now : ℕ) (db : Database) (tool : String) (input : Dict Value)
    → tool ≢ "nudge"
    → check_dedup profile now db tool input ≡ false
unfolding check_dedup
check_dedup_others profile now db tool input ne = ground (arith, eq_iff tool "nudge")

AllReadable-append :
    (log : List LogRow) (r : LogRow)
    → AllReadable log
    → Readable r.user_name
    → AllReadable (log ++ r ∷ [])
AllReadable-append [] r h k = (k, tt)
AllReadable-append (s ∷ log) r h k = (h.0, AllReadable-append log r h.1 k)

any_last :
    (p : LogRow → Bool) (log : List LogRow) (r : LogRow) → p r ≡ true → any p (log ++ r ∷ []) ≡ true
any_last p [] r h = ground arith
any_last p (s ∷ log) r h = ground (arith, any_last p log r h)

all_weaken :
    (p q : String → Bool) (names : List String)
    → ((n : String) → p n ≡ true → q n ≡ true)
    → all p names ≡ true
    → all q names ≡ true
all_weaken p q [] f h = refl
all_weaken p q (n ∷ ns) f h = ground (arith, f n, all_weaken p q ns f)

is_subset_refl : (names : List String) → is_subset names names ≡ true
is_subset_refl [] = refl
is_subset_refl (n ∷ ns) =
    let rest =
      all_weaken (λ r. member r ns) (λ r. member r (n ∷ ns)) ns (λ r h. ground arith)
        (is_subset_refl ns) in
    ground (arith, eq_refl n)

same_value_refl : (v : Value) → same_value v v ≡ true
same_value_refl v = ground (arith, eq_refl v.text)

own_row :
    (profile : Profile) (now later : ℕ) (input : Dict Value) (new : List String)
    → (field_or "refs" empty_list input).items ≡ some new
    → later < now + dedup_window profile
    → covers "tool:nudge" later
        (dedup_window profile)
        (field_or "thread_id" empty_text input)
        (field_or "category" empty_text input)
        new
        (audit_row now "nudge" input)
      ≡ true
own_row profile now later input new e young =
    rw
      (
        e,
        is_subset_refl new,
        same_value_refl (field_or "thread_id" empty_text input),
        same_value_refl (field_or "category" empty_text input),
      )
      (ground arith)

-- After a nudge has been logged, the same nudge is suppressed until the window has passed, whatever
-- the log held before, if no row of it is JSON but no dict.
pub audited_then_suppressed :
    (profile : Profile) (now later : ℕ) (log : List LogRow) (input : Dict Value) (new : List String)
    → AllReadable log
    → (field_or "refs" empty_list input).items ≡ some new
    → later < now + dedup_window profile
    → check_dedup profile later (audit now "nudge" input (rows log)) "nudge" input ≡ true
unfolding audit
audited_then_suppressed profile now later log input new h e young =
    let row = audit_row now "nudge" input in
    check_dedup-eq-any profile later (log ++ row ∷ []) input new (AllReadable-append log row h tt) e
    ∙ any_last
        (covers "tool:nudge" later (dedup_window profile) (field_or "thread_id" empty_text input)
          (field_or "category" empty_text input) new)
        log row (own_row profile now later input new e young)
