-- ===== src/Scheduling/Selection.antt =====
-- The SELECT of a tick of xibi/scheduling/kernel.py: which actions it runs, and in which order.
use mathlib.Core.List.{Perm, perm_middle}
use mathlib.Core.List.Perm
use xibi.Base.{
  ℕ, zero, suc, ◌≤◌, ◌<◌, ◌≡◌, refl, ◌⊎◌, inl, inr, Bool, true, false, not, Option, none, some,
  List, [], ◌∷◌, ◌++◌, arith, leb, select, take, drop, length, Bool-cases, leb→le, not, Option,
  some,
}
use xibi.Scheduling.{ScheduledAction}
use xibi.Scheduling.Kernel.{is_due, since_or_ever, after_or_never, place, ordered, select_due}

abbrev pub All : (ScheduledAction → Type 0) → List ScheduledAction → Type 0
All P [] = Unit
All P (a ∷ as') = P a × All P as'

abbrev NoEarlier : ScheduledAction → ScheduledAction → Type 0
NoEarlier a b = a.next_run_at ≤ b.next_run_at

-- By `next_run_at`, from the earliest.
abbrev pub IsOrdered : List ScheduledAction → Type 0
IsOrdered [] = Unit
IsOrdered (a ∷ as') = All (NoEarlier a) as' × IsOrdered as'

-- No action of the first list runs later than one of the second.
abbrev pub AllBefore : List ScheduledAction → List ScheduledAction → Type 0
AllBefore [] bs = Unit
AllBefore (a ∷ as') bs = All (NoEarlier a) bs × AllBefore as' bs

module _ (P : ScheduledAction → Type 0) where
  All-take : (n : ℕ) (as' : List ScheduledAction) → All P as' → All P (take n as')
  All-take zero as' h = tt
  All-take (suc n) [] h = tt
  All-take (suc n) (a ∷ as') h = (h.0, All-take n as' h.1)

  All-drop : (n : ℕ) (as' : List ScheduledAction) → All P as' → All P (drop n as')
  All-drop zero as' h = h
  All-drop (suc n) [] h = tt
  All-drop (suc n) (a ∷ as') h = All-drop n as' h.1

  All-place :
      (a : ScheduledAction) (bs : List ScheduledAction) → P a → All P bs → All P (place a bs)
  unfolding place
  All-place a [] p h = (p, tt)
  All-place a (b ∷ bs) p h = elim (Bool-cases (leb a.next_run_at b.next_run_at)) [
    | inl le ↦ rw le (p, h)
    | inr gt ↦ rw gt (h.0, All-place a bs p h.1)
  ]

  All-ordered : (as' : List ScheduledAction) → All P as' → All P (ordered as')
  unfolding ordered
  All-ordered [] h = tt
  All-ordered (a ∷ as') h = All-place a (ordered as') h.0 (All-ordered as' h.1)

All-select :
    (p : ScheduledAction → Bool) (as' : List ScheduledAction) → All (λ a. p a ≡ true) (select p as')
All-select p [] = tt
All-select p (a ∷ as') = elim (Bool-cases (p a)) [
  | inl yes_a ↦ rw yes_a (yes_a, All-select p as')
  | inr no_a ↦ rw no_a (All-select p as')
]

All-later :
    (a b : ScheduledAction) (bs : List ScheduledAction)
    → a.next_run_at ≤ b.next_run_at
    → All (NoEarlier b) bs
    → All (NoEarlier a) bs
All-later a b [] h k = tt
All-later a b (c ∷ bs) h k = (omega arith, All-later a b bs h k.1)

place-IsOrdered :
    (a : ScheduledAction) (bs : List ScheduledAction) → IsOrdered bs → IsOrdered (place a bs)
unfolding place
place-IsOrdered a [] h = (tt, tt)
place-IsOrdered a (b ∷ bs) h = elim (Bool-cases (leb a.next_run_at b.next_run_at)) [
  | inl le ↦
      let before = leb→le a.next_run_at b.next_run_at le in
      rw le ((before, All-later a b bs before h.0), h)
  | inr gt ↦ rw gt (All-place (NoEarlier b) a bs (ground arith) h.0, place-IsOrdered a bs h.1)
]

ordered-IsOrdered : (as' : List ScheduledAction) → IsOrdered (ordered as')
unfolding ordered
ordered-IsOrdered [] = tt
ordered-IsOrdered (a ∷ as') = place-IsOrdered a (ordered as') (ordered-IsOrdered as')

place-perm : (a : ScheduledAction) (bs : List ScheduledAction) → Perm (place a bs) (a ∷ bs)
unfolding place
place-perm a [] = Perm.refl (a ∷ [])
place-perm a (b ∷ bs) = elim (Bool-cases (leb a.next_run_at b.next_run_at)) [
  | inl le ↦ rw le (Perm.refl (a ∷ b ∷ bs))
  | inr gt ↦ rw gt (Perm.trans (Perm.cons b (place-perm a bs)) (Perm.swap a b bs))
]

ordered-perm : (as' : List ScheduledAction) → Perm (ordered as') as'
unfolding ordered
ordered-perm [] = Perm.refl []
ordered-perm (a ∷ as') = Perm.trans (place-perm a (ordered as')) (Perm.cons a (ordered-perm as'))

take-drop-before :
    (n : ℕ) (as' : List ScheduledAction) → IsOrdered as' → AllBefore (take n as') (drop n as')
take-drop-before zero as' h = tt
take-drop-before (suc n) [] h = tt
take-drop-before (suc n) (a ∷ as') h =
    (All-drop (NoEarlier a) n as' h.0, take-drop-before n as' h.1)

take-IsOrdered : (n : ℕ) (as' : List ScheduledAction) → IsOrdered as' → IsOrdered (take n as')
take-IsOrdered zero as' h = tt
take-IsOrdered (suc n) [] h = tt
take-IsOrdered (suc n) (a ∷ as') h = (All-take (NoEarlier a) n as' h.0, take-IsOrdered n as' h.1)

take-append-drop : (n : ℕ) (as' : List ScheduledAction) → take n as' ++ drop n as' ≡ as'
take-append-drop zero as' = refl
take-append-drop (suc n) [] = refl
take-append-drop (suc n) (a ∷ as') = rw (take-append-drop n as')

take_all_or_full :
    (n : ℕ) (as' : List ScheduledAction) → (drop n as' ≡ []) ⊎ (length (take n as') ≡ n)
take_all_or_full zero as' = inr refl
take_all_or_full (suc n) [] = inl refl
take_all_or_full (suc n) (a ∷ as') = elim (take_all_or_full n as') [
  | inl e ↦ inl e
  | inr e ↦ inr (omega arith)
]

abbrev Begun : Option ℕ → ℕ → Type 0
Begun none now = Unit
Begun (some t) now = t ≤ now

abbrev NotOver : Option ℕ → ℕ → Type 0
NotOver none now = Unit
NotOver (some t) now = now < t

-- Enabled, its time has come, and the window that it is active in has begun and is not over.
abbrev pub CanRun : ℕ → ScheduledAction → Type 0
CanRun now a =
    (a.enabled ≡ true)
    × (a.next_run_at ≤ now)
    × Begun a.active_from now
    × NotOver a.active_until now

is_due-CanRun : (now : ℕ) (a : ScheduledAction) → is_due now a ≡ true → CanRun now a
is_due-CanRun now a h = (
  ground (arith, h),
  ground (arith, h),
  begun a.active_from (ground (arith, h)),
  not_over a.active_until (ground (arith, h)),
)
  where
    begun : (from : Option ℕ) → since_or_ever from now ≡ true → Begun from now
    begun none e = tt
    begun (some t) e = ground (arith, e)

    not_over : (end : Option ℕ) → after_or_never end now ≡ true → NotOver end now
    not_over none e = tt
    not_over (some t) e = ground (arith, e)

CanRun-is_due : (now : ℕ) (a : ScheduledAction) → CanRun now a → is_due now a ≡ true
CanRun-is_due now a (on, time, from, until) =
    ground (arith, on, time, begun a.active_from from, not_over a.active_until until)
  where
    begun : (from : Option ℕ) → Begun from now → since_or_ever from now ≡ true
    begun none e = refl
    begun (some t) e = ground (arith, e)

    not_over : (end : Option ℕ) → NotOver end now → after_or_never end now ≡ true
    not_over none e = refl
    not_over (some t) e = ground (arith, e)

All-weaken :
    (P Q : ScheduledAction → Type 0) (as' : List ScheduledAction)
    → ((a : ScheduledAction) → P a → Q a)
    → All P as'
    → All Q as'
All-weaken P Q [] f h = tt
All-weaken P Q (a ∷ as') f h = (f a h.0, All-weaken P Q as' f h.1)

split-perm :
    (p : ScheduledAction → Bool) (as' : List ScheduledAction)
    → Perm (select p as' ++ select (λ a. not (p a)) as') as'
split-perm p [] = Perm.refl []
split-perm p (a ∷ as') = elim (Bool-cases (p a)) [
  | inl e ↦ rw e (Perm.cons a (split-perm p as'))
  | inr e ↦ rw e (
      Perm.trans (perm_middle (select p as') (select (λ b. not (p b)) as'))
        (Perm.cons a (split-perm p as')))
]

-- The actions of the table are those that a tick selects, those that it leaves for a later tick, and
-- the others: it selects and leaves those that are enabled, whose time has come, and whose window of
-- activity has begun and is not over, and no others; the selected ones are in the order of their
-- times, none is later than one that is left, and one is left only if the limit is reached.
pub select_due_earliest :
    (max_per_tick now : ℕ) (actions : List ScheduledAction)
    → let chosen = select_due max_per_tick now actions in
      (left : List ScheduledAction) × (others : List ScheduledAction) × Perm
        ((chosen ++ left) ++ others)
        actions
      × All (CanRun now) (chosen ++ left)
      × All (λ a. ¬ CanRun now a) others
      × IsOrdered chosen
      × AllBefore chosen left
      × ((left ≡ []) ⊎ (length chosen ≡ max_per_tick))
unfolding select_due
select_due_earliest max_per_tick now actions =
    let due = select (is_due now) actions in
    let others = select (λ a. not (is_due now a)) actions in
    let sorted = ordered-IsOrdered due in
    let whole = take-append-drop max_per_tick (ordered due) in
    (
      drop max_per_tick (ordered due),
      others,
      rw whole (
          Perm.trans (Perm.append_right others (ordered-perm due))
            (split-perm (is_due now) actions)),
      rw whole (
          All-weaken (λ a. is_due now a ≡ true) (CanRun now) (ordered due) (is_due-CanRun now)
            (All-ordered (λ a. is_due now a ≡ true) due (All-select (is_due now) actions))),
      All-weaken (λ a. not (is_due now a) ≡ true) (λ a. ¬ CanRun now a) others
          (λ a e can. not_both (is_due now a) e (CanRun-is_due now a can))
          (All-select (λ a. not (is_due now a)) actions),
      take-IsOrdered max_per_tick (ordered due) sorted,
      take-drop-before max_per_tick (ordered due) sorted,
      take_all_or_full max_per_tick (ordered due),
    )
  where
    not_both : (b : Bool) → not b ≡ true → b ≡ true → ⊥
    not_both true e f = cc
    not_both false e f = cc
