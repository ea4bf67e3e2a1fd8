-- ===== src/Scheduling/Accounting.antt =====
-- The counts that a tick of xibi/scheduling/kernel.py reports.
use xibi.Base.{
  ℕ, ◌+◌, ◌≤◌, ◌≡◌, refl, Option, none, some, List, [], ◌∷◌, ◌≢◌, arith, length, length-take-le,
  Store, select, true, false, Bool, if◌then◌else◌, open_db,
}
use mathlib.Core.Path.{subst}
use xibi.Scheduling.{
  ScheduledAction, Tables, running, success, error, timeout, skipped, RunStatus, compute_next_run,
  run_handler, HandlerStatus, handler_success, handler_error,
}
use xibi.Scheduling.Kernel.{
  TickResult, no_results, World, run_status, tally, is_permitted, status_of, finish, go_on, acts,
  insert_run, Strike, never, before_count, after_count, counted_before, count, process_action,
  process_all, carry_on, tick, tick_rows, select_due, ordered, is_due, count, Strike,
}

abbrev counted : TickResult → ℕ
counted r = r.success + r.error + r.skipped + r.timeout

-- Every action that was processed has been counted under exactly one heading.
abbrev pub IsBalanced : TickResult → Type 0
IsBalanced r = r.processed ≡ counted r

abbrev Ended : RunStatus → Type 0
Ended running = ⊥
Ended _ = Unit

run_status-Ended : (w : World) (a : ScheduledAction) → Ended (run_status w a)
unfolding run_status
run_status-Ended w a =
    ended (is_permitted w a) (w.late_interrupt a) (run_handler w.callees a.action_type)
  where
    ended :
        (p : Bool) (struck : Strike) (h : Option HandlerStatus)
        → Ended (if p then status_of struck h else skipped)
    ended false struck h = tt
    ended true struck none = tt
    ended true never (some handler_success) = tt
    ended true never (some handler_error) = tt
    ended true before_count (some s) = tt
    ended true after_count (some s) = tt

tally-IsBalanced :
    (st : RunStatus) (r : TickResult)
    → Ended st
    → r.processed ≡ counted r + 1
    → IsBalanced (tally st r)
tally-IsBalanced running r h e = absurd h
tally-IsBalanced success r h e = omega arith
tally-IsBalanced error r h e = omega arith
tally-IsBalanced timeout r h e = omega arith
tally-IsBalanced skipped r h e = omega arith

tally-processed : (st : RunStatus) (r : TickResult) → (tally st r).processed ≡ r.processed
tally-processed running r = refl
tally-processed success r = refl
tally-processed error r = refl
tally-processed timeout r = refl
tally-processed skipped r = refl

-- The timer ends no run after it was counted.
abbrev pub CountsOnce : World → Type 0
CountsOnce w = (a : ScheduledAction) → w.late_interrupt a ≢ after_count

not_counted_before :
    (permitted : Bool) (struck : Strike) (h : Option HandlerStatus) (r : TickResult)
    → struck ≢ after_count
    → counted_before permitted struck h r ≡ r
not_counted_before permitted after_count h r ne = absurd (ne refl)
not_counted_before true never h r ne = refl
not_counted_before false never h r ne = refl
not_counted_before true before_count h r ne = refl
not_counted_before false before_count h r ne = refl

-- What a step of the loop reports, when it returns: balanced counts, and one action more.
abbrev Counts : ℕ → Option TickResult → Type 0
Counts n none = Unit
Counts n (some r) = IsBalanced r × (r.processed ≡ n)

finish-Counts :
    (w : World) (a : ScheduledAction) (id : ℕ) (next : Option ℕ) (r : TickResult) (s : Store Tables)
    → CountsOnce w
    → r.processed ≡ counted r + 1
    → Counts r.processed (finish w a id (run_status w a) next (count w a r) s).0
finish-Counts w a id none r s once e = tt
finish-Counts w a id (some next) r s once e =
    rw
      (not_counted_before (is_permitted w a) (w.late_interrupt a)
        (run_handler w.callees a.action_type) r (once a))
      (
        tally-IsBalanced (run_status w a) r (run_status-Ended w a) e,
        tally-processed (run_status w a) r,
      )

process_action-Counts :
    (w : World) (a : ScheduledAction) (r : TickResult) (s : Store Tables)
    → CountsOnce w
    → IsBalanced r
    → Counts (r.processed + 1) (process_action w a r s).0
unfolding process_action
process_action-Counts w a r s once e =
    after (open_db (insert_run a.id (w.started a)) s.faults s.table).0
      (open_db (insert_run a.id (w.started a)) s.faults s.table).1
  where
    after :
        (run_id : Option ℕ) (s' : Store Tables)
        → Counts
            (r.processed + 1)
            (go_on w a run_id (record r { processed = r.processed + 1 }) s').0
    after none s' = (omega arith, refl)
    after (some run_id) s' =
        finish-Counts w a run_id (compute_next_run a.trigger_type a.trigger_config (w.started a))
          (record r { processed = r.processed + 1 }) (record s' { table = acts w a s'.table }) once
          (omega arith)

carry_on-Counts :
    (m k n : ℕ) (rest : TickResult → Store Tables → Option TickResult × Store Tables)
    (step : Option TickResult × Store Tables)
    → m + k ≡ n
    → Counts m step.0
    → ((r : TickResult) (s : Store Tables) → IsBalanced r → Counts (r.processed + k) (rest r s).0)
    → Counts n (carry_on rest step).0
carry_on-Counts m k n rest (none, s) e c ih = tt
carry_on-Counts m k n rest (some r, s) e c ih =
    let same : r.processed + k ≡ n = omega arith in
    subst (λ i. Counts i (rest r s).0) same (ih r s c.0)

process_all-Counts :
    (w : World) (due : List ScheduledAction) (r : TickResult) (s : Store Tables)
    → CountsOnce w
    → IsBalanced r
    → Counts (r.processed + length due) (process_all w due r s).0
unfolding process_all
process_all-Counts w [] r s once e = (e, omega arith)
process_all-Counts w (a ∷ due) r s once e =
    carry_on-Counts (r.processed + 1) (length due) (r.processed + length (a ∷ due))
      (process_all w due) (process_action w a r s) (omega arith)
      (process_action-Counts w a r s once e) (λ r' s'. process_all-Counts w due r' s' once)

length-select_due-le :
    (max_per_tick now : ℕ) (actions : List ScheduledAction)
    → length (select_due max_per_tick now actions) ≤ max_per_tick
unfolding select_due
length-select_due-le max_per_tick now actions =
    length-take-le max_per_tick (ordered (select (is_due now) actions))

-- How many actions a tick selects: none when its first access of the database fails.
abbrev pub selected : ℕ → ℕ → List Bool → List ScheduledAction → ℕ
selected limit now (true ∷ faults) actions = 0
selected limit now faults actions = length (select_due limit now actions)

abbrev TickCounts : ℕ → ℕ → TickResult → Type 0
TickCounts limit n r = IsBalanced r × (r.processed ≡ n) × (r.processed ≤ limit)

due-TickCounts :
    (w : World) (limit : ℕ) (due : List ScheduledAction) (s : Store Tables) (r : TickResult)
    → CountsOnce w
    → length due ≤ limit
    → (process_all w due no_results s).0 ≡ some r
    → TickCounts limit (length due) r
due-TickCounts w limit due s r once fits e =
    let n : ℕ = no_results.processed + length due in
    let counts : Counts n (some r) =
      subst (Counts n) e (process_all-Counts w due no_results s once refl) in
    (counts.0, omega arith, omega arith)

rows-TickCounts :
    (w : World) (limit now : ℕ) (faults : List Bool) (t : Tables) (r : TickResult)
    → CountsOnce w
    → let (due, s) = open_db (λ (u : Tables). (select_due limit now u.actions, u)) faults t in
      (tick_rows w due s).0 ≡ some r → TickCounts limit (selected limit now faults t.actions) r
rows-TickCounts w limit now [] t r once e =
    due-TickCounts w limit (select_due limit now t.actions) (record { table = t; faults = [] }) r
      once (length-select_due-le limit now t.actions) e
rows-TickCounts w limit now (true ∷ faults) t r once e =
    let e' : no_results ≡ r = cc in subst (TickCounts limit 0) e' (refl, refl, omega arith)
rows-TickCounts w limit now (false ∷ faults) t r once e =
    due-TickCounts w limit (select_due limit now t.actions) (record { table = t; faults = faults })
      r once (length-select_due-le limit now t.actions) e

-- A tick that returns has counted every action that it processed under exactly one heading, and has
-- processed all that it selected, which are no more than the limit; none if its first access of the
-- database fails; if the timer ends no run between its count and the end of its block.
pub tick_counts :
    (w : World) (max_per_tick now : ℕ) (s : Store Tables) (r : TickResult)
    → CountsOnce w
    → (tick w max_per_tick now s).0 ≡ some r
    → IsBalanced r
      × (r.processed ≡ selected max_per_tick now s.faults s.table.actions)
      × (r.processed ≤ max_per_tick)
unfolding tick
tick_counts w max_per_tick now s r once e =
    rows-TickCounts w max_per_tick now s.faults s.table r once e
