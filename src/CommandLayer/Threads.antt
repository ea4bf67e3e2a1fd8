-- ===== src/CommandLayer/Threads.antt =====
-- `resolve_thread` of xibi/command_layer.py.
use xibi.Base.{
  ◌≡◌, refl, ◌≢◌, true, false, Option, none, some, String, List, [], ◌∷◌, arith, ◌==◌, eq_iff,
  eq_refl, Dict, lookup, lookup-insert, Store, Bool, Bool-cases, inl, inr, open_db,
}
use xibi.CommandLayer.{
  Thread, Reply, not_found, already_resolved, marked_resolved, resolve_in, mark, reply_of,
}

-- What a call of `resolve_thread` leaves behind, by its reply: a thread that it marked or found
-- resolved is resolved, and any other reply changes nothing.
abbrev Effect : String → Dict Thread → Reply → Dict Thread → Type 0
Effect id before (marked_resolved name) after =
    (t : Thread) × (lookup id before ≡ some t)
    × (t.name ≡ name)
    × (t.status ≢ "resolved")
    × (lookup id after ≡ some (record t { status = "resolved" }))
    × ((other : String) → other ≢ id → lookup other after ≡ lookup other before)
Effect id before (already_resolved name) after =
    (after ≡ before) × (t : Thread) × (lookup id before ≡ some t) × (t.status ≡ "resolved")
Effect id before not_found after = (after ≡ before) × (lookup id before ≡ none)
Effect id before _ after = after ≡ before

mark-Effect :
    (id : String) (threads : Dict Thread) (o : Option Thread)
    → lookup id threads ≡ o
    → let (reply, after) = mark id threads o in Effect id threads reply after
mark-Effect id threads none e = (refl, e)
mark-Effect id threads (some t) e = elim (Bool-cases (t.status == "resolved")) [
  | inl done ↦ rw done (refl, t, e, (eq_iff t.status "resolved").0 done)
  | inr open_thread ↦ rw open_thread (
    t,
    e,
    refl,
    (λ r. ground (arith, eq_iff t.status "resolved")),
    ground (arith, eq_refl id, lookup-insert id id (record t { status = "resolved" }) threads),
    (λ other ne. ground (
      arith,
      eq_iff id other,
      lookup-insert id other (record t { status = "resolved" }) threads,
    )),
  )
]

access-Effect :
    (id : String) (faults : List Bool) (threads : Dict Thread)
    → let (reply, s) =
        reply_of (open_db (λ (t : Dict Thread). mark id t (lookup id t)) faults threads) in
      Effect id threads reply s.table
access-Effect id [] threads = mark-Effect id threads (lookup id threads) refl
access-Effect id (true ∷ faults) threads = refl
access-Effect id (false ∷ faults) threads = mark-Effect id threads (lookup id threads) refl

-- Whatever accesses fail, a call that reports the thread as marked found it unresolved, made it
-- resolved and left its name and every other thread as they were; one that reports it as resolved
-- already found it so; and these, and the replies that it is not there or that the access failed,
-- change no thread.
resolve_in-Effect :
    (id : String) (s : Store (Dict Thread))
    → let (reply, s') = resolve_in id s in Effect id s.table reply s'.table
unfolding resolve_in
resolve_in-Effect id s = access-Effect id s.faults s.table
