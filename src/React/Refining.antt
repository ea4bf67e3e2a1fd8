-- ===== src/React/Refining.antt =====
-- A whole run of xibi/react.py, seen from the executor and the log: nothing but calls that have passed
-- the command layer, one in a round at most.
use xibi.Base.{
  sym, ℕ, zero, suc, ◌⊎◌, inl, inr, Option, none, some, String, List, arith, Bool-cases, ◌==◌, ltb,
}
use xibi.React.{Output, ReactResult, Outcome, done, raises, World, Session, Reading}
use xibi.React.Thinking.{Format, Message, think}
use xibi.React.Acting.{Setup}
use xibi.React.Loop.{Progress, Turn, Round, go_on, exit, crash, thought, round, carried_on, rounds}
use xibi.React.Opening.{
  new_store, RoutingDecision, ShadowMatch, run_async, handle_intent, shadowed, controlled,
  answered_directly, answered_intent, matched,
}
use xibi.React.Guarding.{Within-le, Moves, stay, Within-append, dispatch-Moves}
use xibi.React.Keeping.{Same, think-Same, thought-Moves, after_failure-Moves}

module _ {S : Type 0} (w : World S) (setup : Setup) where
  Moves-from : (k : ℕ) (s s' s'' : Session S) → Same w s s' → Moves w k s' s'' → Moves w k s s''
  Moves-from k s s' s'' (same, same_log) m = rw (sym same, sym same_log) m

  round-Moves :
      (format : Format) (max_secs n : ℕ) (t : Turn) (p : Progress) (s : Session S)
      → Moves w 1 s (round w setup format max_secs n t p s).1
  unfolding round
  round-Moves format max_secs n t p s =
      let (o, s') = think w format t.now n p.messages p.scratchpad s in
      elim (Bool-cases (ltb max_secs t.elapsed)) [
        | inl e ↦ rw e (after_failure-Moves w setup 1 _ _ s _ (stay w 1))
        | inr e ↦ rw e (
            Moves-from 1 s s' (thought w setup format t p (o, s')).1
              (think-Same w format t.now n p.messages p.scratchpad s)
              (thought-Moves w setup format t p o s'))
      ]

  carried_on-Moves :
      (k : ℕ) (next : Progress → Session S → Option ReactResult × Session S) (o : Round)
      (s s' : Session S)
      → Moves w 1 s s'
      → ((p : Progress) (s : Session S) → Moves w k s (next p s).1)
      → Moves w (suc k) s (carried_on w setup next (o, s')).1
  carried_on-Moves k next (go_on p) s s' m rest =
      Within-le w (omega arith) (Within-append w m (rest p s'))
  carried_on-Moves k next (exit r) s s' m rest = Within-le w (omega arith) m
  carried_on-Moves k next crash s s' m rest = Within-le w (omega arith) m

  rounds-Moves :
      (format : Format) (max_secs : ℕ) (turn : ℕ → Turn) (left n : ℕ) (p : Progress) (s : Session S)
      → Moves w left s (rounds w setup format max_secs turn left n p s).1
  unfolding rounds
  rounds-Moves format max_secs turn zero n p s = stay w 0
  rounds-Moves format max_secs turn (suc left) n p s =
      let (o, s') = round w setup format max_secs n (turn n) p s in
      carried_on-Moves left (rounds w setup format max_secs turn left (suc n)) o s s'
        (round-Moves format max_secs n (turn n) p s)
        (rounds-Moves format max_secs turn left (suc n))

  abbrev AtMost : ℕ → Session S → Session S → Type 0
  AtMost k s s' = Moves w 1 s s' ⊎ Moves w k s s'

  answered_directly-Moves :
      (o : Outcome Output) (s s' : Session S)
      → Moves w 1 s s'
      → Moves w 1 s (answered_directly w setup s.handles (o, s')).1
  answered_directly-Moves (raises e) s s' m = m
  answered_directly-Moves (done output) s s' m = m

  answered_intent-Moves :
      (a : Option String) (s : Session S) → Moves w 1 s (answered_intent w setup a s).1
  answered_intent-Moves none s = stay w 1
  answered_intent-Moves (some a) s = stay w 1

  shadowed-AtMost :
      (m : Option ShadowMatch) (r : Reading) (k : ℕ)
      (next : Session S → Option ReactResult × Session S) (s : Session S)
      → Moves w k s (next s).1
      → AtMost k s (shadowed w setup m r next s).1
  shadowed-AtMost none r k next s h = inr h
  shadowed-AtMost (some m) r k next s h = elim (Bool-cases (m.tier == "direct")) [
    | inl e ↦ rw e (
        inl (
          answered_directly-Moves _ s _
            (dispatch-Moves w r m.tool m.tool_input none (record s { handles = none }))))
    | inr e ↦ rw e (inr h)
  ]

  controlled-AtMost :
      (d : Option RoutingDecision) (k : ℕ) (next : Session S → Option ReactResult × Session S)
      (s : Session S)
      → AtMost k s (next s).1
      → AtMost k s (controlled w setup d next s).1
  unfolding handle_intent
  controlled-AtMost none k next s h = h
  controlled-AtMost (some d) k next s h = elim (Bool-cases (matched d)) [
    | inl e ↦ rw e (inl (answered_intent-Moves (handle_intent d) s))
    | inr e ↦ rw e h
  ]

  -- Whatever the model, the routers and the executor answer, and whichever exceptions they raise: a
  -- run changes the executor and the log of the command layer only by calls that the layer has
  -- allowed, each logged where the layer asks for it, one after the other; by one if the run ends
  -- before the loop, and by no more than the steps that it may take otherwise.
  pub run_async-refines :
      (decision : Option RoutingDecision) (shadow : Option ShadowMatch) (r : Reading)
      (format : Format) (max_secs : ℕ) (turn : ℕ → Turn) (steps : ℕ) (messages : List Message)
      (s : Session S)
      → AtMost steps s (run_async w setup decision shadow r format max_secs turn steps messages s).1
  unfolding run_async
  run_async-refines decision shadow r format max_secs turn steps messages s =
      controlled-AtMost decision steps _ s (
        shadowed-AtMost shadow r steps _ s
          (rounds-Moves format max_secs turn steps 1 _ (record s { handles = some new_store })))
