-- ===== src/React/Tracking.antt =====
-- What one round of the loop of xibi/react.py keeps: the counter of failures counts the last steps of the
-- scratchpad, and a round that ends the run says the truth about it.
use xibi.Base.{
  ℕ, ◌+◌, ◌≤◌, ◌≡◌, refl, ap, ◌∙◌, ◌⊎◌, inl, inr, Bool, true, false, Option, none, some, String,
  List, [], ◌∷◌, ◌++◌, arith, leb, ltb, Bool-cases, ◌==◌, length, length-append, codes,
}
use xibi.Errors.{user_message}
use xibi.TrustGradient.{transient, TrustRecord}
use xibi.React.{
  Step, ExitReason, finish, ask_user, timeout, error, partial, Answer, nothing, ReactResult, Input,
  fields, no_dict, Raised, own, common, foreign, Outcome, done, raises, World, Session,
}
use xibi.React.Thinking.{fail, Format, native, prompted, Message, think, succeed}
use xibi.React.Acting.{append_native_tool_result, Setup, act, is_repeat, repeat_output}
use xibi.React.Rendering.{build_partial_answer}
use xibi.React.Loop.{
  key_of, partial_or, Progress, Turn, Round, go_on, exit, crash, ended, handled, repeated,
  has_failed, counted, appended, after_success, recorded_act, acted, decided, thought, round,
  after_failure, salvaging, pseudo_exit, own_exit, told_back,
}
use xibi.React.Salvage.{IsHonest, error-IsHonest}
use xibi.React.Failing.{trail, next_count, trail-append, IsCalm}

-- The counter is the number of the last steps that have failed, two at most.
abbrev pub IsTracked : Progress → Type 0
IsTracked p = (trail 0 p.scratchpad ≡ some p.consecutive_errors) × (p.consecutive_errors ≤ 2)

module _ {S : Type 0} (w : World S) (setup : Setup) where
  abbrev pub Ends : ℕ → ReactResult → Type 0
  Ends bound r = IsCalm r × IsHonest w.str_of r × (length r.steps ≤ bound)

  -- What a round makes of the progress before it.
  abbrev pub IsSound : Progress → Round → Type 0
  IsSound p (go_on p') = IsTracked p' × (length p'.scratchpad ≤ length p.scratchpad + 1)
  IsSound p (exit r) = Ends (length p.scratchpad + 1) r
  IsSound p crash = Unit

  after_failure-IsSound :
      (p : Progress) (o : Round) (r : Option TrustRecord) (s : Session S)
      → IsSound p o
      → IsSound p (after_failure w setup o (r, s)).0
  after_failure-IsSound p o none s h = tt
  after_failure-IsSound p o (some r) s h = h

  longer : (ss : List Step) (s : Step) → length (ss ++ s ∷ []) ≡ length ss + 1
  longer ss s = length-append ss (s ∷ [])

  pub partial_or-steps :
      (always : Bool) (reason : ExitReason) (steps : List Step) (o : Option (List ℕ))
      → (partial_or always reason steps o).steps ≡ steps
  partial_or-steps always reason steps none = refl
  partial_or-steps always reason steps (some text) = refl

  partial_or-exit :
      (steps : List Step) (o : Option (List ℕ))
      → let reason = (partial_or true error steps o).exit_reason in
        (reason ≡ error) ⊎ (reason ≡ partial)
  partial_or-exit steps none = inl refl
  partial_or-exit steps (some text) = inr refl

  module _ (p : Progress) (tracked : IsTracked p) where
    -- An exit with the scratchpad as it is.
    unchanged-Ends :
        (r : ReactResult)
        → r.steps ≡ p.scratchpad
        → IsHonest w.str_of r
        → Ends (length p.scratchpad + 1) r
    unchanged-Ends r e honest =
        (inl (p.consecutive_errors, ap (trail 0) e ∙ tracked.0), honest, omega (arith, ap length e))

    salvaging-Ends :
        (reason : List ℕ)
        → Ends (length p.scratchpad + 1) (salvaging w setup true error p.scratchpad reason)
    salvaging-Ends reason =
        unchanged-Ends (salvaging w setup true error p.scratchpad reason)
          (partial_or-steps true error p.scratchpad _) (error-IsHonest w setup p.scratchpad reason)

    handled-IsSound :
        (now : ℕ) (e : Raised) (s : Session S) → IsSound p (handled w setup now p e s).0
    handled-IsSound now foreign s = tt
    handled-IsSound now (own e) s =
        after_failure-IsSound p (exit (own_exit w setup e p.scratchpad)) _ _
          (salvaging-Ends (codes (user_message e)))
    handled-IsSound now (common reason) s =
        after_failure-IsSound p (exit (salvaging w setup true error p.scratchpad reason)) _ _
          (salvaging-Ends reason)

    pseudo_exit-IsSound :
        (k : String) (reason : ExitReason) (input : Input)
        → ((a : Answer) → IsHonest w.str_of (ended a reason p.scratchpad))
        → IsSound p (pseudo_exit k reason input p.scratchpad)
    pseudo_exit-IsSound k reason no_dict honest = tt
    pseudo_exit-IsSound k reason (fields input) honest =
        let answer = key_of k input in
        unchanged-Ends (ended answer reason p.scratchpad) refl (honest answer)

    -- The next progress, when a step is added that is not the third failure in a row.
    tracked_on :
        (step : Step) (c : ℕ)
        → next_count p.consecutive_errors step ≡ some c
        → c ≤ 2
        → (m : List Message)
        → IsSound p (
            go_on (record {
              scratchpad = p.scratchpad ++ step ∷ [];
              consecutive_errors = c;
              messages = m;
            }))
    tracked_on step c e le m = (
      (trail-append 0 p.scratchpad step _ tracked.0 ∙ e, le),
      omega (arith, longer p.scratchpad step),
    )

    third_failure :
        (step : Step) (r : ReactResult)
        → has_failed step ≡ true
        → leb 3 (p.consecutive_errors + 1) ≡ true
        → r.steps ≡ p.scratchpad ++ step ∷ []
        → (r.exit_reason ≡ error) ⊎ (r.exit_reason ≡ partial)
        → IsHonest w.str_of r
        → Ends (length p.scratchpad + 1) r
    third_failure step r failed third e reason honest = (
      inr (p.scratchpad, step, e, two, failed, reason),
      honest,
      omega (arith, ap length e, longer p.scratchpad step),
    )
      where
        two : trail 0 p.scratchpad ≡ some 2
        two = tracked.0 ∙ ap some (ground (arith, tracked.1))

    next_failure :
        (step : Step)
        → has_failed step ≡ true
        → leb 3 (p.consecutive_errors + 1) ≡ false
        → next_count p.consecutive_errors step ≡ some (p.consecutive_errors + 1)
    next_failure step failed third = ground arith

    not_third : leb 3 (p.consecutive_errors + 1) ≡ false → p.consecutive_errors + 1 ≤ 2
    not_third e = ground arith

    repeat_failed : (step : Step) → has_failed (record step { tool_output = repeat_output }) ≡ true
    repeat_failed step = ground arith

    repeated-IsSound : (step : Step) → IsSound p (repeated step p)
    repeated-IsSound step =
        let step' = record step { tool_output = repeat_output } in
        let failed = repeat_failed step in
        elim (Bool-cases (leb 3 (p.consecutive_errors + 1))) [
          | inl e ↦ rw e (
              third_failure step' (ended nothing error (p.scratchpad ++ step' ∷ [])) failed e refl
                (inl refl) refl)
          | inr e ↦ rw e (
              tracked_on step' (p.consecutive_errors + 1) (next_failure step' failed e)
                (not_third e) p.messages)
        ]

    counted-IsSound :
        (step : Step) (m : List Message)
        → IsSound p (counted w setup step (appended step (record p { messages = m })))
    counted-IsSound step m =
        let steps = p.scratchpad ++ step ∷ [] in
        let reason = codes "3 consecutive tool failures" in
        let found = build_partial_answer w.str_of steps reason in
        elim (Bool-cases (has_failed step)) [
          | inl f ↦ elim (Bool-cases (leb 3 (p.consecutive_errors + 1))) [
            | inl e ↦
                rw (f, e)
                  (third_failure step (salvaging w setup true error steps reason) f e
                    (partial_or-steps true error steps found) (partial_or-exit steps found)
                    (error-IsHonest w setup steps reason))
            | inr e ↦
                rw (f, e)
                  (tracked_on step (p.consecutive_errors + 1) (next_failure step f e) (not_third e)
                    m)
          ]
          | inr f ↦ rw f (tracked_on step 0 (ground (arith, f)) (omega arith) m)
        ]

    after_success-IsSound :
        (step : Step) (m : List Message) (r : Option TrustRecord) (s : Session S)
        → IsSound p (after_success w setup step (record p { messages = m }) (r, s)).0
    after_success-IsSound step m none s = tt
    after_success-IsSound step m (some r) s = counted-IsSound step m

    told_back-IsSound :
        (now : ℕ) (step : Step) (messages : Option (List Message)) (s : Session S)
        → IsSound p (told_back w setup now step p messages s).0
    told_back-IsSound now step none s = handled-IsSound now foreign s
    told_back-IsSound now step (some messages) s =
        after_success-IsSound step messages (succeed w now s).0 (succeed w now s).1

    recorded_act-IsSound :
        (format : Format) (now : ℕ) (content : String) (step : Step) (s : Session S)
        → IsSound p (recorded_act w setup format now content step p s).0
    recorded_act-IsSound (prompted generate parse) now content step s =
        counted-IsSound step p.messages
    recorded_act-IsSound (native generate) now content step s =
        told_back-IsSound now step (append_native_tool_result setup p.messages step content) s

    acted-IsSound :
        (format : Format) (now : ℕ) (content : String) (o : Outcome Step) (s : Session S)
        → IsSound p (acted w setup format now content p (o, s)).0
    acted-IsSound format now content (raises e) s = handled-IsSound now e s
    acted-IsSound format now content (done step) s = recorded_act-IsSound format now content step s

    decided-IsSound :
        (format : Format) (t : Turn) (step : Step) (content : String) (s : Session S)
        → IsSound p (decided w setup format t step content p s).0
    decided-IsSound format t step content s = elim (Bool-cases (step.tool == "finish")) [
      | inl e ↦ rw e (pseudo_exit-IsSound "answer" finish step.tool_input (λ a. refl))
      | inr e ↦ elim (Bool-cases (step.tool == "ask_user")) [
        | inl f ↦ rw (e, f) (pseudo_exit-IsSound "question" ask_user step.tool_input (λ a. refl))
        | inr f ↦ elim (Bool-cases (is_repeat setup.words step p.scratchpad)) [
          | inl g ↦ rw (e, f, g) (repeated-IsSound step)
          | inr g ↦
              let (o, s') = act w setup t.reading step p.scratchpad s in
              rw (e, f, g) (acted-IsSound format t.now content o s')
        ]
      ]
    ]

    thought-IsSound :
        (format : Format) (t : Turn) (o : Outcome (Step × String)) (s : Session S)
        → IsSound p (thought w setup format t p (o, s)).0
    thought-IsSound format t (raises e) s = handled-IsSound t.now e s
    thought-IsSound format t (done (step, content)) s = decided-IsSound format t step content s

    pub round-IsSound :
        (format : Format) (max_secs n : ℕ) (t : Turn) (s : Session S)
        → IsSound p (round w setup format max_secs n t p s).0
    unfolding round
    round-IsSound format max_secs n t s =
        let (o, s') = think w format t.now n p.messages p.scratchpad s in
        let (r, s'') = fail w t.now transient s in
        let late = ended nothing timeout p.scratchpad in
        elim (Bool-cases (ltb max_secs t.elapsed)) [
          | inl e ↦ rw e (after_failure-IsSound p (exit late) r s'' (unchanged-Ends late refl refl))
          | inr e ↦ rw e (thought-IsSound format t o s')
        ]
