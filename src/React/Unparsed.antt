-- ===== src/React/Unparsed.antt =====
-- Answers of the model that xibi/react.py cannot parse.
use xibi.Base.{
  ℕ, ◌≤◌, ◌≡◌, refl, ◌∙◌, Bool, true, false, Option, none, some, String, List, [], ◌∷◌, ◌++◌, arith,
  ◌==◌, ◌&&◌, any, ltb,
}
use mathlib.Core.Option.{none-ne-some}
use xibi.TrustGradient.{TrustRecord, persistent}
use xibi.React.{fields, Step, error, nothing, ReactResult, Outcome, done, World, Session}
use xibi.React.Thinking.{Format, prompted, Parsed, think, fail, failed_step, failed_parse}
use xibi.React.Acting.{Setup, is_repeat, is_nil, repeat_output}
use xibi.React.Loop.{Progress, Turn, exit, ended, round, thought, repeated}
use xibi.React.Manners.{IsUp, Records, fail-Records}

module _ {S : Type 0} (w : World S) (setup : Setup) where
  -- The model answers a round, and then the recovery prompt, with what does not parse.
  abbrev IsUnreadable :
      (ℕ → Bool → List Step → Outcome String) → (String → Option Parsed) → ℕ → List Step → Type 0
  IsUnreadable generate parse n scratchpad =
      (again : Bool)
      → (response : String) × (generate n again scratchpad ≡ done response)
        × (parse response ≡ none)

  -- A step of a failed parse whose input has no words.
  abbrev is_unparsed : Step → Bool
  is_unparsed old = (old.tool == "error") && is_nil (setup.words old.tool_input)

  failed_parse-done :
      (n : ℕ) (r : Option TrustRecord) (s : Session S)
      → Records w (r, s)
      → (failed_parse w n (r, s)).0 ≡ done (failed_step w n, "")
  failed_parse-done n none s ((r, e), up) = absurd (none-ne-some r e)
  failed_parse-done n (some r) s h = refl

  think_unreadable :
      (generate : ℕ → Bool → List Step → Outcome String) (parse : String → Option Parsed)
      (n now : ℕ) (p : Progress) (s : Session S)
      → IsUnreadable generate parse n p.scratchpad
      → IsUp w s
      → (think w (prompted generate parse) now n p.messages p.scratchpad s).0
        ≡ done (failed_step w n, "")
  unfolding think
  think_unreadable generate parse n now p s unreadable up =
      let (response, e, f) = unreadable false in
      let (again, g, h) = unreadable true in
      let (r, s') = fail w now persistent s in
      rw (e, f, g, h) (failed_parse-done n r s' (fail-Records w now persistent s up))

  repeats_unparsed :
      (n : ℕ) (scratchpad : List Step)
      → setup.words (fields []) ≡ []
      → any is_unparsed scratchpad ≡ true
      → is_repeat setup.words (failed_step w n) scratchpad ≡ true
  unfolding is_repeat
  repeats_unparsed n scratchpad e h = rw e h

  thought_unreadable :
      (format : Format) (t : Turn) (n : ℕ) (p : Progress) (o : Outcome (Step × String))
      (s : Session S)
      → o ≡ done (failed_step w n, "")
      → setup.words (fields []) ≡ []
      → any is_unparsed p.scratchpad ≡ true
      → (thought w setup format t p (o, s)).0 ≡ repeated (failed_step w n) p
  thought_unreadable format t n p o s e no_words h =
      rw (e, repeats_unparsed n p.scratchpad no_words h) refl

  repeated_third :
      (step : Step) (p : Progress)
      → p.consecutive_errors ≡ 2
      → repeated step p
        ≡ exit
            (ended nothing error (p.scratchpad ++ record step { tool_output = repeat_output } ∷ []))
  repeated_third step p two = rw two refl

  -- When the third failure in a row is an answer that cannot be parsed, the second of its kind, and the
  -- database of trust raises nothing, then the run ends for an error and with no answer, whatever could
  -- be salvaged from its steps: the failed parse is taken for a repeat of the one before.
  pub unparsed_ends_without_answer :
      (generate : ℕ → Bool → List Step → Outcome String) (parse : String → Option Parsed)
      (max_secs n : ℕ) (t : Turn) (p : Progress) (s : Session S)
      → IsUnreadable generate parse n p.scratchpad
      → IsUp w s
      → t.elapsed ≤ max_secs
      → setup.words (fields []) ≡ []
      → any is_unparsed p.scratchpad ≡ true
      → p.consecutive_errors ≡ 2
      → (r : ReactResult) × ((round w setup (prompted generate parse) max_secs n t p s).0 ≡ exit r)
        × (r.answer ≡ nothing)
        × (r.exit_reason ≡ error)
  unfolding round
  unparsed_ends_without_answer generate parse max_secs n t p s unreadable up early no_words before
        two =
      let (o, s') = think w (prompted generate parse) t.now n p.messages p.scratchpad s in
      let in_time = not_late in
      (
        ended nothing error
            (p.scratchpad ++ record (failed_step w n) { tool_output = repeat_output } ∷ []),
        rw in_time (
            thought_unreadable (prompted generate parse) t n p o s'
              (think_unreadable generate parse n t.now p s unreadable up) no_words before
            ∙ repeated_third (failed_step w n) p two),
        refl,
        refl,
      )
    where
      not_late : ltb max_secs t.elapsed ≡ false
      not_late = ground (arith, early)
