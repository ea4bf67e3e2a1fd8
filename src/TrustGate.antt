-- ===== src/TrustGate.antt =====
-- xibi/security/trust_gate.py: the gate that external text passes on its way into a prompt. Texts
-- are lists of code points. Log lines are left out.
pub mod Sanitizer
pub mod Framing
pub mod Bounds
pub mod Grading
pub mod Levels
mod Tests
use xibi.Base.{
  ℕ, zero, suc, ◌+◌, ◌-◌, Bool, true, false, List, [], ◌∷◌, ◌++◌, length, codes, Option, none,
  is_prefix, if◌then◌else◌,
}
use xibi.TrustGate.Sanitizer.{Mode, metadata, content, other, sanitize_untrusted_text}

-- The rest of `text.replace(old, new)`, with the number of code points of a found `old` to pass over.
abbrev pub replace_from : List ℕ → List ℕ → ℕ → List ℕ → List ℕ
replace_from old new skip [] = []
replace_from old new (suc skip) (c ∷ cs) = replace_from old new skip cs
replace_from old new zero (c ∷ cs) =
    let after = replace_from old new (length old - 1) cs in
    let rest = replace_from old new 0 cs in
    if is_prefix old (c ∷ cs) then new ++ after else c ∷ rest

abbrev pub replace : List ℕ → List ℕ → List ℕ → List ℕ
replace old new text = replace_from old new 0 text

abbrev pub delim_zwsp : ℕ
delim_zwsp = 0x200B

-- What follows the bracket of the two markers.
abbrev pub open_rest : List ℕ
open_rest = codes "EXTERNAL_DATA"

abbrev pub close_rest : List ℕ
close_rest = codes "/EXTERNAL_DATA"

abbrev pub open_marker : List ℕ
open_marker = b'[' ∷ open_rest

abbrev pub close_marker : List ℕ
close_marker = b'[' ∷ close_rest

-- A marker with the zero-width space after its bracket.
abbrev pub broken : List ℕ → List ℕ
broken rest = b'[' ∷ delim_zwsp ∷ rest

unfoldable pub escape_delimiter_markers : List ℕ → List ℕ
escape_delimiter_markers text =
    replace close_marker (broken close_rest) (replace open_marker (broken open_rest) text)

unfoldable pub wrap_with_delimiters : List ℕ → List ℕ → List ℕ
wrap_with_delimiters text source =
    codes "[EXTERNAL_DATA source=\""
    ++ (source ++ (codes "\"]\n" ++ (text ++ codes "\n[/EXTERNAL_DATA]")))

-- The setting `sanitize`: any text but `off` and `enforce` is `shadow`.
pub data SanitizeMode : Type 0 where
  off shadow enforce : SanitizeMode

pub record GateConfig : Type 0 where
  pub enabled : Bool
  pub sanitize : SanitizeMode

-- The text that goes on: the sanitized one only in the mode `enforce`.
abbrev pub sanitized : SanitizeMode → List ℕ → Mode → List ℕ
sanitized enforce text mode = sanitize_untrusted_text text none mode
sanitized _ text mode = text

abbrev pub framed : Mode → List ℕ → List ℕ → List ℕ
framed content text source = wrap_with_delimiters (escape_delimiter_markers text) source
framed _ text source = text

-- `[]` is both `None` and the empty text. The grade of risk is only logged.
unfoldable pub trust_gate : GateConfig → List ℕ → List ℕ → Mode → List ℕ
trust_gate cfg [] source mode = []
trust_gate cfg (c ∷ cs) source mode =
    if cfg.enabled then framed mode (sanitized cfg.sanitize (c ∷ cs) mode) source else c ∷ cs
