-- ===== src/TrustGate/Sanitizer.antt =====
-- xibi/security/sanitize.py. A regular expression is a function from what is left of a text, and
-- whether a line starts there, to the length of its match.
use xibi.Base.{
  ℕ, zero, suc, ◌+◌, ◌-◌, String, Bool, true, false, not, ◌&&◌, ◌||◌, Option, none, some, List, [],
  ◌∷◌, take, select, codes, is_prefix, if◌then◌else◌, eqb, leb,
}

-- Texts are cleaned as metadata or as content; a mode that is neither counts as content here.
pub data Mode : Type 0 where
  metadata content other : Mode

-- `\s`, and what `str.strip` strips.
abbrev pub is_space : ℕ → Bool
is_space c =
    (leb 9 c && leb c 13)
    || (leb 28 c && leb c 32)
    || eqb c 0x85
    || eqb c 0xA0
    || eqb c 0x1680
    || (leb 0x2000 c && leb c 0x200A)
    || eqb c 0x2028
    || eqb c 0x2029
    || eqb c 0x202F
    || eqb c 0x205F
    || eqb c 0x3000

-- The letter that a code point is to `re.IGNORECASE`, for patterns in lower case.
abbrev folded : ℕ → ℕ
folded c =
    if leb b'A' c && leb c b'Z'
    then c + 32
    else if eqb c 0x130 || eqb c 0x131
    then b'i'
    else if eqb c 0x17F
    then b's'
    else if eqb c 0x212A
    then b'k'
    else c

-- What is left to match after a code point: `' '` in a pattern is `\s+`, and `in_run` says that such
-- a run has begun and may go on.
abbrev advance : Bool → ℕ → List ℕ → ℕ → Option (Bool × List ℕ)
advance in_run p ps c =
    if eqb p b' '
    then if is_space c then some (true, ps) else none
    else if eqb (folded c) p
    then some (false, ps)
    else if in_run && is_space c
    then some (true, p ∷ ps)
    else none

abbrev one_more : Option ℕ → Option ℕ
one_more none = none
one_more (some n) = some (suc n)

abbrev matched : Bool → List ℕ → List ℕ → Option ℕ
matched in_run [] text = some 0
matched in_run (p ∷ ps) [] = none
matched in_run (p ∷ ps) (c ∷ cs) = elim (advance in_run p ps c) [
  | none ↦ none
  | some (run, rest) ↦ one_more (matched run rest cs)
]

-- The alternatives of a regular expression, tried in order.
abbrev first_match : List String → List ℕ → Option ℕ
first_match [] text = none
first_match (p ∷ ps) text = elim (matched false (codes p) text) [
  | some n ↦ some n
  | none ↦ first_match ps text
]

abbrev pub injection_tokens : Bool → List ℕ → Option ℕ
injection_tokens line_start text =
    first_match
      ("<|im_start|>" ∷ "<|im_end|>" ∷ "<|endoftext|>" ∷ "[inst]" ∷ "[/inst]" ∷ "<<sys>>"
        ∷ "<</sys>>" ∷ "${" ∷ "<|" ∷ [])
      text

abbrev pub injection_phrases : Bool → List ℕ → Option ℕ
injection_phrases line_start text =
    first_match
      ("ignore all previous instructions" ∷ "ignore previous instructions" ∷ "disregard all prior"
        ∷ "you are now a" ∷ "act as if you" ∷ "pretend to be" ∷ "override your instructions"
        ∷ "forget your instructions" ∷ "do not follow your" ∷ "new instructions below" ∷ [])
      text

abbrev system_prefix : List ℕ
system_prefix = codes "SYSTEM:"

abbrev space_follows : ℕ → List ℕ → Bool
space_follows n [] = false
space_follows zero (c ∷ cs) = is_space c
space_follows (suc n) (c ∷ cs) = space_follows n cs

abbrev pub line_start_injection : Bool → List ℕ → Option ℕ
line_start_injection line_start text =
    if line_start && is_prefix system_prefix text && space_follows 7 text then some 8 else none

-- A code point is kept, or passed over as the first of a match.
abbrev pub removed : ℕ → (ℕ → List ℕ) → Option ℕ → List ℕ
removed c rest none = c ∷ rest 0
removed c rest (some n) = rest (n - 1)

-- `regex.sub("", text)`, with the number of matched code points that are still to be passed over.
abbrev pub remove : (Bool → List ℕ → Option ℕ) → Bool → ℕ → List ℕ → List ℕ
remove m line_start skip [] = []
remove m line_start (suc skip) (c ∷ cs) = remove m (eqb c b'\n') skip cs
remove m line_start zero (c ∷ cs) =
    removed c (λ skip. remove m (eqb c b'\n') skip cs) (m line_start (c ∷ cs))

abbrev is_control : ℕ → Bool
is_control c = leb c 0x1F || eqb c 0x7F

abbrev pub is_kept : Mode → ℕ → Bool
is_kept metadata c = not (is_control c || eqb c b'<' || eqb c b'>' || eqb c b'`' || eqb c b'|')
is_kept _ c = not (is_control c)

abbrev default_max_len : Mode → ℕ
default_max_len metadata = 64
default_max_len _ = 2000

abbrev pub lstrip : List ℕ → List ℕ
lstrip [] = []
lstrip (c ∷ cs) = let rest = lstrip cs in if is_space c then rest else c ∷ cs

abbrev pub before_end : ℕ → List ℕ → List ℕ
before_end c [] = if is_space c then [] else c ∷ []
before_end c (d ∷ ds) = c ∷ d ∷ ds

abbrev pub rstrip : List ℕ → List ℕ
rstrip [] = []
rstrip (c ∷ cs) = before_end c (rstrip cs)

abbrev pub strip : List ℕ → List ℕ
strip text = rstrip (lstrip text)

abbrev pub effective_max : Option ℕ → Mode → ℕ
effective_max none mode = default_max_len mode
effective_max (some max_len) mode = max_len

unfoldable pub sanitize_untrusted_text : List ℕ → Option ℕ → Mode → List ℕ
sanitize_untrusted_text value max_len mode =
    let tokens = remove injection_tokens true 0 value in
    let phrases = remove injection_phrases true 0 tokens in
    let lines = remove line_start_injection true 0 phrases in
    strip (take (effective_max max_len mode) (select (is_kept mode) lines))
