-- ===== src/TrustGate/Framing.antt =====
-- What the markers of xibi/security/trust_gate.py enclose.
use xibi.Base.{
  ℕ, ◌+◌, ◌≤◌, ◌≡◌, ◌≢◌, refl, ap, ◌∙◌, Bool, true, false, not, ◌&&◌, List, [], ◌∷◌, ◌++◌, length,
  codes, is_prefix, if◌then◌else◌, eqb, arith, all,
}
use xibi.TrustGate.{
  replace_from, replace, delim_zwsp, open_rest, close_rest, open_marker, close_marker, broken,
  escape_delimiter_markers, wrap_with_delimiters, GateConfig, sanitized, trust_gate,
}
use xibi.TrustGate.Sanitizer.{content}

-- A text has no opening bracket.
abbrev has_no_bracket : List ℕ → Bool
has_no_bracket [] = true
has_no_bracket (c ∷ cs) = not (eqb b'[' c) && has_no_bracket cs

-- What replacing a marker comes to: a zero-width space after each bracket that the rest follows.
abbrev defang : List ℕ → List ℕ → List ℕ
defang rest [] = []
defang rest (c ∷ cs) =
    let tail = defang rest cs in
    if eqb b'[' c && is_prefix rest cs then c ∷ delim_zwsp ∷ tail else c ∷ tail

-- From a point where nothing is passed over, and from one where a part of the marker is.
module _ (rest : List ℕ) (plain : has_no_bracket rest ≡ true) where
  replaced :
      (cs : List ℕ)
      → (replace_from (b'[' ∷ rest) (broken rest) 0 cs ≡ defang rest cs)
        × ((p : List ℕ)
            → has_no_bracket p ≡ true
            → is_prefix p cs ≡ true
            → p ++ replace_from (b'[' ∷ rest) (broken rest) (length p) cs ≡ defang rest cs)
  replaced [] = (refl, inside)
    where
      inside : (p : List ℕ) → has_no_bracket p ≡ true → is_prefix p [] ≡ true → p ++ [] ≡ []
      inside [] h e = refl
      inside (a ∷ p) h e = ground arith
  replaced (c ∷ cs) = let next = replaced cs in (start next, inside next)
    where
      Next : Type 0
      Next =
          (replace_from (b'[' ∷ rest) (broken rest) 0 cs ≡ defang rest cs)
          × ((p : List ℕ)
              → has_no_bracket p ≡ true
              → is_prefix p cs ≡ true
              → p ++ replace_from (b'[' ∷ rest) (broken rest) (length p) cs ≡ defang rest cs)

      start : Next → replace_from (b'[' ∷ rest) (broken rest) 0 (c ∷ cs) ≡ defang rest (c ∷ cs)
      start next = ground (arith, next.0, next.1 rest plain)

      inside :
          Next
          → (p : List ℕ) → has_no_bracket p ≡ true
          → is_prefix p (c ∷ cs) ≡ true
          → p ++ replace_from (b'[' ∷ rest) (broken rest) (length p) (c ∷ cs) ≡ defang rest (c ∷ cs)
      inside next [] h e = start next
      inside next (a ∷ p) h e = ground (arith, next.1 p)

is_prefix-defang :
    (rest p cs : List ℕ)
    → has_no_bracket p ≡ true
    → is_prefix p (defang rest cs) ≡ true
    → is_prefix p cs ≡ true
is_prefix-defang rest [] cs h e = refl
is_prefix-defang rest (a ∷ p) [] h e = e
is_prefix-defang rest (a ∷ p) (c ∷ cs) h e = ground (arith, is_prefix-defang rest p cs)

-- How often a text holds a marker.
abbrev pub count : List ℕ → List ℕ → ℕ
count marker [] = 0
count marker (c ∷ cs) = (if is_prefix marker (c ∷ cs) then 1 else 0) + count marker cs

module _ (rest : List ℕ) (a : ℕ) (p : List ℕ) (plain : has_no_bracket (a ∷ p) ≡ true)
    (visible : eqb a delim_zwsp ≡ false) where
  -- Breaking one marker makes no marker.
  count-defang-le : (cs : List ℕ) → count (b'[' ∷ a ∷ p) (defang rest cs) ≤ count (b'[' ∷ a ∷ p) cs
  count-defang-le [] = omega arith
  count-defang-le (c ∷ cs) =
      ground (arith, count-defang-le cs, plain, visible, is_prefix-defang rest (a ∷ p) cs plain)

module _ (a : ℕ) (p : List ℕ) (plain : has_no_bracket (a ∷ p) ≡ true)
    (visible : eqb a delim_zwsp ≡ false) where
  -- And of the marker itself none is left.
  count-defang : (cs : List ℕ) → count (b'[' ∷ a ∷ p) (defang (a ∷ p) cs) ≡ 0
  count-defang [] = refl
  count-defang (c ∷ cs) =
      ground (arith, count-defang cs, plain, visible, is_prefix-defang (a ∷ p) (a ∷ p) cs plain)

count-escape :
    (text : List ℕ)
    → (count open_marker (escape_delimiter_markers text) ≡ 0)
      × (count close_marker (escape_delimiter_markers text) ≡ 0)
unfolding escape_delimiter_markers
count-escape text =
    let once = replace open_marker (broken open_rest) text in
    let is_once = (replaced open_rest refl text).0 in
    let is_twice = (replaced close_rest refl once).0 in
    (
      omega (
        arith,
        ap (count open_marker) is_twice,
        count-defang-le close_rest b'E' (codes "XTERNAL_DATA") refl refl once,
        ap (count open_marker) is_once,
        count-defang b'E' (codes "XTERNAL_DATA") refl refl text,
      ),
      ap (count close_marker) is_twice ∙ count-defang b'/' (codes "EXTERNAL_DATA") refl refl once,
    )

-- A text without brackets in front makes no marker.
count-plain :
    (p xs ys : List ℕ)
    → has_no_bracket xs ≡ true
    → count (b'[' ∷ p) (xs ++ ys) ≡ count (b'[' ∷ p) ys
count-plain p [] ys h = refl
count-plain p (x ∷ xs) ys h = ground (arith, count-plain p xs ys)

-- Nor does a marker reach over the end of a line.
is_prefix-line :
    (p xs ys : List ℕ)
    → all (λ c. not (eqb c b'\n')) p ≡ true
    → is_prefix p (xs ++ (b'\n' ∷ ys)) ≡ is_prefix p xs
is_prefix-line [] xs ys h = refl
is_prefix-line (a ∷ p) [] ys h = ground arith
is_prefix-line (a ∷ p) (x ∷ xs) ys h = ground (arith, is_prefix-line p xs ys)

count-line :
    (p xs ys : List ℕ)
    → all (λ c. not (eqb c b'\n')) p ≡ true
    → count (b'[' ∷ p) (xs ++ (b'\n' ∷ ys)) ≡ count (b'[' ∷ p) xs + count (b'[' ∷ p) ys
count-line p [] ys h = ground arith
count-line p (x ∷ xs) ys h = ground (arith, count-line p xs ys h, is_prefix-line p xs ys h)

count-within :
    (p source text : List ℕ)
    → has_no_bracket source ≡ true
    → all (λ c. not (eqb c b'\n')) p ≡ true
    → count (b'[' ∷ p) (
        codes "EXTERNAL_DATA source=\""
        ++ (source ++ (codes "\"]\n" ++ (text ++ codes "\n[/EXTERNAL_DATA]"))))
      ≡ count (b'[' ∷ p) text + count (b'[' ∷ p) (codes "[/EXTERNAL_DATA]")
count-within p source text plain h =
    let tail = text ++ codes "\n[/EXTERNAL_DATA]" in
    count-plain p (codes "EXTERNAL_DATA source=\"") (source ++ (codes "\"]\n" ++ tail)) refl
    ∙ (count-plain p source (codes "\"]\n" ++ tail) plain
        ∙ (count-plain p (codes "\"]\n") tail refl
            ∙ count-line p text (codes "[/EXTERNAL_DATA]") h))

count-wrap_with_delimiters :
    (text source : List ℕ)
    → has_no_bracket source ≡ true
    → let framed = wrap_with_delimiters (escape_delimiter_markers text) source in
      (count open_marker framed ≡ 1) × (count close_marker framed ≡ 1)
unfolding wrap_with_delimiters
count-wrap_with_delimiters text source plain =
    let escaped = escape_delimiter_markers text in
    let none_left = count-escape text in
    let opened = count-within open_rest source escaped plain refl in
    let closed = count-within close_rest source escaped plain refl in
    (
      ap (λ n. 1 + n) (opened ∙ ap (λ n. n + 0) none_left.0),
      ap (λ n. 0 + n) (closed ∙ ap (λ n. n + 1) none_left.1),
    )

-- Content that passes an enabled gate comes out with one opening and one closing marker, if its
-- source's label has no bracket: no text can close its frame or open another, sanitized or not.
pub trust_gate-framed :
    (cfg : GateConfig) (text source : List ℕ)
    → cfg.enabled ≡ true
    → text ≢ []
    → has_no_bracket source ≡ true
    → (count open_marker (trust_gate cfg text source content) ≡ 1)
      × (count close_marker (trust_gate cfg text source content) ≡ 1)
unfolding trust_gate
trust_gate-framed cfg [] source on given plain = absurd (given refl)
trust_gate-framed cfg (c ∷ cs) source on given plain =
    rw on (count-wrap_with_delimiters (sanitized cfg.sanitize (c ∷ cs) content) source plain)
