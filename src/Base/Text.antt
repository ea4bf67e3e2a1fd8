-- ===== src/Base/Text.antt =====
-- Text walked by its code points, as far as the program needs it.
use Prim.Native.Char.{code}
use Prim.Native.Nat.{ℕ, zero, suc, ◌+◌, ◌/◌, ◌%◌}
use Prim.Native.String.{String}
use mathlib.Core.Bool.{Bool, true, false, ◌&&◌, ◌||◌}
use mathlib.Core.List.{List, [], ◌∷◌, ◌++◌}
use xibi.Base.Tests.{leb, ltb, eqb, if◌then◌else◌}

abbrev pub codes : String → List ℕ
codes String.[] = []
codes (String.◌∷◌ c s) = code c ∷ codes s

-- `str.lower` of one code point: the ASCII letters, and the Kelvin sign, the one other code point
-- whose lower case is an ASCII letter.
abbrev lower : ℕ → ℕ
lower c = if leb b'A' c && leb c b'Z' then c + 32 else if eqb c 0x212A then b'k' else c

abbrev pub lowered : List ℕ → List ℕ
lowered [] = []
lowered (c ∷ cs) = lower c ∷ lowered cs

abbrev pub is_prefix : List ℕ → List ℕ → Bool
is_prefix [] text = true
is_prefix (p ∷ ps) [] = false
is_prefix (p ∷ ps) (c ∷ cs) = eqb p c && is_prefix ps cs

-- `pattern in text`
abbrev pub occurs_in : List ℕ → List ℕ → Bool
occurs_in pattern_codes [] = is_prefix pattern_codes []
occurs_in pattern_codes (c ∷ cs) = is_prefix pattern_codes (c ∷ cs) || occurs_in pattern_codes cs

abbrev pub same_codes : List ℕ → List ℕ → Bool
same_codes [] [] = true
same_codes (a ∷ as') (b ∷ bs) = eqb a b && same_codes as' bs
same_codes _ _ = false

-- `a + b` on texts.
abbrev pub append_text : String → String → String
append_text String.[] t = t
append_text (String.◌∷◌ c s) t = String.◌∷◌ c (append_text s t)

abbrev digits : ℕ → ℕ → List ℕ
digits zero n = []
digits (suc fuel) n =
    let higher = digits fuel (n / 10) in (if ltb n 10 then [] else higher) ++ (b'0' + n % 10) ∷ []

-- `str(n)`: a number has at most as many digits as it counts, and one more.
abbrev pub decimal : ℕ → List ℕ
decimal n = digits (suc n) n
