-- ===== src/React/Failing.antt =====
-- Failures in a row, in the scratchpad of xibi/react.py.
use xibi.Base.{
  ℕ, ◌+◌, ◌≡◌, ◌⊎◌, true, Option, none, some, List, [], ◌∷◌, ◌++◌, arith, leb, if◌then◌else◌,
}
use xibi.React.{Step, error, partial, ReactResult}
use xibi.React.Loop.{has_failed}

-- How many steps in a row have failed at the end, on top of `n` before; none if three ever have.
abbrev pub trail : ℕ → List Step → Option ℕ
trail n [] = some n
trail n (s ∷ ss) =
    let after = trail (n + 1) ss in
    let cleared = trail 0 ss in if has_failed s then (if leb 2 n then none else after) else cleared

-- What one more step does to the count.
abbrev pub next_count : ℕ → Step → Option ℕ
next_count n s = if has_failed s then (if leb 2 n then none else some (n + 1)) else some 0

pub trail-append :
    (n : ℕ) (ss : List Step) (s : Step) (c : ℕ)
    → trail n ss ≡ some c
    → trail n (ss ++ s ∷ []) ≡ next_count c s
trail-append n [] s c e = ground arith
trail-append n (t ∷ ss) s c e = ground (arith, trail-append (n + 1) ss s c, trail-append 0 ss s c)

-- The last step is the third failure in a row, and the run ends with it.
abbrev EndsAtThird : ReactResult → Type 0
EndsAtThird r =
    (before : List Step) × (last : Step) × (r.steps ≡ before ++ last ∷ [])
    × (trail 0 before ≡ some 2)
    × (has_failed last ≡ true)
    × ((r.exit_reason ≡ error) ⊎ (r.exit_reason ≡ partial))

-- No three steps in a row have failed, but for the last three.
abbrev pub IsCalm : ReactResult → Type 0
IsCalm r = ((c : ℕ) × (trail 0 r.steps ≡ some c)) ⊎ EndsAtThird r
