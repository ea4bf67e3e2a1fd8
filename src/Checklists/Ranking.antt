-- ===== src/Checklists/Ranking.antt =====
-- What the fuzzy match of xibi/checklists/fuzzy.py picks.
use xibi.Base.{ℕ, ◌≤◌, ◌<◌, ◌≡◌, false, Option, List, [], ◌∷◌}
use xibi.Checklists.{Item, is_close}

-- An item of a list, and the items that are left without it.
pub data Picks : Item → List Item → List Item → Type 0 where
  here : {x : Item} {xs : List Item} → Picks x xs (x ∷ xs)
  there : {x y : Item} {rest xs : List Item} → Picks x rest xs → Picks x (y ∷ rest) (y ∷ xs)

module _ (s : Item → ℕ) where
  abbrev AllAtMost : ℕ → List Item → Type 0
  AllAtMost n [] = Unit
  AllAtMost n (x ∷ xs) = (s x ≤ n) × AllAtMost n xs

  -- The score that comes second.
  abbrev next_score : List Item → ℕ
  next_score [] = 0
  next_score (x ∷ xs) = s x

  -- Every other item is clearly behind.
  abbrev AllBehind : ℕ → List Item → Type 0
  AllBehind top [] = Unit
  AllBehind top (x ∷ xs) = (s x ≤ top) × (is_close top (s x) ≡ false) × AllBehind top xs

  abbrev pub Wins : Item → List Item → Type 0
  Wins item items =
      (others : List Item) × Picks item others items × (0 < s item) × AllBehind (s item) others

  -- A ranked list starts with an item of the list whose score is the best, and next comes the best
  -- score of the others, which is one of theirs.
  abbrev Heads : List Item → List Item → Type 0
  Heads [] items = items ≡ []
  Heads (top ∷ rest) items =
      (others : List Item) × Picks top others items
      × AllAtMost (next_score rest) others
      × (next_score rest ≤ s top)
      × ((n : ℕ) → AllBehind n others → is_close n (next_score rest) ≡ false)
