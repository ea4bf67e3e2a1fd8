-- ===== src/Checklists.antt =====
-- xibi/checklists/fuzzy.py: which item of a checklist a hint means. `lower` stands for `str.lower`.
pub mod Ranking
pub mod Rollover
pub mod Carrying
pub mod Editing
pub mod Positions
pub mod Closing
mod Tests
use xibi.Base.{
  ℕ, zero, suc, ◌+◌, ◌-◌, ◌*◌, Bool, true, false, not, ◌&&◌, ◌||◌, Option, none, some, List, [],
  ◌∷◌, map, String, ◌==◌, length, select, any, codes, occurs_in, same_codes, if◌then◌else◌, eqb,
  leb, ltb,
}
use xibi.TrustGate.Sanitizer.{is_space}

pub record Item : Type 0 where
  pub id : String
  pub instance_id : String
  pub label : String
  pub position : ℕ
  pub completed_at : Option ℕ
  pub rollover_prompted_at : Option ℕ

abbrev stopwords : List String
stopwords =
    "the" ∷ "a" ∷ "an" ∷ "is" ∷ "are" ∷ "was" ∷ "were" ∷ "be" ∷ "have" ∷ "has" ∷ "had" ∷ "do"
    ∷ "does" ∷ "did" ∷ "and" ∷ "or" ∷ "but" ∷ "if" ∷ "to" ∷ "of" ∷ "in" ∷ "on" ∷ "at" ∷ "by" ∷ "for"
    ∷ "with" ∷ "from" ∷ []

abbrev push : List ℕ → List (List ℕ) → List (List ℕ)
push [] words = words
push (c ∷ cs) words = (c ∷ cs) ∷ words

-- The word that a text begins with, and the words after it.
abbrev words_of : List ℕ → List ℕ × List (List ℕ)
words_of [] = ([], [])
words_of (c ∷ cs) =
    let (word, words) = words_of cs in
    if is_space c then ([], push word words) else (c ∷ word, words)

-- `str.split()`
abbrev split : List ℕ → List (List ℕ)
split text = let (word, words) = words_of text in push word words

abbrev is_mark : ℕ → Bool
is_mark c = any (eqb c) (codes ",.!?;:")

abbrev lstrip_marks : List ℕ → List ℕ
lstrip_marks [] = []
lstrip_marks (c ∷ cs) = let rest = lstrip_marks cs in if is_mark c then rest else c ∷ cs

abbrev before_marks : ℕ → List ℕ → List ℕ
before_marks c [] = if is_mark c then [] else c ∷ []
before_marks c (d ∷ ds) = c ∷ d ∷ ds

abbrev rstrip_marks : List ℕ → List ℕ
rstrip_marks [] = []
rstrip_marks (c ∷ cs) = before_marks c (rstrip_marks cs)

abbrev contains : List (List ℕ) → List ℕ → Bool
contains tokens t = any (same_codes t) tokens

-- The elements of a set, each once.
abbrev distinct : List (List ℕ) → List (List ℕ)
distinct [] = []
distinct (t ∷ ts) = let rest = distinct ts in if contains ts t then rest else t ∷ rest

abbrev is_stopword : List ℕ → Bool
is_stopword t = any (λ w. same_codes t (codes w)) stopwords

normalize_text : (List ℕ → List ℕ) → String → List (List ℕ)
normalize_text lower text =
    let tokens = split (lower (codes text)) in
    distinct
      (map (λ t. rstrip_marks (lstrip_marks t)) (select (λ t. not (is_stopword (lower t))) tokens))

abbrev is_empty : List (List ℕ) → Bool
is_empty [] = true
is_empty (t ∷ ts) = false

unfoldable pub score : (List ℕ → List ℕ) → String → Item → ℕ
unfolding normalize_text
score lower label_hint item =
    let hint_tokens = normalize_text lower label_hint in
    let candidate_tokens = normalize_text lower item.label in
    let overlap = select (contains candidate_tokens) hint_tokens in
    let is_substring = occurs_in (lower (codes label_hint)) (lower (codes item.label)) in
    length overlap + (if not (is_empty hint_tokens) && is_substring then 2 else 0)

-- The stable sort by score, the highest first.
abbrev pub insert_by : (Item → ℕ) → Item → List Item → List Item
insert_by s x [] = x ∷ []
insert_by s x (y ∷ ys) =
    let rest = insert_by s x ys in if leb (s y) (s x) then x ∷ y ∷ ys else y ∷ rest

abbrev pub ranked : (Item → ℕ) → List Item → List Item
ranked s [] = []
ranked s (x ∷ xs) = insert_by s x (ranked s xs)

-- A score is too close to the best one.
abbrev pub is_close : ℕ → ℕ → Bool
is_close top second = ltb (2 * top) (3 * second) && ltb (top - second) 2

abbrev pub decide : (Item → ℕ) → List Item → Option Item
decide s [] = none
decide s (top ∷ []) = if eqb (s top) 0 then none else some top
decide s (top ∷ second ∷ rest) =
    if eqb (s top) 0 then none else if is_close (s top) (s second) then none else some top

abbrev pub items_of : String → List Item → List Item
items_of instance_id items = select (λ i. i.instance_id == instance_id) items

unfoldable pub fuzzy_match_item : (List ℕ → List ℕ) → String → String → List Item → Option Item
unfolding score
fuzzy_match_item lower instance_id label_hint items =
    let s = score lower label_hint in decide s (ranked s (items_of instance_id items))
