-- ===== src/TrustGate/Bounds.antt =====
-- What the sanitizer of xibi/security/sanitize.py keeps of a text.
use xibi.Base.{
  ℕ, zero, suc, ◌-◌, ◌≤◌, ◌≡◌, refl, inl, inr, Bool, true, Option, none, some, List, [], ◌∷◌,
  length, take, select, all, length-take-le, eqb, Bool-cases, arith,
}
use xibi.TrustGate.Sanitizer.{
  Mode, is_space, removed, remove, is_kept, strip, lstrip, rstrip, before_end, effective_max,
  injection_tokens, injection_phrases, line_start_injection, sanitize_untrusted_text,
}

-- A text is left of another: some of its code points are gone, and the others are as they were.
pub data Subsequence : List ℕ → List ℕ → Type 0 where
  nothing : Subsequence [] []
  keep : {c : ℕ} {xs ys : List ℕ} → Subsequence xs ys → Subsequence (c ∷ xs) (c ∷ ys)
  leave : {c : ℕ} {xs ys : List ℕ} → Subsequence xs ys → Subsequence xs (c ∷ ys)

empty-Subsequence : (ys : List ℕ) → Subsequence [] ys
empty-Subsequence [] = nothing
empty-Subsequence (y ∷ ys) = leave (empty-Subsequence ys)

refl-Subsequence : (ys : List ℕ) → Subsequence ys ys
refl-Subsequence [] = nothing
refl-Subsequence (y ∷ ys) = keep (refl-Subsequence ys)

trans-Subsequence : {xs ys zs : List ℕ} → Subsequence xs ys → Subsequence ys zs → Subsequence xs zs
trans-Subsequence p nothing = p
trans-Subsequence p (leave q) = leave (trans-Subsequence p q)
trans-Subsequence (keep p) (keep q) = keep (trans-Subsequence p q)
trans-Subsequence (leave p) (keep q) = leave (trans-Subsequence p q)

removed-Subsequence :
    (c : ℕ) (cs : List ℕ) (rest : ℕ → List ℕ) (o : Option ℕ)
    → ((skip : ℕ) → Subsequence (rest skip) cs)
    → Subsequence (removed c rest o) (c ∷ cs)
removed-Subsequence c cs rest none p = keep (p 0)
removed-Subsequence c cs rest (some n) p = leave (p (n - 1))

remove-Subsequence :
    (m : Bool → List ℕ → Option ℕ) (line_start : Bool) (skip : ℕ) (cs : List ℕ)
    → Subsequence (remove m line_start skip cs) cs
remove-Subsequence m line_start skip [] = nothing
remove-Subsequence m line_start (suc skip) (c ∷ cs) =
    leave (remove-Subsequence m (eqb c b'\n') skip cs)
remove-Subsequence m line_start zero (c ∷ cs) =
    removed-Subsequence c cs (λ skip. remove m (eqb c b'\n') skip cs) (m line_start (c ∷ cs))
      (λ skip. remove-Subsequence m (eqb c b'\n') skip cs)

select-Subsequence : (p : ℕ → Bool) (cs : List ℕ) → Subsequence (select p cs) cs
select-Subsequence p [] = nothing
select-Subsequence p (c ∷ cs) = elim (Bool-cases (p c)) [
  | inl e ↦ rw e (keep (select-Subsequence p cs))
  | inr e ↦ rw e (leave (select-Subsequence p cs))
]

take-Subsequence : (n : ℕ) (cs : List ℕ) → Subsequence (take n cs) cs
take-Subsequence zero cs = empty-Subsequence cs
take-Subsequence (suc n) [] = nothing
take-Subsequence (suc n) (c ∷ cs) = keep (take-Subsequence n cs)

lstrip-Subsequence : (cs : List ℕ) → Subsequence (lstrip cs) cs
lstrip-Subsequence [] = nothing
lstrip-Subsequence (c ∷ cs) = elim (Bool-cases (is_space c)) [
  | inl e ↦ rw e (leave (lstrip-Subsequence cs))
  | inr e ↦ rw e (refl-Subsequence (c ∷ cs))
]

before_end-Subsequence :
    (c : ℕ) (ds cs : List ℕ) → Subsequence ds cs → Subsequence (before_end c ds) (c ∷ cs)
before_end-Subsequence c [] cs p = elim (Bool-cases (is_space c)) [
  | inl e ↦ rw e (leave p)
  | inr e ↦ rw e (keep p)
]
before_end-Subsequence c (d ∷ ds) cs p = keep p

rstrip-Subsequence : (cs : List ℕ) → Subsequence (rstrip cs) cs
rstrip-Subsequence [] = nothing
rstrip-Subsequence (c ∷ cs) = before_end-Subsequence c (rstrip cs) cs (rstrip-Subsequence cs)

strip-Subsequence : (cs : List ℕ) → Subsequence (strip cs) cs
strip-Subsequence cs = trans-Subsequence (rstrip-Subsequence (lstrip cs)) (lstrip-Subsequence cs)

length-Subsequence-le : {xs ys : List ℕ} → Subsequence xs ys → length xs ≤ length ys
length-Subsequence-le nothing = omega arith
length-Subsequence-le (keep p) = omega (arith, length-Subsequence-le p)
length-Subsequence-le (leave p) = omega (arith, length-Subsequence-le p)

all-Subsequence :
    (f : ℕ → Bool) {xs ys : List ℕ} → Subsequence xs ys → all f ys ≡ true → all f xs ≡ true
all-Subsequence f nothing h = h
all-Subsequence f (keep p) h = ground (arith, h, all-Subsequence f p)
all-Subsequence f (leave p) h = ground (arith, h, all-Subsequence f p)

all-select : (f : ℕ → Bool) (cs : List ℕ) → all f (select f cs) ≡ true
all-select f [] = refl
all-select f (c ∷ cs) = ground (arith, all-select f cs)

-- The sanitizer only takes away: what it returns is left of the text, in the text's order, with no
-- code point that the mode bans and no more of them than the given or the mode's own limit.
pub sanitize_untrusted_text-Subsequence :
    (text : List ℕ) (max_len : Option ℕ) (mode : Mode)
    → let clean = sanitize_untrusted_text text max_len mode in
      Subsequence clean text
      × (length clean ≤ effective_max max_len mode)
      × (all (is_kept mode) clean ≡ true)
unfolding sanitize_untrusted_text
sanitize_untrusted_text-Subsequence text max_len mode =
    let tokens = remove injection_tokens true 0 text in
    let phrases = remove injection_phrases true 0 tokens in
    let lines = remove line_start_injection true 0 phrases in
    let kept = select (is_kept mode) lines in
    let cut = take (effective_max max_len mode) kept in
    let stripped = strip-Subsequence cut in
    let shortened = take-Subsequence (effective_max max_len mode) kept in
    (
      trans-Subsequence stripped (
          trans-Subsequence shortened (
            trans-Subsequence (select-Subsequence (is_kept mode) lines) (
              trans-Subsequence (remove-Subsequence line_start_injection true 0 phrases) (
                trans-Subsequence (remove-Subsequence injection_phrases true 0 tokens)
                  (remove-Subsequence injection_tokens true 0 text))))),
      omega
          (arith, length-Subsequence-le stripped, length-take-le (effective_max max_len mode) kept),
      all-Subsequence (is_kept mode) stripped
          (all-Subsequence (is_kept mode) shortened (all-select (is_kept mode) lines)),
    )
