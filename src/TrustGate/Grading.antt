-- ===== src/TrustGate/Grading.antt =====
-- xibi/security/risk_grader.py. Scores are hundredths, weights too, and composites ten thousandths; a
-- weight is taken not to be negative. The modifier -0.1 is taken off after the sum, which stops at 0
-- as the composite does.
use xibi.Base.{
  ℕ, suc, ◌+◌, ◌-◌, ◌*◌, Bool, true, false, ◌&&◌, ◌||◌, Option, none, some, List, [], ◌∷◌, String,
  ◌==◌, length, select, member, any, if◌then◌else◌, eqb, leb, ltb,
}
use xibi.TrustGate.Sanitizer.{is_space}

pub data Level : Type 0 where
  low medium high : Level

pub record RiskGrade : Type 0 where
  pub composite : ℕ
  pub level : Level
  pub sanitizer_flagged : Bool
  pub sanitizer_score : ℕ
  pub structural_score : ℕ
  pub structural_flags : List String
  pub sender_tier : String

abbrev pub all_structural_flags : List String
all_structural_flags =
    "base64_blocks" ∷ "homoglyph_chars" ∷ "invisible_unicode" ∷ "excessive_whitespace" ∷ []

pub record Weights : Type 0 where
  pub sanitizer : ℕ
  pub structural : ℕ
  pub sender : ℕ

abbrev pub default_weights : Weights
default_weights = record { sanitizer = 50; structural = 35; sender = 15 }

pub record Thresholds : Type 0 where
  pub low : ℕ
  pub high : ℕ

abbrev pub default_thresholds : Thresholds
default_thresholds = record { low = 2000; high = 8000 }

-- What is added to and what is taken off a composite, by the tier; an unknown tier counts as none.
abbrev pub sender_modifier : String → ℕ × ℕ
sender_modifier tier =
    if tier == "ESTABLISHED"
    then (0, 10)
    else if tier == "UNKNOWN"
    then (10, 0)
    else if tier == "NAME_MISMATCH"
    then (20, 0)
    else (0, 0)

abbrev is_letter : ℕ → Bool
is_letter c = (leb b'A' c && leb c b'Z') || (leb b'a' c && leb c b'z')

abbrev is_base64 : ℕ → Bool
is_base64 c = is_letter c || (leb b'0' c && leb c b'9') || eqb c b'+' || eqb c b'/'

-- A run of a hundred base64 letters, `n` of which stand before.
abbrev base64_run : ℕ → List ℕ → Bool
base64_run n [] = leb 100 n
base64_run n (c ∷ cs) = leb 100 n || base64_run (if is_base64 c then suc n else 0) cs

abbrev detect_base64_blocks : List ℕ → Bool
detect_base64_blocks text = base64_run 0 text

abbrev is_one_of : List ℕ → ℕ → Bool
is_one_of cs c = any (eqb c) cs

abbrev homoglyph_chars : List ℕ
homoglyph_chars =
    0x430 ∷ 0x435 ∷ 0x43E ∷ 0x440 ∷ 0x441 ∷ 0x443 ∷ 0x445 ∷ 0x456 ∷ 0x391 ∷ 0x392 ∷ 0x395 ∷ 0x397
    ∷ 0x39A ∷ 0x39C ∷ 0x39D ∷ 0x39F ∷ 0x3A1 ∷ 0x3A4 ∷ []

abbrev detect_homoglyph_chars : List ℕ → Bool
detect_homoglyph_chars text = any (is_one_of homoglyph_chars) text && any is_letter text

abbrev invisible_unicode_chars : List ℕ
invisible_unicode_chars =
    0x200B ∷ 0x200C ∷ 0x200D ∷ 0x2060 ∷ 0x200E ∷ 0x200F ∷ 0x202A ∷ 0x202B ∷ 0x202C ∷ 0x202D ∷ 0x202E
    ∷ []

abbrev detect_invisible_unicode : List ℕ → Bool
detect_invisible_unicode text = any (is_one_of invisible_unicode_chars) text

-- The length with each run of white space counted once; the flag says that a run has begun.
abbrev collapsed_len : Bool → List ℕ → ℕ
collapsed_len in_run [] = 0
collapsed_len in_run (c ∷ cs) =
    (if is_space c && in_run then 0 else 1) + collapsed_len (is_space c) cs

-- More than three tenths of the text are lost.
abbrev detect_excessive_whitespace : List ℕ → Bool
detect_excessive_whitespace text =
    ltb (3 * length text) (10 * (length text - collapsed_len false text))

abbrev pub detector : String → List ℕ → Bool
detector name text =
    if name == "base64_blocks"
    then detect_base64_blocks text
    else if name == "homoglyph_chars"
    then detect_homoglyph_chars text
    else if name == "invisible_unicode"
    then detect_invisible_unicode text
    else if name == "excessive_whitespace"
    then detect_excessive_whitespace text
    else false

unfoldable pub structural_flags_of : List ℕ → List String → List String
structural_flags_of text enabled = select (λ name. detector name text) enabled

abbrev cap : ℕ → ℕ → ℕ
cap most n = if leb n most then n else most

abbrev pub structural_score_of : List String → ℕ
structural_score_of fired = cap 100 (25 * length fired)

-- A setting of the section `risk_scoring`.
pub data Setting (A : Type 0) : Type 0 where
  absent : Setting A
  malformed : Setting A
  given : A → Setting A

pub record WeightKeys : Type 0 where
  pub sanitizer : Option ℕ
  pub structural : Option ℕ
  pub sender : Option ℕ

pub record ThresholdKeys : Type 0 where
  pub low : Option ℕ
  pub high : Option ℕ

pub record RiskSection : Type 0 where
  pub enabled : Bool
  pub structural_flags : Setting (List String)
  pub weights : Setting WeightKeys
  pub thresholds : Setting ThresholdKeys

pub record Merged : Type 0 where
  pub enabled : Bool
  pub structural_flags : List String
  pub weights : Weights
  pub thresholds : Thresholds

abbrev or_default : Option ℕ → ℕ → ℕ
or_default none n = n
or_default (some m) n = m

abbrev merge_flags : Setting (List String) → Option (List String)
merge_flags absent = some all_structural_flags
merge_flags malformed = none
merge_flags (given names) = some (select (λ f. member f names) all_structural_flags)

abbrev merge_weights : Setting WeightKeys → Option Weights
merge_weights absent = some default_weights
merge_weights malformed = none
merge_weights (given keys) = some (record {
  sanitizer = or_default keys.sanitizer 50;
  structural = or_default keys.structural 35;
  sender = or_default keys.sender 15;
})

abbrev merge_thresholds : Setting ThresholdKeys → Option Thresholds
merge_thresholds absent = some default_thresholds
merge_thresholds malformed = none
merge_thresholds (given keys) =
    some (record { low = or_default keys.low 2000; high = or_default keys.high 8000 })

infixl 5 ◌>>=◌
abbrev ◌>>=◌ : {A B : Type 0} → Option A → (A → Option B) → Option B
none >>= f = none
some a >>= f = f a

-- `absent` is no section, `malformed` one that is not a dict.
unfoldable pub merge_config : Setting RiskSection → Option Merged
merge_config absent = some (record {
  enabled = true;
  structural_flags = all_structural_flags;
  weights = default_weights;
  thresholds = default_thresholds;
})
merge_config malformed = none
merge_config (given section) = do
  flags ← merge_flags section.structural_flags
  weights ← merge_weights section.weights
  thresholds ← merge_thresholds section.thresholds
  some (record {
    enabled = section.enabled;
    structural_flags = flags;
    weights = weights;
    thresholds = thresholds;
  })

abbrev pub level_for : ℕ → Thresholds → Level
level_for composite t =
    if ltb composite t.low then low else if ltb composite t.high then medium else high

abbrev pub composite_of : Weights → ℕ → ℕ → ℕ × ℕ → ℕ
composite_of w sanitizer_score structural_score (plus, minus) = cap 10000 (
    sanitizer_score * w.sanitizer
    + structural_score * w.structural
    + plus * w.sender
    - minus * w.sender)

abbrev pub grade : Merged → List ℕ → Bool → String → RiskGrade
grade cfg text flagged tier =
    let sanitizer_score = if flagged then 100 else 0 in
    let fired = structural_flags_of text cfg.structural_flags in
    let structural_score = structural_score_of fired in
    let composite =
      composite_of cfg.weights sanitizer_score structural_score (sender_modifier tier) in
    record {
      composite = composite;
      level = level_for composite cfg.thresholds;
      sanitizer_flagged = flagged;
      sanitizer_score = sanitizer_score;
      structural_score = structural_score;
      structural_flags = fired;
      sender_tier = tier;
    }

abbrev pub grade_merged : List ℕ → Bool → String → Option Merged → Option RiskGrade
grade_merged text flagged tier none = none
grade_merged text flagged tier (some cfg) =
    if cfg.enabled then some (grade cfg text flagged tier) else none

unfoldable pub grade_risk : List ℕ → Bool → String → Setting RiskSection → Option RiskGrade
unfolding merge_config
grade_risk [] flagged tier config = none
grade_risk (c ∷ cs) flagged tier config = grade_merged (c ∷ cs) flagged tier (merge_config config)
