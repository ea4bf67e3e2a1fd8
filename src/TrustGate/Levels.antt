-- ===== src/TrustGate/Levels.antt =====
-- The levels that xibi/security/risk_grader.py gives.
use xibi.Base.{
  ℕ, ◌≤◌, ◌≡◌, ◌≢◌, refl, sym, ap, ◌∙◌, Bool, true, false, Option, none, some, List, [], ◌∷◌,
  String, ◌==◌, length, select, if◌then◌else◌, eqb, leb, arith, Bool-cases, eq_iff, ◌⊎◌, inl, inr,
}
use mathlib.Core.Path.{subst}
use mathlib.Core.Option.{some-injective, none-ne-some}
use xibi.TrustGate.Grading.{
  detector, grade_merged, Level, low, medium, high, RiskGrade, Weights, Thresholds, default_weights,
  default_thresholds, all_structural_flags, structural_flags_of, structural_score_of,
  sender_modifier, composite_of, level_for, Setting, absent, RiskSection, merge_config, Merged,
  grade, grade_risk,
}

-- What the default weights and thresholds come to, by the verdict of the sanitizer, the number of
-- structural flags and the sender's tier.
abbrev expected_level : Bool → ℕ → String → Level
expected_level true n tier = if leb 4 n then high else medium
expected_level false n tier =
    if leb n 1
    then low
    else if eqb n 2
    then if tier == "NAME_MISMATCH" then medium else low
    else medium

length-select-le : (p : String → Bool) (xs : List String) → length (select p xs) ≤ length xs
length-select-le p [] = omega arith
length-select-le p (x ∷ xs) = ground (arith, length-select-le p xs)

-- The default composite, for the modifiers that there are.
abbrev default_for : Bool → List String → ℕ × ℕ → Level
default_for flagged fired modifier =
    level_for
      (composite_of default_weights (if flagged then 100 else 0) (structural_score_of fired)
        modifier)
      default_thresholds

abbrev HasDefaultLevel : Bool → List String → String → Type 0
HasDefaultLevel flagged fired tier =
    default_for flagged fired (sender_modifier tier) ≡ expected_level flagged (length fired) tier

default_level :
    (flagged : Bool) (fired : List String) (tier : String)
    → length fired ≤ 4
    → HasDefaultLevel flagged fired tier
default_level flagged fired tier few = elim (Bool-cases (tier == "ESTABLISHED")) [
  | inl e ↦ known "ESTABLISHED" e (established flagged)
  | inr e ↦ elim (Bool-cases (tier == "UNKNOWN")) [
    | inl u ↦ known "UNKNOWN" u (unknown flagged)
    | inr u ↦ elim (Bool-cases (tier == "NAME_MISMATCH")) [
      | inl m ↦ known "NAME_MISMATCH" m (mismatch flagged)
      | inr m ↦ no_modifier e u m ∙ (neutral flagged ∙ no_mismatch m flagged)
    ]
  ]
]
  where
    known :
        (name : String)
        → (tier == name) ≡ true
        → HasDefaultLevel flagged fired name
        → HasDefaultLevel flagged fired tier
    known name e p = subst (HasDefaultLevel flagged fired) (sym ((eq_iff tier name).0 e)) p

    established : (b : Bool) → HasDefaultLevel b fired "ESTABLISHED"
    established b = ground (arith, few)

    unknown : (b : Bool) → HasDefaultLevel b fired "UNKNOWN"
    unknown b = ground (arith, few)

    mismatch : (b : Bool) → HasDefaultLevel b fired "NAME_MISMATCH"
    mismatch b = ground (arith, few)

    no_modifier :
        (tier == "ESTABLISHED") ≡ false
        → (tier == "UNKNOWN") ≡ false
        → (tier == "NAME_MISMATCH") ≡ false
        → default_for flagged fired (sender_modifier tier) ≡ default_for flagged fired (0, 0)
    no_modifier e u m = ap (default_for flagged fired) {y = (0, 0)} (rw (e, u, m) refl)

    no_mismatch :
        (tier == "NAME_MISMATCH") ≡ false
        → (b : Bool) → expected_level b (length fired) "" ≡ expected_level b (length fired) tier
    no_mismatch m true = refl
    no_mismatch m false = rw m refl

    neutral : (b : Bool) → HasDefaultLevel b fired ""
    neutral b = ground (arith, few)

-- With the default configuration every text but the empty one is graded, and the level is HIGH just
-- if the sanitizer flagged the text and all four detectors fired, whoever sent it. Of the texts that
-- it did not flag, those with at most one flag are LOW, with two LOW unless the sender's name is a
-- mismatch, and the others MEDIUM.
grade_risk-default :
    (text : List ℕ) (flagged : Bool) (tier : String)
    → text ≢ []
    → (g : RiskGrade) × (grade_risk text flagged tier absent ≡ some g)
      × (g.level ≡ expected_level flagged (length g.structural_flags) tier)
unfolding grade_risk merge_config structural_flags_of
grade_risk-default [] flagged tier given = absurd (given refl)
grade_risk-default (c ∷ cs) flagged tier given =
    let fired = structural_flags_of (c ∷ cs) all_structural_flags in
    (
      _,
      refl,
      default_level flagged fired tier
          (length-select-le (λ name. detector name (c ∷ cs)) all_structural_flags),
    )

abbrev pub rank : Level → ℕ
rank low = 0
rank medium = 1
rank high = 2

level_for-le : (a b : ℕ) (t : Thresholds) → a ≤ b → rank (level_for a t) ≤ rank (level_for b t)
level_for-le a b t h = ground arith

composite_of-le :
    (w : Weights) (s : ℕ) (modifier : ℕ × ℕ)
    → composite_of w 0 s modifier ≤ composite_of w 100 s modifier
composite_of-le w s modifier = ground arith

-- At least as high a grade, with the same structural flags.
abbrev AtLeast : RiskGrade → Option RiskGrade → Type 0
AtLeast g o =
    (g' : RiskGrade) × (o ≡ some g')
    × (rank g.level ≤ rank g'.level)
    × (g'.structural_flags ≡ g.structural_flags)

grade_merged-AtLeast :
    (text : List ℕ) (tier : String) (cfg : Option Merged) (g : RiskGrade)
    → grade_merged text false tier cfg ≡ some g
    → AtLeast g (grade_merged text true tier cfg)
grade_merged-AtLeast text tier none g e = absurd (none-ne-some g e)
grade_merged-AtLeast text tier (some cfg) g e = by_enabled (Bool-cases cfg.enabled)
  where
    by_enabled :
        (cfg.enabled ≡ true) ⊎ (cfg.enabled ≡ false)
        → AtLeast g (if cfg.enabled then some (grade cfg text true tier) else none)
    by_enabled (inl on) =
        let is_g : some (grade cfg text false tier) ≡ some g =
          sym (ap (λ b. if b then some (grade cfg text false tier) else none) on) ∙ e in
        let s = structural_score_of (structural_flags_of text cfg.structural_flags) in
        let m = sender_modifier tier in
        subst (λ g. AtLeast g (if cfg.enabled then some (grade cfg text true tier) else none))
          (some-injective _ _ is_g)
          (
            grade cfg text true tier,
            ap (λ b. if b then some (grade cfg text true tier) else none) on,
            level_for-le (composite_of cfg.weights 0 s m) (composite_of cfg.weights 100 s m)
                cfg.thresholds (composite_of-le cfg.weights s m),
            refl,
          )
    by_enabled (inr off) = absurd (
        none-ne-some g
          (sym (ap (λ b. if b then some (grade cfg text false tier) else none) off) ∙ e))

-- Whatever the configuration, the sanitizer's verdict never lowers the level: a text that is graded
-- when it was not flagged is graded at least as high when it was, with the same structural flags.
grade_risk-flagged_le :
    (text : List ℕ) (tier : String) (config : Setting RiskSection) (g : RiskGrade)
    → grade_risk text false tier config ≡ some g
    → AtLeast g (grade_risk text true tier config)
unfolding grade_risk
grade_risk-flagged_le [] tier config g e = absurd (none-ne-some g e)
grade_risk-flagged_le (c ∷ cs) tier config g e =
    grade_merged-AtLeast (c ∷ cs) tier (merge_config config) g e
