-- ===== src/ContentScan.antt =====
-- xibi/security/content_scan.py: whether the parameters of a call hold sensitive content.
use xibi.Base.{ℕ, Bool, String, List, [], ◌∷◌, ◌++◌, Dict, keys, any, codes, lowered, occurs_in}
use xibi.Tools.{Value}

abbrev sensitive_patterns : List String
sensitive_patterns =
    "salary" ∷ "ssn" ∷ "social security" ∷ "password" ∷ "credential" ∷ "confidential"
    ∷ "bank account" ∷ "routing number" ∷ "ssh key" ∷ "api_key" ∷ "api key" ∷ "token" ∷ "secret"
    ∷ []

value_texts : Dict Value → List String
value_texts [] = []
value_texts ((k, v) ∷ rest) = v.text ∷ value_texts rest

-- `" ".join(texts)`, as code points.
joined : List String → List ℕ
joined [] = []
joined (t ∷ []) = codes t
joined (t ∷ u ∷ rest) = codes t ++ (b' ' ∷ joined (u ∷ rest))

-- Over both the keys and the values.
unfoldable pub has_sensitive_content : Dict Value → Bool
unfolding value_texts joined
has_sensitive_content tool_input =
    let text = lowered (joined (keys tool_input ++ value_texts tool_input)) in
    any (λ pattern_text. occurs_in (codes pattern_text) text) sensitive_patterns
