-- ===== src/React/Rendering.antt =====
-- The text that xibi/react.py salvages from a scratchpad: `_build_partial_answer` and the renderers
-- of the observations.
use xibi.Base.{
  ℕ, zero, suc, ◌-◌, Bool, true, false, not, ◌&&◌, Option, none, some, String, List, [], ◌∷◌, ◌++◌,
  ◌==◌, ltb, if◌then◌else◌, Dict, lookup, member, codes, decimal, length, take, drop, all,
}
use xibi.TrustGate.Sanitizer.{is_space}
use xibi.React.{
  Scalar, Item, entry, plain, Field, text, long_text, listed, raised, value, Output, Step,
  has_status,
}

abbrev ellipsis : List ℕ
ellipsis = 0x2026 ∷ []

-- `s[:n] + ("…" if len(s) > n else "")`
abbrev pub cut : ℕ → List ℕ → List ℕ
cut n s = take n s ++ (if ltb n (length s) then ellipsis else [])

-- `sep.join(parts)`
abbrev join : List ℕ → List (List ℕ) → List ℕ
join sep [] = []
join sep (p ∷ []) = p
join sep (p ∷ q ∷ ps) = p ++ (sep ++ join sep (q ∷ ps))

abbrev newline : List ℕ
newline = b'\n' ∷ []

abbrev label_keys : List String
label_keys = "title" ∷ "name" ∷ "subject" ∷ "summary" ∷ []

abbrev extra_keys : List String
extra_keys = "company" ∷ "url" ∷ "link" ∷ "date" ∷ "from" ∷ "location" ∷ []

abbrev first_value : Dict Scalar → List ℕ
first_value [] = []
first_value ((k, v) ∷ d) = take 80 v.rendered

-- The first of the keys that has a true value, else the first value of the dict.
abbrev label : List String → Dict Scalar → List ℕ
label [] d = first_value d
label (k ∷ ks) d =
    let rest = label ks d in
    elim (lookup k d) [ none ↦ rest | some v ↦ if v.truth then v.rendered else rest ]

abbrev extra_bits : List String → Dict Scalar → List (List ℕ)
extra_bits [] d = []
extra_bits (k ∷ ks) d =
    let rest = extra_bits ks d in
    elim (lookup k d) [
      | none ↦ rest
      | some v ↦ if v.truth then (codes k ++ (codes "=" ++ take 80 v.rendered)) ∷ rest else rest
    ]

abbrev in_brackets : List (List ℕ) → List ℕ
in_brackets [] = []
in_brackets (p ∷ ps) = codes " (" ++ (join (codes ", ") (p ∷ ps) ++ codes ")")

abbrev render_item : Item → List ℕ
render_item (entry d) = take 200 (label label_keys d) ++ in_brackets (extra_bits extra_keys d)
render_item (plain s) = take 200 s

abbrev numbered : ℕ → List Item → List (List ℕ)
numbered i [] = []
numbered i (item ∷ items) = (decimal i ++ (codes ". " ++ render_item item)) ∷ numbered (suc i) items

-- `_render_list_for_user`
render_list_for_user : List Item → List ℕ
render_list_for_user items = join newline (numbered 1 items)

abbrev content_keys : List String
content_keys = "content" ∷ "answer" ∷ "message" ∷ "text" ∷ "summary" ∷ []

-- A field that has content: a text or a list that is not empty.
abbrev content : Field → Option (List ℕ)
content (text s) = if s == "" then none else some (cut 2000 (codes s))
content (long_text (c ∷ cs)) = some (cut 2000 (c ∷ cs))
content (listed (i ∷ is) s) = some (render_list_for_user (take 20 (i ∷ is)))
content _ = none

abbrev first_content : List String → Output → Option (List ℕ)
first_content [] d = none
first_content (k ∷ ks) d =
    let rest = first_content ks d in
    elim (lookup k d) [ none ↦ rest | some f ↦ elim (content f) [ none ↦ rest | some s ↦ some s ] ]

-- `str(v)`
abbrev pub str_of : Field → List ℕ
str_of (text s) = codes s
str_of (long_text s) = s
str_of (listed items s) = s
str_of (raised e s) = s
str_of (value v) = v.rendered

-- The lines of the fields, `room` of them at most, without those that are skipped.
abbrev parts : ℕ → Output → List (List ℕ)
parts zero d = []
parts (suc room) [] = []
parts (suc room) ((k, v) ∷ d) =
    let skipped = parts (suc room) d in
    let rest = parts room d in
    if member k ("status" ∷ "_xibi_error" ∷ [])
    then skipped
    else (codes "- " ++ (codes k ++ (codes ": " ++ cut 200 (str_of v)))) ∷ rest

abbrev bulleted : List ℕ → List (List ℕ) → List ℕ
bulleted whole [] = take 2000 whole
bulleted whole (p ∷ ps) = join newline (p ∷ ps)

-- `_render_dict_for_user`; `whole` is the `str(...)` of the dict.
pub render_dict_for_user : (Output → List ℕ) → Output → List ℕ
unfolding render_list_for_user
render_dict_for_user whole d = elim (first_content content_keys d) [
  | none ↦ bulleted (whole d) (parts 12 d)
  | some s ↦ s
]

-- `not s.strip()`
abbrev is_blank : List ℕ → Bool
is_blank s = all is_space s

abbrev is_empty : Output → Bool
is_empty [] = true
is_empty (f ∷ d) = false

abbrev has_error : Step → Bool
has_error s = elim s.error [ none ↦ false | some e ↦ true ]

abbrev pub pseudo_tools : List String
pseudo_tools = "finish" ∷ "ask_user" ∷ "error" ∷ []

abbrev shown_tool : String → String
shown_tool tool = if tool == "" then "tool" else tool

-- Whether `_build_partial_answer` keeps a step.
pub is_useful : (Output → List ℕ) → Step → Bool
is_useful whole s =
    not (has_error s)
    && (not (is_empty s.tool_output)
        && (not (has_status "error" s.tool_output)
            && (not (is_blank (render_dict_for_user whole s.tool_output))
                && not (member (shown_tool s.tool) pseudo_tools))))

abbrev pub useful : (Output → List ℕ) → List Step → List (String × List ℕ)
useful whole [] = []
useful whole (s ∷ ss) =
    let rest = useful whole ss in
    if is_useful whole s
    then (shown_tool s.tool, render_dict_for_user whole s.tool_output) ∷ rest
    else rest

-- `xs[-n:]`
abbrev last_of : {A : Type 0} → ℕ → List A → List A
last_of n xs = drop (length xs - n) xs

abbrev sections : ℕ → List (String × List ℕ) → List (List ℕ)
sections i [] = []
sections i ((tool, formatted) ∷ rest) =
    (codes "**" ++ (decimal i ++ (codes ". From `" ++ (codes tool ++ codes "`:**"))))
    ∷ formatted
    ∷ []
    ∷ sections (suc i) rest

abbrev partial_text : List ℕ → List (String × List ℕ) → List ℕ
partial_text reason found = join newline (
    (codes "I couldn't complete this task cleanly ("
      ++ (reason ++ codes "), but here's what I gathered:"))
    ∷ []
    ∷ sections 1 (last_of 5 found))

abbrev pub salvage : List ℕ → List (String × List ℕ) → Option (List ℕ)
salvage reason [] = none
salvage reason (u ∷ us) = some (partial_text reason (u ∷ us))

-- `_build_partial_answer`
unfoldable pub build_partial_answer : (Output → List ℕ) → List Step → List ℕ → Option (List ℕ)
unfolding is_useful
build_partial_answer whole scratchpad reason = salvage reason (useful whole scratchpad)
