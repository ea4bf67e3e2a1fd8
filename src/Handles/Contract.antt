-- ===== src/Handles/Contract.antt =====
-- What a run can rely on when it stores a tool output in the handle store of xibi/handles.py.
use xibi.Base.{
  ℕ, zero, suc, ◌+◌, ◌≤◌, ◌≡◌, refl, ◌≢◌, ◌⊎◌, inl, inr, true, false, Option, none, some, String,
  List, [], ◌∷◌, ◌++◌, arith, eq_iff, eq_refl, ltb, Dict, lookup, insert, length, lookup-remove,
  lookup-insert, Bool-cases, List-cases, member, ◌∙◌, take, length-append, length-take-le,
}
use xibi.Handles.{
  Payload, ToolHandle, HandleStore, drop_handle, oldest, must_evict, evict, evict_loop,
  evict_if_needed, add_handle, create, generate_unique_id, get, found, evicted, generate_summary,
}
use xibi.Handles.Eviction.{
  IsValid, HasRoom, evict_if_needed-HasRoom, loop_stops, loop_empty, loop_goes_on, sizes,
  insert-Distinct, keys-insert,
}

-- What a round of the eviction loop, or several, leaves of the store: the limits, and each handle's
-- payload, but for those that it now names as evicted.
pub record Shrinks (s s' : HandleStore) : Type 0 where
  pub limits : (s'.max_handles ≡ s.max_handles) × (s'.max_total_bytes ≡ s.max_total_bytes)
  pub absent : (id : String) → lookup id s.handles ≡ none → lookup id s'.handles ≡ none
  pub kept :
      (id : String) (p : Payload)
      → get id s ≡ found p
      → (get id s' ≡ found p) ⊎ (get id s' ≡ evicted)
  pub gone : (id : String) → get id s ≡ evicted → get id s' ≡ evicted

evict-Shrinks : (s : HandleStore) (e : Option (String × ToolHandle)) → Shrinks s (evict e s)
unfolding drop_handle get
evict-Shrinks s none = record {
  limits = (refl, refl);
  absent = λ id h. h;
  kept = λ id p h. inl h;
  gone = λ id h. h;
}
evict-Shrinks s (some (old, h)) = record {
  limits = ground arith;
  absent = λ id a. ground (arith, lookup-remove old id s.handles);
  kept = λ id p f. ground (arith, lookup-remove old id s.payloads, eq_iff old id);
  gone = λ id f. ground (arith, lookup-remove old id s.payloads, eq_iff old id);
}

Shrinks-refl : (s : HandleStore) → Shrinks s s
Shrinks-refl s = record {
  limits = (refl, refl);
  absent = λ id h. h;
  kept = λ id p h. inl h;
  gone = λ id h. h;
}

Shrinks-trans : (s t u : HandleStore) → Shrinks s t → Shrinks t u → Shrinks s u
Shrinks-trans s t u a b = record {
  limits = (b.limits.0 ∙ a.limits.0, b.limits.1 ∙ a.limits.1);
  absent = λ id h. b.absent id (a.absent id h);
  kept = λ id p h. elim (a.kept id p h) [ inl f ↦ b.kept id p f | inr g ↦ inr (b.gone id g) ];
  gone = λ id h. b.gone id (a.gone id h);
}

evict_loop-Shrinks : (fuel incoming : ℕ) (s : HandleStore) → Shrinks s (evict_loop fuel incoming s)
unfolding evict_loop
evict_loop-Shrinks zero incoming s = Shrinks-refl s
evict_loop-Shrinks (suc fuel) incoming s = elim (Bool-cases (must_evict incoming s)) [
  | inr room ↦ rw (loop_stops (suc fuel) incoming s room) (Shrinks-refl s)
  | inl full ↦ elim (List-cases s.payloads) [
    | inl empty ↦ rw (loop_empty (suc fuel) incoming s empty) (Shrinks-refl s)
    | inr ne ↦
        let next = evict (oldest s.handles) s in
        rw (loop_goes_on fuel incoming s full ne) (
          Shrinks-trans s next (evict_loop fuel incoming next) (evict-Shrinks s (oldest s.handles))
            (evict_loop-Shrinks fuel incoming next))
  ]
]

evict_if_needed-Shrinks : (incoming : ℕ) (s : HandleStore) → Shrinks s (evict_if_needed incoming s)
unfolding evict_if_needed
evict_if_needed-Shrinks incoming s = evict_loop-Shrinks (length s.handles) incoming s

length-insert-le :
    {V : Type 0} (k : String) (v : V) (d : Dict V) → length (insert k v d) ≤ length d + 1
length-insert-le k v [] = omega arith
length-insert-le k v ((j, w) ∷ d) = ground (arith, length-insert-le k v d)

sizes-insert :
    (k : String) (h : ToolHandle) (d : Dict ToolHandle)
    → lookup k d ≡ none
    → sizes (insert k h d) ≡ sizes d + h.size_bytes
sizes-insert k h [] e = omega arith
sizes-insert k h ((j, g) ∷ d) e = ground (arith, sizes-insert k h d)

add_handle-IsValid :
    (id : String) (h : ToolHandle) (p : Payload) (s : HandleStore)
    → IsValid s
    → lookup id s.handles ≡ none
    → IsValid (add_handle id h p s)
add_handle-IsValid id h p s v fresh = record {
  distinct = insert-Distinct id h s.handles v.distinct;
  in_step = ground (arith, keys-insert id h s.handles, keys-insert id p s.payloads, v.in_step);
  accounted = omega (arith, sizes-insert id h s.handles fresh, v.accounted);
}

-- Within both limits, or a single payload that is too large for them.
abbrev pub IsBounded : HandleStore → Type 0
IsBounded s =
    ((length s.payloads ≤ s.max_handles) × (s.total_bytes ≤ s.max_total_bytes))
    ⊎ (length s.payloads ≤ 1)

add_handle-IsBounded :
    (id : String) (h : ToolHandle) (p : Payload) (s : HandleStore)
    → HasRoom h.size_bytes s
    → IsBounded (add_handle id h p s)
unfolding must_evict
add_handle-IsBounded id h p s (inl room) =
    let longer = length-insert-le id p s.payloads in inl (ground arith, ground arith)
add_handle-IsBounded id h p s (inr empty) =
    let longer = length-insert-le id p s.payloads in inr (rw empty (omega arith))

get-add_handle_self :
    (id : String) (h : ToolHandle) (p : Payload) (s : HandleStore)
    → get id (add_handle id h p s) ≡ found p
unfolding get
get-add_handle_self id h p s = ground (arith, lookup-insert id id p s.payloads, eq_refl id)

get-add_handle_ne :
    (id j : String) (h : ToolHandle) (p : Payload) (s : HandleStore)
    → j ≢ id
    → get j (add_handle id h p s) ≡ get j s
unfolding get
get-add_handle_ne id j h p s ne = ground (arith, lookup-insert id j p s.payloads, eq_iff id j)

module _ (offered : List String) (fallback tool : String) (payload : Payload) (now : ℕ)
    (s : HandleStore) where
  -- If the new id is not taken, storing an output keeps handles, payloads and the byte count in
  -- step, leaves the limits as they were, and leaves the store within both of them, or with no more
  -- than the new payload.
  pub create-IsValid :
      IsValid s
      → lookup (generate_unique_id offered fallback s.handles) s.handles ≡ none
      → let s' = (create offered fallback tool payload now s).1 in
        IsValid s'
        × IsBounded s'
        × (s'.max_handles ≡ s.max_handles)
        × (s'.max_total_bytes ≡ s.max_total_bytes)
  unfolding create
  create-IsValid valid fresh =
      let id = generate_unique_id offered fallback s.handles in
      let h = (create offered fallback tool payload now s).0 in
      let s' = evict_if_needed payload.json_size s in
      let (v, room) = evict_if_needed-HasRoom payload.json_size s valid in
      let shrinks = evict_if_needed-Shrinks payload.json_size s in
      (
        add_handle-IsValid id h payload s' v (shrinks.absent id fresh),
        add_handle-IsBounded id h payload s' room,
        shrinks.limits.0,
        shrinks.limits.1,
      )

  -- The new handle gives its payload back. Any other handle that gave its payload still does, or is
  -- reported as evicted; and one that is reported as evicted stays so.
  pub get-create :
      let (h, s') = create offered fallback tool payload now s in
      (get h.handle_id s' ≡ found payload)
      × ((j : String) (p : Payload)
          → j ≢ h.handle_id
          → get j s ≡ found p
          → (get j s' ≡ found p) ⊎ (get j s' ≡ evicted))
      × ((j : String) → j ≢ h.handle_id → get j s ≡ evicted → get j s' ≡ evicted)
  unfolding create
  get-create =
      let id = generate_unique_id offered fallback s.handles in
      let h = (create offered fallback tool payload now s).0 in
      let s' = evict_if_needed payload.json_size s in
      let shrinks = evict_if_needed-Shrinks payload.json_size s in
      (
        get-add_handle_self id h payload s',
        (λ j p ne f. rw (get-add_handle_ne id j h payload s' ne) (shrinks.kept j p f)),
        (λ j ne g. rw (get-add_handle_ne id j h payload s' ne) (shrinks.gone j g)),
      )

-- An offered id that is not taken makes the new id one that is not taken.
generate_unique_id_free :
    (offered : List String) (fallback : String) (handles : Dict ToolHandle) (free : String)
    → member free offered ≡ true
    → lookup free handles ≡ none
    → lookup (generate_unique_id offered fallback handles) handles ≡ none
unfolding generate_unique_id
generate_unique_id_free [] fallback handles free m e = cc
generate_unique_id_free (c ∷ cs) fallback handles free m e =
    ground (arith, eq_iff c free, generate_unique_id_free cs fallback handles free)

cut-le : (n : ℕ) (text dots : List ℕ) → length dots ≤ 3 → length (take n text ++ dots) ≤ n + 3
cut-le n text dots h = omega (arith, length-append (take n text) dots, length-take-le n text)

not_long : (n m : ℕ) → ltb n m ≡ false → m ≤ n
not_long n m h = ground arith

-- A summary has at most 500 characters.
length-generate_summary-le : (text : List ℕ) → length (generate_summary text) ≤ 500
unfolding generate_summary
length-generate_summary-le text = elim (Bool-cases (ltb 500 (length text))) [
  | inl long ↦ rw long (cut-le 497 text (b'.' ∷ b'.' ∷ b'.' ∷ []) (omega arith))
  | inr short ↦ rw short (not_long 500 (length text) short)
]
