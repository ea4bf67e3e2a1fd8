-- ===== src/Handles/Eviction.antt =====
-- The bookkeeping of the handle store of xibi/handles.py: handles, payloads and bytes stay in step,
-- and the eviction loop ends with room for the new payload, or with an empty store.
use xibi.Base.{
  ℕ, zero, suc, ◌+◌, ◌≤◌, ◌≡◌, refl, ◌≢◌, ◌⊎◌, inl, inr, true, false, none, some, String, List, [],
  ◌∷◌, arith, ◌==◌, eq_iff, if◌then◌else◌, Dict, lookup, insert, remove, keys, length,
  lookup-remove, lookup-insert, Bool-cases, Option-cases, List-cases,
}
use xibi.Handles.{
  ToolHandle, HandleStore, drop_handle, older, oldest, must_evict, evict, evict_loop,
  evict_if_needed,
}

module _ {V : Type 0} where
  abbrev Distinct : Dict V → Type 0
  Distinct [] = Unit
  Distinct ((k, v) ∷ d) = (lookup k d ≡ none) × Distinct d

  remove-absent : (k : String) (d : Dict V) → lookup k d ≡ none → remove k d ≡ d
  remove-absent k [] h = refl
  remove-absent k ((j, v) ∷ d) h = ground (arith, remove-absent k d)

  remove-Distinct : (k : String) (d : Dict V) → Distinct d → Distinct (remove k d)
  remove-Distinct k [] h = tt
  remove-Distinct k ((j, v) ∷ d) h = ground (arith, remove-Distinct k d h.1, lookup-remove k j d)

  pub insert-Distinct : (k : String) (v : V) (d : Dict V) → Distinct d → Distinct (insert k v d)
  insert-Distinct k v [] h = (refl, tt)
  insert-Distinct k v ((j, w) ∷ d) h =
      ground (arith, insert-Distinct k v d h.1, lookup-insert k j v d, eq_iff j k, eq_iff k j)

  length-remove :
      (k : String) (v : V) (d : Dict V)
      → Distinct d
      → lookup k d ≡ some v
      → suc (length (remove k d)) ≡ length d
  length-remove k v [] h e = cc
  length-remove k v ((j, w) ∷ d) h e =
      ground (arith, eq_iff j k, remove-absent k d, length-remove k v d h.1)

abbrev remove_key : String → List String → List String
remove_key k [] = []
remove_key k (j ∷ js) = let rest = remove_key k js in if j == k then rest else j ∷ rest

abbrev insert_key : String → List String → List String
insert_key k [] = k ∷ []
insert_key k (j ∷ js) = if j == k then k ∷ js else j ∷ insert_key k js

keys-remove : {V : Type 0} (k : String) (d : Dict V) → keys (remove k d) ≡ remove_key k (keys d)
keys-remove k [] = refl
keys-remove k ((j, v) ∷ d) = ground (arith, keys-remove k d)

pub keys-insert :
    {V : Type 0} (k : String) (v : V) (d : Dict V) → keys (insert k v d) ≡ insert_key k (keys d)
keys-insert k v [] = refl
keys-insert k v ((j, w) ∷ d) = ground (arith, keys-insert k v d)

abbrev pub sizes : Dict ToolHandle → ℕ
sizes [] = 0
sizes ((k, h) ∷ d) = h.size_bytes + sizes d

sizes-remove :
    (k : String) (h : ToolHandle) (d : Dict ToolHandle)
    → Distinct d
    → lookup k d ≡ some h
    → sizes (remove k d) + h.size_bytes ≡ sizes d
sizes-remove k h [] dis e = cc
sizes-remove k h ((j, g) ∷ d) dis e =
    ground (arith, eq_iff j k, remove-absent k d, sizes-remove k h d dis.1)

pub record IsValid (s : HandleStore) : Type 0 where
  pub distinct : Distinct s.handles
  pub in_step : keys s.handles ≡ keys s.payloads
  pub accounted : s.total_bytes ≡ sizes s.handles

drop_handle-IsValid : (id : String) (s : HandleStore) → IsValid s → IsValid (drop_handle id s)
unfolding drop_handle
drop_handle-IsValid id s v = elim (Option-cases (lookup id s.handles)) [
  | inl absent ↦ rw (absent, drop_handle) v
  | inr (h, e) ↦
      rw (e, drop_handle)
        (record {
          distinct = remove-Distinct id s.handles v.distinct;
          in_step = ground (arith, keys-remove id s.handles, keys-remove id s.payloads, v.in_step);
          accounted = omega (arith, sizes-remove id h s.handles v.distinct e, v.accounted);
        })
]

oldest-lookup :
    (d : Dict ToolHandle) (id : String) (h : ToolHandle)
    → Distinct d
    → oldest d ≡ some (id, h)
    → lookup id d ≡ some h
oldest-lookup [] id h dis e = cc
oldest-lookup ((j, g) ∷ d) id h dis e = elim (Option-cases (oldest d)) [
  | inl last ↦ ground (arith, eq_iff j id)
  | inr ((i, f), more) ↦ ground (arith, eq_iff j id, oldest-lookup d i f dis.1)
]

oldest-some : (d : Dict ToolHandle) → d ≢ [] → (e : String × ToolHandle) × (oldest d ≡ some e)
oldest-some [] h = absurd (h refl)
oldest-some (e ∷ d) h = (older e (oldest d), refl)

length-drop_handle :
    (id : String) (h : ToolHandle) (s : HandleStore)
    → Distinct s.handles
    → lookup id s.handles ≡ some h
    → suc (length (drop_handle id s).handles) ≡ length s.handles
unfolding drop_handle
length-drop_handle id h s dis here = rw (here, drop_handle) (length-remove id h s.handles dis here)

-- One round of the loop evicts a handle.
evict-IsValid :
    (s : HandleStore)
    → IsValid s
    → s.handles ≢ []
    → IsValid (evict (oldest s.handles) s)
      × (suc (length (evict (oldest s.handles) s).handles) ≡ length s.handles)
evict-IsValid s v ne =
    let ((id, h), e) = oldest-some s.handles ne in
    let s' = record s { evicted_ids = id ∷ s.evicted_ids } in
    rw e (
      drop_handle-IsValid id s'
          (record { distinct = v.distinct; in_step = v.in_step; accounted = v.accounted }),
      length-drop_handle id h s' v.distinct (oldest-lookup s.handles id h v.distinct e),
    )

pub loop_stops :
    (fuel incoming : ℕ) (s : HandleStore)
    → must_evict incoming s ≡ false
    → evict_loop fuel incoming s ≡ s
unfolding evict_loop
loop_stops zero incoming s e = refl
loop_stops (suc fuel) incoming s e = rw e

pub loop_empty :
    (fuel incoming : ℕ) (s : HandleStore) → s.payloads ≡ [] → evict_loop fuel incoming s ≡ s
unfolding evict_loop
loop_empty zero incoming s e = refl
loop_empty (suc fuel) incoming s e = ground arith

pub loop_goes_on :
    (fuel incoming : ℕ) (s : HandleStore)
    → must_evict incoming s ≡ true
    → s.payloads ≢ []
    → evict_loop (suc fuel) incoming s ≡ evict_loop fuel incoming (evict (oldest s.handles) s)
unfolding evict_loop
loop_goes_on fuel incoming s e ne = ground arith

handles-ne-nil : (s : HandleStore) → IsValid s → s.payloads ≢ [] → s.handles ≢ []
handles-ne-nil s v ne e = ground (arith, v.in_step)

payloads-eq-nil : (s : HandleStore) → IsValid s → s.handles ≡ [] → s.payloads ≡ []
payloads-eq-nil s v e = ground (arith, v.in_step)

-- There is room for the payload, or there is nothing left to evict.
abbrev pub HasRoom : ℕ → HandleStore → Type 0
HasRoom incoming s = (must_evict incoming s ≡ false) ⊎ (s.payloads ≡ [])

evict_loop-HasRoom :
    (fuel incoming : ℕ) (s : HandleStore)
    → IsValid s
    → length s.handles ≤ fuel
    → IsValid (evict_loop fuel incoming s) × HasRoom incoming (evict_loop fuel incoming s)
evict_loop-HasRoom zero incoming s v fits =
    let none_left : s.handles ≡ [] = ground arith in
    let empty = payloads-eq-nil s v none_left in
    rw (loop_empty zero incoming s empty) (v, inr empty)
evict_loop-HasRoom (suc fuel) incoming s v fits = elim (Bool-cases (must_evict incoming s)) [
  | inr room ↦ rw (loop_stops (suc fuel) incoming s room) (v, inl room)
  | inl full ↦ elim (List-cases s.payloads) [
    | inl empty ↦ rw (loop_empty (suc fuel) incoming s empty) (v, inr empty)
    | inr ne ↦
        let (v', shorter) = evict-IsValid s v (handles-ne-nil s v ne) in
        rw (loop_goes_on fuel incoming s full ne)
          (evict_loop-HasRoom fuel incoming (evict (oldest s.handles) s) v' (omega arith))
  ]
]

-- Before a new payload is stored, the store evicts until the payload fits within both limits, or
-- until nothing is left; its handles, payloads and byte count stay in step. The loop needs at most
-- one round for each handle.
pub evict_if_needed-HasRoom :
    (incoming : ℕ) (s : HandleStore)
    → IsValid s
    → IsValid (evict_if_needed incoming s) × HasRoom incoming (evict_if_needed incoming s)
unfolding evict_if_needed
evict_if_needed-HasRoom incoming s v =
    evict_loop-HasRoom (length s.handles) incoming s v (omega arith)
