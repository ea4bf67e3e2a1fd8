-- ===== src/Handles/Tests.antt =====
-- The handle store of xibi/handles.py on concrete payloads, and its theorems at concrete inputs.
use xibi.Base.{◌≡◌, refl, ◌≢◌, ◌⊎◌, true, none, some, String, List, [], ◌∷◌, arith, lookup}
use xibi.Handles.{
  Payload, list_of, ToolHandle, HandleStore, create, evict_if_needed, must_evict, drop_handle,
  generate_unique_id, get, found, evicted,
}
use xibi.Handles.Eviction.{IsValid}
use xibi.Handles.Contract.{IsBounded, create-IsValid, get-create}

abbrev payload : Payload
payload = record { shape = list_of 25 true; json_size = 40; rendered = b'[' ∷ b']' ∷ [] }

abbrev old_handle : ToolHandle
old_handle = record {
  handle_id = "h_0001";
  tool = "search";
  summary = b'[' ∷ b']' ∷ [];
  item_count = some 25;
  size_bytes = 40;
  created_at = 7;
}

-- Room for one handle, and one is there.
abbrev full : HandleStore
full = record {
  handles = ("h_0001", old_handle) ∷ [];
  payloads = ("h_0001", payload) ∷ [];
  evicted_ids = [];
  max_handles = 1;
  max_total_bytes = 100;
  total_bytes = 40;
}

full-IsValid : IsValid full
full-IsValid = record { distinct = (refl, tt); in_step = refl; accounted = omega arith }

evicts_the_oldest :
    get "h_0001" (create ("h_0001" ∷ "h_0002" ∷ []) "h_000003" "list" payload 9 full).1 ≡ evicted
unfolding get create evict_if_needed must_evict drop_handle generate_unique_id
evicts_the_oldest = refl

abbrev offered : List String
offered = "h_0001" ∷ "h_0002" ∷ []

new_id_free : lookup (generate_unique_id offered "h_000003" full.handles) full.handles ≡ none
unfolding generate_unique_id
new_id_free = refl

create-IsValid_example :
    let s' = (create offered "h_000003" "list" payload 9 full).1 in
    IsValid s'
    × IsBounded s'
    × (s'.max_handles ≡ full.max_handles)
    × (s'.max_total_bytes ≡ full.max_total_bytes)
create-IsValid_example =
    create-IsValid offered "h_000003" "list" payload 9 full full-IsValid new_id_free

get-create_example :
    let (h, s') = create offered "h_000003" "list" payload 9 full in
    (get h.handle_id s' ≡ found payload)
    × ((j : String) (p : Payload)
        → j ≢ h.handle_id
        → get j full ≡ found p
        → (get j s' ≡ found p) ⊎ (get j s' ≡ evicted))
    × ((j : String) → j ≢ h.handle_id → get j full ≡ evicted → get j s' ≡ evicted)
get-create_example = get-create offered "h_000003" "list" payload 9 full
