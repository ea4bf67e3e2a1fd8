-- ===== src/Handles.antt =====
-- xibi/handles.py: the store that keeps large tool outputs out of the prompt, for one run.
pub mod Eviction
pub mod Contract
mod Tests
use xibi.Base.{
  ℕ, zero, suc, ◌+◌, ◌-◌, Bool, true, false, not, ◌&&◌, Option, none, some, String, List, [], ◌∷◌,
  ◌++◌, ltb, leb, if◌then◌else◌, Dict, lookup, insert, remove, length, take, is_some, member,
}
use mathlib.Core.Bool.{◌||◌}

-- What the heuristics see of a payload: a list with its length and whether it begins with a dict, a
-- dict with the length of each value that is a list, or anything else.
pub data Shape : Type 0 where
  list_of : ℕ → Bool → Shape
  dict_of : Dict (Option ℕ) → Shape
  other : Shape

-- A payload: its shape, the size of its JSON text, and its `str(...)` in code points.
pub record Payload : Type 0 where
  pub shape : Shape
  pub json_size : ℕ
  pub rendered : List ℕ

pub record ToolHandle : Type 0 where
  pub handle_id : String
  pub tool : String
  pub summary : List ℕ
  pub item_count : Option ℕ
  pub size_bytes : ℕ
  pub created_at : ℕ

pub record HandleStore : Type 0 where
  pub handles : Dict ToolHandle
  pub payloads : Dict Payload
  pub evicted_ids : List String
  pub max_handles : ℕ
  pub max_total_bytes : ℕ
  pub total_bytes : ℕ

abbrev collection_keys : List String
collection_keys = "data" ∷ "items" ∷ "results" ∷ "jobs" ∷ []

abbrev list_length : Option (Option ℕ) → Option ℕ
list_length none = none
list_length (some n) = n

abbrev or_else : Option ℕ → Option ℕ → Option ℕ
or_else none b = b
or_else (some n) b = some n

abbrev first_list : List String → Dict (Option ℕ) → Option ℕ
first_list [] d = none
first_list (k ∷ ks) d = or_else (list_length (lookup k d)) (first_list ks d)

pub get_item_count : Shape → Option ℕ
get_item_count (list_of n d) = some n
get_item_count (dict_of d) = first_list collection_keys d
get_item_count other = none

abbrev is_long : Option ℕ → Bool
is_long none = false
is_long (some n) = leb 20 n

abbrev any_long : List String → Dict (Option ℕ) → Bool
any_long [] d = false
any_long (k ∷ ks) d = is_long (list_length (lookup k d)) || any_long ks d

unfoldable pub is_large_collection : Shape → Bool
is_large_collection (list_of n d) = leb 20 n
is_large_collection (dict_of d) = any_long collection_keys d
is_large_collection other = false

unfoldable pub generate_summary : List ℕ → List ℕ
generate_summary s = if ltb 500 (length s) then take 497 s ++ (b'.' ∷ b'.' ∷ b'.' ∷ []) else s

unfoldable pub drop_handle : String → HandleStore → HandleStore
drop_handle id s = elim (lookup id s.handles) [
  | none ↦ s
  | some h ↦ record s {
    handles = remove id s.handles;
    payloads = remove id s.payloads;
    total_bytes = s.total_bytes - h.size_bytes;
  }
]

-- The first of eight random ids that is not taken, or else a longer one, which is not looked up.
unfoldable pub generate_unique_id : List String → String → Dict ToolHandle → String
generate_unique_id [] fallback handles = fallback
generate_unique_id (c ∷ cs) fallback handles =
    let rest = generate_unique_id cs fallback handles in
    if is_some (lookup c handles) then rest else c

-- `min(handles.keys(), key=created_at)`, the first of the oldest.
abbrev pub older : String × ToolHandle → Option (String × ToolHandle) → String × ToolHandle
older e none = e
older e (some f) = if leb (e.1).created_at (f.1).created_at then e else f

abbrev pub oldest : Dict ToolHandle → Option (String × ToolHandle)
oldest [] = none
oldest (e ∷ d) = some (older e (oldest d))

unfoldable pub must_evict : ℕ → HandleStore → Bool
must_evict incoming s =
    leb s.max_handles (length s.payloads) || ltb s.max_total_bytes (s.total_bytes + incoming)

abbrev pub evict : Option (String × ToolHandle) → HandleStore → HandleStore
evict none s = s
evict (some (id, h)) s = drop_handle id (record s { evicted_ids = id ∷ s.evicted_ids })

-- The loop of `_evict_if_needed`, with fuel for its rounds.
unfoldable pub evict_loop : ℕ → ℕ → HandleStore → HandleStore
evict_loop zero incoming s = s
evict_loop (suc fuel) incoming s =
    let rest = evict_loop fuel incoming (evict (oldest s.handles) s) in
    if must_evict incoming s then (elim s.payloads [ [] ↦ s | _ ∷ _ ↦ rest ]) else s

unfoldable pub evict_if_needed : ℕ → HandleStore → HandleStore
unfolding evict_loop
evict_if_needed incoming s = evict_loop (length s.handles) incoming s

abbrev new_handle : String → String → Payload → ℕ → ToolHandle
new_handle id tool payload now = record {
  handle_id = id;
  tool = tool;
  summary = generate_summary payload.rendered;
  item_count = get_item_count payload.shape;
  size_bytes = payload.json_size;
  created_at = now;
}

abbrev pub add_handle : String → ToolHandle → Payload → HandleStore → HandleStore
add_handle id h payload s = record s {
  handles = insert id h s.handles;
  payloads = insert id payload s.payloads;
  total_bytes = s.total_bytes + h.size_bytes;
}

-- The random source is given as the ids that it offers.
unfoldable pub create :
    List String → String → String → Payload → ℕ → HandleStore → ToolHandle × HandleStore
create offered fallback tool payload now s =
    let id = generate_unique_id offered fallback s.handles in
    let h = new_handle id tool payload now in
    (h, add_handle id h payload (evict_if_needed payload.json_size s))

pub data Lookup : Type 0 where
  found : Payload → Lookup
  evicted not_in_store : Lookup

abbrev missing : Bool → Lookup
missing true = evicted
missing false = not_in_store

-- `get`; two of its answers are the texts of the error that it raises.
unfoldable pub get : String → HandleStore → Lookup
get id s = elim (lookup id s.payloads) [
  | none ↦ missing (member id s.evicted_ids)
  | some p ↦ found p
]
