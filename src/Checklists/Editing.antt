-- ===== src/Checklists/Editing.antt =====
-- xibi/checklists/lists.py and the completion of items in api.py. A row's status text and metadata,
-- and the actions of deadlines, are left out. `lower` stands for `str.lower`.
use xibi.Base.{
  ℕ, suc, ◌+◌, Bool, true, false, not, ◌&&◌, Option, none, some, List, [], ◌∷◌, ◌++◌, map, String,
  ◌==◌, select, codes, same_codes, if◌then◌else◌, eqb, leb,
}
use xibi.Checklists.{Item, fuzzy_match_item}
use xibi.Checklists.Rollover.{
  opened, Instance, Template, confirm, Tables, open_items, newest, is_open, closed_at_end,
}

-- SQLite's LOWER, which knows the ASCII letters only.
abbrev sql_lower : List ℕ → List ℕ
sql_lower [] = []
sql_lower (c ∷ cs) = (if leb b'A' c && leb c b'Z' then c + 32 else c) ∷ sql_lower cs

abbrev same_name : String → String → Bool
same_name a b = same_codes (sql_lower (codes a)) (sql_lower (codes b))

abbrev pub find_template : String → List Template → Option Template
find_template name [] = none
find_template name (t ∷ ts) = if same_name t.name name then some t else find_template name ts

abbrev pub find_active_instance : String → List Instance → Option Instance
find_active_instance template_id instances =
    newest (select (λ i. i.template_id == template_id && is_open i.status) instances)

-- `COALESCE(MAX(position) + 1, 0)`
abbrev pub next_position : String → List Item → ℕ
next_position id [] = 0
next_position id (i ∷ is) =
    let n = next_position id is in
    if i.instance_id == id then if leb n i.position then suc i.position else n else n

-- The rows of a new list.
abbrev pub insert_list : String → String → String → ℕ → Tables → Tables
insert_list template_id instance_id name now t = record t {
  templates =
      t.templates ++ (record { id = template_id; name = name; rollover_policy = confirm } ∷ []);
  instances =
      t.instances
      ++ (record {
        id = instance_id;
        template_id = template_id;
        created_at = now;
        status = opened;
        closed_at = none;
      }
          ∷ []);
}

abbrev pub create_unless : String → String → String → ℕ → Tables → Option Template → Option Tables
create_unless template_id instance_id name now t (some existing) = none
create_unless template_id instance_id name now t none =
    some (insert_list template_id instance_id name now t)

-- `none` stands for the ValueError of a name that is taken.
abbrev pub create_list : String → String → String → ℕ → Tables → Option Tables
create_list template_id instance_id name now t =
    create_unless template_id instance_id name now t (find_template name t.templates)

abbrev pub insert_item : String → String → String → Tables → Tables
insert_item item_id instance_id label t = record t {
  items =
      t.items
      ++ (record {
        id = item_id;
        instance_id = instance_id;
        label = label;
        position = next_position instance_id t.items;
        completed_at = none;
        rollover_prompted_at = none;
      }
          ∷ []);
}

abbrev pub insert_in : String → String → Tables → Option Instance → Option Tables
insert_in item_id label t none = none
insert_in item_id label t (some inst) = some (insert_item item_id inst.id label t)

abbrev pub add_to :
    String → String → String → String → String → ℕ → Tables → Option Template → Option Tables
add_to template_id instance_id item_id name label now t none =
    some (insert_item item_id instance_id label (insert_list template_id instance_id name now t))
add_to template_id instance_id item_id name label now t (some template) =
    insert_in item_id label t (find_active_instance template.id t.instances)

-- `add_item`, with the ids of the rows it may create.
abbrev pub add_item : String → String → String → String → String → ℕ → Tables → Option Tables
add_item template_id instance_id item_id name label now t =
    add_to template_id instance_id item_id name label now t (find_template name t.templates)

-- `_require_list`
abbrev active_of : Tables → Option Template → Option Instance
active_of t none = none
active_of t (some template) = find_active_instance template.id t.instances

abbrev pub require_list : String → Tables → Option Instance
require_list name t = active_of t (find_template name t.templates)

abbrev pub match_in : (List ℕ → List ℕ) → String → List Item → Option Instance → Option Item
match_in lower label_hint items none = none
match_in lower label_hint items (some inst) = fuzzy_match_item lower inst.id label_hint items

abbrev pub remove_found : Tables → Option Item → Option Tables
remove_found t none = none
remove_found t (some item) = some (record t { items = select (λ i. not (i.id == item.id)) t.items })

-- `none` stands for the ValueError of an unknown list or item, here and below.
unfoldable pub remove_item : (List ℕ → List ℕ) → String → String → Tables → Option Tables
remove_item lower name label_hint t =
    remove_found t (match_in lower label_hint t.items (require_list name t))

abbrev pub relabelled : Option String → Item → Item
relabelled none i = i
relabelled (some label) i = record i { label = label }

-- UPDATE ... WHERE id = ?
abbrev pub update_row : (Item → Item) → String → List Item → List Item
update_row change id items = map (λ i. if i.id == id then change i else i) items

abbrev pub update_found : Option String → Tables → Option Item → Option Tables
update_found label t none = none
update_found label t (some item) =
    some (record t { items = update_row (relabelled label) item.id t.items })

unfoldable pub update_item :
    (List ℕ → List ℕ) → String → String → Option String → Tables → Option Tables
update_item lower name label_hint label t =
    update_found label t (match_in lower label_hint t.items (require_list name t))

abbrev item_at : String → ℕ → List Item → Option Item
item_at id position [] = none
item_at id position (i ∷ is) =
    if i.instance_id == id && eqb i.position position then some i else item_at id position is

abbrev pub completed : Option ℕ → Item → Item
completed at i = record i { completed_at = at }

abbrev pub no_items : List Item → Bool
no_items [] = true
no_items (i ∷ is) = false

-- Whether the instance is closed now, and the tables.
abbrev pub close_if_done : String → ℕ → Tables → Bool × Tables
close_if_done id now t =
    let fully_closed = no_items (open_items id t.items) in
    (
      fully_closed,
      if fully_closed
          then record t {
            instances = map (λ i. if i.id == id then closed_at_end now i else i) t.instances;
          }
          else t,
    )

abbrev pub complete_found : String → Option ℕ → ℕ → Tables → Option Item → Option (Bool × Tables)
complete_found id at now t none = none
complete_found id at now t (some item) =
    some (close_if_done id now (record t { items = update_row (completed at) item.id t.items }))

-- Exactly one of a position and a hint is wanted.
abbrev pub selected :
    (List ℕ → List ℕ) → String → Option ℕ → Option String → List Item → Option Item
selected lower id (some position) none items = item_at id position items
selected lower id none (some label_hint) items = fuzzy_match_item lower id label_hint items
selected lower id _ _ items = none

unfoldable pub update_checklist_item :
    (List ℕ → List ℕ)
    → String
    → Option ℕ
    → Option String
    → Bool
    → ℕ
    → Tables
    → Option (Bool × Tables)
update_checklist_item lower id position label_hint is_done now t =
    complete_found id (if is_done then some now else none) now t
      (selected lower id position label_hint t.items)
