-- ===== src/Checklists/Rollover.antt =====
-- xibi/checklists/lifecycle.py: what becomes of an old instance's open items when a new one is made.
-- Messages are returned, and taken to be sent. An instance's id is its row's key.
use xibi.Base.{
  ℕ, suc, ◌-◌, Bool, true, false, not, ◌&&◌, Option, none, some, List, [], ◌∷◌, ◌++◌, map, String,
  ◌==◌, select, if◌then◌else◌, leb, ltb,
}
use xibi.Checklists.{Item}

pub data InstanceStatus : Type 0 where
  opened closed expired : InstanceStatus

pub record Instance : Type 0 where
  pub id : String
  pub template_id : String
  pub created_at : ℕ
  pub status : InstanceStatus
  pub closed_at : Option ℕ

pub data RolloverPolicy : Type 0 where
  expire roll_forward nag confirm other_policy : RolloverPolicy

-- A nudge with the labels that are still open, or the buttons for an item.
pub data Message : Type 0 where
  nudge : List String → Message
  prompt : String → Message

pub record Template : Type 0 where
  pub id : String
  pub name : String
  pub rollover_policy : RolloverPolicy

pub record Tables : Type 0 where
  pub templates : List Template
  pub instances : List Instance
  pub items : List Item

abbrev is_none {ℓ} : {A : Type ℓ} → Option A → Bool
is_none none = true
is_none (some a) = false

-- `WHERE instance_id = ? AND completed_at IS NULL`
abbrev pub is_open_in : String → Item → Bool
is_open_in instance_id i = i.instance_id == instance_id && is_none i.completed_at

abbrev pub open_items : String → List Item → List Item
open_items instance_id items = select (is_open_in instance_id) items

-- `ORDER BY created_at DESC LIMIT 1`, the first row of those created at the same time.
abbrev pub newest : List Instance → Option Instance
newest [] = none
newest (i ∷ is) = elim (newest is) [
  | none ↦ some i
  | some j ↦ if leb j.created_at i.created_at then some i else some j
]

abbrev pub previous_instance : String → String → List Instance → Option Instance
previous_instance template_id new_id instances =
    newest (select (λ i. i.template_id == template_id && not (i.id == new_id)) instances)

abbrev pub expired_at : ℕ → Instance → Instance
expired_at now i = record i { status = expired; closed_at = some now }

-- UPDATE checklist_instances SET status = 'expired' ... WHERE id = ?
abbrev pub expire_instance : ℕ → String → List Instance → List Instance
expire_instance now id instances = map (λ i. if i.id == id then expired_at now i else i) instances

-- The copy of an open item in another instance.
abbrev pub carried : String → String → Item → Item
carried new_item_id instance_id i = record i {
  id = new_item_id;
  instance_id = instance_id;
  completed_at = none;
  rollover_prompted_at = none;
}

abbrev pub carried_all : (ℕ → String) → String → List Item → List Item
carried_all new_item_id instance_id [] = []
carried_all new_item_id instance_id (i ∷ is) =
    carried (new_item_id 0) instance_id i ∷ carried_all (λ n. new_item_id (suc n)) instance_id is

-- UPDATE checklist_instance_items SET rollover_prompted_at = ? WHERE id = ?
abbrev set_prompted : Option ℕ → String → List Item → List Item
set_prompted at id items =
    map (λ i. if i.id == id then record i { rollover_prompted_at = at } else i) items

abbrev prompt_all : ℕ → List Item → List Item → List Item
prompt_all now [] items = items
prompt_all now (i ∷ is) items = prompt_all now is (set_prompted (some now) i.id items)

abbrev apply_policy :
    RolloverPolicy → (ℕ → String) → String → String → ℕ → List Item → Tables → Tables × List Message
apply_policy expire new_item_id new_id prev now items t =
    (record t { instances = expire_instance now prev t.instances }, [])
apply_policy roll_forward new_item_id new_id prev now items t = (
  record t {
    items = t.items ++ carried_all new_item_id new_id items;
    instances = expire_instance now prev t.instances;
  },
  [],
)
apply_policy nag new_item_id new_id prev now items t = (
  record t { instances = expire_instance now prev t.instances },
  nudge (map (λ i. i.label) items) ∷ [],
)
apply_policy confirm new_item_id new_id prev now items t =
    (record t { items = prompt_all now items t.items }, map (λ i. prompt i.id) items)
apply_policy other_policy new_item_id new_id prev now items t = (t, [])

abbrev pub roll_over :
    Option RolloverPolicy
    → (ℕ → String)
    → String
    → String
    → ℕ
    → List Item
    → Tables
    → Option (Tables × List Message)
roll_over policy new_item_id new_id prev now [] t = some (t, [])
roll_over none new_item_id new_id prev now (i ∷ is) t = none
roll_over (some policy) new_item_id new_id prev now (i ∷ is) t =
    some (apply_policy policy new_item_id new_id prev now (i ∷ is) t)

abbrev pub policy_of : String → List Template → Option RolloverPolicy
policy_of id [] = none
policy_of id (t ∷ ts) = if t.id == id then some t.rollover_policy else policy_of id ts

abbrev pub roll_over_from :
    (ℕ → String) → String → String → ℕ → Tables → Option Instance → Option (Tables × List Message)
roll_over_from new_item_id template_id new_id now t none = some (t, [])
roll_over_from new_item_id template_id new_id now t (some prev) =
    roll_over (policy_of template_id t.templates) new_item_id new_id prev.id now
      (open_items prev.id t.items) t

-- `_handle_rollover`; `none` stands for the exception of a template that is gone.
unfoldable pub handle_rollover :
    (ℕ → String) → String → String → ℕ → Tables → Option (Tables × List Message)
handle_rollover new_item_id template_id new_id now t =
    roll_over_from new_item_id template_id new_id now t
      (previous_instance template_id new_id t.instances)

abbrev pub is_prompted_before : ℕ → Item → Bool
is_prompted_before cutoff i = elim i.rollover_prompted_at [ none ↦ false | some at ↦ ltb at cutoff ]

abbrev pub is_open : InstanceStatus → Bool
is_open opened = true
is_open _ = false

-- An open instance with this id is expired.
abbrev pub expire_if_open : ℕ → String → Instance → Instance
expire_if_open now id i = if i.id == id && is_open i.status then expired_at now i else i

abbrev pub expire_stale : ℕ → List Item → List Instance → List Instance
expire_stale now [] instances = instances
expire_stale now (item ∷ rest) instances =
    expire_stale now rest (map (expire_if_open now item.instance_id) instances)

-- 48 hours
abbrev pub prompt_lifetime : ℕ
prompt_lifetime = 172800

-- `_handle_rollover_timeout`
unfoldable pub handle_rollover_timeout : ℕ → Tables → Tables
handle_rollover_timeout now t = record t {
  instances =
      expire_stale now (select (is_prompted_before (now - prompt_lifetime)) t.items) t.instances;
}

pub data CallbackAction : Type 0 where
  done drop carry other_action : CallbackAction

abbrev find_item : String → List Item → Option Item
find_item id [] = none
find_item id (i ∷ is) = if i.id == id then some i else find_item id is

abbrev find_instance : String → List Instance → Option Instance
find_instance id [] = none
find_instance id (i ∷ is) = if i.id == id then some i else find_instance id is

abbrev complete_item : ℕ → String → List Item → List Item
complete_item now id items =
    map (λ i. if i.id == id then record i { completed_at = some now } else i) items

abbrev pub closed_at_end : ℕ → Instance → Instance
closed_at_end now i = record i { status = closed; closed_at = some now }

-- The instance is closed if no item of it is open.
abbrev close_if_complete : ℕ → String → Tables → Tables
close_if_complete now id t = elim (open_items id t.items) [
  | i ∷ is ↦ t
  | [] ↦ record t {
    instances = map (λ i. if i.id == id then closed_at_end now i else i) t.instances;
  }
]

abbrev carry_to : String → Item → Instance → Option Instance → Tables → Tables
carry_to new_item_id item inst none t = t
carry_to new_item_id item inst (some new) t = if new.id == inst.id then t else record t {
  items = set_prompted none item.id (t.items ++ (carried new_item_id new.id item ∷ []));
}

abbrev call_back_on : CallbackAction → String → ℕ → Item → Instance → Tables → Tables
call_back_on done new_item_id now item inst t =
    close_if_complete now inst.id (record t { items = complete_item now item.id t.items })
call_back_on drop new_item_id now item inst t = record t {
  items = set_prompted none item.id t.items;
}
call_back_on carry new_item_id now item inst t =
    carry_to new_item_id item inst
      (newest (select (λ i. i.template_id == inst.template_id) t.instances)) t
call_back_on other_action new_item_id now item inst t = t

abbrev with_instance : CallbackAction → String → ℕ → Item → Tables → Option Instance → Option Tables
with_instance action new_item_id now item t none = none
with_instance action new_item_id now item t (some inst) =
    some (call_back_on action new_item_id now item inst t)

abbrev with_item : CallbackAction → String → ℕ → Tables → Option Item → Option Tables
with_item action new_item_id now t none = some t
with_item action new_item_id now t (some item) =
    with_instance action new_item_id now item t (find_instance item.instance_id t.instances)

-- `none` stands for the exception of an item without its instance. Disabling the actions of the
-- item's deadline is left out.
handle_rollover_callback : CallbackAction → String → String → ℕ → Tables → Option Tables
handle_rollover_callback action item_id new_item_id now t =
    with_item action new_item_id now t (find_item item_id t.items)
