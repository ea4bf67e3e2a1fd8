-- ===== src/Checklists/Positions.antt =====
-- The positions of the items of xibi/checklists.
use xibi.Base.{
  ℕ, ◌<◌, ◌≡◌, refl, ap, ◌∙◌, inl, inr, Bool, true, false, not, ◌&&◌, ◌||◌, Option, none, some,
  List, [], ◌∷◌, ◌++◌, map, String, ◌==◌, eq_iff, select, any, if◌then◌else◌, eqb, arith,
  Bool-cases,
}
use mathlib.Core.Path.{subst}
use xibi.Checklists.{Item}
use xibi.Checklists.Rollover.{Instance, Template, Tables, closed_at_end}
use xibi.Checklists.Editing.{
  find_template, find_active_instance, next_position, insert_list, create_unless, create_list,
  insert_item, insert_in, add_to, add_item, require_list, match_in, remove_found, remove_item,
  relabelled, update_row, update_found, update_item, completed, complete_found,
  update_checklist_item, selected,
}

abbrev has_position : String → ℕ → List Item → Bool
has_position id n items = any (λ i. (i.instance_id == id) && eqb i.position n) items

-- No two items of an instance have the same position.
abbrev pub are_distinct : List Item → Bool
are_distinct [] = true
are_distinct (i ∷ is) = not (has_position i.instance_id i.position is) && are_distinct is

position-lt-next :
    (id : String) (n : ℕ) (items : List Item)
    → has_position id n items ≡ true
    → n < next_position id items
position-lt-next id n [] h = ground (arith, h)
position-lt-next id n (i ∷ is) h = ground (arith, h, position-lt-next id n is)

next_position-is_new :
    (id : String) (items : List Item) → has_position id (next_position id items) items ≡ false
next_position-is_new id items = ground (arith, position-lt-next id (next_position id items) items)

has_position-append :
    (id : String) (n : ℕ) (xs : List Item) (y : Item)
    → has_position id n (xs ++ (y ∷ []))
      ≡ (has_position id n xs || ((y.instance_id == id) && eqb y.position n))
has_position-append id n [] y = ground arith
has_position-append id n (x ∷ xs) y = ground (arith, has_position-append id n xs y)

are_distinct-append :
    (xs : List Item) (y : Item)
    → are_distinct xs ≡ true
    → has_position y.instance_id y.position xs ≡ false
    → are_distinct (xs ++ (y ∷ [])) ≡ true
are_distinct-append [] y h e = refl
are_distinct-append (x ∷ xs) y h e = ground (
  arith,
  h,
  e,
  are_distinct-append xs y,
  has_position-append x.instance_id x.position xs y,
  eq_iff x.instance_id y.instance_id,
  eq_iff y.instance_id x.instance_id,
)

has_position-select :
    (p : Item → Bool) (id : String) (n : ℕ) (xs : List Item)
    → has_position id n xs ≡ false
    → has_position id n (select p xs) ≡ false
has_position-select p id n [] h = refl
has_position-select p id n (x ∷ xs) h = ground (arith, h, has_position-select p id n xs)

are_distinct-select :
    (p : Item → Bool) (xs : List Item) → are_distinct xs ≡ true → are_distinct (select p xs) ≡ true
are_distinct-select p [] h = refl
are_distinct-select p (x ∷ xs) h =
    ground (arith, h, are_distinct-select p xs, has_position-select p x.instance_id x.position xs)

-- A change of a row that leaves its instance and its position.
abbrev KeepsPlace : (Item → Item) → Type 0
KeepsPlace change =
    (i : Item) → ((change i).instance_id ≡ i.instance_id) × ((change i).position ≡ i.position)

has_position-update_row :
    (change : Item → Item) (id key : String) (n : ℕ) (xs : List Item)
    → KeepsPlace change
    → has_position key n (update_row change id xs) ≡ has_position key n xs
has_position-update_row change id key n [] keeps = refl
has_position-update_row change id key n (x ∷ xs) keeps = elim (Bool-cases (x.id == id)) [
  | inr e ↦ rw e (
      ap (λ b. ((x.instance_id == key) && eqb x.position n) || b)
        (has_position-update_row change id key n xs keeps))
  | inl e ↦
      rw (e, (keeps x).0, (keeps x).1)
        (ap (λ b. ((x.instance_id == key) && eqb x.position n) || b)
          (has_position-update_row change id key n xs keeps))
]

are_distinct-update_row :
    (change : Item → Item) (id : String) (xs : List Item)
    → KeepsPlace change
    → are_distinct (update_row change id xs) ≡ are_distinct xs
are_distinct-update_row change id [] keeps = refl
are_distinct-update_row change id (x ∷ xs) keeps =
    let rest = are_distinct-update_row change id xs keeps in
    elim (Bool-cases (x.id == id)) [
      | inl e ↦ rw (e, (keeps x).0, (keeps x).1) (same rest)
      | inr e ↦ rw e (same rest)
    ]
  where
    same :
        are_distinct (update_row change id xs) ≡ are_distinct xs
        → not (has_position x.instance_id x.position (update_row change id xs))
            && are_distinct (update_row change id xs)
          ≡ not (has_position x.instance_id x.position xs) && are_distinct xs
    same rest =
        ap (λ b. not b && are_distinct (update_row change id xs))
          (has_position-update_row change id x.instance_id x.position xs keeps)
        ∙ ap (λ b. not (has_position x.instance_id x.position xs) && b) rest

relabelled-KeepsPlace : (label : Option String) → KeepsPlace (relabelled label)
relabelled-KeepsPlace none i = (refl, refl)
relabelled-KeepsPlace (some label) i = (refl, refl)

-- One edit of the lists.
pub data Edit : Type 0 where
  create : String → String → String → Edit
  add : String → String → String → String → String → Edit
  remove : String → String → Edit
  relabel : String → String → Option String → Edit
  check : String → Option ℕ → Option String → Bool → Edit

abbrev tables_of : Option (Bool × Tables) → Option Tables
tables_of none = none
tables_of (some (fully_closed, t)) = some t

abbrev pub edit : (List ℕ → List ℕ) → ℕ → Edit → Tables → Option Tables
edit lower now (create template_id instance_id name) t =
    create_list template_id instance_id name now t
edit lower now (add template_id instance_id item_id name label) t =
    add_item template_id instance_id item_id name label now t
edit lower now (remove name hint) t = remove_item lower name hint t
edit lower now (relabel name hint label) t = update_item lower name hint label t
edit lower now (check id position hint is_done) t =
    tables_of (update_checklist_item lower id position hint is_done now t)

-- What an edit leaves, if it succeeds.
abbrev StaysDistinct : Option Tables → Type 0
StaysDistinct none = Unit
StaysDistinct (some t) = are_distinct t.items ≡ true

insert_item-Distinct :
    (item_id instance_id label : String) (t : Tables)
    → are_distinct t.items ≡ true
    → are_distinct (insert_item item_id instance_id label t).items ≡ true
insert_item-Distinct item_id instance_id label t h =
    are_distinct-append t.items _ h (next_position-is_new instance_id t.items)

edit-StaysDistinct :
    (lower : List ℕ → List ℕ) (now : ℕ) (e : Edit) (t : Tables)
    → are_distinct t.items ≡ true
    → StaysDistinct (edit lower now e t)
unfolding remove_item update_item update_checklist_item
edit-StaysDistinct lower now (create template_id instance_id name) t h =
    by_template (find_template name t.templates)
  where
    by_template :
        (o : Option Template) → StaysDistinct (create_unless template_id instance_id name now t o)
    by_template none = h
    by_template (some template) = tt
edit-StaysDistinct lower now (add template_id instance_id item_id name label) t h =
    by_template (find_template name t.templates)
  where
    by_instance : (o : Option Instance) → StaysDistinct (insert_in item_id label t o)
    by_instance none = tt
    by_instance (some inst) = insert_item-Distinct item_id inst.id label t h

    by_template :
        (o : Option Template)
        → StaysDistinct (add_to template_id instance_id item_id name label now t o)
    by_template none =
        insert_item-Distinct item_id instance_id label
          (insert_list template_id instance_id name now t) h
    by_template (some template) = by_instance (find_active_instance template.id t.instances)
edit-StaysDistinct lower now (remove name hint) t h =
    removed (match_in lower hint t.items (require_list name t))
  where
    removed : (o : Option Item) → StaysDistinct (remove_found t o)
    removed none = tt
    removed (some item) = are_distinct-select (λ i. not (i.id == item.id)) t.items h
edit-StaysDistinct lower now (relabel name hint label) t h =
    updated (match_in lower hint t.items (require_list name t))
  where
    updated : (o : Option Item) → StaysDistinct (update_found label t o)
    updated none = tt
    updated (some item) =
        are_distinct-update_row (relabelled label) item.id t.items (relabelled-KeepsPlace label) ∙ h
edit-StaysDistinct lower now (check id position hint is_done) t h =
    checked (selected lower id position hint t.items)
  where
    at : Option ℕ
    at = if is_done then some now else none

    kept :
        (b : Bool) (u : Tables)
        → are_distinct u.items ≡ true
        → are_distinct
            (if b
              then record u {
                instances = map (λ i. if i.id == id then closed_at_end now i else i) u.instances;
              }
              else u).items
          ≡ true
    kept true u h = h
    kept false u h = h

    checked : (o : Option Item) → StaysDistinct (tables_of (complete_found id at now t o))
    checked none = tt
    checked (some item) =
        kept _ (record t { items = update_row (completed at) item.id t.items })
          (are_distinct-update_row (completed at) item.id t.items (λ i. (refl, refl)) ∙ h)

-- Positions tell an instance's items apart: if no two items of an instance have the same position,
-- this is still so after creating a list, adding, removing, relabelling and checking an item.
pub edit-are_distinct :
    (lower : List ℕ → List ℕ) (now : ℕ) (e : Edit) (t t' : Tables)
    → are_distinct t.items ≡ true
    → edit lower now e t ≡ some t'
    → are_distinct t'.items ≡ true
edit-are_distinct lower now e t t' h done =
    subst StaysDistinct done (edit-StaysDistinct lower now e t h)
