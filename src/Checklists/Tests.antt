-- ===== src/Checklists/Tests.antt =====
-- Concrete checklists.
use xibi.Base.{ℕ, ◌≡◌, refl, Bool, true, none, some, List, [], ◌∷◌, String, lowered}
use xibi.Checklists.{Item, fuzzy_match_item}
use xibi.Checklists.Rollover.{opened, Instance, roll_forward, Tables}
use xibi.Checklists.Editing.{insert_item, update_row, close_if_done, completed}
use xibi.Checklists.Positions.{are_distinct, add, edit, edit-are_distinct}

abbrev item : String → String → String → ℕ → Item
item id instance_id label position = record {
  id = id;
  instance_id = instance_id;
  label = label;
  position = position;
  completed_at = none;
  rollover_prompted_at = none;
}

abbrev items : List Item
items =
    item "i1" "old" "Buy coffee beans" 0
    ∷ item "i2" "old" "Call the bank" 1
    ∷ item "i3" "new" "Buy coffee beans" 0
    ∷ []

matched :
    fuzzy_match_item lowered "old" "coffee beans" items
    ≡ some (item "i1" "old" "Buy coffee beans" 0)
unfolding fuzzy_match_item
matched = refl

-- Two items that match alike match neither.
ambiguous : fuzzy_match_item lowered "old" "buy call" items ≡ none
unfolding fuzzy_match_item
ambiguous = refl

abbrev instance_at : String → ℕ → Instance
instance_at id created_at = record {
  id = id;
  template_id = "weekly";
  created_at = created_at;
  status = opened;
  closed_at = none;
}

abbrev tables : Tables
tables = record {
  templates = record { id = "weekly"; name = "Weekly"; rollover_policy = roll_forward } ∷ [];
  instances = instance_at "old" 100 ∷ instance_at "new" 200 ∷ [];
  items = items;
}

abbrev after_adding : Tables
after_adding = insert_item "i4" "new" "Eggs" tables

added : edit lowered 300 (add "t2" "l2" "i4" "WEEKLY" "Eggs") tables ≡ some after_adding
added = refl

edit-are_distinct_example : are_distinct after_adding.items ≡ true
edit-are_distinct_example =
    edit-are_distinct lowered 300 (add "t2" "l2" "i4" "WEEKLY" "Eggs") tables after_adding refl
      added

abbrev after_checking : Bool × Tables
after_checking =
    close_if_done "new" 300 (record tables { items = update_row (completed (some 300)) "i3" items })

-- It was the last one.
closes : after_checking.0 ≡ true
closes = refl
