-- ===== src/Checklists/Closing.antt =====
-- When xibi/checklists/api.py closes an instance.
use xibi.Base.{◌≡◌, Bool, true, false, not, ◌||◌, Option, List, String, ◌==◌, all}
use xibi.Checklists.Rollover.{closed, Instance, Tables, open_items, InstanceStatus}
use xibi.Checklists.Editing.{no_items}

abbrev is_closed : InstanceStatus → Bool
is_closed closed = true
is_closed _ = false

abbrev is_closed_in : String → List Instance → Bool
is_closed_in id instances = all (λ i. not (i.id == id) || is_closed i.status) instances

-- What the completion of an item says of its instance: closed with no open item, or with an open item
-- and the instances' rows as they were.
abbrev pub IsSettledFor : String → Tables → Bool × Tables → Type 0
IsSettledFor id t (fully_closed, t') =
    (fully_closed ≡ true
      → (no_items (open_items id t'.items) ≡ true) × (is_closed_in id t'.instances ≡ true))
    × (fully_closed ≡ false
        → (no_items (open_items id t'.items) ≡ false) × (t'.instances ≡ t.instances))
