-- ===== src/Checklists/Carrying.antt =====
-- What the rollovers of xibi/checklists/lifecycle.py do to items and instances.
use xibi.Base.{ℕ, ◌&&◌, List, [], ◌∷◌, String, ◌==◌, any, if◌then◌else◌}
use xibi.Checklists.{Item}
use xibi.Checklists.Rollover.{Instance, is_open_in, expired_at, is_open}

-- The labels and positions of the open items of an instance.
abbrev pub open_entries : String → List Item → List (String × ℕ)
open_entries id [] = []
open_entries id (i ∷ is) =
    let rest = open_entries id is in if is_open_in id i then (i.label, i.position) ∷ rest else rest

-- An instance after the timeout: expired if it was open and one of the items is its own.
abbrev expired_by : ℕ → List Item → Instance → Instance
expired_by now items i =
    if is_open i.status && any (λ item. i.id == item.instance_id) items then expired_at now i else i
