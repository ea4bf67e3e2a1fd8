-- ===== src/Base/State.antt =====
-- State passing, and a database that is reached through `xibi/db/__init__.py`'s `open_db`.
use mathlib.Core.Bool.{Bool, true, false}
use mathlib.Core.Option.{Option, none, some}
use mathlib.Core.List.{List, [], ◌∷◌}

abbrev pub Action : Type 0 → Type 0 → Type 0
Action S A = S → A × S

module _ {S : Type 0} where
  infixl 5 ◌>>=◌ ◌>>◌
  abbrev pub ◌>>=◌ : {A B : Type 0} → Action S A → (A → Action S B) → Action S B
  ◌>>=◌ m f s = let (a, s') = m s in f a s'

  abbrev pub ◌>>◌ : {A B : Type 0} → Action S A → Action S B → Action S B
  m >> k = m >>= λ _. k

  abbrev pub pure : {A : Type 0} → A → Action S A
  pure a s = (a, s)

-- The tables, and for each access to come whether it raises (a locked or missing database); when
-- the list has run out, none does.
pub record Store (T : Type 0) : Type 0 where
  pub table : T
  pub faults : List Bool

-- One `with open_db(...)` block. The block commits as a whole or is rolled back as a whole;
-- `none` is the exception.
abbrev pub open_db : {T A : Type 0} → (T → A × T) → List Bool → T → Option A × Store T
open_db f [] t = let (a, t') = f t in (some a, record { table = t'; faults = [] })
open_db f (true ∷ rest) t = (none, record { table = t; faults = rest })
open_db f (false ∷ rest) t = let (a, t') = f t in (some a, record { table = t'; faults = rest })
