-- ===== src/HashMap.antt =====
-- `std::collections::HashMap` as an association list with one entry to a key. The standard library
-- fixes no order of iteration; the code iterates only in `commit_to_world_state`.
pub mod Laws
use pchain_runtime.Prelude.{Option, none, some, List, [], ◌∷◌, HashKey, ◌==◌, if◌then◌else◌}

abbrev pub HashMap : Type 0 → Type 0 → Type 0
HashMap K V = List (K × V)

module _ {K V : Type 0} ⦃e : HashKey K⦄ where
  unfoldable pub get : K → HashMap K V → Option V
  get k [] = none
  get k ((j, v) ∷ m) = if j == k then some v else get k m

  unfoldable pub insert : K → V → HashMap K V → HashMap K V
  insert k v [] = (k, v) ∷ []
  insert k v ((j, w) ∷ m) = if j == k then (k, v) ∷ m else (j, w) ∷ insert k v m

  -- All entries of a key; there is at most one.
  unfoldable pub remove : K → HashMap K V → HashMap K V
  remove k [] = []
  remove k ((j, v) ∷ m) = let rest = remove k m in if j == k then rest else (j, v) ∷ rest
