-- ===== src/World/Grid.antt =====
-- Vectors of vectors, indexed by `int32`: an index out of range is undefined, here `none`.
pub mod Laws
use mmo_server_cpp.Base.{
  ℕ, List, [], ◌∷◌, Option, none, some, ltb, if◌then◌else◌, length, get_elem?, set,
}
use mmo_server_cpp.Base.Int.{ℤ, pos, negsuc}
use mmo_server_cpp.World.Vector.{Vector2Int}

module _ {ℓ} {A : Type ℓ} where
  abbrev pub at_int : List A → ℤ → Option A
  at_int xs (pos n) = get_elem? xs n
  at_int xs (negsuc n) = none

  abbrev pub in_row : Option (List A) → ℤ → Option A
  in_row none x = none
  in_row (some row) x = at_int row x

  abbrev pub set_int : List A → ℤ → A → Option (List A)
  set_int xs (pos n) v = if ltb n (length xs) then some (set xs n v) else none
  set_int xs (negsuc n) v = none

  abbrev pub set_in : Option (List A) → ℤ → A → Option (List A)
  set_in none x v = none
  set_in (some row) x v = set_int row x v

module _ {ℓ} {A : Type ℓ} where
  -- `rows[p.y][p.x]`
  unfoldable pub cell : List (List A) → Vector2Int → Option A
  cell rows p = in_row (at_int rows p.y) p.x

  abbrev pub put : List (List A) → ℤ → Option (List A) → Option (List (List A))
  put rows y none = none
  put rows y (some row) = set_int rows y row

  -- `rows[p.y][p.x] = v`
  unfoldable pub write : List (List A) → Vector2Int → A → Option (List (List A))
  write rows p v = put rows p.y (set_in (at_int rows p.y) p.x v)
