-- ===== src/Actors/Facing.antt =====
-- Directions: `GetDirFromVector2Int` and `GetFrontCellPosition` of GameServer/GameObject.cpp.
use mmo_server_cpp.Base.{◌≡◌, if◌then◌else◌, arith, ap₂}
use mmo_server_cpp.Base.Int.{ℤ, pos, negsuc, ◌+ℤ◌, ◌-ℤ◌, ltb_ℤ, eq_of_parts, +ℤ_parts, -ℤ_parts}
use mmo_server_cpp.World.Vector.{Vector2Int, plus, minus, simple_distance}

pub data MoveDir : Type 0 where
  up : MoveDir
  down : MoveDir
  left : MoveDir
  right : MoveDir

unfoldable pub get_dir : Vector2Int → MoveDir
get_dir diff =
    if ltb_ℤ diff.x (pos 0)
    then left
    else if ltb_ℤ (pos 0) diff.x
    then right
    else if ltb_ℤ diff.y (pos 0)
    then down
    else up

abbrev pub unit_of : MoveDir → Vector2Int
unit_of up = record { x = pos 0; y = pos 1 }
unit_of down = record { x = pos 0; y = negsuc 0 }
unit_of left = record { x = negsuc 0; y = pos 0 }
unit_of right = record { x = pos 1; y = pos 0 }

pub get_front_cell_position : Vector2Int → MoveDir → Vector2Int
get_front_cell_position cell_pos dir = plus cell_pos (unit_of dir)

-- The direction of a step of length 1 is that step.
unit_of_dir : (d : Vector2Int) → simple_distance d ≡ 1 → unit_of (get_dir d) ≡ d
unfolding get_dir
unit_of_dir d h = ground arith

plus-minus : (a b : Vector2Int) → plus a (minus b a) ≡ b
plus-minus a b = ap₂ vector (back a.x b.x) (back a.y b.y)
  where
    vector : ℤ → ℤ → Vector2Int
    vector u v = record { x = u; y = v }

    back : (u v : ℤ) → u +ℤ (v -ℤ u) ≡ v
    back u v = eq_of_parts _ _ (omega (arith, +ℤ_parts u (v -ℤ u), -ℤ_parts v u))

-- An object that turns towards a neighbouring cell has that cell in front of it.
pub front_of_neighbour :
    (a b : Vector2Int)
    → simple_distance (minus b a) ≡ 1
    → get_front_cell_position a (get_dir (minus b a)) ≡ b
unfolding get_front_cell_position
front_of_neighbour a b h = rw (unit_of_dir (minus b a) h) (plus-minus a b)
