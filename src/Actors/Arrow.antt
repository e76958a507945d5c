-- ===== src/Actors/Arrow.antt =====
-- `Arrow::Update` of GameServer/Arrow.cpp.
pub mod Flight
use mmo_server_cpp.Base.{
  ℕ, List, [], ◌∷◌, Option, none, some, Bool, true, false, ◌&&◌, ◌==◌, if◌then◌else◌,
}
use mmo_server_cpp.World.Vector.{Vector2Int}
use mmo_server_cpp.World.Map.{find}
use mmo_server_cpp.World.Room.{Room, Object, Moved, apply_move}
use mmo_server_cpp.Actors.Facing.{MoveDir, get_front_cell_position}

-- `has_owner` and `has_data` tell whether `Owner` and `Data` are set; `tick` is
-- `static_cast<int32>(1000 / Data->projectile.speed)`, a division of floats, and `attack` is what
-- `Owner->GetTotalAttack()` returns.
pub record Arrow : Type 0 where
  pub object : Object
  pub dir : MoveDir
  pub has_owner : Bool
  pub has_data : Bool
  pub tick : ℕ
  pub attack : ℕ

-- What an update asks for, in order: the next update, the broadcast of a move, the damage of a
-- target, and the job of `Room::Leave`.
pub data Event : Type 0 where
  timer : (tick : ℕ) → Event
  s_move : (cell_pos : Vector2Int) → Event
  damaged : (target damage : ℕ) → Event
  leave : (id : ℕ) → Event

abbrev pub Updated : Type 0
Updated = Option (Room × Arrow × List Event)

-- What stands in the way is hit, and the arrow asks to leave.
pub strike : Room → Arrow → Option ℕ → Updated
strike r a none = none
strike r a (some target) = some (
  r,
  a,
  if target == 0
      then timer a.tick ∷ leave a.object.id ∷ []
      else timer a.tick ∷ damaged target a.attack ∷ leave a.object.id ∷ [],
)

pub flown : Arrow → Vector2Int → Moved → Updated
unfolding strike
flown a dest none = none
flown a dest (some (r, o, true)) =
    some (r, record a { object = o }, timer a.tick ∷ s_move o.cell_pos ∷ [])
flown a dest (some (r, o, false)) = strike r (record a { object = o }) (find r.map dest)

unfoldable pub arrow_update : Room → Arrow → Updated
unfolding flown
arrow_update r a =
    if a.has_owner && a.object.in_room && a.has_data
    then flown a (get_front_cell_position a.object.cell_pos a.dir)
        (apply_move r a.object (get_front_cell_position a.object.cell_pos a.dir) false true)
    else some (r, a, [])
