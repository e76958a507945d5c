-- ===== src/Actors/View.antt =====
-- What a player sees: `ViewCube` of GameServer/ViewCube.cpp.
pub mod Picture
use mmo_server_cpp.Base.{
  ℕ, List, [], ◌∷◌, ◌++◌, Option, none, some, Bool, true, false, if◌then◌else◌, contains,
}
use mmo_server_cpp.World.Vector.{Vector2Int}
use mmo_server_cpp.World.Room.{Zone, Room, insert_id}
use mmo_server_cpp.World.Room.Adjacent.{get_adjacent_zones, gather, keep_within}

-- `prev_objects` is a set of ids. Of `JobReserved` the delay is kept, in milliseconds.
pub record ViewCube : Type 0 where
  pub is_reset : Bool
  pub prev_objects : List ℕ
  pub job_reserved : Option ℕ

-- What the owner sees of the rest of the server when its view is updated; `has_room` is false
-- where `GetRoom()` is `nullptr`.
pub record Moment : Type 0 where
  pub has_room : Bool
  pub room : Room
  pub owner_pos : Vector2Int
  pub cell_of : ℕ → Vector2Int

-- `kViewRange`
abbrev pub view_range : ℕ
view_range = 10

-- The three loops over a zone, in their order.
abbrev pub objects_of : Zone → List ℕ
objects_of z = z.players ++ z.monsters ++ z.projectiles

-- A hash set of what was inserted.
unfoldable pub set_of : List ℕ → List ℕ
set_of [] = []
set_of (id ∷ ids) = insert_id id (set_of ids)

-- What `GetObjects` returns, and what it makes of the view.
unfoldable pub get_objects : Moment → List ℕ
get_objects m =
    if m.has_room
    then set_of (
        keep_within view_range m.owner_pos m.cell_of
          (gather objects_of (get_adjacent_zones m.room m.owner_pos view_range)))
    else []

unfoldable pub after_reset : ViewCube → ViewCube
after_reset v = if v.is_reset then record v { is_reset = false; prev_objects = [] } else v

-- `Except`
unfoldable pub except : List ℕ → List ℕ → List ℕ
except [] rhs = []
except (object ∷ lhs) rhs = if contains object rhs then except lhs rhs else object ∷ except lhs rhs

pub data Message : Type 0 where
  s_spawn : List ℕ → Message
  s_despawn : List ℕ → Message

-- A packet is sent unless there is nothing in it.
unfoldable pub unless_empty : (List ℕ → Message) → List ℕ → List Message
unless_empty packet [] = []
unless_empty packet (id ∷ ids) = packet (id ∷ ids) ∷ []

-- `Update`. The view, the packets that are sent and the set of what was seen are updated in one
-- step: the jobs of a room run one after another.
unfoldable pub update : Moment → ViewCube → ViewCube × List Message
update m v =
    if m.has_room
    then (
      record (after_reset v) { prev_objects = get_objects m; job_reserved = some 100 },
      unless_empty s_spawn (except (get_objects m) (after_reset v).prev_objects)
          ++ unless_empty s_despawn (except (after_reset v).prev_objects (get_objects m)),
    )
    else (v, [])
