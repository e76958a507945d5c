-- ===== src/Actors/Crowd.antt =====
-- Who is in a room: `Enter`, `Leave` and `GetRandomPos` of GameServer/Room.cpp.
pub mod Changes
pub mod Placed
pub mod Orderly
pub mod Steps
pub mod Histories
use mmo_server_cpp.Base.{
  ℕ, List, [], ◌∷◌, Option, none, some, Bool, true, false, ◌==◌, if◌then◌else◌, contains, ◌>>=◌,
  ◌++◌,
}
use mmo_server_cpp.Base.Int.{ℤ, negsuc}
use mmo_server_cpp.World.Vector.{Vector2Int}
use mmo_server_cpp.World.Map.{Map, can_go}
use mmo_server_cpp.World.Room.{
  Zone, Room, Object, GameObjectType, player, monster, projectile, other, get_object_type_by_id,
  get_zone_index, insert_id, erase_id, insert_object, modify, Moved, apply_move, apply_leave,
}
use mmo_server_cpp.World.Room.Adjacent.{broadcast}
use mmo_server_cpp.Actors.Arrow
use mmo_server_cpp.Actors.Arrow.{Arrow, arrow_update}

-- `players`, `monsters` and `projectiles` are the keys of the three maps, `null_players` those keys
-- of `_players` whose value is `nullptr`. `object_of` is the object with an id.
pub record Crowd : Type 0 where
  pub room : Room
  pub players : List ℕ
  pub null_players : List ℕ
  pub monsters : List ℕ
  pub projectiles : List ℕ
  pub object_of : ℕ → Object

abbrev pub cell_of : Crowd → ℕ → Vector2Int
cell_of c id = (c.object_of id).cell_pos

abbrev pub with_object : Crowd → Object → Crowd
with_object c o = record c { object_of = λ id. if id == o.id then o else c.object_of id }

-- What is sent, and what else is asked of the rest of the server; `to` are the receivers.
pub data Event : Type 0 where
  s_enter_game : (id : ℕ) → Event
  view_update : (id : ℕ) → Event
  object_update : (id : ℕ) → Event
  flight : (id : ℕ) → List Arrow.Event → Event
  s_spawn : (id : ℕ) (to : List ℕ) → Event
  save_status : (id : ℕ) → Event
  view_release : (id : ℕ) → Event
  s_leave_game : (id : ℕ) → Event
  s_despawn : (id : ℕ) (to : List ℕ) → Event

-- `none` is undefined: a dereference of `nullptr`.
abbrev pub Outcome : Type 0
Outcome = Option (Crowd × List Event)

abbrev pub with_zones : Room → List (List Zone) → Room
with_zones r zones = record r { zones = zones }

-- `GetZone(pos_info)->Get…().insert(…)`
unfoldable pub insert_in_zone : Room → Vector2Int → GameObjectType → ℕ → Option Room
insert_in_zone r p type id = do
  zones ← modify r.zones (get_zone_index r p) (insert_object type id)
  some (with_zones r zones)

-- `SetRoom(…)`
abbrev pub entering : Object → Object
entering o = record o { in_room = true }

-- A player comes in: the map, then the zone. What `ApplyMove` returns is not looked at.
unfoldable pub enter_player : Crowd → Object → Outcome
enter_player c o = do
  moved ← apply_move c.room (entering o) o.cell_pos false true
  r ← insert_in_zone moved.0 o.cell_pos player o.id
  let c' = record c {
    room = r;
    players = insert_id o.id c.players;
    null_players = erase_id o.id c.null_players;
  }
  some (with_object c' moved.1, s_enter_game o.id ∷ view_update o.id ∷ [])

-- A projectile: the zone, then its first flight.
unfoldable pub enter_projectile : Crowd → Object → Arrow → Outcome
enter_projectile c o a = do
  r ← insert_in_zone c.room o.cell_pos projectile o.id
  updated ← arrow_update r (record a { object = entering o })
  let c' = record c { room = updated.0; projectiles = insert_id o.id c.projectiles }
  some (with_object c' updated.1.object, flight o.id updated.2 ∷ [])

-- A monster: the zone, then the map. Its first `Update` finds it idle and changes nothing here.
unfoldable pub enter_monster : Crowd → Object → Outcome
enter_monster c o = do
  r ← insert_in_zone c.room o.cell_pos monster o.id
  moved ← apply_move r (entering o) o.cell_pos false true
  let c' = record c { room = moved.0; monsters = insert_id o.id c.monsters }
  some (with_object c' moved.1, object_update o.id ∷ [])

abbrev pub enter_as : GameObjectType → Crowd → Object → Arrow → Outcome
enter_as player c o a = enter_player c o
enter_as projectile c o a = enter_projectile c o a
enter_as monster c o a = enter_monster c o
enter_as other c o a = some (c, [])

-- `Enter` at a place that is chosen already. `a` has what a projectile knows besides its place.
unfoldable pub enter : Crowd → Object → Arrow → Outcome
enter c o a = do
  entered ← enter_as (get_object_type_by_id o.id) c o a
  let c' = entered.0
  some (c', entered.1 ++ s_spawn o.id (broadcast (cell_of c') c'.room o.cell_pos) ∷ [])

-- `S_Despawn` to those that are left.
abbrev pub despawn : Crowd → ℕ → Vector2Int → List Event → Outcome
despawn c id p first = some (c, first ++ s_despawn id (broadcast (cell_of c) c.room p) ∷ [])

-- `_players[object_id]` makes an entry `nullptr` where there is none. A player that leaves keeps
-- its room.
unfoldable pub leave_player : Crowd → ℕ → Outcome
leave_player c id =
    let o = c.object_of id in
    if contains id c.players
    then (do
      left ← apply_leave c.room o
      let c' = record c { room = left.0; players = erase_id id c.players }
      despawn c' id o.cell_pos (save_status id ∷ view_release id ∷ s_leave_game id ∷ []))
    else some (record c { null_players = insert_id id c.null_players }, [])

-- `_monsters[object_id]` makes an entry, too, so that the test of `erase` never fails, and
-- `nullptr` is dereferenced.
unfoldable pub leave_monster : Crowd → ℕ → Outcome
leave_monster c id =
    let o = c.object_of id in
    if contains id c.monsters
    then (do
      left ← apply_leave c.room o
      let c' = record c { room = left.0; monsters = erase_id id c.monsters }
      despawn (with_object c' (record o { in_room = false })) id o.cell_pos [])
    else none

unfoldable pub leave_projectile : Crowd → ℕ → Outcome
leave_projectile c id =
    let o = c.object_of id in
    if contains id c.projectiles
    then (do
      left ← apply_leave c.room o
      let c' = record c { room = left.0; projectiles = erase_id id c.projectiles }
      despawn (with_object c' (record o { in_room = false })) id o.cell_pos [])
    else none

-- `Vector2Int()`
abbrev pub no_pos : Vector2Int
no_pos = record { x = negsuc 0; y = negsuc 0 }

abbrev pub leave_as : GameObjectType → Crowd → ℕ → Outcome
leave_as player c id = leave_player c id
leave_as monster c id = leave_monster c id
leave_as projectile c id = leave_projectile c id
leave_as other c id = despawn c id no_pos []

-- `Leave`
unfoldable pub leave : Crowd → ℕ → Outcome
leave c id = leave_as (get_object_type_by_id id) c id

-- `ApplyMove` of an object of the room, as its packets, its updates and its monsters call it.
unfoldable pub move : Crowd → ℕ → Vector2Int → Bool → Option (Crowd × Bool)
move c id dest is_through_objects = do
  moved ← apply_move c.room (c.object_of id) dest is_through_objects true
  some (with_object (record c { room = moved.0 }) moved.1, moved.2)

-- `GetRandomPos` on what the generator draws.
pub data Drawn : Type 0 where
  drawn : Vector2Int → Drawn
  undefined : Drawn
  out_of_draws : Drawn

pub get_random_pos : Map → List Vector2Int → Drawn
get_random_pos m [] = out_of_draws
get_random_pos m (random_pos ∷ draws) =
    let again = get_random_pos m draws in
    elim (can_go m random_pos false) [
      | none ↦ undefined
      | some free ↦ if free then drawn random_pos else again
    ]
