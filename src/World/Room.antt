-- ===== src/World/Room.antt =====
-- The zones of a `Room` (GameServer/Room.cpp, Zone.cpp), and the operations of `Map` that touch
-- them: `ApplyMove`, `ApplyLeave` and `SetCurrentZone` of Map.cpp. Object ids are those of
-- ObjectManager.cpp.
pub mod Shape
pub mod Zones
pub mod Laws
pub mod Init
pub mod Adjacent
use mmo_server_cpp.Base.{
  ℕ, zero, suc, ◌+◌, ◌*◌, ◌/◌, ◌%◌, ◌^◌, List, [], ◌∷◌, Option, none, some, Bool, true, false, not,
  ◌||◌, ◌&&◌, ◌==◌, if◌then◌else◌, length, replicate,
}
use mmo_server_cpp.Base.Int.{ℤ, pos, ◌+ℤ◌, ◌-ℤ◌, ltb_ℤ, pos_part}
use mmo_server_cpp.World.Vector.{Vector2Int, quot, ◌==ᵥ◌}
use mmo_server_cpp.World.Grid.{cell, write}
use mmo_server_cpp.World.Map.{
  Map, get_size_x, get_size_y, is_within_bounds, can_go, clear_cell, move_object,
}

-- The ids of the objects in a zone, by kind.
pub record Zone : Type 0 where
  pub players : List ℕ
  pub monsters : List ℕ
  pub projectiles : List ℕ

-- A zone is known by its place in `zones`.
pub record Room : Type 0 where
  pub map : Map
  pub zone_cell_size : ℕ
  pub zones : List (List Zone)

-- `in_room` tells whether `GetRoom()` is this room or `nullptr`.
pub record Object : Type 0 where
  pub id : ℕ
  pub cell_pos : Vector2Int
  pub in_room : Bool

pub data GameObjectType : Type 0 where
  player : GameObjectType
  monster : GameObjectType
  projectile : GameObjectType
  other : GameObjectType

abbrev pub type_of : ℕ → GameObjectType
type_of n =
    if n == 1 then player else if n == 2 then monster else if n == 3 then projectile else other

-- `GetObjectTypeById`: bits 24 to 30.
unfoldable pub get_object_type_by_id : ℕ → GameObjectType
get_object_type_by_id object_id = type_of (object_id / 2 ^ 24 % 0x80)

-- `_zones[0].size()`
abbrev pub width : List (List Zone) → ℕ
width [] = 0
width (row ∷ rows) = length row

-- `GetZoneIndex`, and which zone `GetZone` returns; `none` is `nullopt` and `nullptr`.
unfoldable pub get_zone_index : Room → Vector2Int → Option Vector2Int
get_zone_index r p =
    let index_x = quot (p.x -ℤ r.map.min_x) r.zone_cell_size in
    let index_y = quot (r.map.max_y -ℤ p.y) r.zone_cell_size in
    if ltb_ℤ index_x (pos 0) || not (ltb_ℤ index_x (pos (width r.zones)))
    then none
    else if ltb_ℤ index_y (pos 0) || not (ltb_ℤ index_y (pos (length r.zones)))
    then none
    else some (record { x = index_x; y = index_y })

abbrev pub erase_id : ℕ → List ℕ → List ℕ
erase_id id [] = []
erase_id id (x ∷ xs) = if x == id then erase_id id xs else x ∷ erase_id id xs

abbrev pub insert_id : ℕ → List ℕ → List ℕ
insert_id id xs = id ∷ erase_id id xs

abbrev pub erase_object : GameObjectType → ℕ → Zone → Zone
erase_object player id z = record z { players = erase_id id z.players }
erase_object monster id z = record z { monsters = erase_id id z.monsters }
erase_object projectile id z = record z { projectiles = erase_id id z.projectiles }
erase_object other id z = z

abbrev pub insert_object : GameObjectType → ℕ → Zone → Zone
insert_object player id z = record z { players = insert_id id z.players }
insert_object monster id z = record z { monsters = insert_id id z.monsters }
insert_object projectile id z = record z { projectiles = insert_id id z.projectiles }
insert_object other id z = z

-- `Zone::Remove`, which has no case for monsters.
abbrev pub remove : GameObjectType → ℕ → Zone → Zone
remove player id z = erase_object player id z
remove projectile id z = erase_object projectile id z
remove monster id z = z
remove other id z = z

modify_at : List (List Zone) → Vector2Int → (Zone → Zone) → Option Zone → Option (List (List Zone))
modify_at zones i f none = none
modify_at zones i f (some z) = write zones i (f z)

-- A change of the zone at `i`; `nullptr` is undefined.
pub modify : List (List Zone) → Option Vector2Int → (Zone → Zone) → Option (List (List Zone))
unfolding modify_at
modify zones none f = none
modify zones (some i) f = modify_at zones i f (cell zones i)

abbrev pub same_zone : Option Vector2Int → Option Vector2Int → Bool
same_zone none none = true
same_zone none (some j) = false
same_zone (some i) none = false
same_zone (some i) (some j) = i ==ᵥ j

insert_after :
    Option (List (List Zone)) → Option Vector2Int → (Zone → Zone) → Option (List (List Zone))
insert_after none after f = none
insert_after (some zones) after f = modify zones after f

change_zone :
    List (List Zone)
    → Option Vector2Int
    → Option Vector2Int
    → GameObjectType
    → ℕ
    → Option (List (List Zone))
unfolding insert_after
change_zone zones before after other id = some zones
change_zone zones before after player id =
    insert_after (modify zones before (erase_object player id)) after (insert_object player id)
change_zone zones before after monster id =
    insert_after (modify zones before (erase_object monster id)) after (insert_object monster id)
change_zone zones before after projectile id =
    insert_after (modify zones before (erase_object projectile id)) after
      (insert_object projectile id)

pub set_current_zone : Room → Object → Vector2Int → Option (List (List Zone))
unfolding change_zone
set_current_zone r o dest =
    let before = get_zone_index r o.cell_pos in
    let after = get_zone_index r dest in
    if same_zone before after
    then some r.zones
    else change_zone r.zones before after (get_object_type_by_id o.id) o.id

-- The zones that `Init` makes, after `LoadMap`.
abbrev pub count_zones : ℤ → ℕ → ℕ
count_zones size zone_cell_size =
    pos_part (quot (size +ℤ pos zone_cell_size -ℤ pos 1) zone_cell_size)

abbrev pub no_objects : Zone
no_objects = record { players = []; monsters = []; projectiles = [] }

unfoldable pub init_zones : Map → ℕ → Room
init_zones m zone_cell_size = record {
  map = m;
  zone_cell_size = zone_cell_size;
  zones =
      replicate (count_zones (get_size_y m) zone_cell_size)
        (replicate (count_zones (get_size_x m) zone_cell_size) no_objects);
}

-- The room and the object afterwards, and what the function returns; `none` is undefined.
abbrev pub Moved : Type 0
Moved = Option (Room × Object × Bool)

finish_move :
    Room → Object → Vector2Int → Option (List (List ℕ)) → Option (List (List Zone)) → Moved
finish_move r o dest none zones = none
finish_move r o dest (some objects) none = none
finish_move r o dest (some objects) (some zones) = some (
  record r { map = record r.map { objects = objects }; zones = zones },
  record o { cell_pos = dest },
  true,
)

enter_cell : Room → Object → Vector2Int → Bool → Option Bool → Moved
unfolding finish_move
enter_cell r o dest apply_collision none = none
enter_cell r o dest apply_collision (some false) = some (r, o, false)
enter_cell r o dest apply_collision (some true) =
    if is_within_bounds r.map o.cell_pos
    then finish_move r o dest
        (if apply_collision then move_object r.map o.cell_pos dest o.id else some r.map.objects)
        (set_current_zone r o dest)
    else some (r, o, false)

pub apply_move : Room → Object → Vector2Int → Bool → Bool → Moved
unfolding enter_cell
apply_move r o dest is_through_objects apply_collision =
    if o.in_room
    then enter_cell r o dest apply_collision (can_go r.map dest is_through_objects)
    else some (r, o, false)

finish_leave : Room → Option (List (List Zone)) → Option (List (List ℕ)) → Option (Room × Bool)
finish_leave r none objects = none
finish_leave r (some zones) none = none
finish_leave r (some zones) (some objects) =
    some (record r { map = record r.map { objects = objects }; zones = zones }, true)

pub apply_leave : Room → Object → Option (Room × Bool)
unfolding finish_leave
apply_leave r o =
    if o.in_room && is_within_bounds r.map o.cell_pos
    then finish_leave r
        (modify r.zones (get_zone_index r o.cell_pos) (remove (get_object_type_by_id o.id) o.id))
        (clear_cell r.map o.cell_pos o.id)
    else some (r, false)
