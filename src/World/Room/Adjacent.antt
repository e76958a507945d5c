-- ===== src/World/Room/Adjacent.antt =====
-- Who is near a cell: `GetZone`, `GetAdjacentZones` and its kin, `Broadcast` and the searches for
-- the closest object of GameServer/Room.cpp.
pub mod Covers
pub mod Reaches
use mmo_server_cpp.Base.{
  ℕ, zero, suc, ◌+◌, ◌*◌, List, [], ◌∷◌, ◌++◌, map, Option, none, some, Bool, true, false, not,
  ◌||◌, ◌&&◌, ltb, leb, if◌then◌else◌, length, lookup, insert,
}
use mmo_server_cpp.Base.Int.{ℤ, pos, ◌+ℤ◌, ◌-ℤ◌, ltb_ℤ, pos_part, abs}
use mmo_server_cpp.World.Vector.{Vector2Int, minus, quot}
use mmo_server_cpp.World.Grid.{cell}
use mmo_server_cpp.World.Map.{Map}
use mmo_server_cpp.World.Room.{Zone, Room, width}
use mmo_server_cpp.World.Path.{Result, done, undefined, out_of_fuel, find_path}

-- `kRange`
abbrev pub k_range : ℕ
k_range = 10

-- `GetZone(index_x, index_y)`
unfoldable pub get_zone : Room → Vector2Int → Option Zone
get_zone r i =
    if ltb_ℤ i.x (pos 0) || not (ltb_ℤ i.x (pos (width r.zones)))
    then none
    else if ltb_ℤ i.y (pos 0) || not (ltb_ℤ i.y (pos (length r.zones)))
    then none
    else cell r.zones i

-- `for (int32 i = low; i <= high; ++i)`, with the rounds that are left.
unfoldable pub count_from : ℕ → ℤ → List ℤ
count_from zero low = []
count_from (suc n) low = low ∷ count_from n (low +ℤ pos 1)

unfoldable pub from_to : ℤ → ℤ → List ℤ
unfolding count_from
from_to low high = count_from (pos_part (high -ℤ low +ℤ pos 1)) low

-- `nullptr` is left out.
unfoldable pub add_zone : Option Zone → List Zone → List Zone
add_zone none zones = zones
add_zone (some zone) zones = zone ∷ zones

-- The zones of one row, and those of all rows.
unfoldable pub zones_of_row : Room → ℤ → List ℤ → List Zone
zones_of_row r y [] = []
zones_of_row r y (x ∷ xs) = add_zone (get_zone r (record { x = x; y = y })) (zones_of_row r y xs)

unfoldable pub zones_of_rows : Room → List ℤ → List ℤ → List Zone
zones_of_rows r xs [] = []
zones_of_rows r xs (y ∷ ys) = zones_of_row r y xs ++ zones_of_rows r xs ys

unfoldable pub get_adjacent_zones : Room → Vector2Int → ℕ → List Zone
unfolding quot
get_adjacent_zones r cell_pos range =
    let left_top_x = quot (cell_pos.x -ℤ pos range -ℤ r.map.min_x) r.zone_cell_size in
    let left_top_y = quot (r.map.max_y -ℤ (cell_pos.y +ℤ pos range)) r.zone_cell_size in
    let right_bottom_x = quot (cell_pos.x +ℤ pos range -ℤ r.map.min_x) r.zone_cell_size in
    let right_bottom_y = quot (r.map.max_y -ℤ (cell_pos.y -ℤ pos range)) r.zone_cell_size in
    zones_of_rows r (from_to left_top_x right_bottom_x) (from_to left_top_y right_bottom_y)

-- The objects of one kind in a list of zones, zone by zone.
unfoldable pub gather : (Zone → List ℕ) → List Zone → List ℕ
gather kind [] = []
gather kind (z ∷ zones) = kind z ++ gather kind zones

pub get_adjacent_players : Room → Vector2Int → ℕ → List ℕ
unfolding gather get_adjacent_zones
get_adjacent_players r cell_pos range =
    gather (λ z. z.players) (get_adjacent_zones r cell_pos range)

pub get_adjacent_monsters : Room → Vector2Int → ℕ → List ℕ
unfolding gather get_adjacent_zones
get_adjacent_monsters r cell_pos range =
    gather (λ z. z.monsters) (get_adjacent_zones r cell_pos range)

pub get_adjacent_projectiles : Room → Vector2Int → ℕ → List ℕ
unfolding gather get_adjacent_zones
get_adjacent_projectiles r cell_pos range =
    gather (λ z. z.projectiles) (get_adjacent_zones r cell_pos range)

-- At most `range` away in either direction.
unfoldable pub within : ℕ → Vector2Int → Vector2Int → Bool
within range p q = leb (abs (p.x -ℤ q.x)) range && leb (abs (p.y -ℤ q.y)) range

unfoldable pub keep_within : ℕ → Vector2Int → (ℕ → Vector2Int) → List ℕ → List ℕ
unfolding within
keep_within range p cell_of [] = []
keep_within range p cell_of (id ∷ ids) =
    if within range p (cell_of id)
    then id ∷ keep_within range p cell_of ids
    else keep_within range p cell_of ids

module _ (cell_of : ℕ → Vector2Int) where
  -- `Broadcast(pos, send_buffer)`: the ids of the players to whose sessions it goes. `cell_of` is
  -- where the object with an id stands.
  pub broadcast : Room → Vector2Int → List ℕ
  unfolding keep_within get_adjacent_players
  broadcast r p = keep_within k_range p cell_of (get_adjacent_players r p k_range)

  -- `SquareMagnitude`
  square_magnitude : Vector2Int → ℕ
  square_magnitude d = abs d.x * abs d.x + abs d.y * abs d.y

  -- `sort` by the distance from `base_pos`.
  pub insert_by_distance : Vector2Int → ℕ → List ℕ → List ℕ
  unfolding square_magnitude
  insert_by_distance base_pos id [] = id ∷ []
  insert_by_distance base_pos id (next ∷ ids) =
      if ltb (square_magnitude (minus base_pos (cell_of next)))
        (square_magnitude (minus base_pos (cell_of id)))
      then next ∷ insert_by_distance base_pos id ids
      else id ∷ next ∷ ids

  pub sort_by_distance : Vector2Int → List ℕ → List ℕ
  unfolding insert_by_distance
  sort_by_distance base_pos [] = []
  sort_by_distance base_pos (id ∷ ids) =
      insert_by_distance base_pos id (sort_by_distance base_pos ids)

  -- `path_list.size() < 1 || path_list.size() > range`
  pub too_short_or_long : ℕ → List Vector2Int → Bool
  too_short_or_long range path = ltb (length path) 1 || ltb range (length path)

  -- The loop over the sorted objects; `done none` is `nullptr`.
  pub first_with_path : Map → Vector2Int → ℕ → List ℕ → Result (Option ℕ)
  unfolding too_short_or_long
  first_with_path m base_pos range [] = done none
  first_with_path m base_pos range (id ∷ ids) =
      let rest = first_with_path m base_pos range ids in
      elim (find_path m base_pos (cell_of id) false range) [
        | done path ↦ if too_short_or_long range path then rest else done (some id)
        | undefined ↦ undefined
        | out_of_fuel ↦ out_of_fuel
      ]

  pub find_closest_player : Room → Vector2Int → ℕ → Result (Option ℕ)
  unfolding first_with_path sort_by_distance get_adjacent_players
  find_closest_player r base_pos range =
      first_with_path r.map base_pos range
        (sort_by_distance base_pos (get_adjacent_players r base_pos range))

  pub find_closest_monster : Room → Vector2Int → ℕ → Result (Option ℕ)
  unfolding first_with_path sort_by_distance get_adjacent_monsters
  find_closest_monster r base_pos range =
      first_with_path r.map base_pos range
        (sort_by_distance base_pos (get_adjacent_monsters r base_pos range))
