-- ===== src/Tests/CrowdTests.antt =====
-- Tests of path finding, of arrows and of the crowd of a room.
use mmo_server_cpp.Actors.Monster.{idle}
use mmo_server_cpp.Actors.Moves.{Mover}
use mmo_server_cpp.Actors.Skill.{
  SkillData, skill_projectile, HasCast, handle_skill_packet, handle_skill_packet_lem,
}
use mmo_server_cpp.Base.{
  ℕ, ◌≡◌, ◌⊎◌, refl, List, [], ◌∷◌, ◌++◌, none, some, true, false, ◌&&◌, contains, arith, replicate,
}
use mmo_server_cpp.Base.Int.{pos, negsuc, ◌+ℤ◌, ◌-ℤ◌}
use mmo_server_cpp.World.Vector.{Vector2Int}
use mmo_server_cpp.World.Grid.{cell}
use mmo_server_cpp.World.Map.{
  Map, MapFile, read_walls, read_lines, fill_map, load_map, init_arrays, is_within_bounds,
  get_coord_index, can_go, has_collision,
}
use mmo_server_cpp.World.Room.{Room, Object, no_objects, init_zones}
use mmo_server_cpp.World.Room.Zones.{IsReady}
use mmo_server_cpp.World.Room.Init.{init_zones-IsReady}
use mmo_server_cpp.World.Room.Adjacent.{
  k_range, within, broadcast, keep_within, gather, get_adjacent_zones, zones_of_rows, from_to,
  zones_of_row, add_zone, get_zone,
}
use mmo_server_cpp.World.Path.{done, known, heuristic, find_path}
use mmo_server_cpp.World.Path.Cells.{same, has_key, lookup_at, insert_at, contains_cell}
use mmo_server_cpp.World.Path.Reach.{IsFound, find_path_lem}
use mmo_server_cpp.Actors.Facing.{right}
use mmo_server_cpp.Actors.Arrow.{Arrow, arrow_update}
use mmo_server_cpp.Actors.Arrow.Flight.{is_armed, HasFlown, HasStruck, arrow_update_lem}
use mmo_server_cpp.Actors.View.{
  ViewCube, Moment, get_objects, after_reset, s_spawn, set_of, update, except, unless_empty,
}
use mmo_server_cpp.Actors.View.Picture.{
  Event, updates, hears, heard, is_borne_out, show_all, shown, watch, watch_lem,
}
use mmo_server_cpp.Actors.Crowd.{Crowd, cell_of}
use mmo_server_cpp.Actors.Crowd.Orderly.{IsOrderly}
use mmo_server_cpp.Actors.Crowd.Steps.{enter_lem}
use mmo_server_cpp.Actors.Crowd.Histories.{
  History, start, next, enters, empty_crowd, empty-IsOrderly, broadcast-exact,
}

-- The file of a map of five by four cells around the origin, with a wall in a corner; the last line
-- is one character short.
abbrev meadow_file : MapFile
meadow_file = record {
  min_x = negsuc 1;
  max_x = pos 2;
  min_y = negsuc 1;
  max_y = pos 1;
  lines =
      (49 ∷ 48 ∷ 48 ∷ 48 ∷ 48 ∷ [])
      ∷ (48 ∷ 48 ∷ 48 ∷ 48 ∷ 48 ∷ [])
      ∷ (48 ∷ 48 ∷ 48 ∷ 48 ∷ 48 ∷ [])
      ∷ (48 ∷ 48 ∷ 48 ∷ 48 ∷ [])
      ∷ [];
}

abbrev meadow : Map
meadow = record {
  min_x = negsuc 1;
  max_x = pos 2;
  min_y = negsuc 1;
  max_y = pos 1;
  collisions = (true ∷ false ∷ false ∷ false ∷ false ∷ []) ∷ replicate 3 (replicate 5 false);
  objects = replicate 4 (replicate 5 0);
}

meadow_loaded : load_map meadow_file ≡ some meadow
unfolding load_map fill_map read_lines read_walls init_arrays ◌+ℤ◌ ◌-ℤ◌
meadow_loaded = refl

abbrev arena : Room
arena = init_zones meadow 3

abbrev spot : ℕ → ℕ → Vector2Int
spot x y = record { x = pos x; y = pos y }

arena-IsReady : IsReady arena
unfolding ◌+ℤ◌ ◌-ℤ◌
arena-IsReady = init_zones-IsReady meadow_file meadow 3 5 4 (omega arith) refl refl meadow_loaded

find_path_lem_example :
    IsFound arena.map
      (spot 0 0)
      (spot 2 1)
      false
      5
      (find_path arena.map (spot 0 0) (spot 2 1) false 5)
unfolding heuristic ◌-ℤ◌
find_path_lem_example =
    find_path_lem arena.map (spot 0 0) (spot 2 1) false 5 arena-IsReady.loaded (omega arith)

-- The path that it finds.
route :
    find_path arena.map (spot 0 0) (spot 2 1) false 5 ≡ done (spot 0 1 ∷ spot 1 1 ∷ spot 2 1 ∷ [])
unfolding find_path known heuristic same has_key lookup_at insert_at contains_cell can_go
    has_collision get_coord_index cell init_zones ◌-ℤ◌ ◌+ℤ◌
route = refl

abbrev bolt : Arrow
bolt = record {
  object = record { id = 0x300_0001; cell_pos = spot 0 0; in_room = true };
  dir = right;
  has_owner = true;
  has_data = true;
  tick = 50;
  attack = 10;
}

arrow_update_lem_example :
    ((is_armed bolt ≡ false) × (arrow_update arena bolt ≡ some (arena, bolt, [])))
    ⊎ ((is_armed bolt ≡ true) × (HasFlown arena bolt ⊎ HasStruck arena bolt))
arrow_update_lem_example = arrow_update_lem arena bolt arena-IsReady

-- A player comes into the empty room.
abbrev guest : Object
guest = record { id = 0x100_0007; cell_pos = spot 1 0; in_room = false }

nobody-IsOrderly : IsOrderly (empty_crowd arena)
unfolding ◌+ℤ◌ ◌-ℤ◌
nobody-IsOrderly = empty-IsOrderly meadow_file meadow 3 5 4 (omega arith) refl refl meadow_loaded

guest_within : is_within_bounds arena.map guest.cell_pos ≡ true
unfolding is_within_bounds init_zones
guest_within = refl

guest_new : contains guest.id (empty_crowd arena).players ≡ false
unfolding contains
guest_new = refl

abbrev hosted : Crowd
hosted = (enter_lem (empty_crowd arena) guest nobody-IsOrderly guest_within bolt guest_new).0

visit : History (empty_crowd arena) hosted
visit =
    let (c, es, runs, orderly) =
      enter_lem (empty_crowd arena) guest nobody-IsOrderly guest_within bolt guest_new in
    next start (enters guest bolt guest_within guest_new runs)

broadcast-exact_example :
    contains 0x100_0007 (broadcast (cell_of hosted) hosted.room (spot 0 0))
    ≡ (contains 0x100_0007 hosted.players && within k_range (spot 0 0) (cell_of hosted 0x100_0007))
unfolding ◌+ℤ◌ ◌-ℤ◌
broadcast-exact_example =
    broadcast-exact meadow_file meadow 3 5 4 (omega arith) refl refl meadow_loaded visit (spot 0 0)
      0x100_0007

-- The view of a player that looks at an empty room, and then at one with the guest.
abbrev fresh : ViewCube
fresh = record { is_reset = true; prev_objects = []; job_reserved = none }

abbrev before_visit : Moment
before_visit = record {
  has_room = true;
  room = arena;
  owner_pos = spot 0 0;
  cell_of = cell_of (empty_crowd arena);
}

abbrev after_visit : Moment
after_visit = record {
  has_room = true;
  room = record arena {
    zones =
        (no_objects ∷ record no_objects { players = 0x100_0007 ∷ [] } ∷ [])
        ∷ (no_objects ∷ no_objects ∷ [])
        ∷ [];
  };
  owner_pos = spot 0 0;
  cell_of = λ id. spot 1 0;
}

-- `Room::Enter` broadcasts the guest before the second update.
abbrev visit_heard : List Event
visit_heard = updates before_visit ∷ hears (s_spawn (0x100_0007 ∷ [])) ∷ []

watch_lem_example :
    contains 0x100_0007 (watch (visit_heard ++ updates after_visit ∷ []) fresh []).1
    ≡ contains 0x100_0007 (get_objects after_visit)
unfolding after_reset is_borne_out heard get_objects contains set_of keep_within gather
    get_adjacent_zones zones_of_rows from_to ◌+ℤ◌ ◌-ℤ◌ init_zones zones_of_row add_zone get_zone
    cell
watch_lem_example = watch_lem visit_heard after_visit fresh [] 0x100_0007 refl refl refl

-- An object that is broadcast and is gone before the next update stays in the picture.
abbrev stray : List Event
stray = updates before_visit ∷ hears (s_spawn (0x100_0008 ∷ [])) ∷ updates before_visit ∷ []

stray_stays : contains 0x100_0008 (watch stray fresh []).1 ≡ true
unfolding after_reset is_borne_out heard get_objects contains set_of keep_within gather
    get_adjacent_zones zones_of_rows from_to ◌+ℤ◌ ◌-ℤ◌ init_zones zones_of_row add_zone get_zone
    cell watch update show_all shown except unless_empty
stray_stays = refl

abbrev bow_skill : SkillData
bow_skill = record { skill_type = skill_projectile; tick = 50 }

abbrev archer : Mover
archer = record { object = record guest { in_room = true }; state = idle; dir = right }

handle_skill_packet_lem_example :
    HasCast arena archer 2 bow_skill 0x300_0002 10 arena
      (handle_skill_packet arena archer 2 (some bow_skill) 0x300_0002 10)
handle_skill_packet_lem_example =
    handle_skill_packet_lem arena archer 2 bow_skill 0x300_0002 10 arena arena-IsReady arena-IsReady
