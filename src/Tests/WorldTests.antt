-- ===== src/Tests/WorldTests.antt =====
-- Tests of the map and of the zones of a room.
use mmo_server_cpp.Base.{ℕ, ◌≡◌, refl, [], some, true, false, arith, replicate}
use mmo_server_cpp.Base.Int.{pos, negsuc, ◌+ℤ◌, ◌-ℤ◌}
use mmo_server_cpp.World.Vector.{Vector2Int}
use mmo_server_cpp.World.Grid.{cell}
use mmo_server_cpp.World.Map.{
  Map, MapFile, read_walls, read_lines, fill_map, load_map, init_arrays, is_within_bounds,
  get_coord_index, can_go, has_collision,
}
use mmo_server_cpp.World.Room.{Room, Object, init_zones, apply_move}
use mmo_server_cpp.World.Room.Zones.{IsReady}
use mmo_server_cpp.World.Room.Laws.{HasMoved, apply_move_lem}
use mmo_server_cpp.Actors.Facing.{up, right}
use mmo_server_cpp.Actors.Monster.{idle, moving}
use mmo_server_cpp.Actors.Moves.{Mover, MovePacket, IsHandled, handle_move_packet_lem}
use mmo_server_cpp.World.Room.Init.{init_zones-IsReady}

-- A map of five by four cells around the origin, and its file.
abbrev bare : Map
bare = record {
  min_x = negsuc 1;
  max_x = pos 2;
  min_y = negsuc 1;
  max_y = pos 1;
  collisions = [];
  objects = [];
}

abbrev bare_file : MapFile
bare_file = record {
  min_x = negsuc 1;
  max_x = pos 2;
  min_y = negsuc 1;
  max_y = pos 1;
  lines = replicate 4 (replicate 5 48);
}

bare_loaded : load_map bare_file ≡ some (init_arrays bare 5 4)
unfolding load_map fill_map read_lines read_walls init_arrays ◌+ℤ◌ ◌-ℤ◌
bare_loaded = refl

abbrev field : Room
field = init_zones (init_arrays bare 5 4) 3

abbrev at : ℕ → ℕ → Vector2Int
at x y = record { x = pos x; y = pos y }

field-IsReady : IsReady (init_zones (init_arrays bare 5 4) 3)
unfolding ◌+ℤ◌ ◌-ℤ◌
field-IsReady =
    init_zones-IsReady bare_file (init_arrays bare 5 4) 3 5 4 (omega arith) refl refl bare_loaded

-- A player.
abbrev hero : Object
hero = record { id = 0x100_0007; cell_pos = at 0 0; in_room = true }

apply_move_lem_example :
    (r' : Room) × (apply_move field hero (at 2 1) false true
      ≡ some (r', record hero { cell_pos = at 2 1 }, true))
    × HasMoved field hero (at 2 1) r'
unfolding is_within_bounds can_go has_collision get_coord_index cell init_zones init_arrays ◌-ℤ◌
apply_move_lem_example = apply_move_lem field hero (at 2 1) false field-IsReady refl refl refl

abbrev walker : Mover
walker = record { object = hero; state = idle; dir = up }

abbrev step_right : MovePacket
step_right = record { cell_pos = at 1 0; state = moving; dir = right }

handle_move_packet_lem_example : IsHandled field walker step_right
unfolding is_within_bounds init_zones init_arrays
handle_move_packet_lem_example =
    handle_move_packet_lem field walker step_right field-IsReady refl refl
