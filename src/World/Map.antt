-- ===== src/World/Map.antt =====
-- `Map` of GameServer/Map.h and Map.cpp: the walls and the objects on the cells of a room.
pub mod Laws
pub mod Load
use mmo_server_cpp.Base.{
  ℕ, zero, suc, List, [], ◌∷◌, Option, none, some, Bool, true, false, not, ◌||◌, ◌==◌,
  if◌then◌else◌, replicate, ◌>>=◌,
}
use mmo_server_cpp.Base.Int.{ℤ, pos, negsuc, ◌+ℤ◌, ◌-ℤ◌, ltb_ℤ, pos_part}
use mmo_server_cpp.World.Vector.{Vector2Int}
use mmo_server_cpp.World.Grid.{cell, write}

-- An object stands on a cell by its id, which is never 0; 0 is `nullptr`.
pub record Map : Type 0 where
  pub min_x : ℤ
  pub max_x : ℤ
  pub min_y : ℤ
  pub max_y : ℤ
  pub collisions : List (List Bool)
  pub objects : List (List ℕ)

abbrev pub get_size_x : Map → ℤ
get_size_x m = m.max_x -ℤ m.min_x +ℤ pos 1

abbrev pub get_size_y : Map → ℤ
get_size_y m = m.max_y -ℤ m.min_y +ℤ pos 1

-- `InitArrays`
unfoldable pub init_arrays : Map → ℕ → ℕ → Map
init_arrays m size_x size_y = record m {
  collisions = replicate size_y (replicate size_x false);
  objects = replicate size_y (replicate size_x 0);
}

-- A file of a map: the four numbers of its first lines, which `stoi` reads, and the characters of the
-- lines behind them.
pub record MapFile : Type 0 where
  pub min_x : ℤ
  pub max_x : ℤ
  pub min_y : ℤ
  pub max_y : ℤ
  pub lines : List (List ℕ)

-- The loop of `LoadMap` over a line, from its front; a character is read behind a line's end as `\0`,
-- and beyond that it is undefined, here `none`.
unfoldable pub read_walls : ℕ → List ℕ → Option (List Bool)
read_walls zero line = some []
read_walls (suc zero) [] = some (false ∷ [])
read_walls (suc (suc n)) [] = none
read_walls (suc n) (c ∷ line) = do rest ← read_walls n line; some ((c == 49) ∷ rest)

-- Its loop over the lines; `ReadLine` gives an empty line at the end of the file. A negative size
-- makes `resize` throw.
unfoldable pub read_lines : ℕ → ℤ → List (List ℕ) → Option (List (List Bool))
read_lines zero size_x lines = some []
read_lines (suc n) (negsuc size_x) lines = none
read_lines (suc n) (pos size_x) [] = do
  row ← read_walls size_x []
  rest ← read_lines n (pos size_x) []
  some (row ∷ rest)
read_lines (suc n) (pos size_x) (line ∷ lines) = do
  row ← read_walls size_x line
  rest ← read_lines n (pos size_x) lines
  some (row ∷ rest)

unfoldable pub fill_map : Map → ℤ → ℤ → List (List ℕ) → Option Map
fill_map m size_x (negsuc size_y) lines = none
fill_map m size_x (pos size_y) lines = do
  collisions ← read_lines size_y size_x lines
  some (record (init_arrays m (pos_part size_x) size_y) { collisions = collisions })

-- `LoadMap`, on the contents of the file.
unfoldable pub load_map : MapFile → Option Map
load_map file =
    let m : Map = record {
      min_x = file.min_x;
      max_x = file.max_x;
      min_y = file.min_y;
      max_y = file.max_y;
      collisions = [];
      objects = [];
    } in
    fill_map m (get_size_x m) (get_size_y m) file.lines

unfoldable pub is_within_bounds : Map → Vector2Int → Bool
is_within_bounds m p =
    if ltb_ℤ p.x m.min_x || ltb_ℤ m.max_x p.x || ltb_ℤ p.y m.min_y || ltb_ℤ m.max_y p.y
    then false
    else true

unfoldable pub get_coord_index : Map → Vector2Int → Vector2Int
get_coord_index m p = record { x = p.x -ℤ m.min_x; y = m.max_y -ℤ p.y }

-- `!is_through_objects && object != nullptr`
occupied : Bool → Option ℕ → Option Bool
occupied true object = some false
occupied false none = none
occupied false (some object) = some (not (object == 0))

wall_or : Option Bool → Option Bool → Option Bool
wall_or none rest = none
wall_or (some true) rest = some true
wall_or (some false) rest = rest

-- `none` is an access out of range.
unfoldable pub has_collision : Map → Vector2Int → Bool → Option Bool
unfolding occupied wall_or
has_collision m i is_through_objects =
    wall_or (cell m.collisions i) (occupied is_through_objects (cell m.objects i))

negate : Option Bool → Option Bool
negate none = none
negate (some b) = some (not b)

-- `CanGo`, whose first four tests are those of `IsWithinBounds`.
unfoldable pub can_go : Map → Vector2Int → Bool → Option Bool
unfolding negate is_within_bounds
can_go m p is_through_objects =
    if ltb_ℤ p.x m.min_x || ltb_ℤ m.max_x p.x
    then some false
    else if ltb_ℤ p.y m.min_y || ltb_ℤ m.max_y p.y
    then some false
    else negate (has_collision m (get_coord_index m p) is_through_objects)

-- `Find`; `some 0` is `nullptr`.
unfoldable pub find : Map → Vector2Int → Option ℕ
find m p = if is_within_bounds m p then cell m.objects (get_coord_index m p) else some 0

-- `if (_objects[now.y][now.x] == object) _objects[now.y][now.x] = nullptr;`
clear_if : List (List ℕ) → Vector2Int → ℕ → Option ℕ → Option (List (List ℕ))
clear_if objects i id none = none
clear_if objects i id (some here) = if here == id then write objects i 0 else some objects

pub clear_cell : Map → Vector2Int → ℕ → Option (List (List ℕ))
unfolding clear_if
clear_cell m p id = let i = get_coord_index m p in clear_if m.objects i id (cell m.objects i)

put_object : Map → Vector2Int → ℕ → Option (List (List ℕ)) → Option (List (List ℕ))
put_object m dest id none = none
put_object m dest id (some objects) = write objects (get_coord_index m dest) id

-- The block of `ApplyMove` under `apply_collision`.
pub move_object : Map → Vector2Int → Vector2Int → ℕ → Option (List (List ℕ))
unfolding put_object
move_object m now dest id = put_object m dest id (clear_cell m now id)
