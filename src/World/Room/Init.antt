-- ===== src/World/Room/Init.antt =====
-- A room that `Room::Init` has made is ready.
use mmo_server_cpp.Base.{
  ℕ, zero, suc, ◌+◌, ◌-◌, ◌*◌, ◌/◌, ◌<◌, ◌≤◌, ◌≡◌, refl, ap, some, true, false, length, replicate,
  length-replicate, get_elem?, arith, List, [], Bool, none, Option-cases, inl, inr, subst, sym, ◌∙◌,
}
use mmo_server_cpp.Base.Int.{ℤ, pos, pos_part, ◌+ℤ◌, ◌-ℤ◌, ltb_ℤ, +ℤ_parts, -ℤ_parts}
use native.Mathlib.Nat.{le-div_iff_mul-le, div-mul-le_self}
use mmo_server_cpp.World.Vector.{Vector2Int, quot}
use mmo_server_cpp.World.Grid.{cell}
use mmo_server_cpp.World.Map.{
  Map, MapFile, read_lines, fill_map, load_map, get_size_x, get_size_y, init_arrays,
  is_within_bounds, get_coord_index,
}
use mmo_server_cpp.World.Map.Laws.{IsLoaded}
use mmo_server_cpp.World.Room.{
  Zone, Room, width, get_zone_index, no_objects, count_zones, init_zones,
}
use mmo_server_cpp.World.Room.Zones.{IsReady}
use mmo_server_cpp.World.Map.Load.{read_lines-HasCell}

get_elem?-replicate {ℓ} :
    {A : Type ℓ} (n i : ℕ) (a : A) → i < n → get_elem? (replicate n a) i ≡ some a
get_elem?-replicate zero i a h = absurd (omega arith)
get_elem?-replicate (suc n) zero a h = refl
get_elem?-replicate (suc n) (suc i) a h = get_elem?-replicate n i a (omega arith)

cell-replicate {ℓ} :
    {A : Type ℓ} (rows columns j i : ℕ) (a : A)
    → i < rows
    → j < columns
    → cell (replicate rows (replicate columns a)) (record { x = pos j; y = pos i }) ≡ some a
unfolding cell
cell-replicate rows columns j i a h k =
    rw (get_elem?-replicate rows i (replicate columns a) h) (get_elem?-replicate columns j a k)

-- The offset of a cell from either edge.
offset :
    (lo hi p : ℤ) (n : ℕ)
    → hi -ℤ lo +ℤ pos 1 ≡ pos n
    → ltb_ℤ p lo ≡ false
    → ltb_ℤ hi p ≡ false
    → (j : ℕ) × (p -ℤ lo ≡ pos j) × (j < n)
unfolding ◌-ℤ◌ ◌+ℤ◌
offset lo hi p n size above below =
    let a = +ℤ_parts (hi -ℤ lo) (pos 1) in
    let b = -ℤ_parts hi lo in
    let c = -ℤ_parts p lo in (pos_part (p -ℤ lo), ground arith, ground (arith, a, b, c))

offset_down :
    (lo hi p : ℤ) (n : ℕ)
    → hi -ℤ lo +ℤ pos 1 ≡ pos n
    → ltb_ℤ p lo ≡ false
    → ltb_ℤ hi p ≡ false
    → (j : ℕ) × (hi -ℤ p ≡ pos j) × (j < n)
unfolding ◌-ℤ◌ ◌+ℤ◌
offset_down lo hi p n size above below =
    let a = +ℤ_parts (hi -ℤ lo) (pos 1) in
    let b = -ℤ_parts hi lo in
    let c = -ℤ_parts hi p in (pos_part (hi -ℤ p), ground arith, ground (arith, a, b, c))

quot_bound : (j n d : ℕ) → 0 < d → j < n → j / d < (n + d - 1) / d
quot_bound j n d h k =
    let below : suc (j / d) * d ≤ n + d - 1 = grind (arith, div-mul-le_self j d) in
    (le-div_iff_mul-le h).1 below

-- Where a cell of the map stands in the arrays.
coord_index :
    (m : Map) (size_x size_y : ℕ) (p : Vector2Int)
    → get_size_x m ≡ pos size_x
    → get_size_y m ≡ pos size_y
    → is_within_bounds m p ≡ true
    → (j i : ℕ) × (p.x -ℤ m.min_x ≡ pos j) × (m.max_y -ℤ p.y ≡ pos i) × (j < size_x) × (i < size_y)
unfolding is_within_bounds
coord_index m size_x size_y p ex ey within =
    let (j, e, h) = offset m.min_x m.max_x p.x size_x ex (ground arith) (ground arith) in
    let (i, f, k) = offset_down m.min_y m.max_y p.y size_y ey (ground arith) (ground arith) in
    (j, i, e, f, h, k)

-- The bounds of a file, before its walls are read.
abbrev pub bounds : MapFile → Map
bounds file = record {
  min_x = file.min_x;
  max_x = file.max_x;
  min_y = file.min_y;
  max_y = file.max_y;
  collisions = [];
  objects = [];
}

-- A loaded map: the walls of the file, and nobody on any cell.
record Made (file : MapFile) (size_x size_y : ℕ) (m : Map) : Type 0 where
  walls : List (List Bool)
  read : read_lines size_y (pos size_x) file.lines ≡ some walls
  whole : record (init_arrays (bounds file) size_x size_y) { collisions = walls } ≡ m

load_map-Made :
    (file : MapFile) (m : Map) (size_x size_y : ℕ)
    → get_size_x (bounds file) ≡ pos size_x
    → get_size_y (bounds file) ≡ pos size_y
    → load_map file ≡ some m
    → Made file size_x size_y m
unfolding load_map fill_map
load_map-Made file m size_x size_y ex ey e =
    let e' : fill_map (bounds file) (pos size_x) (pos size_y) file.lines ≡ some m =
      ap (λ z. fill_map (bounds file) z (pos size_y) file.lines) (sym ex)
      ∙ ap (λ z. fill_map (bounds file) (get_size_x (bounds file)) z file.lines) (sym ey)
      ∙ e in
    elim (Option-cases (read_lines size_y (pos size_x) file.lines)) [
      | inl bad ↦ let q : none ≡ some m = ground (arith, bad, e') in absurd (cc q)
      | inr (walls, good) ↦ record { walls = walls; read = good; whole = ground (arith, good, e') }
    ]

made-IsLoaded :
    (file : MapFile) (size_x size_y : ℕ) (walls : List (List Bool))
    → get_size_x (bounds file) ≡ pos size_x
    → get_size_y (bounds file) ≡ pos size_y
    → read_lines size_y (pos size_x) file.lines ≡ some walls
    → IsLoaded (record (init_arrays (bounds file) size_x size_y) { collisions = walls })
unfolding init_arrays is_within_bounds get_coord_index
made-IsLoaded file size_x size_y walls ex ey read = record {
  walls = λ p within.
      let (j, i, e, f, h, k) = coord_index (bounds file) size_x size_y p ex ey within in
      rw (e, f) (read_lines-HasCell size_y size_x file.lines walls read j i h k);
  places = λ p within.
      let (j, i, e, f, h, k) = coord_index (bounds file) size_x size_y p ex ey within in
      (0, rw (e, f) (cell-replicate size_y size_x j i 0 k h));
}

width-replicate :
    (rows columns j i : ℕ)
    → i < rows
    → width (replicate rows (replicate columns no_objects)) ≡ columns
width-replicate zero columns j i h = absurd (omega arith)
width-replicate (suc rows) columns j i h = length-replicate columns no_objects

rounded_up : (size : ℤ) (n d : ℕ) → 0 < d → size ≡ pos n → size +ℤ pos d -ℤ pos 1 ≡ pos (n + d - 1)
unfolding ◌-ℤ◌ ◌+ℤ◌
rounded_up size n d h e = rw e (ground arith)

count_zones_lem : (size : ℤ) (n d : ℕ) → 0 < d → size ≡ pos n → count_zones size d ≡ (n + d - 1) / d
unfolding quot
count_zones_lem size n d h e = ap (λ z. pos_part (quot z d)) (rounded_up size n d h e)

-- The zone of a cell with the offsets `j` and `i`, in a grid of `w` times `h` zones.
get_zone_index_lem :
    (r : Room) (p : Vector2Int) (j i w h : ℕ)
    → p.x -ℤ r.map.min_x ≡ pos j
    → r.map.max_y -ℤ p.y ≡ pos i
    → width r.zones ≡ w
    → length r.zones ≡ h
    → j / r.zone_cell_size < w
    → i / r.zone_cell_size < h
    → get_zone_index r p
      ≡ some (record { x = pos (j / r.zone_cell_size); y = pos (i / r.zone_cell_size) })
unfolding get_zone_index quot
get_zone_index_lem r p j i w h e f ew eh lx ly = rw (e, f, ew, eh) (ground arith)

init_zones-zoned :
    (m : Map) (d size_x size_y : ℕ) (p : Vector2Int)
    → 0 < d
    → get_size_x m ≡ pos size_x
    → get_size_y m ≡ pos size_y
    → is_within_bounds m p ≡ true
    → (i : Vector2Int) × (z : Zone) × (get_zone_index (init_zones m d) p ≡ some i)
      × (cell (init_zones m d).zones i ≡ some z)
unfolding init_zones
init_zones-zoned m d size_x size_y p h ex ey within =
    let (j, i, e, f, lx, ly) = coord_index m size_x size_y p ex ey within in
    let cx : count_zones (get_size_x m) d ≡ (size_x + d - 1) / d =
      count_zones_lem (get_size_x m) size_x d h ex in
    let cy : count_zones (get_size_y m) d ≡ (size_y + d - 1) / d =
      count_zones_lem (get_size_y m) size_y d h ey in
    let qx : j / d < count_zones (get_size_x m) d = omega (arith, cx, quot_bound j size_x d h lx) in
    let qy : i / d < count_zones (get_size_y m) d = omega (arith, cy, quot_bound i size_y d h ly) in
    (
      record { x = pos (j / d); y = pos (i / d) },
      no_objects,
      get_zone_index_lem (init_zones m d) p j i (count_zones (get_size_x m) d)
          (count_zones (get_size_y m) d) e f (width-replicate _ _ (j / d) (i / d) qy)
          (length-replicate _ _) qx qy,
      cell-replicate _ _ (j / d) (i / d) no_objects qy qx,
    )

-- A room that is set up on a map that `LoadMap` has read, of `size_x` times `size_y` cells, with zones
-- of any positive size, is ready: there is a wall or none and a place for every cell within the
-- bounds, and a zone, also where the size of the map is no multiple of that of a zone.
pub init_zones-IsReady :
    (file : MapFile) (m : Map) (zone_cell_size size_x size_y : ℕ)
    → 0 < zone_cell_size
    → get_size_x (bounds file) ≡ pos size_x
    → get_size_y (bounds file) ≡ pos size_y
    → load_map file ≡ some m
    → IsReady (init_zones m zone_cell_size)
unfolding init_zones init_arrays
init_zones-IsReady file m d size_x size_y h ex ey e =
    let made = load_map-Made file m size_x size_y ex ey e in
    let before : Map = record (init_arrays (bounds file) size_x size_y) {
      collisions = made.walls;
    } in
    subst (λ n. IsReady (init_zones n d)) made.whole
      (record {
        loaded = made-IsLoaded file size_x size_y made.walls ex ey made.read;
        zoned = λ p within. init_zones-zoned before d size_x size_y p h ex ey within;
      })
