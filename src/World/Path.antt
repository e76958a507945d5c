-- ===== src/World/Path.antt =====
-- `Map::FindPath` and `Map::CalculatePath` of GameServer/Map.cpp, with `Node` of Map.h.
pub mod Cells
pub mod Trail
pub mod Rounds
pub mod Explore
pub mod Reach
use mmo_server_cpp.Base.{
  ℕ, zero, suc, ◌+◌, ◌-◌, ◌*◌, ◌^◌, List, [], ◌∷◌, Option, none, some, Bool, true, false, ltb, leb,
  if◌then◌else◌, length,
}
use mmo_server_cpp.Base.Int.{ℤ, pos, negsuc, ◌-ℤ◌, abs}
use mmo_server_cpp.World.Vector.{Vector2Int, plus, minus, simple_distance}
use mmo_server_cpp.World.Map.{Map, can_go}
use mmo_server_cpp.World.Path.Cells.{same, has_key, lookup_at, insert_at, contains_cell}

-- A node also keeps its predecessor, which nothing reads.
pub record Node : Type 0 where
  pub cell_pos : Vector2Int
  pub h : ℕ

-- The local variables of `FindPath`.
pub record Search : Type 0 where
  pub parent : List (Vector2Int × Vector2Int)
  pub h_list : List (Vector2Int × ℕ)
  pub open_list : List Node
  pub close_list : List Vector2Int

pub data Result (A : Type 0) : Type 0 where
  done : A → Result A
  undefined : Result A
  out_of_fuel : Result A

-- `Heuristic`
unfoldable pub heuristic : Vector2Int → Vector2Int → ℕ
heuristic start dest = abs (dest.x -ℤ start.x) + abs (dest.y -ℤ start.y)

-- `top` and `pop` of the priority queue: a node of least `h`. The standard does not say which one
-- comes first among equals; here it is the one that stands first.
pub pop_min : Node → List Node → Node × List Node
pop_min n [] = (n, [])
pop_min n (next ∷ rest) =
    let (best, others) = pop_min next rest in
    if leb n.h best.h then (n, next ∷ rest) else (best, n ∷ others)

-- `iter != h_list.end() && h_list[next_pos] <= next_heuristic`
unfoldable pub known : ℕ → Option ℕ → Bool
known h none = false
known h (some old) = leb old h

abbrev pub directions : List Vector2Int
directions =
    record { x = pos 1; y = pos 0 }
    ∷ record { x = pos 0; y = negsuc 0 }
    ∷ record { x = negsuc 0; y = pos 0 }
    ∷ record { x = pos 0; y = pos 1 }
    ∷ []

-- `current_node` leaves the open list and joins the closed one.
abbrev pub closing : Search → Vector2Int → List Node → Search
closing s cell_pos rest = record s { open_list = rest; close_list = cell_pos ∷ s.close_list }

-- `dest` itself may be blocked: the target stands on it.
pub enterable : Map → Vector2Int → Bool → Vector2Int → Option Bool
enterable m dest is_through_objects next_pos =
    if same dest next_pos then some true else can_go m next_pos is_through_objects

module _ (m : Map) (dest : Vector2Int) (is_through_objects : Bool) (max_distance : ℕ) where
  -- The end of the loop's body, behind the test of `CanGo`.
  pub admit : Search → Vector2Int → Vector2Int → Option Bool → Option Search
  admit s cell_pos next_pos none = none
  admit s cell_pos next_pos (some false) = some s
  admit s cell_pos next_pos (some true) =
      if contains_cell next_pos s.close_list
      then some s
      else some (record s {
        parent = insert_at next_pos cell_pos s.parent;
        h_list = insert_at next_pos (heuristic next_pos dest) s.h_list;
        open_list = record { cell_pos = next_pos; h = heuristic next_pos dest } ∷ s.open_list;
      })

  pub offer : Search → Vector2Int → Vector2Int → Option Search
  unfolding admit enterable
  offer s cell_pos next_pos =
      let next_heuristic = heuristic next_pos dest in
      if ltb max_distance next_heuristic
      then some s
      else if known next_heuristic (lookup_at next_pos s.h_list)
      then some s
      else admit s cell_pos next_pos (enterable m dest is_through_objects next_pos)

  -- The loop over the directions.
  pub expand : Vector2Int → List Vector2Int → Search → Option Search
  unfolding offer
  expand cell_pos [] s = some s
  expand cell_pos (dir ∷ dirs) s = elim (offer s cell_pos (plus cell_pos dir)) [
    | none ↦ none
    | some s' ↦ expand cell_pos dirs s'
  ]

  pub search : ℕ → Search → Result Search
  unfolding expand pop_min
  search zero s = out_of_fuel
  search (suc fuel) s = elim s.open_list [
    | [] ↦ done s
    | n ∷ rest ↦
        let (current_node, others) = pop_min n rest in
        let on = expand current_node.cell_pos directions (closing s current_node.cell_pos others) in
        elim (same current_node.cell_pos dest) [
          | true ↦ done (record s { open_list = others })
          | false ↦ elim on [ none ↦ undefined | some s' ↦ search fuel s' ]
        ]
  ]

abbrev pub no_cell : Vector2Int
no_cell = record { x = negsuc 0; y = negsuc 0 }

-- The second-best destination: a key of least distance.
pub closest : Vector2Int → List (Vector2Int × Vector2Int) → ℕ → Vector2Int → Vector2Int
closest dest [] best found = found
closest dest ((key, value) ∷ rest) best found =
    let dist = simple_distance (minus dest key) in
    closest dest rest (if ltb dist best then dist else best) (if ltb dist best then key else found)

-- `parent[p]`, which inserts `Vector2Int()` for a missing key.
pub parent_of : List (Vector2Int × Vector2Int) → Vector2Int → Vector2Int
parent_of parent p = elim (lookup_at p parent) [ none ↦ no_cell | some q ↦ q ]

-- The loop of `CalculatePath`; `path` is `_cell_path` as `reverse` leaves it.
pub walk :
    ℕ → List (Vector2Int × Vector2Int) → Vector2Int → List Vector2Int → Result (List Vector2Int)
unfolding parent_of
walk zero parent dest path = out_of_fuel
walk (suc fuel) parent dest path =
    let rest = walk fuel parent (parent_of parent dest) (dest ∷ path) in
    if same (parent_of parent dest) dest then done path else rest

-- `INT_MAX`
abbrev pub int_max : ℕ
int_max = 2147483647

-- Where the path shall end.
pub goal_of : List (Vector2Int × Vector2Int) → Vector2Int → Vector2Int
unfolding closest
goal_of parent dest = if has_key dest parent then dest else closest dest parent int_max no_cell

pub calculate_path : List (Vector2Int × Vector2Int) → Vector2Int → Result (List Vector2Int)
unfolding walk goal_of
calculate_path parent dest = walk (suc (length parent)) parent (goal_of parent dest) []

pub start_search : Vector2Int → Vector2Int → Search
start_search start dest = record {
  parent = (start, start) ∷ [];
  h_list = [];
  open_list = record { cell_pos = start; h = heuristic start dest } ∷ [];
  close_list = [];
}

pub path_from : Vector2Int → Result Search → Result (List Vector2Int)
unfolding calculate_path
path_from dest undefined = undefined
path_from dest out_of_fuel = out_of_fuel
path_from dest (done s) = calculate_path s.parent dest

-- One round for each cell of a square around `dest`, and two.
pub search_fuel : ℕ → ℕ
search_fuel max_distance = (2 * max_distance + 1) * (2 * max_distance + 1) + 2

unfoldable pub find_path : Map → Vector2Int → Vector2Int → Bool → ℕ → Result (List Vector2Int)
unfolding search path_from start_search search_fuel
find_path m start dest is_through_objects max_distance = path_from dest (
    search m dest is_through_objects max_distance (search_fuel max_distance)
      (start_search start dest))
