-- ===== src/World/Map/Laws.antt =====
-- A loaded map: every access of `CanGo`, `Find` and the moves is in range, and what they change.
use mmo_server_cpp.Base.{
  ℕ, ◌≡◌, refl, ap, ◌∙◌, List, some, Bool, true, false, ◌==◌, ◌&&◌, ◌||◌, not, if◌then◌else◌, arith,
  Bool-cases, inl, inr, ◌⊎◌,
}
use mmo_server_cpp.Base.Int.{ -ℤ_parts}
use mmo_server_cpp.World.Vector.{Vector2Int, ◌==ᵥ◌, ==ᵥ_eq}
use mmo_server_cpp.World.Grid.{cell}
use mmo_server_cpp.World.Grid.Laws.{cell-write, write-defined}
use mmo_server_cpp.World.Map.{
  Map, is_within_bounds, get_coord_index, has_collision, can_go, find, clear_cell, move_object,
}

-- Every cell within the bounds has a wall or none, and an object or none.
pub record IsLoaded (m : Map) : Type 0 where
  pub walls :
      (p : Vector2Int)
      → is_within_bounds m p ≡ true
      → (b : Bool) × (cell m.collisions (get_coord_index m p) ≡ some b)
  pub places :
      (p : Vector2Int)
      → is_within_bounds m p ≡ true
      → (n : ℕ) × (cell m.objects (get_coord_index m p) ≡ some n)

pub get_coord_index_injective :
    (m : Map) (p q : Vector2Int) → (get_coord_index m p ==ᵥ get_coord_index m q) ≡ (p ==ᵥ q)
unfolding get_coord_index
get_coord_index_injective m p q =
    ground (
      arith,
      -ℤ_parts p.x m.min_x,
      -ℤ_parts q.x m.min_x,
      -ℤ_parts m.max_y p.y,
      -ℤ_parts m.max_y q.y,
    )

has_collision_lem :
    (m : Map) (i : Vector2Int) (is_through_objects wall : Bool) (n : ℕ)
    → cell m.collisions i ≡ some wall
    → cell m.objects i ≡ some n
    → has_collision m i is_through_objects ≡ some (wall || (not is_through_objects && not (n == 0)))
unfolding has_collision
has_collision_lem m i true true n w o = rw w refl
has_collision_lem m i true false n w o = rw w refl
has_collision_lem m i false true n w o = rw w refl
has_collision_lem m i false false n w o = rw (w, o) refl

-- On a loaded map `CanGo` is defined: it is false outside the map, and inside it tells whether
-- there is no wall and, unless objects do not count, no object that `Find` finds.
pub can_go_lem :
    (m : Map) (p : Vector2Int) (is_through_objects : Bool)
    → IsLoaded m
    → ((is_within_bounds m p ≡ false) × (can_go m p is_through_objects ≡ some false))
      ⊎ ((wall : Bool) × (n : ℕ) × (cell m.collisions (get_coord_index m p) ≡ some wall)
          × (find m p ≡ some n)
          × (can_go m p is_through_objects
              ≡ some (not (wall || (not is_through_objects && not (n == 0))))))
unfolding can_go find
can_go_lem m p t v = elim (Bool-cases (is_within_bounds m p)) [
  | inr out ↦ inl (out, ground arith)
  | inl within ↦
      let (wall, w) = v.walls p within in
      let (n, o) = v.places p within in
      let c = has_collision_lem m (get_coord_index m p) t wall n w o in
      inr (wall, n, w, rw (within, o) refl, rw c (ground arith))
]

pub find-defined : (m : Map) (p : Vector2Int) → IsLoaded m → (n : ℕ) × (find m p ≡ some n)
unfolding find
find-defined m p v = elim (Bool-cases (is_within_bounds m p)) [
  | inr out ↦ (0, rw out refl)
  | inl within ↦ let (n, o) = v.places p within in (n, rw (within, o) refl)
]

-- Where `nullptr` is written, the object itself stood.
clear_cell-defined :
    (m : Map) (now : Vector2Int) (id here : ℕ)
    → cell m.objects (get_coord_index m now) ≡ some here
    → (objects : List (List ℕ)) × (clear_cell m now id ≡ some objects)
      × ((i : Vector2Int)
          → cell objects i
            ≡ (if (get_coord_index m now ==ᵥ i) && (here == id) then some 0 else cell m.objects i))
unfolding clear_cell
clear_cell-defined m now id here e = elim (Bool-cases (here == id)) [
  | inl same ↦
      let (objects, w) = write-defined m.objects (get_coord_index m now) 0 e in
      (
        objects,
        rw (e, same) w,
        λ i. rw same (cell-write m.objects (get_coord_index m now) i 0 w ∙ ground arith),
      )
  | inr differs ↦ (m.objects, rw (e, differs) refl, λ i. rw differs (ground arith))
]

-- What stands on the cell `p` once `id` has moved from `now` to `dest`; `old` stood there before.
abbrev pub after_move : Vector2Int → Vector2Int → ℕ → Vector2Int → ℕ → ℕ
after_move now dest id p old =
    if dest ==ᵥ p then id else if (now ==ᵥ p) && (old == id) then 0 else old

after_if :
    (at_dest at_now : Bool) (id here old : ℕ)
    → (at_now ≡ true → here ≡ old)
    → (if at_dest then some id else if at_now && (here == id) then some 0 else some old)
      ≡ some (if at_dest then id else if at_now && (old == id) then 0 else old)
after_if true at_now id here old h = refl
after_if false true id here old h = rw (h refl) (ground arith)
after_if false false id here old h = refl

-- A move within a loaded map is defined, and every cell reads as it should.
pub move_object_lem :
    (m : Map) (now dest : Vector2Int) (id : ℕ)
    → IsLoaded m
    → is_within_bounds m now ≡ true
    → is_within_bounds m dest ≡ true
    → (objects : List (List ℕ)) × (move_object m now dest id ≡ some objects)
      × ((p : Vector2Int) (old : ℕ)
          → cell m.objects (get_coord_index m p) ≡ some old
          → cell objects (get_coord_index m p) ≡ some (after_move now dest id p old))
unfolding move_object
move_object_lem m now dest id v from to =
    let (here, e) = v.places now from in
    let (there, t) = v.places dest to in
    let (cleared, c, read) = clear_cell-defined m now id here e in
    let (b, present) : (b : ℕ) × (cell cleared (get_coord_index m dest) ≡ some b) =
      rw (read (get_coord_index m dest), t)
        elim (Bool-cases ((get_coord_index m now ==ᵥ get_coord_index m dest) && (here == id))) [
          | inl own ↦ rw own (0, refl)
          | inr kept ↦ rw kept (there, refl)
        ] in
    let (objects, w) = write-defined cleared (get_coord_index m dest) id present in
    (
      objects,
      rw c w,
      λ p old k.
          cell-write cleared (get_coord_index m dest) (get_coord_index m p) id w
          ∙ rw
              (
                read (get_coord_index m p),
                get_coord_index_injective m now p,
                get_coord_index_injective m dest p,
                k,
              )
              (after_if (dest ==ᵥ p) (now ==ᵥ p) id here old λ same.
                cc (e, k, ap (λ q. cell m.objects (get_coord_index m q)) (==ᵥ_eq now p same))),
    )

-- Nobody can go outside the map.
pub can_go_within :
    (m : Map) (p : Vector2Int) (is_through_objects : Bool)
    → can_go m p is_through_objects ≡ some true
    → is_within_bounds m p ≡ true
unfolding can_go
can_go_within m p t e = ground arith

-- Where an object leaves the cell `now`, that cell is empty if the object stood there, and the
-- others keep what they had.
pub clear_cell_lem :
    (m : Map) (now : Vector2Int) (id : ℕ)
    → IsLoaded m
    → is_within_bounds m now ≡ true
    → (objects : List (List ℕ)) × (clear_cell m now id ≡ some objects)
      × ((p : Vector2Int) (old : ℕ)
          → cell m.objects (get_coord_index m p) ≡ some old
          → cell objects (get_coord_index m p)
            ≡ some (if (now ==ᵥ p) && (old == id) then 0 else old))
clear_cell_lem m now id v within =
    let (here, e) = v.places now within in
    let (objects, c, read) = clear_cell-defined m now id here e in
    (
      objects,
      c,
      λ p old k.
          read (get_coord_index m p)
          ∙ rw (get_coord_index_injective m now p, k)
              (after_if false (now ==ᵥ p) id here old λ same.
                cc (e, k, ap (λ q. cell m.objects (get_coord_index m q)) (==ᵥ_eq now p same))),
    )
