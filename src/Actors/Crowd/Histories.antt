-- ===== src/Actors/Crowd/Histories.antt =====
-- What every history of a room that `Room::Init` has made keeps.
use mmo_server_cpp.Base.{
  ℕ, zero, suc, ◌<◌, ◌≡◌, ◌≢◌, refl, ◌⊎◌, inl, inr, List, [], some, Bool, true, false, ◌&&◌,
  get_elem?, replicate, contains, subst, Option-cases,
}
use mmo_server_cpp.Base.Int.{ℤ, pos, negsuc}
use mmo_server_cpp.World.Vector.{Vector2Int}
use mmo_server_cpp.World.Grid.{at_int, cell}
use mmo_server_cpp.World.Map.{Map, MapFile, load_map, get_size_x, get_size_y, is_within_bounds}
use mmo_server_cpp.World.Room.{Room, Object, no_objects, player, get_object_type_by_id, init_zones}
use mmo_server_cpp.World.Room.Init.{bounds, init_zones-IsReady}
use mmo_server_cpp.World.Room.Adjacent.{k_range, within, broadcast}
use mmo_server_cpp.World.Room.Adjacent.Reaches.{broadcast_lem}
use mmo_server_cpp.Actors.Arrow.{Arrow}
use mmo_server_cpp.Actors.Crowd.{Crowd, cell_of, Event, enter, leave, move, no_pos}
use mmo_server_cpp.Actors.Crowd.Orderly.{IsOrderly}
use mmo_server_cpp.Actors.Crowd.Steps.{enter_lem, leave_lem, move_lem}

-- A job of the room: an object enters that is not a player of the room already, on a cell of the
-- map; an object leaves; a player of the room moves, or an object that is no player.
pub data Step : Crowd → Crowd → Type 0 where
  enters :
      {c c' : Crowd} {es : List Event} (o : Object) (a : Arrow)
      → is_within_bounds c.room.map o.cell_pos ≡ true
      → contains o.id c.players ≡ false
      → enter c o a ≡ some (c', es)
      → Step c c'
  leaves : {c c' : Crowd} {es : List Event} (id : ℕ) → leave c id ≡ some (c', es) → Step c c'
  moves :
      {c c' : Crowd} {b : Bool} (id : ℕ) (dest : Vector2Int) (is_through_objects : Bool)
      → (contains id c.players ≡ true) ⊎ (get_object_type_by_id id ≢ player)
      → move c id dest is_through_objects ≡ some (c', b)
      → Step c c'

pub data History (c : Crowd) : Crowd → Type 0 where
  start : History c c
  next : {d e : Crowd} → History c d → Step d e → History c e

Step-IsOrderly : {c c' : Crowd} → Step c c' → IsOrderly c → IsOrderly c'
Step-IsOrderly (enters {c} {c'} o a within new e) v =
    let (d, es, runs, v') = enter_lem c o v within a new in subst IsOrderly (cc (runs, e)) v'
Step-IsOrderly (leaves {c} {c'} id e) v = elim (leave_lem c v id) [
  | inl undefined ↦ absurd (cc (undefined, e))
  | inr (d, es, runs, v') ↦ subst IsOrderly (cc (runs, e)) v'
]
Step-IsOrderly (moves {c} {c'} id dest through who e) v =
    let (d, b, runs, v') = move_lem c v id dest through who in subst IsOrderly (cc (runs, e)) v'

pub History-IsOrderly : {c c' : Crowd} → IsOrderly c → History c c' → IsOrderly c'
History-IsOrderly v start = v
History-IsOrderly v (next h s) = Step-IsOrderly s (History-IsOrderly v h)

-- A room without anybody.
abbrev pub empty_crowd : Room → Crowd
empty_crowd r = record {
  room = r;
  players = [];
  null_players = [];
  monsters = [];
  projectiles = [];
  object_of = λ id. record { id = id; cell_pos = no_pos; in_room = false };
}

get_elem?-replicate_inv {ℓ} :
    {A : Type ℓ} (n i : ℕ) (a : A) {b : A} → get_elem? (replicate n a) i ≡ some b → b ≡ a
get_elem?-replicate_inv zero i a h = absurd (cc h)
get_elem?-replicate_inv (suc n) zero a h = cc h
get_elem?-replicate_inv (suc n) (suc i) a h = get_elem?-replicate_inv n i a h

at_int-replicate {ℓ} :
    {A : Type ℓ} (n : ℕ) (i : ℤ) (a : A) {b : A} → at_int (replicate n a) i ≡ some b → b ≡ a
at_int-replicate n (pos i) a h = get_elem?-replicate_inv n i a h
at_int-replicate n (negsuc i) a h = absurd (cc h)

cell-replicate_inv {ℓ} :
    {A : Type ℓ} (rows columns : ℕ) (a : A) (k : Vector2Int) {b : A}
    → cell (replicate rows (replicate columns a)) k ≡ some b
    → b ≡ a
unfolding cell
cell-replicate_inv rows columns a k h =
    elim (Option-cases (at_int (replicate rows (replicate columns a)) k.y)) [
      | inl e ↦ absurd (cc (rw e at h))
      | inr (row, e) ↦
          let is_row = at_int-replicate rows k.y (replicate columns a) e in
          at_int-replicate columns k.x a (rw (e, is_row) at h)
    ]

pub empty-IsOrderly :
    (file : MapFile) (m : Map) (zone_cell_size size_x size_y : ℕ)
    → 0 < zone_cell_size
    → get_size_x (bounds file) ≡ pos size_x
    → get_size_y (bounds file) ≡ pos size_y
    → load_map file ≡ some m
    → IsOrderly (empty_crowd (init_zones m zone_cell_size))
unfolding init_zones contains
empty-IsOrderly file m d size_x size_y h ex ey e = record {
  ready = init_zones-IsReady file m d size_x size_y h ex ey e;
  size = h;
  placed = record {
    inside = λ id has. absurd (cc has);
    held = λ k z id e.
        let nobody : z ≡ no_objects = cell-replicate_inv _ _ no_objects k e in rw nobody refl;
  };
  named = λ id. refl;
  known = λ id has. absurd (cc has);
}

-- A room is set up with zones of a positive size on a map that `LoadMap` has read, with any walls,
-- from a file whose bounds give sizes that are not negative. Whatever enters this room, leaves it
-- and moves in it, in any order: a broadcast at a cell goes to exactly the players of the room that
-- stand at most ten cells away from it in either direction.
pub broadcast-exact :
    (file : MapFile) (m : Map) (zone_cell_size size_x size_y : ℕ) {c : Crowd}
    → 0 < zone_cell_size
    → get_size_x (bounds file) ≡ pos size_x
    → get_size_y (bounds file) ≡ pos size_y
    → load_map file ≡ some m
    → History (empty_crowd (init_zones m zone_cell_size)) c
    → (p : Vector2Int) (id : ℕ)
    → contains id (broadcast (cell_of c) c.room p)
      ≡ (contains id c.players && within k_range p (cell_of c id))
broadcast-exact file m d size_x size_y {c} h ex ey e history p id =
    let v = History-IsOrderly (empty-IsOrderly file m d size_x size_y h ex ey e) history in
    broadcast_lem c.room c.players (cell_of c) p id v.ready v.size v.placed
