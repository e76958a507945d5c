-- ===== src/World/Room/Laws.antt =====
-- `ApplyMove` and `ApplyLeave` on a room whose map is loaded and whose zones cover the map.
use mmo_server_cpp.Base.{
  ℕ, map, ◌≡◌, refl, ap, ◌∙◌, List, some, Bool, true, false, ◌==◌, ◌&&◌, if◌then◌else◌, length, ◌⊎◌,
  inl, inr, Bool-cases,
}
use mmo_server_cpp.World.Vector.{Vector2Int, ◌==ᵥ◌}
use mmo_server_cpp.World.Grid.{cell}
use mmo_server_cpp.World.Map.{is_within_bounds, get_coord_index, can_go, move_object}
use mmo_server_cpp.World.Map.Laws.{
  can_go_lem, can_go_within, clear_cell_lem, move_object_lem, after_move,
}
use mmo_server_cpp.World.Room.{
  Zone, Room, Object, get_object_type_by_id, get_zone_index, remove, same_zone, set_current_zone,
  finish_move, enter_cell, apply_move, apply_leave,
}
use mmo_server_cpp.World.Room.Shape.{SameShape, SameShape-of, index_of_shape}
use mmo_server_cpp.World.Room.Zones.{
  IsReady, modify-defined, same_cell, zone_after, set_current_zone_lem,
}

-- Rooms with the same walls, with an object or none where there was one, and zones of the same
-- shape, are ready together.
pub IsReady-after :
    (r : Room) (objects : List (List ℕ)) (zones : List (List Zone))
    → IsReady r
    → ((p : Vector2Int) (old : ℕ)
        → cell r.map.objects (get_coord_index r.map p) ≡ some old
        → (n : ℕ) × (cell objects (get_coord_index r.map p) ≡ some n))
    → ((k : Vector2Int) (z : Zone)
        → cell r.zones k ≡ some z
        → (z' : Zone) × (cell zones k ≡ some z'))
    → map length zones ≡ map length r.zones
    → IsReady (record r { map = record r.map { objects = objects }; zones = zones })
IsReady-after r objects zones v read read' len = record {
  loaded = record {
    walls = unfold is_within_bounds get_coord_index in v.loaded.walls;
    places =
        unfold is_within_bounds get_coord_index in
        λ p h. let (n, e) = v.loaded.places p h in read p n e;
  };
  zoned =
      unfold is_within_bounds in
      λ p h.
        let (i, z, e, c) = v.zoned p h in
        let (z', c') = read' i z c in (i, z', index_of_shape r objects zones p len ∙ e, c');
}

-- What `ApplyMove` did when it returned true.
pub record HasMoved (r : Room) (o : Object) (dest : Vector2Int) (r' : Room) : Type 0 where
  pub occupant :
      (p : Vector2Int) (old : ℕ)
      → cell r.map.objects (get_coord_index r.map p) ≡ some old
      → cell r'.map.objects (get_coord_index r.map p) ≡ some (after_move o.cell_pos dest o.id p old)
  pub zone :
      (k : Vector2Int) (z : Zone)
      → cell r.zones k ≡ some z
      → cell r'.zones k ≡ some (zone_after r o dest k z)
  pub still_ready : IsReady r'
  pub shape : SameShape r r'

finish_move_lem :
    (r : Room) (o : Object) (dest : Vector2Int)
    → IsReady r
    → is_within_bounds r.map o.cell_pos ≡ true
    → is_within_bounds r.map dest ≡ true
    → (r' : Room) × (finish_move r o dest
          (move_object r.map o.cell_pos dest o.id)
          (set_current_zone r o dest)
        ≡ some (r', record o { cell_pos = dest }, true))
      × HasMoved r o dest r'
unfolding finish_move
finish_move_lem r o dest v from to =
    let (objects, m, read) = move_object_lem r.map o.cell_pos dest o.id v.loaded from to in
    let (zones, s, read', len) = set_current_zone_lem r o dest v from to in
    (
      record r { map = record r.map { objects = objects }; zones = zones },
      rw (m, s) refl,
      record {
        occupant = read;
        zone = read';
        still_ready =
            IsReady-after r objects zones v (λ p old h. (_, read p old h))
              (λ k z h. (_, read' k z h)) len;
        shape = SameShape-of r objects zones len;
      },
    )

apply_move_inside :
    (r : Room) (o : Object) (dest : Vector2Int) (t c : Bool)
    → o.in_room ≡ true
    → apply_move r o dest t c ≡ enter_cell r o dest c (can_go r.map dest t)
unfolding apply_move
apply_move_inside r o dest t c here =
    ap (λ b. if b then enter_cell r o dest c (can_go r.map dest t) else some (r, o, false)) here

-- In a ready room an object that is in the room and on the map, and may go to `dest`, gets there:
-- its id stands on `dest` and no longer where it came from, every other cell keeps what stood
-- there; it is in the set of its kind of the new zone and no longer in that of the old one; and the
-- room is ready for the next move.
pub apply_move_lem :
    (r : Room) (o : Object) (dest : Vector2Int) (is_through_objects : Bool)
    → IsReady r
    → o.in_room ≡ true
    → is_within_bounds r.map o.cell_pos ≡ true
    → can_go r.map dest is_through_objects ≡ some true
    → (r' : Room) × (apply_move r o dest is_through_objects true
        ≡ some (r', record o { cell_pos = dest }, true))
      × HasMoved r o dest r'
unfolding enter_cell
apply_move_lem r o dest t v here from free =
    let (r', e, moved) = finish_move_lem r o dest v from (can_go_within r.map dest t free) in
    (r', apply_move_inside r o dest t true here ∙ rw (free, from) e, moved)

-- In a ready room an object that is on the map leaves it: nothing of it stays on its cell, its zone
-- is as `Zone::Remove` leaves it, and the room is ready for others.
pub apply_leave_lem :
    (r : Room) (o : Object)
    → IsReady r
    → o.in_room ≡ true
    → is_within_bounds r.map o.cell_pos ≡ true
    → (r' : Room) × (apply_leave r o ≡ some (r', true))
      × ((p : Vector2Int) (old : ℕ)
          → cell r.map.objects (get_coord_index r.map p) ≡ some old
          → cell r'.map.objects (get_coord_index r.map p)
            ≡ some (if (o.cell_pos ==ᵥ p) && (old == o.id) then 0 else old))
      × ((k : Vector2Int) (z : Zone)
          → cell r.zones k ≡ some z
          → cell r'.zones k
            ≡ some (
                if same_zone (get_zone_index r o.cell_pos) (some k)
                then remove (get_object_type_by_id o.id) o.id z
                else z))
      × IsReady r'
      × SameShape r r'
unfolding apply_leave
apply_leave_lem r o v here from =
    let (i, zi, e, c) = v.zoned o.cell_pos from in
    let f : Zone → Zone = remove (get_object_type_by_id o.id) o.id in
    let (objects, m, read) = clear_cell_lem r.map o.cell_pos o.id v.loaded from in
    let (zones, n, read', len) = modify-defined r.zones i f c in
    let zone : (k : Vector2Int) (z : Zone)
        → cell r.zones k ≡ some z
        → cell zones k ≡ some (if i ==ᵥ k then f z else z) =
      λ k z h. rw (read' k, h) (remove_if (i ==ᵥ k) f z zi (same_cell r.zones i k c h)) in
    (
      record r { map = record r.map { objects = objects }; zones = zones },
      rw (here, from, e, n, m) refl,
      read,
      rw e zone,
      IsReady-after r objects zones v (λ p old h. (_, read p old h)) (λ k z h. (_, zone k z h)) len,
      SameShape-of r objects zones len,
    )
  where
    remove_if :
        (b : Bool) (f : Zone → Zone) (z zi : Zone)
        → (b ≡ true → zi ≡ z)
        → (if b then some (f zi) else some z) ≡ some (if b then f z else z)
    remove_if true f z zi h = ap (λ w. some (f w)) (h refl)
    remove_if false f z zi h = refl

-- Where the object may not go, nothing changes.
pub apply_move_blocked :
    (r : Room) (o : Object) (dest : Vector2Int) (is_through_objects apply_collision : Bool)
    → o.in_room ≡ true
    → can_go r.map dest is_through_objects ≡ some false
    → apply_move r o dest is_through_objects apply_collision ≡ some (r, o, false)
unfolding enter_cell
apply_move_blocked r o dest t c here blocked = apply_move_inside r o dest t c here ∙ rw blocked refl

apply_move_outside :
    (r : Room) (o : Object) (dest : Vector2Int) (through : Bool)
    → o.in_room ≡ true
    → is_within_bounds r.map o.cell_pos ≡ false
    → can_go r.map dest through ≡ some true
    → apply_move r o dest through true ≡ some (r, o, false)
unfolding enter_cell
apply_move_outside r o dest t here off free =
    apply_move_inside r o dest t true here ∙ rw (free, off) refl

apply_move_absent :
    (r : Room) (o : Object) (dest : Vector2Int) (through : Bool)
    → o.in_room ≡ false
    → apply_move r o dest through true ≡ some (r, o, false)
unfolding apply_move
apply_move_absent r o dest t gone =
    ap (λ b. if b then enter_cell r o dest true (can_go r.map dest t) else some (r, o, false)) gone

can_go_decided :
    (r : Room) (p : Vector2Int) (through : Bool)
    → IsReady r
    → (can_go r.map p through ≡ some true) ⊎ (can_go r.map p through ≡ some false)
can_go_decided r p t v = elim (can_go_lem r.map p t v.loaded) [
  | inl (_, e) ↦ inr e
  | inr (wall, n, _, _, e) ↦ which _ e
]
  where
    which :
        (b : Bool)
        → can_go r.map p t ≡ some b
        → (can_go r.map p t ≡ some true) ⊎ (can_go r.map p t ≡ some false)
    which true e = inl e
    which false e = inr e

-- `ApplyMove` in a ready room is defined: it moves the object, or all stays as it was.
abbrev pub Moves : Room → Object → Vector2Int → Bool → Type 0
Moves r o dest through =
    (r' : Room) × (apply_move r o dest through true ≡ some (r', record o { cell_pos = dest }, true))
    × (is_within_bounds r.map o.cell_pos ≡ true)
    × (is_within_bounds r.map dest ≡ true)
    × HasMoved r o dest r'

pub apply_move_cases :
    (r : Room) (o : Object) (dest : Vector2Int) (through : Bool)
    → IsReady r
    → (apply_move r o dest through true ≡ some (r, o, false)) ⊎ Moves r o dest through
apply_move_cases r o dest t v = elim (Bool-cases o.in_room) [
  | inr gone ↦ inl (apply_move_absent r o dest t gone)
  | inl here ↦ elim (can_go_decided r dest t v) [
    | inr blocked ↦ inl (apply_move_blocked r o dest t true here blocked)
    | inl free ↦ elim (Bool-cases (is_within_bounds r.map o.cell_pos)) [
      | inr off ↦ inl (apply_move_outside r o dest t here off free)
      | inl from ↦
          let (r', e, moved) = apply_move_lem r o dest t v here from free in
          inr (r', e, from, can_go_within r.map dest t free, moved)
    ]
  ]
]

pub apply_leave_cases :
    (r : Room) (o : Object)
    → (apply_leave r o ≡ some (r, false))
      ⊎ ((o.in_room ≡ true) × (is_within_bounds r.map o.cell_pos ≡ true))
unfolding apply_leave
apply_leave_cases r o = elim (Bool-cases o.in_room) [
  | inr gone ↦ inl (rw gone refl)
  | inl here ↦ elim (Bool-cases (is_within_bounds r.map o.cell_pos)) [
    | inr off ↦ inl (rw (here, off) refl)
    | inl on ↦ inr (here, on)
  ]
]
