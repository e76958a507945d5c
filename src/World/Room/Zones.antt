-- ===== src/World/Room/Zones.antt =====
-- The zones of a ready room, and what `SetCurrentZone` makes of them.
use mmo_server_cpp.Base.{
  ℕ, map, ◌≡◌, refl, ap, ◌∙◌, List, some, Bool, true, false, if◌then◌else◌, length, Bool-cases, inl,
  inr,
}
use mmo_server_cpp.World.Vector.{Vector2Int, ◌==ᵥ◌, ==ᵥ_eq}
use mmo_server_cpp.World.Grid.{cell}
use mmo_server_cpp.World.Grid.Laws.{cell-write, write-defined, write-shape}
use mmo_server_cpp.World.Map.{is_within_bounds}
use mmo_server_cpp.World.Map.Laws.{IsLoaded}
use mmo_server_cpp.World.Room.{
  Zone, Room, Object, GameObjectType, player, monster, projectile, other, get_object_type_by_id,
  get_zone_index, erase_object, insert_object, modify, same_zone, insert_after, change_zone,
  set_current_zone,
}

-- The map is loaded, and every cell within its bounds lies in a zone.
pub record IsReady (r : Room) : Type 0 where
  pub loaded : IsLoaded r.map
  pub zoned :
      (p : Vector2Int)
      → is_within_bounds r.map p ≡ true
      → (i : Vector2Int) × (z : Zone) × (get_zone_index r p ≡ some i) × (cell r.zones i ≡ some z)

pub modify-defined :
    (zones : List (List Zone)) (i : Vector2Int) (f : Zone → Zone) {z : Zone}
    → cell zones i ≡ some z
    → (zones' : List (List Zone)) × (modify zones (some i) f ≡ some zones')
      × ((j : Vector2Int) → cell zones' j ≡ (if i ==ᵥ j then some (f z) else cell zones j))
      × (map length zones' ≡ map length zones)
unfolding modify
modify-defined zones i f {z} e =
    let (zones', w) = write-defined zones i (f z) e in
    (zones', rw e w, λ j. cell-write zones i j (f z) w, write-shape zones i (f z) w)

-- The zone at `k`, which was `z`, after `f` at `b` and then `g` at `a`.
abbrev after_both :
    Vector2Int → Vector2Int → (Zone → Zone) → (Zone → Zone) → Vector2Int → Zone → Zone
after_both b a f g k z = if a ==ᵥ k then g z else if b ==ᵥ k then f z else z

both_if :
    (at_a at_b : Bool) (f g : Zone → Zone) (z za zb : Zone)
    → (at_a ≡ true → za ≡ z)
    → (at_b ≡ true → zb ≡ z)
    → (if at_a then some (g za) else if at_b then some (f zb) else some z)
      ≡ some (if at_a then g z else if at_b then f z else z)
both_if true at_b f g z za zb p q = ap (λ w. some (g w)) (p refl)
both_if false true f g z za zb p q = ap (λ w. some (f w)) (q refl)
both_if false false f g z za zb p q = refl

pub same_cell :
    (zones : List (List Zone)) (i k : Vector2Int) {zi z : Zone}
    → cell zones i ≡ some zi
    → cell zones k ≡ some z
    → (i ==ᵥ k) ≡ true
    → zi ≡ z
same_cell zones i k e h same = cc (e, h, ap (cell zones) (==ᵥ_eq i k same))

modify_both :
    (zones : List (List Zone)) (b a : Vector2Int) (f g : Zone → Zone) {zb za : Zone}
    → (b ==ᵥ a) ≡ false
    → cell zones b ≡ some zb
    → cell zones a ≡ some za
    → (zones' : List (List Zone)) × (insert_after (modify zones (some b) f) (some a) g
        ≡ some zones')
      × ((k : Vector2Int) (z : Zone)
          → cell zones k ≡ some z
          → cell zones' k ≡ some (after_both b a f g k z))
      × (map length zones' ≡ map length zones)
unfolding insert_after
modify_both zones b a f g {zb} {za} ne eb ea =
    let (first, m, read, len) = modify-defined zones b f eb in
    let still : cell first a ≡ some za = rw (read a, ne) ea in
    let (second, n, read', len') = modify-defined first a g still in
    (
      second,
      rw m n,
      λ k z h.
          rw (read' k, read k, h)
            (both_if (a ==ᵥ k) (b ==ᵥ k) f g z za zb (same_cell zones a k ea h)
              (same_cell zones b k eb h)),
      len' ∙ len,
    )

change_zone_lem :
    (zones : List (List Zone)) (b a : Vector2Int) (type : GameObjectType) (id : ℕ) {zb za : Zone}
    → (b ==ᵥ a) ≡ false
    → cell zones b ≡ some zb
    → cell zones a ≡ some za
    → (zones' : List (List Zone)) × (change_zone zones (some b) (some a) type id ≡ some zones')
      × ((k : Vector2Int) (z : Zone)
          → cell zones k ≡ some z
          → cell zones' k
            ≡ some (after_both b a (erase_object type id) (insert_object type id) k z))
      × (map length zones' ≡ map length zones)
unfolding change_zone
change_zone_lem zones b a player id ne eb ea = modify_both zones b a _ _ ne eb ea
change_zone_lem zones b a monster id ne eb ea = modify_both zones b a _ _ ne eb ea
change_zone_lem zones b a projectile id ne eb ea = modify_both zones b a _ _ ne eb ea
change_zone_lem zones b a other id ne eb ea =
    (zones, refl, λ k z h. h ∙ ap some (nothing (a ==ᵥ k) (b ==ᵥ k) z), refl)
  where
    nothing : (p q : Bool) (z : Zone) → z ≡ (if p then z else if q then z else z)
    nothing true q z = refl
    nothing false true z = refl
    nothing false false z = refl

-- What a move from `now` to `dest` makes of the zone `z` at `k`.
abbrev pub zone_after : Room → Object → Vector2Int → Vector2Int → Zone → Zone
zone_after r o dest k z =
    let type = get_object_type_by_id o.id in
    let before = get_zone_index r o.cell_pos in
    let after = get_zone_index r dest in
    if same_zone before after
    then z
    else if same_zone after (some k)
    then insert_object type o.id z
    else if same_zone before (some k)
    then erase_object type o.id z
    else z

pub set_current_zone_lem :
    (r : Room) (o : Object) (dest : Vector2Int)
    → IsReady r
    → is_within_bounds r.map o.cell_pos ≡ true
    → is_within_bounds r.map dest ≡ true
    → (zones : List (List Zone)) × (set_current_zone r o dest ≡ some zones)
      × ((k : Vector2Int) (z : Zone)
          → cell r.zones k ≡ some z
          → cell zones k ≡ some (zone_after r o dest k z))
      × (map length zones ≡ map length r.zones)
unfolding set_current_zone
set_current_zone_lem r o dest v from to =
    let (b, zb, eb, cb) = v.zoned o.cell_pos from in
    let (a, za, ea, ca) = v.zoned dest to in
    elim (Bool-cases (b ==ᵥ a)) [
      | inl same ↦ (r.zones, rw (eb, ea, same) refl, λ k z h. rw (eb, ea, same) h, refl)
      | inr moves ↦
          let (zones, c, read, len) =
            change_zone_lem r.zones b a (get_object_type_by_id o.id) o.id moves cb ca in
          (zones, rw (eb, ea, moves) c, λ k z h. rw (eb, ea, moves) (read k z h), len)
    ]
