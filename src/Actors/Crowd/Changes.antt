-- ===== src/Actors/Crowd/Changes.antt =====
-- What the operations of a room do to its zones, in one form.
use mmo_server_cpp.Base.{
  ℕ, ◌≡◌, refl, ap, List, [], ◌∷◌, some, Bool, true, false, not, ◌||◌, ◌&&◌, ◌==◌, if◌then◌else◌,
  contains, arith,
}
use mmo_server_cpp.World.Vector.{Vector2Int, ◌==ᵥ◌}
use mmo_server_cpp.World.Grid.{cell}
use mmo_server_cpp.World.Map.{is_within_bounds}
use mmo_server_cpp.World.Room.{
  Zone, Room, GameObjectType, get_zone_index, same_zone, insert_id, erase_id, insert_object,
}
use mmo_server_cpp.World.Room.Shape.{SameShape, SameShape-of}
use mmo_server_cpp.World.Room.Zones.{IsReady, modify-defined, same_cell}
use mmo_server_cpp.World.Room.Laws.{IsReady-after}
use mmo_server_cpp.Actors.Crowd.{insert_in_zone}

pub contains-erase_id :
    (j id : ℕ) (xs : List ℕ) → contains j (erase_id id xs) ≡ (not (id == j) && contains j xs)
unfolding contains
contains-erase_id j id [] = ground arith
contains-erase_id j id (x ∷ xs) = ground (arith, contains-erase_id j id xs)

pub contains-insert_id :
    (j id : ℕ) (xs : List ℕ) → contains j (insert_id id xs) ≡ ((id == j) || contains j xs)
unfolding contains
contains-insert_id j id xs = ground (arith, contains-erase_id j id xs)

-- `r'` is ready, has the shape of `r`, and each zone has become what `g` makes of it.
pub record Changes (r r' : Room) (g : Vector2Int → Zone → Zone) : Type 0 where
  pub ready : IsReady r'
  pub shape : SameShape r r'
  pub zone : (k : Vector2Int) (z : Zone) → cell r.zones k ≡ some z → cell r'.zones k ≡ some (g k z)

pub nothing-Changes : (r : Room) → IsReady r → Changes r r (λ k z. z)
nothing-Changes r v = record {
  ready = v;
  shape = record { bounds = λ p. refl; index = λ p. refl; size = refl; back = λ k z' h. (z', h) };
  zone = λ k z h. h;
}

pub insert_in_zone_lem :
    (r : Room) (p : Vector2Int) (type : GameObjectType) (id : ℕ)
    → IsReady r
    → is_within_bounds r.map p ≡ true
    → (r' : Room) × (insert_in_zone r p type id ≡ some r')
      × Changes r r'
          (λ k z. if same_zone (get_zone_index r p) (some k) then insert_object type id z else z)
unfolding insert_in_zone
insert_in_zone_lem r p type id v within =
    let (i, zi, at_i, c) = v.zoned p within in
    let (zones, n, read, len) = modify-defined r.zones i (insert_object type id) c in
    let zone : (k : Vector2Int) (z : Zone)
        → cell r.zones k ≡ some z
        → cell zones k ≡ some (if i ==ᵥ k then insert_object type id z else z) =
      λ k z h.
        rw (read k, h)
          (modified (i ==ᵥ k) (insert_object type id) z zi (same_cell r.zones i k c h)) in
    (
      record r { zones = zones },
      rw (at_i, n) refl,
      record {
        ready =
            IsReady-after r r.map.objects zones v (λ p old h. (old, h)) (λ k z h. (_, zone k z h))
              len;
        shape = SameShape-of r r.map.objects zones len;
        zone = rw at_i zone;
      },
    )
  where
    modified :
        (b : Bool) (f : Zone → Zone) (z zi : Zone)
        → (b ≡ true → zi ≡ z)
        → (if b then some (f zi) else some z) ≡ some (if b then f z else z)
    modified true f z zi h = ap (λ w. some (f w)) (h refl)
    modified false f z zi h = refl
