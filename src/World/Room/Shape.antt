-- ===== src/World/Room/Shape.antt =====
-- Rooms with the same bounds and the same zones, which may hold other objects.
use mmo_server_cpp.Base.{
  ℕ, zero, suc, map, length-map, ◌≡◌, refl, sym, ap, ◌∙◌, List, [], ◌∷◌, some, length, get_elem?,
  Option-cases, inl, inr, arith,
}
use mmo_server_cpp.Base.Int.{ℤ, pos, negsuc}
use mmo_server_cpp.World.Vector.{Vector2Int}
use mmo_server_cpp.World.Grid.{at_int, cell}
use mmo_server_cpp.World.Map.{is_within_bounds}
use mmo_server_cpp.World.Room.{Zone, Room, width, get_zone_index}

module _ {ℓ} {A : Type ℓ} where
  get_elem?-some :
      (xs ys : List A) (n : ℕ) {x : A}
      → length xs ≡ length ys
      → get_elem? xs n ≡ some x
      → (y : A) × (get_elem? ys n ≡ some y)
  get_elem?-some [] ys n e h = absurd (cc h)
  get_elem?-some (x ∷ xs) [] n e h = absurd (omega arith)
  get_elem?-some (x ∷ xs) (y ∷ ys) zero e h = (y, refl)
  get_elem?-some (x ∷ xs) (y ∷ ys) (suc n) e h = get_elem?-some xs ys n (omega arith) h

  at_int-some :
      (xs ys : List A) (i : ℤ) {x : A}
      → length xs ≡ length ys
      → at_int xs i ≡ some x
      → (y : A) × (at_int ys i ≡ some y)
  at_int-some xs ys (pos n) e h = get_elem?-some xs ys n e h
  at_int-some xs ys (negsuc n) e h = absurd (cc h)

module _ {ℓ} {A : Type ℓ} where
  get_elem?-map_length :
      (a b : List (List A)) (n : ℕ) {xs : List A}
      → map length a ≡ map length b
      → get_elem? a n ≡ some xs
      → (ys : List A) × (get_elem? b n ≡ some ys) × (length xs ≡ length ys)
  get_elem?-map_length [] b n e h = absurd (cc h)
  get_elem?-map_length (x ∷ a) [] n e h = absurd (cc e)
  get_elem?-map_length (x ∷ a) (y ∷ b) zero {xs} e h =
      let same : xs ≡ x = cc h in (y, refl, rw same (cc e))
  get_elem?-map_length (x ∷ a) (y ∷ b) (suc n) e h = get_elem?-map_length a b n (cc e) h

  at_int-map_length :
      (a b : List (List A)) (i : ℤ) {xs : List A}
      → map length a ≡ map length b
      → at_int a i ≡ some xs
      → (ys : List A) × (at_int b i ≡ some ys) × (length xs ≡ length ys)
  at_int-map_length a b (pos n) e h = get_elem?-map_length a b n e h
  at_int-map_length a b (negsuc n) e h = absurd (cc h)

  -- Where one of two grids of the same shape has a cell the other has one.
  pub cell-of_shape :
      (a b : List (List A)) (p : Vector2Int) {x : A}
      → map length a ≡ map length b
      → cell a p ≡ some x
      → (y : A) × (cell b p ≡ some y)
  unfolding cell
  cell-of_shape a b p e h = elim (Option-cases (at_int a p.y)) [
    | inl missing ↦ absurd (cc (rw missing at h))
    | inr (xs, row) ↦
        let (ys, row', len) = at_int-map_length a b p.y e row in
        let (y, here) = at_int-some xs ys p.x len (rw row at h) in (y, rw row' here)
  ]

width_of_shape : (a b : List (List Zone)) → map length a ≡ map length b → width a ≡ width b
width_of_shape [] [] e = refl
width_of_shape [] (y ∷ b) e = cc
width_of_shape (x ∷ a) [] e = cc
width_of_shape (x ∷ a) (y ∷ b) e = cc

-- The index of a zone depends on the bounds of the map and the number of zones alone.
pub index_of_shape :
    (r : Room) (objects : List (List ℕ)) (zones : List (List Zone)) (p : Vector2Int)
    → map length zones ≡ map length r.zones
    → get_zone_index (record r { map = record r.map { objects = objects }; zones = zones }) p
      ≡ get_zone_index r p
unfolding get_zone_index
index_of_shape r objects zones p e =
    let n : length zones ≡ length r.zones =
      sym (length-map length zones) ∙ ap length e ∙ length-map length r.zones in
    rw (width_of_shape zones r.zones e, n) refl

pub record SameShape (r r' : Room) : Type 0 where
  pub bounds : (p : Vector2Int) → is_within_bounds r'.map p ≡ is_within_bounds r.map p
  pub index : (p : Vector2Int) → get_zone_index r' p ≡ get_zone_index r p
  pub size : r'.zone_cell_size ≡ r.zone_cell_size
  pub back :
      (k : Vector2Int) (z' : Zone)
      → cell r'.zones k ≡ some z'
      → (z : Zone) × (cell r.zones k ≡ some z)

pub SameShape-of :
    (r : Room) (objects : List (List ℕ)) (zones : List (List Zone))
    → map length zones ≡ map length r.zones
    → SameShape r (record r { map = record r.map { objects = objects }; zones = zones })
unfolding is_within_bounds
SameShape-of r objects zones e = record {
  bounds = λ p. refl;
  index = λ p. index_of_shape r objects zones p e;
  size = refl;
  back = λ k z' h. cell-of_shape zones r.zones k e h;
}
