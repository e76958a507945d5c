-- ===== src/World/Room/Adjacent/Covers.antt =====
-- The zones of `GetAdjacentZones` cover every cell in range.
use mmo_server_cpp.Base.{
  ℕ, zero, suc, ◌+◌, ◌*◌, ◌/◌, ◌≤◌, ◌<◌, ◌≡◌, refl, ◌∙◌, sym, ap, inl, inr, List, [], ◌∷◌, ◌++◌,
  append_assoc, Option, none, some, Bool, true, false, ◌||◌, arith, Bool-cases, Option-cases,
  contains, contains-append,
}
use mmo_server_cpp.Base.Int.{
  ℤ, pos, negsuc, pos_part, neg_part, ◌+ℤ◌, ◌-ℤ◌, ◌≤ℤ◌, ◌==ℤ◌, abs, +ℤ_parts, eq_of_parts, int_laws,
}
use native.Mathlib.Nat.{le-div_iff_mul-le, div-mul-le_self}
use mmo_server_cpp.World.Vector.{Vector2Int, negated, quot}
use mmo_server_cpp.World.Grid.{cell}
use mmo_server_cpp.World.Room.{Zone, Room, get_zone_index}
use mmo_server_cpp.World.Room.Adjacent.{
  add_zone, count_from, from_to, get_zone, zones_of_row, zones_of_rows, get_adjacent_zones, gather,
  within,
}

div-le-div : (a b d : ℕ) → 0 < d → a ≤ b → a / d ≤ b / d
div-le-div a b d h le =
    let low : a / d * d ≤ b = omega (arith, div-mul-le_self a d) in (le-div_iff_mul-le h).1 low

negated_parts : (n : ℕ) → (pos_part (negated n) ≡ 0) × (neg_part (negated n) ≡ n)
negated_parts zero = (refl, refl)
negated_parts (suc n) = (refl, refl)

or_true : (b : Bool) → (b || true) ≡ true
or_true true = refl
or_true false = refl

next_le : (low x : ℤ) → low ≤ℤ x → (low ==ℤ x) ≡ false → low +ℤ pos 1 ≤ℤ x
next_le low x above on =
    let strict : pos_part low + neg_part x < pos_part x + neg_part low = ground arith in
    omega int_laws

pub quot_mono : (a b : ℤ) (d : ℕ) → 0 < d → a ≤ℤ b → quot a d ≤ℤ quot b d
unfolding quot
quot_mono (pos a) (pos b) d h le = omega (arith, div-le-div a b d h (omega arith))
quot_mono (pos a) (negsuc b) d h le = absurd (omega arith)
quot_mono (negsuc a) (pos b) d h le = omega (arith, negated_parts (suc a / d))
quot_mono (negsuc a) (negsuc b) d h le = omega (
  arith,
  negated_parts (suc a / d),
  negated_parts (suc b / d),
  div-le-div (suc b) (suc a) d h (omega arith),
)

get_zone-cell :
    (r : Room) (i : Vector2Int) {z : Zone} → get_zone r i ≡ some z → cell r.zones i ≡ some z
unfolding get_zone
get_zone-cell r i h = ground arith

near_parts : (a b : ℤ) (n : ℕ) → abs (a -ℤ b) ≤ n → (a -ℤ pos n ≤ℤ b) × (b ≤ℤ a +ℤ pos n)
unfolding ◌-ℤ◌
near_parts a b n h =
    let s = +ℤ_parts a (pos n) in (ground arith, omega (arith, s, distance a b n h))
  where
    distance :
        (a b : ℤ) (n : ℕ) → abs (a -ℤ b) ≤ n → pos_part b + neg_part a ≤ n + pos_part a + neg_part b
    distance a b n h = ground arith

near_x : (p q : Vector2Int) (n : ℕ) → within n p q ≡ true → abs (p.x -ℤ q.x) ≤ n
unfolding within
near_x p q n h = ground arith

near_y : (p q : Vector2Int) (n : ℕ) → within n p q ≡ true → abs (p.y -ℤ q.y) ≤ n
unfolding within
near_y p q n h = ground arith

index_parts :
    (r : Room) (p i : Vector2Int)
    → get_zone_index r p ≡ some i
    → (i.x ≡ quot (p.x -ℤ r.map.min_x) r.zone_cell_size)
      × (i.y ≡ quot (r.map.max_y -ℤ p.y) r.zone_cell_size)
      × (get_zone r i ≡ cell r.zones i)
unfolding get_zone_index get_zone
index_parts r p i h = (ground arith, ground arith, ground arith)

module _ (kind : Zone → List ℕ) (id : ℕ) where
  gather-append : (xs ys : List Zone) → gather kind (xs ++ ys) ≡ gather kind xs ++ gather kind ys
  unfolding gather
  gather-append [] ys = refl
  gather-append (z ∷ xs) ys =
      ap (◌++◌ (kind z)) (gather-append xs ys)
      ∙ sym (append_assoc (kind z) (gather kind xs) (gather kind ys))

  -- Whether the object is in a zone, and in one of a list of zones.
  holds : Option Zone → Bool
  holds none = false
  holds (some z) = contains id (kind z)

  abbrev pub gathers : List Zone → Bool
  gathers zones = contains id (gather kind zones)

  gathers-add_zone :
      (o : Option Zone) (zones : List Zone)
      → gathers (add_zone o zones) ≡ (holds o || gathers zones)
  unfolding gather add_zone holds
  gathers-add_zone none zones = refl
  gathers-add_zone (some z) zones = contains-append id (kind z) (gather kind zones)

  gathers-append : (xs ys : List Zone) → gathers (xs ++ ys) ≡ (gathers xs || gathers ys)
  gathers-append xs ys =
      ap (contains id) (gather-append xs ys) ∙ contains-append id (gather kind xs) (gather kind ys)

  module _ (r : Room) where
    at_zone : ℤ → ℤ → Bool
    at_zone x y = holds (get_zone r (record { x = x; y = y }))

    row_covers :
        (n : ℕ) (low x y : ℤ)
        → low ≤ℤ x
        → x +ℤ pos 1 ≤ℤ low +ℤ pos n
        → at_zone x y ≡ true
        → gathers (zones_of_row r y (count_from n low)) ≡ true
    unfolding count_from zones_of_row at_zone
    row_covers zero low x y above below h = absurd (omega int_laws)
    row_covers (suc n) low x y above below h =
        let step =
          gathers-add_zone (get_zone r (record { x = low; y = y }))
            (zones_of_row r y (count_from n (low +ℤ pos 1))) in
        elim (Bool-cases (low ==ℤ x)) [
          | inl here ↦ let e : low ≡ x = eq_of_parts low x (ground arith) in step ∙ rw (e, h) refl
          | inr on ↦
              let rest =
                row_covers n (low +ℤ pos 1) x y (next_le low x above on) (omega int_laws) h in
              step ∙ rw rest (or_true _)
        ]

    rows_cover :
        (n : ℕ) (low x y : ℤ) (xs : List ℤ)
        → low ≤ℤ y
        → y +ℤ pos 1 ≤ℤ low +ℤ pos n
        → gathers (zones_of_row r y xs) ≡ true
        → gathers (zones_of_rows r xs (count_from n low)) ≡ true
    unfolding count_from zones_of_rows
    rows_cover zero low x y xs above below h = absurd (omega int_laws)
    rows_cover (suc n) low x y xs above below h =
        let step =
          gathers-append (zones_of_row r low xs)
            (zones_of_rows r xs (count_from n (low +ℤ pos 1))) in
        elim (Bool-cases (low ==ℤ y)) [
          | inl here ↦ let e : low ≡ y = eq_of_parts low y (ground arith) in step ∙ rw (e, h) refl
          | inr on ↦
              let rest =
                rows_cover n (low +ℤ pos 1) x y xs (next_le low y above on) (omega int_laws) h in
              step ∙ rw rest (or_true _)
        ]

    -- The zones of a rectangle cover each of its places.
    rectangle_covers :
        (left right top bottom x y : ℤ)
        → left ≤ℤ x
        → x ≤ℤ right
        → top ≤ℤ y
        → y ≤ℤ bottom
        → at_zone x y ≡ true
        → gathers (zones_of_rows r (from_to left right) (from_to top bottom)) ≡ true
    unfolding from_to
    rectangle_covers left right top bottom x y a b c d h =
        rows_cover (pos_part (bottom -ℤ top +ℤ pos 1)) top x y (from_to left right) c
          (below top bottom y c d)
          (row_covers (pos_part (right -ℤ left +ℤ pos 1)) left x y a (below left right x a b) h)
      where
        below :
            (low high z : ℤ)
            → low ≤ℤ z
            → z ≤ℤ high
            → z +ℤ pos 1 ≤ℤ low +ℤ pos (pos_part (high -ℤ low +ℤ pos 1))
        below low high z p q = omega int_laws

    -- What is gathered stands in a zone of the room.
    abbrev pub Stands : Type 0
    Stands =
        (i : Vector2Int) × (z : Zone) × (cell r.zones i ≡ some z) × (contains id (kind z) ≡ true)

    at_zone_sound : (x y : ℤ) → at_zone x y ≡ true → Stands
    unfolding at_zone holds
    at_zone_sound x y h =
        let i : Vector2Int = record { x = x; y = y } in
        elim (Option-cases (get_zone r i)) [
          | inl e ↦ cc (rw e at h)
          | inr (z, e) ↦ (i, z, get_zone-cell r i e, rw e at h)
        ]

    row_sound : (y : ℤ) (xs : List ℤ) → gathers (zones_of_row r y xs) ≡ true → Stands
    unfolding zones_of_row gather contains
    row_sound y [] h = absurd (cc h)
    row_sound y (x ∷ xs) h = elim (Bool-cases (at_zone x y)) [
      | inl e ↦ at_zone_sound x y e
      | inr e ↦
          let o = get_zone r (record { x = x; y = y }) in
          let step = gathers-add_zone o (zones_of_row r y xs) in
          row_sound y xs (later (holds o) _ (sym step ∙ h) (unfold at_zone in e))
    ]
      where
        later : (a b : Bool) → (a || b) ≡ true → a ≡ false → b ≡ true
        later a b p q = ground arith

    rows_sound : (xs ys : List ℤ) → gathers (zones_of_rows r xs ys) ≡ true → Stands
    unfolding zones_of_rows gather contains
    rows_sound xs [] h = absurd (cc h)
    rows_sound xs (y ∷ ys) h = elim (Bool-cases (gathers (zones_of_row r y xs))) [
      | inl e ↦ row_sound y xs e
      | inr e ↦
          let step = gathers-append (zones_of_row r y xs) (zones_of_rows r xs ys) in
          rows_sound xs ys (later _ _ (sym step ∙ h) e)
    ]
      where
        later : (a b : Bool) → (a || b) ≡ true → a ≡ false → b ≡ true
        later a b p q = ground arith

    pub adjacent_sound :
        (p : Vector2Int) (range : ℕ) → gathers (get_adjacent_zones r p range) ≡ true → Stands
    unfolding get_adjacent_zones
    adjacent_sound p range h = rows_sound _ _ h

    -- An object in the zone of a cell in range is gathered.
    pub adjacent_complete :
        (p q i : Vector2Int) (range : ℕ) (z : Zone)
        → 0 < r.zone_cell_size
        → within range p q ≡ true
        → get_zone_index r q ≡ some i
        → cell r.zones i ≡ some z
        → contains id (kind z) ≡ true
        → gathers (get_adjacent_zones r p range) ≡ true
    unfolding get_adjacent_zones at_zone holds
    adjacent_complete p q i range z d near at_i e h =
        let (ex, ey, ez) = index_parts r q i at_i in
        let (x_low, x_high) = near_parts p.x q.x range (near_x p q range near) in
        let (y_low, y_high) = near_parts p.y q.y range (near_y p q range near) in
        rectangle_covers _ _ _ _ i.x i.y (rw ex (quot_mono _ _ r.zone_cell_size d (omega int_laws)))
          (rw ex (quot_mono _ _ r.zone_cell_size d (omega int_laws)))
          (rw ey (quot_mono _ _ r.zone_cell_size d (omega int_laws)))
          (rw ey (quot_mono _ _ r.zone_cell_size d (omega int_laws))) (rw (ez, e) h)
