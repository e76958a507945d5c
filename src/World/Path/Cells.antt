-- ===== src/World/Path/Cells.antt =====
-- Maps and sets with cells for keys: `std::unordered_map<Vector2Int, _>` and
-- `std::unordered_set<Vector2Int>` of GameServer/Map.cpp.
use mmo_server_cpp.Base.{
  ◌≡◌, refl, ap, List, [], ◌∷◌, Option, none, some, Bool, true, false, ◌||◌, ◌↔◌, if◌then◌else◌,
  arith, Bool-cases, inl, inr,
}
use mmo_server_cpp.World.Vector.{Vector2Int, ◌==ᵥ◌, ==ᵥ_eq}

-- `operator==`, shut.
unfoldable pub same : Vector2Int → Vector2Int → Bool
same a b = a ==ᵥ b

pub same_refl : (a : Vector2Int) → same a a ≡ true
unfolding same
same_refl a = ground arith

pub same_eq : (a b : Vector2Int) → same a b ≡ true → a ≡ b
unfolding same
same_eq a b h = ==ᵥ_eq a b h

pub same_sym : (a b : Vector2Int) → same a b ≡ same b a
unfolding same
same_sym a b = ground arith

pub same_iff : (a b : Vector2Int) → (same a b ≡ true) ↔ (a ≡ b)
same_iff a b = (same_eq a b, λ e. rw e (same_refl b))

unfoldable pub contains_cell : Vector2Int → List Vector2Int → Bool
contains_cell p [] = false
contains_cell p (q ∷ qs) = same q p || contains_cell p qs

module _ {ℓ} {V : Type ℓ} where
  -- `count`
  unfoldable pub has_key : Vector2Int → List (Vector2Int × V) → Bool
  has_key p [] = false
  has_key p ((k, v) ∷ m) = same k p || has_key p m

  -- `find`
  unfoldable pub lookup_at : Vector2Int → List (Vector2Int × V) → Option V
  lookup_at p [] = none
  lookup_at p ((k, v) ∷ m) = if same k p then some v else lookup_at p m

  unfoldable pub erase_at : Vector2Int → List (Vector2Int × V) → List (Vector2Int × V)
  erase_at p [] = []
  erase_at p ((k, v) ∷ m) = if same k p then erase_at p m else (k, v) ∷ erase_at p m

  -- `m[p] = v`, without an order.
  unfoldable pub insert_at : Vector2Int → V → List (Vector2Int × V) → List (Vector2Int × V)
  unfolding erase_at
  insert_at p v m = (p, v) ∷ erase_at p m

  pub erase_at_fresh :
      (p : Vector2Int) (m : List (Vector2Int × V)) → has_key p m ≡ false → erase_at p m ≡ m
  unfolding has_key erase_at
  erase_at_fresh p [] h = refl
  erase_at_fresh p ((k, v) ∷ m) h = ground (arith, erase_at_fresh p m)

  pub insert_at_fresh :
      (p : Vector2Int) (v : V) (m : List (Vector2Int × V))
      → has_key p m ≡ false
      → insert_at p v m ≡ (p, v) ∷ m
  unfolding insert_at
  insert_at_fresh p v m h = ap (◌∷◌ (p, v)) (erase_at_fresh p m h)

  pub lookup_at_missing :
      (p : Vector2Int) (m : List (Vector2Int × V)) → has_key p m ≡ false → lookup_at p m ≡ none
  unfolding has_key lookup_at
  lookup_at_missing p [] h = refl
  lookup_at_missing p ((k, v) ∷ m) h = ground (arith, lookup_at_missing p m)

  pub lookup_at_present :
      (p : Vector2Int) (m : List (Vector2Int × V))
      → has_key p m ≡ true
      → (v : V) × (lookup_at p m ≡ some v)
  unfolding has_key lookup_at
  lookup_at_present p [] h = cc
  lookup_at_present p ((k, v) ∷ m) h = elim (Bool-cases (same k p)) [
    | inl e ↦ (v, rw e refl)
    | inr e ↦ let (w, f) = lookup_at_present p m (rw e at h) in (w, rw e f)
  ]
