-- ===== src/World/Path/Rounds.antt =====
-- How many cells around the destination `FindPath` has not scored yet: each that it scores is new.
use mmo_server_cpp.Base.{
  ℕ, zero, suc, ◌+◌, ◌*◌, ◌≤◌, ◌<◌, ◌≡◌, List, ◌∷◌, false, ltb, if◌then◌else◌, arith, Bool-cases,
  inl, inr, ap₂,
}
use mmo_server_cpp.Base.Int.{ℤ, pos, pos_part, ◌+ℤ◌, ◌-ℤ◌, abs, eq_of_parts, +ℤ_parts}
use mmo_server_cpp.World.Vector.{Vector2Int}
use mmo_server_cpp.World.Path.Cells.{same_refl, has_key}
use mmo_server_cpp.World.Path.{heuristic}

-- f 0 + … + f (n - 1)
sum : ℕ → (ℕ → ℕ) → ℕ
sum zero f = 0
sum (suc n) f = f n + sum n f

sum-le : (n : ℕ) (f g : ℕ → ℕ) → ((i : ℕ) → g i ≤ f i) → sum n g ≤ sum n f
unfolding sum
sum-le zero f g h = omega arith
sum-le (suc n) f g h = omega (arith, sum-le n f g h, h n)

sum-lt : (n k : ℕ) (f g : ℕ → ℕ) → ((i : ℕ) → g i ≤ f i) → k < n → g k < f k → sum n g < sum n f
unfolding sum
sum-lt zero k f g h lt less = absurd (omega arith)
sum-lt (suc n) k f g h lt less = elim (Bool-cases (ltb k n)) [
  | inl e ↦ let rest = sum-lt n k f g h (ground arith) less in omega (arith, rest, h n)
  | inr e ↦
      let last : k ≡ n = ground arith in
      let top : g n < f n = rw last at less in omega (arith, top, sum-le n f g h)
]

sum-le-mul : (n c : ℕ) (f : ℕ → ℕ) → ((i : ℕ) → f i ≤ c) → sum n f ≤ n * c
unfolding sum
sum-le-mul zero c f h = omega arith
sum-le-mul (suc n) c f h = let rest = sum-le-mul n c f h in let top = h n in grind arith

-- One coordinate of the square.
at_offset :
    (d n : ℤ) (range : ℕ)
    → abs (d -ℤ n) ≤ range
    → (i : ℕ) × (i < 2 * range + 1) × (d -ℤ pos range +ℤ pos i ≡ n)
unfolding ◌-ℤ◌
at_offset d n range h =
    let i = pos_part (n -ℤ (d -ℤ pos range)) in
    let a = +ℤ_parts (d -ℤ pos range) (pos i) in
    (i, ground arith, eq_of_parts _ _ (ground (arith, a)))

module _ (dest : Vector2Int) (range : ℕ) where
  cell_at : ℕ → ℕ → Vector2Int
  cell_at i j = record { x = dest.x -ℤ pos range +ℤ pos i; y = dest.y -ℤ pos range +ℤ pos j }

  in_square :
      (p : Vector2Int)
      → heuristic p dest ≤ range
      → (i j : ℕ) × (i < 2 * range + 1) × (j < 2 * range + 1) × (cell_at i j ≡ p)
  unfolding heuristic cell_at
  in_square p h =
      let (i, li, ei) = at_offset dest.x p.x range (omega arith) in
      let (j, lj, ej) = at_offset dest.y p.y range (omega arith) in
      (i, j, li, lj, ap₂ (λ (u v : ℤ). record { x = u; y = v }) ei ej)

  module _ (h_list : List (Vector2Int × ℕ)) where
    new_at : Vector2Int → ℕ
    new_at p = if has_key p h_list then 0 else 1

    pub unseen : ℕ
    unseen = sum (2 * range + 1) (λ i. sum (2 * range + 1) (λ j. new_at (cell_at i j)))

    pub unseen-le : unseen ≤ (2 * range + 1) * (2 * range + 1)
    unfolding unseen new_at
    unseen-le = sum-le-mul (2 * range + 1) (2 * range + 1) _ (λ i.
        omega (arith, sum-le-mul (2 * range + 1) 1 (λ j. new_at (cell_at i j)) (λ j. ground arith)))

  module _ (p : Vector2Int) (h : ℕ) (h_list : List (Vector2Int × ℕ)) where
    new_at-le : (q : Vector2Int) → new_at ((p, h) ∷ h_list) q ≤ new_at h_list q
    unfolding new_at has_key
    new_at-le q = ground arith

    new_at-lt :
        (q : Vector2Int)
        → q ≡ p
        → has_key p h_list ≡ false
        → new_at ((p, h) ∷ h_list) q < new_at h_list q
    unfolding new_at has_key
    new_at-lt q e fresh = rw (e, fresh, same_refl p) (omega arith)

    -- A cell that is scored for the first time was unseen.
    pub unseen-cons :
        heuristic p dest ≤ range
        → has_key p h_list ≡ false
        → unseen ((p, h) ∷ h_list) < unseen h_list
    unfolding unseen
    unseen-cons close fresh =
        let (i, j, li, lj, e) = in_square p close in
        sum-lt (2 * range + 1) i _ _
          (λ k. sum-le (2 * range + 1) _ _ (λ l. new_at-le (cell_at k l))) li
          (sum-lt (2 * range + 1) j _ _ (λ l. new_at-le (cell_at i l)) lj
            (new_at-lt (cell_at i j) e fresh))
