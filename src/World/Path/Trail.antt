-- ===== src/World/Path/Trail.antt =====
-- `CalculatePath` on a tree of parents: the path from the root to the goal.
use mmo_server_cpp.Base.{
  ℕ, zero, suc, ◌≤◌, ◌<◌, ◌≡◌, refl, ◌⊎◌, inl, inr, List, [], ◌∷◌, true, false, ltb, ltb→lt,
  not_ltb→le, length, arith, if◌then◌else◌, Bool-cases, subst, sym, ◌∙◌, map,
}
use mmo_server_cpp.Base.Int.{◌-ℤ◌}
use mmo_server_cpp.World.Vector.{Vector2Int, plus}
use mmo_server_cpp.World.Path.Cells.{same, same_refl, same_eq, same_sym, has_key, lookup_at}
use mmo_server_cpp.World.Path.{
  done, directions, heuristic, no_cell, closest, parent_of, walk, int_max, goal_of, calculate_path,
}

abbrev pub Among : Vector2Int → List Vector2Int → Type 0
Among q [] = ⊥
Among q (p ∷ ps) = (q ≡ p) ⊎ Among q ps

-- `q` is one step in one of the four directions from `p`.
abbrev pub Beside : Vector2Int → Vector2Int → Type 0
Beside p q = Among q (map (plus p) directions)

-- A path of steps to cells that are `Ok`, from `a` to `b`, without `a`.
abbrev pub Chain : (Vector2Int → Type 0) → Vector2Int → List Vector2Int → Vector2Int → Type 0
Chain Ok a [] b = a ≡ b
Chain Ok a (q ∷ path) b = Beside a q × Ok q × Chain Ok q path b

differs :
    (k q : Vector2Int) (m : List (Vector2Int × Vector2Int))
    → has_key k m ≡ false
    → has_key q m ≡ true
    → same k q ≡ false
differs k q m fresh h = elim (Bool-cases (same k q)) [
  | inl e ↦ let k' : k ≡ q = same_eq k q e in cc
  | inr e ↦ e
]

parent_of-cons :
    (k v : Vector2Int) (m : List (Vector2Int × Vector2Int)) (p : Vector2Int)
    → parent_of ((k, v) ∷ m) p ≡ (if same k p then v else parent_of m p)
unfolding parent_of lookup_at
parent_of-cons k v m p = ground arith

walk_stop :
    (fuel : ℕ) (parent : List (Vector2Int × Vector2Int)) (p : Vector2Int) (path : List Vector2Int)
    → parent_of parent p ≡ p
    → walk (suc fuel) parent p path ≡ done path
unfolding walk
walk_stop fuel parent p path e = rw (e, same_refl p) refl

walk_on :
    (fuel : ℕ) (parent : List (Vector2Int × Vector2Int)) (p v : Vector2Int) (path : List Vector2Int)
    → parent_of parent p ≡ v
    → same v p ≡ false
    → walk (suc fuel) parent p path ≡ walk fuel parent v (p ∷ path)
unfolding walk
walk_on fuel parent p v path e moves = rw (e, moves) refl

module _ (start : Vector2Int) (Ok : Vector2Int → Type 0) where
  -- A map of parents, in the reverse order of its growth.
  pub data IsTree : List (Vector2Int × Vector2Int) → Type 0 where
    root : IsTree ((start, start) ∷ [])
    branch :
        {k v : Vector2Int} {rest : List (Vector2Int × Vector2Int)}
        → IsTree rest
        → has_key k rest ≡ false
        → has_key v rest ≡ true
        → Beside v k
        → Ok k
        → IsTree ((k, v) ∷ rest)

  pub start-key : {m : List (Vector2Int × Vector2Int)} → IsTree m → has_key start m ≡ true
  unfolding has_key
  start-key root = rw (same_refl start) refl
  start-key (branch t fresh old near good) = ground (arith, start-key t)

  module _ (parent : List (Vector2Int × Vector2Int)) (goal : Vector2Int) where
    -- `m` is what of `parent` is left to climb.
    climb :
        {m : List (Vector2Int × Vector2Int)}
        → IsTree m
        → (fuel : ℕ) (p : Vector2Int) (path : List Vector2Int) → length m ≤ fuel
        → has_key p m ≡ true
        → ((q : Vector2Int) → has_key q m ≡ true → parent_of parent q ≡ parent_of m q)
        → Chain Ok p path goal
        → (path' : List Vector2Int) × (walk fuel parent p path ≡ done path')
          × Chain Ok start path' goal
    unfolding has_key
    climb root zero p path long here agree chain = absurd (omega arith)
    climb root (suc fuel) p path long here agree chain =
        let e : start ≡ p = same_eq start p (ground arith) in
        let stays : parent_of parent p ≡ p =
          agree p here ∙ parent_of-cons start start [] p ∙ rw (← e, same_refl start) refl in
        (path, walk_stop fuel parent p path stays, rw e chain)
    climb (branch {k} {v} {rest} t fresh old near good) zero p path long here agree chain =
        absurd (omega arith)
    climb (branch {k} {v} {rest} t fresh old near good) (suc fuel) p path long here agree chain =
        elim (Bool-cases (same k p)) [
          | inl e ↦
              let is_k : k ≡ p = same_eq k p e in
              let to_v : parent_of parent p ≡ v =
                agree p here ∙ parent_of-cons k v rest p ∙ rw e refl in
              let (path', done', chain') =
                climb t fuel v (p ∷ path) (omega arith) old below
                  (subst (Beside v) is_k near, subst Ok is_k good, chain) in
              (path', walk_on fuel parent p v path to_v (moves is_k) ∙ done', chain')
          | inr e ↦ climb t (suc fuel) p path (omega arith) (rw e at here) below chain
        ]
      where
        below : (q : Vector2Int) → has_key q rest ≡ true → parent_of parent q ≡ parent_of rest q
        below q h =
            let other : same k q ≡ false = differs k q rest fresh h in
            agree q (rw other h) ∙ parent_of-cons k v rest q ∙ rw other refl

        moves : k ≡ p → same v p ≡ false
        moves e = subst (λ w. same v w ≡ false) e (same_sym v k ∙ differs k v rest fresh old)

  -- From a cell of the tree the loop climbs to the root, and the path leads back.
  pub walk_lem :
      (parent : List (Vector2Int × Vector2Int)) (p : Vector2Int)
      → IsTree parent
      → has_key p parent ≡ true
      → (path : List Vector2Int) × (walk (suc (length parent)) parent p [] ≡ done path)
        × Chain Ok start path p
  walk_lem parent p t here =
      climb parent p t (suc (length parent)) p [] (omega arith) here (λ q h. refl) refl

heuristic_self : (p : Vector2Int) → heuristic p p ≡ 0
unfolding heuristic ◌-ℤ◌
heuristic_self p = ground arith

-- Whether the search for the second-best destination finds a key that is nearer than `best`.
abbrev IsClosest : Vector2Int → List (Vector2Int × Vector2Int) → ℕ → Vector2Int → Type 0
IsClosest dest m best r =
    (has_key r m ≡ true)
    × (heuristic r dest < best)
    × ((q : Vector2Int) → has_key q m ≡ true → heuristic r dest ≤ heuristic q dest)

abbrev Closest : Vector2Int → List (Vector2Int × Vector2Int) → ℕ → Vector2Int → Vector2Int → Type 0
Closest dest m best found r =
    ((r ≡ found) × ((q : Vector2Int) → has_key q m ≡ true → best ≤ heuristic q dest))
    ⊎ IsClosest dest m best r

closest-cons :
    (dest key value : Vector2Int) (rest : List (Vector2Int × Vector2Int)) (best : ℕ)
    (found : Vector2Int)
    → closest dest ((key, value) ∷ rest) best found ≡ (
        if ltb (heuristic key dest) best
        then closest dest rest (heuristic key dest) key
        else closest dest rest best found)
unfolding closest heuristic
closest-cons dest key value rest best found = ground arith

module _ (dest key value : Vector2Int) (rest : List (Vector2Int × Vector2Int)) where
  least :
      (q : Vector2Int) (n : ℕ)
      → n ≤ heuristic key dest
      → (has_key q rest ≡ true → n ≤ heuristic q dest)
      → has_key q ((key, value) ∷ rest) ≡ true
      → n ≤ heuristic q dest
  unfolding has_key
  least q n h k e = ground (arith, same_eq key q)

  Closest-nearer :
      (best : ℕ) (found r : Vector2Int)
      → heuristic key dest < best
      → Closest dest rest (heuristic key dest) key r
      → Closest dest ((key, value) ∷ rest) best found r
  unfolding has_key
  Closest-nearer best found r below (inl (is_key, above)) = inr (
    rw (is_key, same_refl key) refl,
    rw is_key below,
    λ q h. rw is_key (least q (heuristic key dest) (omega arith) (above q) h),
  )
  Closest-nearer best found r below (inr (has, nearer, above)) =
      inr (ground arith, omega arith, λ q h. least q _ (omega arith) (above q) h)

  Closest-farther :
      (best : ℕ) (found r : Vector2Int)
      → best ≤ heuristic key dest
      → Closest dest rest best found r
      → Closest dest ((key, value) ∷ rest) best found r
  unfolding has_key
  Closest-farther best found r below (inl (stays, above)) =
      inl (stays, λ q h. least q best below (above q) h)
  Closest-farther best found r below (inr (has, nearer, above)) =
      inr (ground arith, nearer, λ q h. least q _ (omega arith) (above q) h)

closest_lem :
    (dest : Vector2Int) (m : List (Vector2Int × Vector2Int)) (best : ℕ) (found : Vector2Int)
    → Closest dest m best found (closest dest m best found)
unfolding closest has_key
closest_lem dest [] best found = inl (refl, λ q h. cc)
closest_lem dest ((key, value) ∷ rest) best found =
    elim (Bool-cases (ltb (heuristic key dest) best)) [
      | inl e ↦
          let step = closest-cons dest key value rest best found ∙ rw e refl in
          subst (Closest dest ((key, value) ∷ rest) best found) (sym step) (
            Closest-nearer dest key value rest best found _ (ltb→lt _ best e)
              (closest_lem dest rest (heuristic key dest) key))
      | inr e ↦
          let step = closest-cons dest key value rest best found ∙ rw e refl in
          subst (Closest dest ((key, value) ∷ rest) best found) (sym step) (
            Closest-farther dest key value rest best found _ (not_ltb→le _ best e)
              (closest_lem dest rest best found))
    ]

-- With a tree of parents the path ends at `dest` if that was reached, and else as near to it as
-- any cell that was.
pub calculate_path_lem :
    (start dest : Vector2Int) (Ok : Vector2Int → Type 0) (parent : List (Vector2Int × Vector2Int))
    → IsTree start Ok parent
    → heuristic start dest < int_max
    → (goal : Vector2Int) × (path : List Vector2Int) × (calculate_path parent dest ≡ done path)
      × Chain Ok start path goal
      × (has_key dest parent ≡ true → goal ≡ dest)
      × (heuristic goal dest ≤ heuristic start dest)
unfolding calculate_path goal_of
calculate_path_lem start dest Ok parent t near = elim (Bool-cases (has_key dest parent)) [
  | inl e ↦
      let (path, ends, chain) = walk_lem start Ok parent dest t e in
      (dest, path, rw e ends, chain, λ h. refl, omega (arith, heuristic_self dest))
  | inr e ↦ elim (closest_lem dest parent int_max no_cell) [
    | inl (_, above) ↦ absurd (omega (arith, above start (start-key start Ok t)))
    | inr (has, _, least) ↦
        let goal = closest dest parent int_max no_cell in
        let (path, ends, chain) = walk_lem start Ok parent goal t has in
        (goal, path, rw e ends, chain, λ h. cc, least start (start-key start Ok t))
  ]
]
