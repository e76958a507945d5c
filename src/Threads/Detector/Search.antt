-- ===== src/Threads/Detector/Search.antt =====
-- The search for a cycle: who waits for whom, and what one call of `CheckCycle` visits.
use mmo_server_cpp.Base.{
  ℕ, ◌+◌, ◌<◌, ◌≤◌, ◌≡◌, sym, List, [], ◌∷◌, some, true, false, if◌then◌else◌, length, lookup,
  contains, map, arith, inl, inr, ◌⊎◌, Bool-cases, subst,
}
use mmo_server_cpp.Threads.Detector.{Detector, waits_for}

abbrev pub In : ℕ → List ℕ → Type 0
In x [] = ⊥
In x (y ∷ ys) = (x ≡ y) ⊎ In x ys

-- Thread `t` asks for a lock that thread `u` owns.
pub data Waits (d : Detector) (t u : ℕ) : Type 0 where
  waits : (lk : ℕ) → In lk (waits_for d t) → lookup lk d.owner_map ≡ some u → Waits d t u

-- A chain of such requests leads from `t` to `u`.
pub data Chain (d : Detector) (u : ℕ) : ℕ → Type 0 where
  one : {t : ℕ} → Waits d t u → Chain d u t
  more : {t v : ℕ} → Waits d t v → Chain d u v → Chain d u t

pub contains→In : (x : ℕ) (xs : List ℕ) → contains x xs ≡ true → In x xs
unfolding contains
contains→In x [] h = cc
contains→In x (y ∷ ys) h = ground (arith, contains→In x ys)

pub In→contains : (x : ℕ) (xs : List ℕ) → In x xs → contains x xs ≡ true
unfolding contains
In→contains x [] h = absurd h
In→contains x (y ∷ ys) (inl e) = ground arith
In→contains x (y ∷ ys) (inr i) = ground (arith, In→contains x ys i)

abbrev pub Sub : List ℕ → List ℕ → Type 0
Sub v w = (x : ℕ) → In x v → In x w

-- The threads that own a lock.
abbrev pub owners : Detector → List ℕ
owners d = map (λ p. p.1) d.owner_map

pub owner-In : (m : List (ℕ × ℕ)) (lk u : ℕ) → lookup lk m ≡ some u → In u (map (λ p. p.1) m)
unfolding lookup
owner-In [] lk u e = cc
owner-In ((k, o) ∷ m) lk u e = ground (arith, owner-In m lk u)

-- How many of `xs` have not been visited.
pub unvisited : List ℕ → List ℕ → ℕ
unvisited [] v = 0
unvisited (x ∷ xs) v = (if contains x v then 0 else 1) + unvisited xs v

pub unvisited-le : (xs v : List ℕ) → unvisited xs v ≤ length xs
unfolding unvisited
unvisited-le [] v = omega arith
unvisited-le (x ∷ xs) v = ground (arith, unvisited-le xs v)

pub unvisited-anti : (xs v w : List ℕ) → Sub v w → unvisited xs w ≤ unvisited xs v
unfolding unvisited
unvisited-anti [] v w s = omega arith
unvisited-anti (x ∷ xs) v w s = elim (Bool-cases (contains x v)) [
  | inl seen ↦
      let seen' = In→contains x w (s x (contains→In x v seen)) in
      rw (seen, seen') (omega (arith, unvisited-anti xs v w s))
  | inr new ↦ ground (arith, new, unvisited-anti xs v w s)
]

pub unvisited-visit :
    (xs v : List ℕ) (x : ℕ) → In x xs → contains x v ≡ false → unvisited xs (x ∷ v) < unvisited xs v
unfolding unvisited
unvisited-visit [] v x i new = absurd i
unvisited-visit (y ∷ xs) v x (inl e) new =
    let here : contains y (x ∷ v) ≡ true = In→contains y (x ∷ v) (inl (sym e)) in
    let new' : contains y v ≡ false = subst (λ z. contains z v ≡ false) e new in
    rw (here, new') (omega (arith, unvisited-anti xs v (x ∷ v) (λ z i. inr i)))
unvisited-visit (y ∷ xs) v x (inr i) new = elim (Bool-cases (contains y v)) [
  | inl seen ↦
      let seen' = In→contains y (x ∷ v) (inr (contains→In y v seen)) in
      rw (seen, seen') (omega (arith, unvisited-visit xs v x i new))
  | inr fresh ↦ ground (arith, fresh, unvisited-visit xs v x i new)
]
