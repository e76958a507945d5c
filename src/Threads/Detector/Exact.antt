-- ===== src/Threads/Detector/Exact.antt =====
-- The search of `CheckCycle` ends and finds exactly the chains.
use mmo_server_cpp.Base.{
  ℕ, zero, suc, ◌+◌, ◌<◌, ◌≡◌, ◌≢◌, refl, ap, List, [], ◌∷◌, none, some, true, false, ◌==◌, length,
  lookup, contains, arith, inl, inr, ◌⊎◌, Bool-cases, Option-cases, subst, length-map,
}
use mmo_server_cpp.Threads.Detector.{
  Detector, Found, go_on, waits_for, check_locks, check_cycle, returns, throws, before_lock,
  request, report,
}
use mmo_server_cpp.Threads.Detector.Search.{
  In, Waits, waits, Chain, one, more, contains→In, In→contains, Sub, owners, owner-In, unvisited,
  unvisited-le, unvisited-anti, unvisited-visit,
}

module _ (d : Detector) (current : ℕ) where
  -- Whomever `t` waits for is not the current thread, and is in `w`.
  abbrev Closed : ℕ → List ℕ → Type 0
  Closed t w = (u : ℕ) → Waits d t u → (u ≢ current) × In u w

  -- The search from `v` has visited `w`, and what it added is closed.
  record Explored (v w : List ℕ) : Type 0 where
    grown : Sub v w
    closed : (t : ℕ) → In t w → contains t v ≡ false → Closed t w

  abbrev Good : ℕ → List ℕ → Found → Type 0
  Good t v none = ⊥
  Good t v (some (true, w)) = Chain d current t
  Good t v (some (false, w)) = Explored v w × In t w

  abbrev GoodLocks : ℕ → List ℕ → List ℕ → Found → Type 0
  GoodLocks t lks v none = ⊥
  GoodLocks t lks v (some (true, w)) = Chain d current t
  GoodLocks t lks v (some (false, w)) =
      Explored v w
      × ((lk u : ℕ) → In lk lks → lookup lk d.owner_map ≡ some u → (u ≢ current) × In u w)

  Closed-mono : (t : ℕ) (w x : List ℕ) → Sub w x → Closed t w → Closed t x
  Closed-mono t w x s c u e = ((c u e).0, s u (c u e).1)

  Explored-trans : (v w x : List ℕ) → Explored v w → Explored w x → Explored v x
  Explored-trans v w x p q = record {
    grown = λ t i. q.grown t (p.grown t i);
    closed = λ t i new. elim (Bool-cases (contains t w)) [
      | inl seen ↦ Closed-mono t w x q.grown (p.closed t (contains→In t w seen) new)
      | inr unseen ↦ q.closed t i unseen
    ];
  }

  Explored-refl : (v : List ℕ) → Explored v v
  Explored-refl v = record { grown = λ t i. i; closed = λ t i new. cc (new, In→contains t v i) }

  skip-Good :
      (t lk : ℕ) (lks v : List ℕ) (found : Found)
      → lookup lk d.owner_map ≡ none
      → GoodLocks t lks v found
      → GoodLocks t (lk ∷ lks) v found
  skip-Good t lk lks v none e g = g
  skip-Good t lk lks v (some (true, w)) e g = g
  skip-Good t lk lks v (some (false, w)) e g = (
    g.0,
    λ l u i o. elim i [
      | inl same ↦ cc (e, o, ap (λ k. lookup k d.owner_map) same)
      | inr later ↦ g.1 l u later o
    ],
  )

  extend-Good :
      (t lk u : ℕ) (lks v w : List ℕ) (found : Found)
      → lookup lk d.owner_map ≡ some u
      → u ≢ current
      → Explored v w
      → In u w
      → GoodLocks t lks w found
      → GoodLocks t (lk ∷ lks) v found
  extend-Good t lk u lks v w none owned ne p i g = g
  extend-Good t lk u lks v w (some (true, x)) owned ne p i g = g
  extend-Good t lk u lks v w (some (false, x)) owned ne p i g = (
    Explored-trans v w x p g.0,
    λ l o j q. elim j [
      | inl same ↦
          let e : u ≡ o = cc (owned, q, ap (λ k. lookup k d.owner_map) same) in
          (subst (λ z. z ≢ current) e ne, subst (λ z. In z x) e (g.0.grown u i))
      | inr later ↦ g.1 l o later q
    ],
  )

  go_on-Good :
      (rest : List ℕ → Found) (t lk u : ℕ) (lks v : List ℕ) (deeper : Found)
      → lookup lk d.owner_map ≡ some u
      → u ≢ current
      → Waits d t u
      → Good u v deeper
      → ((w : List ℕ) → Sub v w → GoodLocks t lks w (rest w))
      → GoodLocks t (lk ∷ lks) v (go_on rest deeper)
  unfolding go_on
  go_on-Good rest t lk u lks v none owned ne edge g k = g
  go_on-Good rest t lk u lks v (some (true, w)) owned ne edge g k = more edge g
  go_on-Good rest t lk u lks v (some (false, w)) owned ne edge g k =
      extend-Good t lk u lks v w (rest w) owned ne g.0 g.1 (k w g.0.grown)

  check_locks-Good :
      (rec : ℕ → List ℕ → Found) (t bound : ℕ)
      → ((u : ℕ) (v : List ℕ)
          → In u (owners d)
          → unvisited (owners d) v < bound
          → Good u v (rec u v))
      → (lks v : List ℕ) → ((lk : ℕ) → In lk lks → In lk (waits_for d t))
      → unvisited (owners d) v < bound
      → GoodLocks t lks v (check_locks rec d current lks v)
  unfolding check_locks
  check_locks-Good rec t bound ok [] v sub h = (Explored-refl v, λ l u i o. absurd i)
  check_locks-Good rec t bound ok (lk ∷ lks) v sub h = elim (Option-cases (lookup lk d.owner_map)) [
    | inl unowned ↦ rw unowned (
        skip-Good t lk lks v _ unowned
          (check_locks-Good rec t bound ok lks v (λ l i. sub l (inr i)) h))
    | inr (u, owned) ↦
        let edge : Waits d t u = waits lk (sub lk (inl refl)) owned in
        elim (Bool-cases (u == current)) [
          | inl hit ↦ rw (owned, hit) (one (subst (Waits d t) (ground arith) edge))
          | inr miss ↦
              rw (owned, miss)
                (go_on-Good _ t lk u lks v (rec u v) owned (ground arith) edge
                  (ok u v (owner-In d.owner_map lk u owned) h)
                  (λ w s.
                    check_locks-Good rec t bound ok lks w (λ l i. sub l (inr i))
                      (omega (arith, unvisited-anti (owners d) v w s))))
        ]
  ]

  locks-Good :
      (t : ℕ) (v : List ℕ) (found : Found)
      → GoodLocks t (waits_for d t) (t ∷ v) found
      → Good t v found
  unfolding contains
  locks-Good t v none g = g
  locks-Good t v (some (true, w)) g = g
  locks-Good t v (some (false, w)) g = (
    record {
      grown = λ x i. g.0.grown x (inr i);
      closed = λ x i new. elim (Bool-cases (x == t)) [
        | inl same ↦
            let e : t ≡ x = ground arith in
            subst (λ z. Closed z w) e (λ u edge. elim edge [ waits lk j o ↦ g.1 lk u j o ])
        | inr other ↦ g.0.closed x i (ground (arith, new, other))
      ];
    },
    g.0.grown t (inl refl),
  )

  check_cycle-Good :
      (fuel t : ℕ) (v : List ℕ)
      → In t (owners d)
      → unvisited (owners d) v < fuel
      → Good t v (check_cycle fuel d current t v)
  unfolding check_cycle
  check_cycle-Good zero t v i h = absurd (omega arith)
  check_cycle-Good (suc fuel) t v i h = elim (Bool-cases (contains t v)) [
    | inl seen ↦ rw seen (Explored-refl v, contains→In t v seen)
    | inr new ↦ rw new (
        locks-Good t v _ (
          check_locks-Good (check_cycle fuel d current) t fuel (check_cycle-Good fuel)
            (waits_for d t) (t ∷ v) (λ lk j. j)
            (omega (arith, unvisited-visit (owners d) v t i new))))
  ]

  -- Nothing that is explored from nothing leads to the current thread.
  Explored-no-Chain : (w : List ℕ) → Explored [] w → (t : ℕ) → In t w → Chain d current t → ⊥
  unfolding contains
  Explored-no-Chain w p t i (one edge) = (p.closed t i refl current edge).0 refl
  Explored-no-Chain w p t i (more {v = u} edge rest) =
      Explored-no-Chain w p u (p.closed t i refl u edge).1 rest

  search-exact :
      (t : ℕ) (found : Found)
      → Good t [] found
      → (Chain d current t × (report d found ≡ throws d))
        ⊎ ((¬ Chain d current t) × (report d found ≡ returns d))
  unfolding report
  search-exact t none g = absurd g
  search-exact t (some (true, w)) g = inl (g, refl)
  search-exact t (some (false, w)) g = inr (Explored-no-Chain w g.0 t g.1, refl)

-- Asking for a lock that another thread owns is reported as a deadlock exactly when, with this
-- request noted, a chain of requests leads from the owner back to the asking thread. The search
-- always ends.
pub before_lock-exact :
    (d : Detector) (thread lk owner : ℕ)
    → lookup lk d.owner_map ≡ some owner
    → owner ≢ thread
    → let noted = request d thread lk in
      (Chain noted thread owner × (before_lock d thread lk ≡ throws noted))
      ⊎ ((¬ Chain noted thread owner) × (before_lock d thread lk ≡ returns noted))
unfolding before_lock
before_lock-exact d thread lk owner owned ne =
    let noted = request d thread lk in
    let e : (owner == thread) ≡ false = ground arith in
    let good =
      check_cycle-Good noted thread (length noted.owner_map + 1) owner []
        (owner-In d.owner_map lk owner owned)
        (omega (arith, unvisited-le (owners noted) [], length-map (λ p. p.1) d.owner_map)) in
    rw (owned, e) (search-exact noted thread owner _ good)
