-- ===== src/World/Path/Reach.antt =====
-- What `FindPath` finds.
use mmo_server_cpp.Base.{
  ℕ, zero, suc, ◌≤◌, ◌<◌, ◌≡◌, refl, ◌∙◌, sym, ap, ◌⊎◌, inl, inr, List, [], ◌∷◌, Bool, true, false,
  ◌||◌, length, arith, Bool-cases, List-cases, All, map,
}
use mmo_server_cpp.World.Vector.{Vector2Int, plus}
use mmo_server_cpp.World.Map.{Map}
use mmo_server_cpp.World.Map.Laws.{IsLoaded}
use mmo_server_cpp.World.Path.Cells.{same, same_refl, same_eq, has_key, lookup_at, contains_cell}
use mmo_server_cpp.World.Path.{
  Node, Search, Result, done, heuristic, pop_min, directions, closing, search, int_max,
  start_search, search_fuel, find_path,
}
use mmo_server_cpp.World.Path.Trail.{Beside, Chain, IsTree, root, start-key, calculate_path_lem}
use mmo_server_cpp.World.Path.Rounds.{unseen-le}
use mmo_server_cpp.World.Path.Explore.{waits, pop_min_lem, Open, Inv, work, Grows, expand_lem}

module _ (m : Map) (start dest : Vector2Int) (through : Bool) (range : ℕ) where
  -- A walk from the start over cells that `FindPath` may step on.
  pub data Walk : Vector2Int → Type 0 where
    here : Walk start
    step : {p q : Vector2Int} → Walk p → Beside p q → Open m start dest through range q → Walk q

  abbrev Invariant : Search → Type 0
  Invariant s = Inv m start dest through range s

  -- Every neighbour of a closed cell is known.
  abbrev IsClosed : Search → Type 0
  IsClosed s =
      (p q : Vector2Int)
      → contains_cell p s.close_list ≡ true
      → Beside p q
      → Open m start dest through range q
      → has_key q s.parent ≡ true

  -- The start is closed, or it alone waits.
  abbrev Begun : Search → Type 0
  Begun s =
      (contains_cell start s.close_list ≡ true)
      ⊎ ((p : Vector2Int) → waits p s.open_list ≡ true → p ≡ start)

  data Ended (t : Search) : Type 0 where
    arrived :
        IsTree start (Open m start dest through range) t.parent
        → has_key dest t.parent ≡ true
        → Ended t
    exhausted : Invariant t → IsClosed t → t.open_list ≡ [] → Ended t

  module _ (s : Search) (n : Node) (rest : List Node) (i : Invariant s)
      (e : s.open_list ≡ n ∷ rest) where
    -- What waits is the node at hand and the others.
    popped :
        (p : Vector2Int)
        → waits p s.open_list ≡ (same (pop_min n rest).0.cell_pos p || waits p (pop_min n rest).1)
    popped p = ap (waits p) e ∙ (pop_min_lem n rest p).0

    current-key : has_key (pop_min n rest).0.cell_pos s.parent ≡ true
    current-key =
        let c = (pop_min n rest).0.cell_pos in i.open-key c (popped c ∙ (rw (same_refl c) refl))

    closing-Inv : Invariant (closing s (pop_min n rest).0.cell_pos (pop_min n rest).1)
    unfolding contains_cell
    closing-Inv = record {
      tree = i.tree;
      scored = i.scored;
      keys = i.keys;
      closed-key =
          λ p h. ground (arith, i.closed-key p, current-key, same_eq (pop_min n rest).0.cell_pos p);
      open-key = λ p h. i.open-key p (popped p ∙ ground arith);
      frontier = λ p h. ground (arith, i.frontier p h, popped p);
    }

    closing-Begun :
        Begun s → contains_cell start ((pop_min n rest).0.cell_pos ∷ s.close_list) ≡ true
    unfolding contains_cell
    closing-Begun (inl was) = ground arith
    closing-Begun (inr first) =
        let c = (pop_min n rest).0.cell_pos in
        let is_start : c ≡ start = first c (popped c ∙ (rw (same_refl c) refl)) in
        rw (is_start, same_refl start) refl

  All-Beside : (c : Vector2Int) → All (Beside c) (map (plus c) directions)
  All-Beside c =
      (inl refl, (inr (inl refl), (inr (inr (inl refl)), (inr (inr (inr (inl refl))), tt))))

  IsClosed-next :
      (c : Vector2Int) (others : List Node) (s t : Search)
      → IsClosed s
      → Grows m start dest through range (closing s c others) t
      → ((q : Vector2Int)
          → Beside c q
          → Open m start dest through range q
          → has_key q t.parent ≡ true)
      → IsClosed t
  unfolding contains_cell
  IsClosed-next c others s t closed grows keys p q was beside good = elim (Bool-cases (same c p)) [
    | inl e ↦ keys q (rw (same_eq c p e) beside) good
    | inr e ↦
        grows.kept q
          (closed p q (before e (ap (contains_cell p) (sym grows.closed) ∙ was)) beside good)
  ]
    where
      before :
          same c p ≡ false
          → contains_cell p (c ∷ s.close_list) ≡ true
          → contains_cell p s.close_list ≡ true
      before e h = ground arith

  module _ (loaded : IsLoaded m) where
    -- With fuel above what is left to do the loop ends at `dest`, or with nothing left.
    search_ends :
        (fuel : ℕ) (s : Search)
        → Invariant s
        → Begun s
        → IsClosed s
        → work m start dest through range s < fuel
        → (t : Search) × (search m dest through range fuel s ≡ done t) × Ended t
    unfolding search
    search_ends zero s i begun closed enough = absurd (omega arith)
    search_ends (suc fuel) s i begun closed enough = elim (List-cases s.open_list) [
      | inl e ↦ (s, rw e refl, exhausted i closed e)
      | inr (n, rest, e) ↦
          let c = (pop_min n rest).0.cell_pos in
          elim (Bool-cases (same c dest)) [
            | inl at_dest ↦
                let is_dest = same_eq c dest at_dest in
                (
                  record s { open_list = (pop_min n rest).1 },
                  simp (e, at_dest, search),
                  arrived i.tree (rw (← is_dest) (current-key s n rest i e)),
                )
            | inr elsewhere ↦
                let s' = closing s c (pop_min n rest).1 in
                let (t, steps, grows, keys) =
                  expand_lem m start dest through range loaded c directions s'
                    (closing-Inv s n rest i e) (closing-Begun s n rest i e begun)
                    (current-key s n rest i e) (All-Beside c) in
                let (u, ends, end) =
                  search_ends fuel t grows.inv
                    (inl (rw grows.closed (closing-Begun s n rest i e begun)))
                    (IsClosed-next c (pop_min n rest).1 s t closed grows keys)
                    (omega (arith, grows.works, enough, (pop_min_lem n rest c).1, ap length e)) in
                (u, simp (e, elsewhere, search, steps) ends, end)
          ]
    ]

  -- With nothing left to visit every walk stays within the keys.
  walk-key :
      (t : Search) {p : Vector2Int}
      → Invariant t
      → IsClosed t
      → t.open_list ≡ []
      → Walk p
      → has_key p t.parent ≡ true
  unfolding waits
  walk-key t i closed e here = start-key start (Open m start dest through range) i.tree
  walk-key t i closed e (step {p} {q} w beside good) =
      closed p q (visited (i.frontier p (walk-key t i closed e w))) beside good
    where
      visited :
          (contains_cell p t.close_list || waits p t.open_list) ≡ true
          → contains_cell p t.close_list ≡ true
      visited h = let empty = ap (waits p) e in ground arith

  ended-IsTree :
      (t : Search)
      → Ended t
      → IsTree start (Open m start dest through range) t.parent
        × (Walk dest → has_key dest t.parent ≡ true)
  ended-IsTree t (arrived tree here_too) = (tree, λ w. here_too)
  ended-IsTree t (exhausted i closed e) = (i.tree, walk-key t i closed e)

  initial-Inv : Invariant (start_search start dest)
  unfolding start_search has_key lookup_at contains_cell waits
  initial-Inv = record {
    tree = root;
    scored = λ p h e. cc;
    keys = λ p. refl;
    closed-key = λ p h. cc;
    open-key = λ p h. h;
    frontier = λ p h. h;
  }

  initial-Begun : Begun (start_search start dest)
  unfolding start_search waits
  initial-Begun = inr (λ p h. sym (same_eq start p (ground arith)))

  initial-IsClosed : IsClosed (start_search start dest)
  unfolding start_search contains_cell
  initial-IsClosed p q h beside good = cc

  initial-work : work m start dest through range (start_search start dest) < search_fuel range
  unfolding start_search search_fuel
  initial-work = omega (arith, unseen-le dest range [])

  -- What `FindPath` promises.
  pub record IsFound (result : Result (List Vector2Int)) : Type 0 where
    pub path : List Vector2Int
    pub goal : Vector2Int
    pub finds : result ≡ done path
    pub chain : Chain (Open m start dest through range) start path goal
    pub reaches : Walk dest → goal ≡ dest
    pub nears : heuristic goal dest ≤ heuristic start dest

pub find_path_lem :
    (m : Map) (start dest : Vector2Int) (through : Bool) (range : ℕ)
    → IsLoaded m
    → heuristic start dest < int_max
    → IsFound m start dest through range (find_path m start dest through range)
unfolding find_path
find_path_lem m start dest through range loaded small =
    let first = start_search start dest in
    let inv = initial-Inv m start dest through range in
    let (t, ends, end) =
      search_ends m start dest through range loaded (search_fuel range) first inv
        (initial-Begun m start dest through range) (initial-IsClosed m start dest through range)
        (initial-work m start dest through range) in
    let (tree, reached) = ended-IsTree m start dest through range t end in
    let (goal, path, finds, chain, to_dest, near) =
      calculate_path_lem start dest (Open m start dest through range) t.parent tree small in
    record {
      path = path;
      goal = goal;
      finds = rw ends finds;
      chain = chain;
      reaches = λ w. to_dest (reached w);
      nears = near;
    }
