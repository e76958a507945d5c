-- ===== src/World/Path/Explore.antt =====
-- The loop of `FindPath`: its invariant, and what one node adds.
use mmo_server_cpp.Base.{
  ℕ, ◌+◌, ◌≤◌, ◌≡◌, refl, ◌∙◌, sym, ◌⊎◌, inl, inr, List, [], ◌∷◌, Option, some, Bool, true, false,
  ltb, ltb→lt, not_ltb→le, ◌||◌, length, arith, Bool-cases, not, ◌&&◌, ◌==◌, subst, All, map,
}
use mmo_server_cpp.World.Vector.{Vector2Int, plus}
use mmo_server_cpp.World.Map.{Map}
use mmo_server_cpp.World.Map.Laws.{IsLoaded, can_go_lem}
use mmo_server_cpp.World.Path.Cells.{
  same, same_refl, same_eq, has_key, lookup_at, lookup_at_missing, lookup_at_present,
  insert_at_fresh, contains_cell,
}
use mmo_server_cpp.World.Path.{
  Node, Search, heuristic, pop_min, known, admit, enterable, offer, expand,
}
use mmo_server_cpp.World.Path.Rounds.{unseen, unseen-cons}
use mmo_server_cpp.World.Path.Trail.{Among, Beside, IsTree, branch}

-- Whether a node for `p` is open.
unfoldable pub waits : Vector2Int → List Node → Bool
waits p [] = false
waits p (n ∷ rest) = same n.cell_pos p || waits p rest

pub pop_min_lem :
    (n : Node) (rest : List Node) (p : Vector2Int)
    → (waits p (n ∷ rest) ≡ (same (pop_min n rest).0.cell_pos p || waits p (pop_min n rest).1))
      × (length (pop_min n rest).1 ≡ length rest)
unfolding waits pop_min
pop_min_lem n [] p = (refl, refl)
pop_min_lem n (next ∷ rest) p = ground (arith, pop_min_lem next rest p)

module _ (m : Map) (start dest : Vector2Int) (through : Bool) (range : ℕ) where
  -- `FindPath` may step on `p`.
  abbrev pub Open : Vector2Int → Type 0
  Open p = (heuristic p dest ≤ range) × (enterable m dest through p ≡ some true)

  pub record Inv (s : Search) : Type 0 where
    pub tree : IsTree start Open s.parent
    pub scored : (p : Vector2Int) (h : ℕ) → lookup_at p s.h_list ≡ some h → h ≡ heuristic p dest
    pub keys : (p : Vector2Int) → has_key p s.parent ≡ (same start p || has_key p s.h_list)
    pub closed-key :
        (p : Vector2Int) → contains_cell p s.close_list ≡ true → has_key p s.parent ≡ true
    pub open-key : (p : Vector2Int) → waits p s.open_list ≡ true → has_key p s.parent ≡ true
    pub frontier :
        (p : Vector2Int)
        → has_key p s.parent ≡ true
        → (contains_cell p s.close_list || waits p s.open_list) ≡ true

  -- The cells that may still be added, and those that wait: a round takes one away.
  abbrev pub work : Search → ℕ
  work s = unseen dest range s.h_list + length s.open_list

  -- What the loop over the directions does: nothing is forgotten, and the closed cells stay.
  pub record Grows (s t : Search) : Type 0 where
    pub inv : Inv t
    pub kept : (p : Vector2Int) → has_key p s.parent ≡ true → has_key p t.parent ≡ true
    pub closed : t.close_list ≡ s.close_list
    pub works : work t ≤ work s

  -- The search with `near` added, which was reached from `c`.
  abbrev pub grown : Search → Vector2Int → Vector2Int → Search
  grown s c near = record s {
    parent = (near, c) ∷ s.parent;
    h_list = (near, heuristic near dest) ∷ s.h_list;
    open_list = record { cell_pos = near; h = heuristic near dest } ∷ s.open_list;
  }

  module _ (s : Search) (i : Inv s) (begun : contains_cell start s.close_list ≡ true) where
    -- A cell in `h_list` is passed over, since its heuristic is always the same.
    scored-known :
        (p : Vector2Int)
        → has_key p s.h_list ≡ true
        → known (heuristic p dest) (lookup_at p s.h_list) ≡ true
    unfolding known
    scored-known p h =
        let (old, e) = lookup_at_present p s.h_list h in
        let f = i.scored p old e in rw e (ground arith)

    known-key :
        (p : Vector2Int)
        → known (heuristic p dest) (lookup_at p s.h_list) ≡ true
        → has_key p s.parent ≡ true
    unfolding known
    known-key p h = elim (Bool-cases (has_key p s.h_list)) [
      | inl e ↦ i.keys p ∙ rw e (or_true (same start p))
      | inr e ↦ cc (rw (lookup_at_missing p s.h_list e) at h)
    ]
      where
        or_true : (b : Bool) → (b || true) ≡ true
        or_true true = refl
        or_true false = refl

    new_cell :
        (p : Vector2Int)
        → known (heuristic p dest) (lookup_at p s.h_list) ≡ false
        → contains_cell p s.close_list ≡ false
        → (has_key p s.h_list ≡ false) × (has_key p s.parent ≡ false)
    new_cell p h not_closed =
        let score = scored-known p in
        let key = i.keys p in
        let first = same_eq start p in
        let none_yet : has_key p s.h_list ≡ false = ground arith in
        (
          none_yet,
          key
              ∙ rw none_yet
                  (elim (Bool-cases (same start p)) [ inl e ↦ cc (first e) | inr e ↦ rw e refl ]),
        )

    abbrev pub Offered : Vector2Int → Vector2Int → Option Search → Type 0
    Offered c near r =
        ((r ≡ some s) × (Open near → has_key near s.parent ≡ true))
        ⊎ ((r ≡ some (grown s c near))
            × Open near
            × (has_key near s.h_list ≡ false)
            × (has_key near s.parent ≡ false))

    admit_lem :
        (c near : Vector2Int) (b : Bool)
        → enterable m dest through near ≡ some b
        → heuristic near dest ≤ range
        → known (heuristic near dest) (lookup_at near s.h_list) ≡ false
        → Offered c near (admit m dest through range s c near (some b))
    unfolding admit
    admit_lem c near false e close new = inl (refl, λ o. cc (o.1, e))
    admit_lem c near true e close new = elim (Bool-cases (contains_cell near s.close_list)) [
      | inl was ↦ inl (rw was refl, λ o. i.closed-key near was)
      | inr fresh ↦
          let (f, g) = new_cell near new fresh in
          inr (
            rw
                (
                  fresh,
                  insert_at_fresh near c s.parent g,
                  insert_at_fresh near (heuristic near dest) s.h_list f,
                )
                refl,
            (close, e),
            f,
            g,
          )
    ]

    -- What becomes of one direction.
    pub offer_cases :
        (c near : Vector2Int) (b : Bool)
        → enterable m dest through near ≡ some b
        → Offered c near (offer m dest through range s c near)
    unfolding offer
    offer_cases c near b e = elim (Bool-cases (ltb range (heuristic near dest))) [
      | inl far ↦ inl (rw far refl, λ o. absurd (omega (arith, o.0, ltb→lt _ _ far)))
      | inr close ↦ elim (Bool-cases (known (heuristic near dest) (lookup_at near s.h_list))) [
        | inl old ↦ inl (rw (close, old) refl, λ o. known-key near old)
        | inr new ↦
            let step : offer m dest through range s c near
                ≡ admit m dest through range s c near (some b) =
              rw (close, new, e) refl in
            subst (Offered c near) (sym step) (admit_lem c near b e (not_ltb→le _ _ close) new)
      ]
    ]

    grown-Grows :
        (c near : Vector2Int)
        → Open near
        → has_key near s.h_list ≡ false
        → has_key near s.parent ≡ false
        → has_key c s.parent ≡ true
        → Beside c near
        → Grows s (grown s c near)
    unfolding has_key lookup_at waits
    grown-Grows c near good f g here beside = record {
      inv = record {
        tree = branch i.tree g here beside good;
        scored = λ p h. ground (arith, i.scored p h, same_eq near p);
        keys = λ p. ground (arith, i.keys p);
        closed-key = λ p h. ground (arith, i.closed-key p);
        open-key = λ p h. ground (arith, i.open-key p);
        frontier = λ p h. ground (arith, i.frontier p);
      };
      kept = λ p h. ground arith;
      closed = refl;
      works = omega (arith, unseen-cons dest range near (heuristic near dest) s.h_list good.0 f);
    }

    offer_lem :
        (c near : Vector2Int) (b : Bool)
        → enterable m dest through near ≡ some b
        → has_key c s.parent ≡ true
        → Beside c near
        → (t : Search) × (offer m dest through range s c near ≡ some t)
          × Grows s t
          × (Open near → has_key near t.parent ≡ true)
    unfolding has_key
    offer_lem c near b e here beside = elim (offer_cases c near b e) [
      | inl (same_search, has) ↦ (
        s,
        same_search,
        record { inv = i; kept = λ p h. h; closed = refl; works = omega arith },
        has,
      )
      | inr (more, good, f, g) ↦ (
        grown s c near,
        more,
        grown-Grows c near good f g here beside,
        λ o. rw (same_refl near) refl,
      )
    ]

  pub enterable-defined :
      IsLoaded m → (p : Vector2Int) → (b : Bool) × (enterable m dest through p ≡ some b)
  unfolding enterable
  enterable-defined v p = elim (Bool-cases (same dest p)) [
    | inl e ↦ (true, rw e refl)
    | inr e ↦ elim (can_go_lem m p through v) [
      | inl (_, f) ↦ (false, rw (e, f) refl)
      | inr (wall, n, _, _, f) ↦ (not (wall || (not through && not (n == 0))), rw (e, f) refl)
    ]
  ]

  pub expand_lem :
      IsLoaded m
      → (c : Vector2Int) (dirs : List Vector2Int) (s : Search) → Inv s
      → contains_cell start s.close_list ≡ true
      → has_key c s.parent ≡ true
      → All (Beside c) (map (plus c) dirs)
      → (t : Search) × (expand m dest through range c dirs s ≡ some t)
        × Grows s t
        × ((q : Vector2Int) → Among q (map (plus c) dirs) → Open q → has_key q t.parent ≡ true)
  unfolding expand
  expand_lem v c [] s i begun here beside = (
    s,
    refl,
    record { inv = i; kept = λ p h. h; closed = refl; works = omega arith },
    λ q h. absurd h,
  )
  expand_lem v c (dir ∷ dirs) s i begun here (b, bs) =
      let (defined, e) = enterable-defined v (plus c dir) in
      let (t, step, grows, key) = offer_lem s i begun c (plus c dir) defined e here b in
      let (u, steps, grows', keys) =
        expand_lem v c dirs t grows.inv (rw grows.closed begun) (grows.kept c here) bs in
      (
        u,
        rw (step, expand) steps,
        record {
          inv = grows'.inv;
          kept = λ p h. grows'.kept p (grows.kept p h);
          closed = grows'.closed ∙ grows.closed;
          works = omega (arith, grows.works, grows'.works);
        },
        λ q among o. elim among [
          | inl e ↦ rw e (grows'.kept (plus c dir) (key (rw e at o)))
          | inr later ↦ keys q later o
        ],
      )
