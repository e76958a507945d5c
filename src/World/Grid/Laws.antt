-- ===== src/World/Grid/Laws.antt =====
-- Reading after writing, and where a write is defined.
use mmo_server_cpp.Base.{
  ℕ, zero, suc, ◌<◌, ◌≡◌, ◌≢◌, refl, ap, ◌∙◌, List, [], ◌∷◌, Option, none, some, ltb, lt→ltb,
  ltb→lt, ==_refl, if◌then◌else◌, length, get_elem?, set, arith, Option-cases, Bool-cases, inl, inr,
  length-set, map, ◌==◌, get_elem?-set_self, get_elem?-set_ne,
}
use mmo_server_cpp.Base.Int.{ℤ, pos, negsuc, ◌==ℤ◌, eq_of_parts}
use mmo_server_cpp.World.Vector.{Vector2Int, ◌==ᵥ◌}
use mmo_server_cpp.World.Grid.{at_int, in_row, cell, set_int, set_in, put, write}

module _ {ℓ} {A : Type ℓ} where
  pub get_elem?-lt : (xs : List A) (n : ℕ) → n < length xs → (a : A) × (get_elem? xs n ≡ some a)
  get_elem?-lt [] n h = absurd (omega arith)
  get_elem?-lt (x ∷ xs) zero h = (x, refl)
  get_elem?-lt (x ∷ xs) (suc n) h = get_elem?-lt xs n (omega arith)

  pub at_int-set_int :
      (xs : List A) (i j : ℤ) (v : A) {ys : List A}
      → set_int xs i v ≡ some ys
      → at_int ys j ≡ (if i ==ℤ j then some v else at_int xs j)
  at_int-set_int xs (negsuc n) j v e = cc
  at_int-set_int xs (pos n) (negsuc m) v e = ground arith
  at_int-set_int xs (pos n) (pos m) v {ys} e = elim (Bool-cases (ltb n (length xs))) [
    | inr out ↦ cc (rw out at e)
    | inl fits ↦
        let e' : some (set xs n v) ≡ some ys = rw fits at e in
        let f : ys ≡ set xs n v = cc in
        elim (Bool-cases (n == m)) [
          | inl same ↦
              let k : n ≡ m = ground arith in
              let here = get_elem?-set_self xs n v (ltb→lt n (length xs) fits) in
              rw (f, ← k, here, ==_refl) refl
          | inr other ↦
              let k : n ≢ m = ground arith in rw (f, get_elem?-set_ne xs v k) (ground arith)
        ]
  ]

  pub set_int-defined :
      (xs : List A) (i : ℤ) (v : A) {a : A}
      → at_int xs i ≡ some a
      → (ys : List A) × (set_int xs i v ≡ some ys) × (length ys ≡ length xs)
  set_int-defined xs (negsuc n) v e = cc
  set_int-defined xs (pos n) v {a} e =
      let h : n < length xs = bounded xs n e in
      (set xs n v, rw (lt→ltb n (length xs) h) refl, length-set xs n v)
    where
      bounded : (xs : List A) (n : ℕ) → get_elem? xs n ≡ some a → n < length xs
      bounded [] n e = cc
      bounded (x ∷ xs) zero e = omega arith
      bounded (x ∷ xs) (suc n) e = omega (arith, bounded xs n e)

module _ {ℓ} {A : Type ℓ} where
  -- A write is read back at its place, and nowhere else.
  pub cell-write :
      (rows : List (List A)) (p q : Vector2Int) (v : A) {rows' : List (List A)}
      → write rows p v ≡ some rows'
      → cell rows' q ≡ (if p ==ᵥ q then some v else cell rows q)
  unfolding cell write
  cell-write rows p q v e = go (at_int rows p.y) refl e
    where
      inner :
          (row new : List A) {rows' : List (List A)}
          → at_int rows p.y ≡ some row
          → set_int row p.x v ≡ some new
          → set_int rows p.y new ≡ some rows'
          → in_row (at_int rows' q.y) q.x
            ≡ (if p ==ᵥ q then some v else in_row (at_int rows q.y) q.x)
      inner row new {rows'} here s e = elim (Bool-cases (p.y ==ℤ q.y)) [
        | inr other ↦ rw (at_int-set_int rows p.y q.y new e, other) (ground arith)
        | inl same ↦
            let k : p.y ≡ q.y = ground (arith, eq_of_parts p.y q.y) in
            let here' : at_int rows q.y ≡ some row = rw k at here in
            rw (at_int-set_int rows p.y q.y new e, same, here')
              (at_int-set_int row p.x q.x v s ∙ ground arith)
      ]

      go :
          (o : Option (List A)) {rows' : List (List A)}
          → at_int rows p.y ≡ o
          → put rows p.y (set_in o p.x v) ≡ some rows'
          → in_row (at_int rows' q.y) q.x
            ≡ (if p ==ᵥ q then some v else in_row (at_int rows q.y) q.x)
      go none here e = cc
      go (some row) here e = elim (Option-cases (set_int row p.x v)) [
        | inl bad ↦ cc (rw bad at e)
        | inr (new, s) ↦ inner row new here s (rw s at e)
      ]

  pub write-defined :
      (rows : List (List A)) (p : Vector2Int) (v : A) {a : A}
      → cell rows p ≡ some a
      → (rows' : List (List A)) × (write rows p v ≡ some rows')
  unfolding cell write
  write-defined rows p v e = go (at_int rows p.y) refl e
    where
      go :
          (o : Option (List A)) {a : A}
          → at_int rows p.y ≡ o
          → in_row o p.x ≡ some a
          → (rows' : List (List A)) × (put rows p.y (set_in o p.x v) ≡ some rows')
      go none here e = cc
      go (some row) here e =
          let (new, s, n) = set_int-defined row p.x v e in
          let (rows', t, m) = set_int-defined rows p.y new here in (rows', rw s t)

module _ {ℓ} {A : Type ℓ} where
  set-shape :
      (rows : List (List A)) (n : ℕ) (row new : List A)
      → get_elem? rows n ≡ some row
      → length new ≡ length row
      → map length (set rows n new) ≡ map length rows
  set-shape [] n row new e h = cc
  set-shape (x ∷ xs) zero row new e h = cc
  set-shape (x ∷ xs) (suc n) row new e h = ap (◌∷◌ (length x)) (set-shape xs n row new e h)

  length-set_int :
      (xs : List A) (i : ℤ) (v : A) {ys : List A} → set_int xs i v ≡ some ys → length ys ≡ length xs
  length-set_int xs (negsuc n) v e = cc
  length-set_int xs (pos n) v e = elim (Bool-cases (ltb n (length xs))) [
    | inr out ↦ cc (rw out at e)
    | inl fits ↦ cc (rw fits at e, length-set xs n v)
  ]

  set_int-shape :
      (rows : List (List A)) (i : ℤ) (row new : List A) {rows' : List (List A)}
      → at_int rows i ≡ some row
      → length new ≡ length row
      → set_int rows i new ≡ some rows'
      → map length rows' ≡ map length rows
  set_int-shape rows (negsuc n) row new here h e = cc
  set_int-shape rows (pos n) row new here h e = elim (Bool-cases (ltb n (length rows))) [
    | inr out ↦ cc (rw out at e)
    | inl fits ↦ cc (rw fits at e, set-shape rows n row new here h)
  ]

  -- A write keeps the number of rows and their lengths.
  pub write-shape :
      (rows : List (List A)) (p : Vector2Int) (v : A) {rows' : List (List A)}
      → write rows p v ≡ some rows'
      → map length rows' ≡ map length rows
  unfolding write
  write-shape rows p v e = go (at_int rows p.y) refl e
    where
      go :
          (o : Option (List A)) {rows' : List (List A)}
          → at_int rows p.y ≡ o
          → put rows p.y (set_in o p.x v) ≡ some rows'
          → map length rows' ≡ map length rows
      go none here e = cc
      go (some row) here e = elim (Option-cases (set_int row p.x v)) [
        | inl bad ↦ cc (rw bad at e)
        | inr (new, s) ↦
            set_int-shape rows p.y row new here (length-set_int row p.x v s) (rw s at e)
      ]
