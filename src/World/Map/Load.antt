-- ===== src/World/Map/Load.antt =====
-- `LoadMap` of GameServer/Map.cpp reads a wall or none for every cell.
use mmo_server_cpp.Base.{
  ℕ, zero, suc, ◌<◌, ◌≡◌, refl, some, false, get_elem?, arith, List, [], ◌∷◌, Bool, none,
  Option-cases, ◌>>=◌, inl, inr, subst, ◌==◌,
}
use mmo_server_cpp.Base.Int.{pos}
use mmo_server_cpp.World.Grid.{cell}
use mmo_server_cpp.World.Map.{read_walls, read_lines}

abbrev IsRead : List Bool → ℕ → Type 0
IsRead row j = (b : Bool) × (get_elem? row j ≡ some b)

IsRead-cons :
    (x : Bool) (row : List Bool) (n j : ℕ)
    → ((k : ℕ) → k < n → IsRead row k)
    → j < suc n
    → IsRead (x ∷ row) j
IsRead-cons x row n zero all h = (x, refl)
IsRead-cons x row n (suc j) all h = all j (omega arith)

read_walls-IsRead :
    (n : ℕ) (line : List ℕ) (row : List Bool)
    → read_walls n line ≡ some row
    → (j : ℕ) → j < n
    → IsRead row j
unfolding read_walls
read_walls-IsRead zero line row e j h = absurd (omega arith)
read_walls-IsRead (suc zero) [] row e j h =
    let q : false ∷ [] ≡ row = cc e in
    subst (λ r. IsRead r j) q (IsRead-cons false [] 0 j (λ k l. absurd (omega arith)) h)
read_walls-IsRead (suc (suc n)) [] row e j h = absurd (cc e)
read_walls-IsRead (suc n) (c ∷ line) row e j h = elim (Option-cases (read_walls n line)) [
  | inl bad ↦ let q : none ≡ some row = ground (arith, bad, e) in absurd (cc q)
  | inr (rest, good) ↦
      let q : (c == 49) ∷ rest ≡ row = ground (arith, good, e) in
      subst (λ r. IsRead r j) q
        (IsRead-cons (c == 49) rest n j (λ k l. read_walls-IsRead n line rest good k l) h)
]

-- Every cell of the walls has been read.
abbrev pub HasCell : List (List Bool) → ℕ → ℕ → Type 0
HasCell walls j i = (b : Bool) × (cell walls (record { x = pos j; y = pos i }) ≡ some b)

HasCell-cons :
    (row : List Bool) (walls : List (List Bool)) (n j i : ℕ)
    → IsRead row j
    → ((k : ℕ) → k < n → HasCell walls j k)
    → i < suc n
    → HasCell (row ∷ walls) j i
unfolding cell
HasCell-cons row walls n j zero first all h = first
HasCell-cons row walls n j (suc i) first all h = all i (omega arith)

-- A read line, and the walls of the lines behind it.
record Rows (n size_x : ℕ) (line : List ℕ) (lines : List (List ℕ)) (walls : List (List Bool))
    : Type 0 where
  row : List Bool
  rest : List (List Bool)
  parts : row ∷ rest ≡ walls
  read : read_walls size_x line ≡ some row
  behind : read_lines n (pos size_x) lines ≡ some rest

line_read :
    (n size_x : ℕ) (line : List ℕ) (lines : List (List ℕ)) (walls : List (List Bool))
    → (read_walls size_x line >>= λ row.
        read_lines n (pos size_x) lines >>= λ rest. some (row ∷ rest))
      ≡ some walls
    → Rows n size_x line lines walls
line_read n size_x line lines walls e = elim (Option-cases (read_walls size_x line)) [
  | inl bad ↦ let q : none ≡ some walls = ground (arith, bad, e) in absurd (cc q)
  | inr (row, good) ↦ elim (Option-cases (read_lines n (pos size_x) lines)) [
    | inl bad ↦ let q : none ≡ some walls = ground (arith, good, bad, e) in absurd (cc q)
    | inr (rest, fine) ↦ record {
      row = row;
      rest = rest;
      parts = ground (arith, good, fine, e);
      read = good;
      behind = fine;
    }
  ]
]

pub read_lines-HasCell :
    (n size_x : ℕ) (lines : List (List ℕ)) (walls : List (List Bool))
    → read_lines n (pos size_x) lines ≡ some walls
    → (j i : ℕ) → j < size_x
    → i < n
    → HasCell walls j i
unfolding read_lines
read_lines-HasCell zero size_x lines walls e j i hj hi = absurd (omega arith)
read_lines-HasCell (suc n) size_x [] walls e j i hj hi =
    let s = line_read n size_x [] [] walls e in
    subst (λ w. HasCell w j i) s.parts
      (HasCell-cons s.row s.rest n j i (read_walls-IsRead size_x [] s.row s.read j hj)
        (λ k l. read_lines-HasCell n size_x [] s.rest s.behind j k hj l) hi)
read_lines-HasCell (suc n) size_x (line ∷ lines) walls e j i hj hi =
    let s = line_read n size_x line lines walls e in
    subst (λ w. HasCell w j i) s.parts
      (HasCell-cons s.row s.rest n j i (read_walls-IsRead size_x line s.row s.read j hj)
        (λ k l. read_lines-HasCell n size_x lines s.rest s.behind j k hj l) hi)
