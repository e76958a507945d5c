-- ===== src/Actors/Monster/Laws.antt =====
-- A monster that chases or strikes has a target, and strikes no faster than its skill cools down.
use mmo_server_cpp.Base.{
  ℕ, ◌+◌, ◌≡◌, ◌≢◌, refl, List, [], ◌∷◌, Option, none, some, true, ◌&&◌, ltb, length, arith,
  Bool-cases, inl, inr, ◌⊎◌,
}
use mmo_server_cpp.World.Vector.{Vector2Int, minus}
use mmo_server_cpp.Actors.Facing.{MoveDir, get_dir}
use mmo_server_cpp.Actors.Monster.{
  is_some, chase_range, EntityState, idle, moving, skill, dead, Scene, Monster, stop_targeting,
  found, update_idle, follow, chase, update_moving, turn, hit, can_use, update_skill, update_by,
  update, run,
}

-- A monster that moves or uses its skill has a target.
abbrev pub IsAimed : Monster → Type 0
IsAimed m = (m.state ≡ idle) ⊎ (m.state ≡ dead) ⊎ (m.target ≢ none)

found-IsAimed : (m : Monster) (o : Option ℕ) → m.state ≡ idle → IsAimed (found m o)
unfolding found
found-IsAimed m none e = inl e
found-IsAimed m (some t) e = inr (inr cc)

update_idle-IsAimed : (m : Monster) (s : Scene) → m.state ≡ idle → IsAimed (update_idle m s)
unfolding update_idle
update_idle-IsAimed m s e = elim (Bool-cases (ltb s.now m.search_tick)) [
  | inl early ↦ rw early (inl e)
  | inr search ↦ rw search (found-IsAimed (record m { search_tick = s.later + 1000 }) s.closest e)
]

aimed : (o : Option ℕ) → is_some o ≡ true → o ≢ none
aimed none h = cc
aimed (some t) h = cc

follow-IsAimed :
    (m : Monster) (s : Scene) (path : List Vector2Int) → m.target ≢ none → IsAimed (follow m s path)
unfolding follow stop_targeting
follow-IsAimed m s [] v = inl refl
follow-IsAimed m s (p ∷ ps) v = elim (Bool-cases (ltb chase_range (length (p ∷ ps)))) [
  | inl far ↦ rw far (inl refl)
  | inr near ↦ elim (Bool-cases (can_use (minus s.target_pos m.cell_pos))) [
    | inl can ↦ rw (near, can) (inr (inr v))
    | inr cannot ↦ rw (near, cannot) (inr (inr v))
  ]
]

chase-IsAimed : (m : Monster) (s : Scene) → m.target ≢ none → IsAimed (chase m s)
unfolding chase stop_targeting
chase-IsAimed m s v = let f = follow-IsAimed m s s.path v in ground arith

update_moving-IsAimed : (m : Monster) (s : Scene) → IsAimed m → IsAimed (update_moving m s)
unfolding update_moving stop_targeting
update_moving-IsAimed m s v = elim (Bool-cases (is_some m.target && s.connected)) [
  | inr lost ↦ rw lost (inl refl)
  | inl sees ↦
      let t : m.target ≢ none = aimed m.target (ground arith) in
      let f = chase-IsAimed (record m { move_tick = s.later + m.move_delay }) s t in
      rw sees
        elim (Bool-cases (ltb s.now m.move_tick)) [ inl early ↦ rw early v | inr due ↦ rw due f ]
]

hit-IsAimed : (m : Monster) (s : Scene) (o : Option ℕ) → IsAimed m → IsAimed (hit m s o)
unfolding hit
hit-IsAimed m s none v = v
hit-IsAimed m s (some t) v = v

turn-IsAimed : (m : Monster) (d : MoveDir) → IsAimed m → IsAimed (turn m d)
unfolding turn
turn-IsAimed m d v = ground arith

update_skill-IsAimed : (m : Monster) (s : Scene) → IsAimed m → IsAimed (update_skill m s)
unfolding update_skill stop_targeting
update_skill-IsAimed m s v =
    let d = get_dir (minus s.target_pos m.cell_pos) in
    let h = hit-IsAimed (turn m d) s m.target (turn-IsAimed m d v) in ground arith

pub update_by-IsAimed :
    (m : Monster) (s : Scene) (e : EntityState)
    → m.state ≡ e
    → IsAimed m
    → IsAimed (update_by m s e)
unfolding update_by
update_by-IsAimed m s idle e v = update_idle-IsAimed m s e
update_by-IsAimed m s moving e v = update_moving-IsAimed m s v
update_by-IsAimed m s skill e v = update_skill-IsAimed m s v
update_by-IsAimed m s dead e v = v

-- Whatever happens around it, a monster that starts without a target or with one never moves and
-- never uses its skill without a target.
pub run-IsAimed : (m : Monster) (ss : List Scene) → IsAimed m → IsAimed (run m ss)
unfolding run update
run-IsAimed m [] v = v
run-IsAimed m (s ∷ ss) v = run-IsAimed (update m s) ss (update_by-IsAimed m s m.state refl v)
