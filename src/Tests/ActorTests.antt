-- ===== src/Tests/ActorTests.antt =====
-- Tests of directions, of damage and of a monster.
use mmo_server_cpp.Base.{ℕ, ◌+◌, ◌≡◌, refl, inl, List, [], ◌∷◌, none, some, true, arith}
use mmo_server_cpp.Base.Int.{pos, ◌-ℤ◌}
use mmo_server_cpp.World.Vector.{Vector2Int}
use mmo_server_cpp.Actors.Facing.{down, get_dir}
use mmo_server_cpp.Actors.Damage.{Fighter, on_damaged_all, cost, on_damaged_lem, deaths}
use mmo_server_cpp.Actors.Monster.{Monster, Scene, idle, run}
use mmo_server_cpp.Actors.Monster.Laws.{IsAimed, run-IsAimed}
use mmo_server_cpp.Actors.Monster.Pace.{strikes, IsSpaced}
use mmo_server_cpp.Actors.Monster.Strikes.{run-IsSpaced}

abbrev at : ℕ → ℕ → Vector2Int
at x y = record { x = pos x; y = pos y }

abbrev fighter : Fighter
fighter = record { hp = 20; total_defence = 2; in_room = true; events = [] }

-- The second hit is fatal; the third finds the fighter dead.
on_damaged_lem_example :
    ((on_damaged_all fighter (10 ∷ [])).hp + 8 ≡ 20)
    × (deaths (on_damaged_all fighter (10 ∷ [])).events ≡ 0)
    × ((on_damaged_all fighter (10 ∷ 16 ∷ 5 ∷ [])).hp ≡ 0)
    × (deaths (on_damaged_all fighter (10 ∷ 16 ∷ 5 ∷ [])).events ≡ 2)
unfolding cost
on_damaged_lem_example =
    on_damaged_lem fighter (10 ∷ []) 16 (5 ∷ []) refl (omega arith) (omega arith)

abbrev goblin : Monster
goblin = record {
  state = idle;
  target = none;
  dir = down;
  cell_pos = at 0 0;
  search_tick = 0;
  move_tick = 0;
  skill_tick = 0;
  move_delay = 200;
  cool_down = 1000;
  damage = 12;
  events = [];
}

-- A player stands next to the goblin at the time `t`.
abbrev scene : ℕ → Scene
scene t = record {
  now = t;
  later = t + 1;
  connected = true;
  same_room = true;
  target_pos = at 1 0;
  closest = some 5;
  path = at 1 0 ∷ [];
  moved = true;
}

abbrev life : List Scene
life = scene 100 ∷ scene 300 ∷ scene 500 ∷ scene 700 ∷ scene 1600 ∷ scene 1800 ∷ []

goblin-strikes : strikes (run goblin life).events ≡ 1801 ∷ 501 ∷ []
unfolding run get_dir ◌-ℤ◌
goblin-strikes = refl

run-IsAimed_example : IsAimed (run goblin life)
run-IsAimed_example = run-IsAimed goblin life (inl refl)

run-IsSpaced_example : IsSpaced (run goblin life).cool_down (strikes (run goblin life).events)
run-IsSpaced_example = run-IsSpaced goblin life 0 (inl refl) refl (ground arith)
