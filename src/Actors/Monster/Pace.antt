-- ===== src/Actors/Monster/Pace.antt =====
-- A monster strikes no faster than its skill cools down.
use mmo_server_cpp.Base.{
  ℕ, ◌+◌, ◌≤◌, ◌<◌, ◌≡◌, refl, List, [], ◌∷◌, Option, none, some, arith, inl, inr, ◌⊎◌, dec_lt,
}
use mmo_server_cpp.World.Vector.{Vector2Int}
use mmo_server_cpp.Actors.Facing.{MoveDir}
use mmo_server_cpp.Actors.Monster.{
  skill, Scene, Event, state_broadcast, damages, skill_broadcast, Monster, stop_targeting, found,
  update_idle, follow, chase, update_moving, turn, hit,
}

-- When the monster struck, the last strike first.
abbrev pub strikes : List Event → List ℕ
strikes [] = []
strikes (state_broadcast ∷ es) = strikes es
strikes (damages t d time ∷ es) = time ∷ strikes es
strikes (skill_broadcast ∷ es) = strikes es

abbrev pub IsSpaced : ℕ → List ℕ → Type 0
IsSpaced cool_down [] = Unit {0}
IsSpaced cool_down (x ∷ []) = Unit {0}
IsSpaced cool_down (x ∷ y ∷ rest) = (y + cool_down ≤ x) × IsSpaced cool_down (y ∷ rest)

-- The last strike has cooled down at `clock`.
abbrev pub IsCool : ℕ → ℕ → List ℕ → Type 0
IsCool cool_down clock [] = Unit {0}
IsCool cool_down clock (x ∷ rest) = x + cool_down ≤ clock

abbrev pub Next : ℕ → ℕ → List ℕ → Type 0
Next cool_down tick [] = ⊥
Next cool_down tick (x ∷ rest) = x + cool_down ≡ tick

pub record IsPaced (m : Monster) (clock : ℕ) : Type 0 where
  pub spaced : IsSpaced m.cool_down (strikes m.events)
  pub rest :
      IsCool m.cool_down clock (strikes m.events)
      ⊎ ((m.state ≡ skill) × (0 < m.skill_tick) × Next m.cool_down m.skill_tick (strikes m.events))

pub IsCool-later : (cd c c' : ℕ) (ts : List ℕ) → c ≤ c' → IsCool cd c ts → IsCool cd c' ts
IsCool-later cd c c' [] h k = tt
IsCool-later cd c c' (x ∷ ts) h k = omega arith

IsSpaced-more :
    (cd c x : ℕ) (ts : List ℕ) → c ≤ x → IsCool cd c ts → IsSpaced cd ts → IsSpaced cd (x ∷ ts)
IsSpaced-more cd c x [] h k s = tt
IsSpaced-more cd c x (y ∷ ts) h k s = (omega arith, s)

pub Next-IsCool : (cd tick c : ℕ) (ts : List ℕ) → tick ≤ c → Next cd tick ts → IsCool cd c ts
Next-IsCool cd tick c [] h n = absurd n
Next-IsCool cd tick c (x ∷ ts) h n = omega arith

-- A step that strikes at nobody.
pub record IsQuiet (m n : Monster) : Type 0 where
  pub same_strikes : strikes n.events ≡ strikes m.events
  pub same_skill : n.cool_down ≡ m.cool_down

pub quiet-IsPaced :
    (m n : Monster) (c c' : ℕ)
    → IsQuiet m n
    → c ≤ c'
    → IsSpaced m.cool_down (strikes m.events)
    → IsCool m.cool_down c (strikes m.events)
    → IsPaced n c'
quiet-IsPaced m n c c' q h s k = record {
  spaced = rw (q.same_skill, q.same_strikes) s;
  rest = inl (rw (q.same_skill, q.same_strikes) (IsCool-later _ c c' _ h k));
}

found-IsQuiet : (m : Monster) (o : Option ℕ) → IsQuiet m (found m o)
unfolding found
found-IsQuiet m none = record { same_strikes = refl; same_skill = refl }
found-IsQuiet m (some t) = record { same_strikes = refl; same_skill = refl }

pub update_idle-IsQuiet : (m : Monster) (s : Scene) → IsQuiet m (update_idle m s)
unfolding update_idle
update_idle-IsQuiet m s =
    let f = found-IsQuiet (record m { search_tick = s.later + 1000 }) s.closest in ground arith

follow-IsQuiet : (m : Monster) (s : Scene) (path : List Vector2Int) → IsQuiet m (follow m s path)
unfolding follow stop_targeting
follow-IsQuiet m s [] = record { same_strikes = refl; same_skill = refl }
follow-IsQuiet m s (p ∷ ps) = ground arith

pub update_moving-IsQuiet : (m : Monster) (s : Scene) → IsQuiet m (update_moving m s)
unfolding update_moving chase stop_targeting
update_moving-IsQuiet m s =
    let f = follow-IsQuiet (record m { move_tick = s.later + m.move_delay }) s s.path in
    ground arith

pub turn-IsQuiet : (m : Monster) (d : MoveDir) → IsQuiet m (turn m d) × ((turn m d).state ≡ m.state)
unfolding turn
turn-IsQuiet m d = ground arith

pub hit-IsPaced :
    (m : Monster) (s : Scene) (o : Option ℕ) (c : ℕ)
    → m.state ≡ skill
    → c ≤ s.later
    → IsPaced m c
    → IsCool m.cool_down c (strikes m.events)
    → IsPaced (hit m s o) s.later
unfolding hit
hit-IsPaced m s none c e h v k =
    quiet-IsPaced m m c s.later (record { same_strikes = refl; same_skill = refl }) h v.spaced k
hit-IsPaced m s (some t) c e h v k = record {
  spaced = IsSpaced-more m.cool_down c s.later (strikes m.events) h k v.spaced;
  rest = elim (dec_lt 0 (s.later + m.cool_down)) [
    | yes waits ↦ inr (e, waits, refl)
    | no zero_ticks ↦ inl (omega arith)
  ];
}

pub stop-IsQuiet : (m : Monster) → IsQuiet m (stop_targeting m)
unfolding stop_targeting
stop-IsQuiet m = record { same_strikes = refl; same_skill = refl }
