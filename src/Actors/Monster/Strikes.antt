-- ===== src/Actors/Monster/Strikes.antt =====
-- The pace of a monster through its whole life.
use mmo_server_cpp.Base.{
  ℕ, ◌≤◌, ◌≡◌, ◌≢◌, refl, ap, ◌∙◌, List, [], ◌∷◌, Option, none, some, true, ◌&&◌, leb, ◌==◌,
  if◌then◌else◌, arith, Bool-cases, inl, inr, ◌⊎◌,
}
use mmo_server_cpp.World.Vector.{minus}
use mmo_server_cpp.Actors.Facing.{MoveDir}
use mmo_server_cpp.Actors.Monster.{
  is_some, EntityState, idle, moving, skill, dead, Scene, Monster, turn, hit, can_use, update_skill,
  update_by, update, run,
}
use mmo_server_cpp.Actors.Monster.Laws.{IsAimed, update_by-IsAimed}
use mmo_server_cpp.Actors.Monster.Pace.{
  strikes, IsSpaced, IsCool, IsPaced, IsCool-later, Next-IsCool, quiet-IsPaced, update_idle-IsQuiet,
  update_moving-IsQuiet, turn-IsQuiet, hit-IsPaced, stop-IsQuiet,
}

-- While the skill tick is 0, the last strike has cooled down.
ready-IsCool :
    (m : Monster) (c : ℕ) → IsPaced m c → m.skill_tick ≡ 0 → IsCool m.cool_down c (strikes m.events)
ready-IsCool m c v e = elim v.rest [ inl k ↦ k | inr (q, waits, n) ↦ absurd (omega arith) ]

strike-IsPaced :
    (m : Monster) (s : Scene) (c : ℕ) (d : MoveDir)
    → m.state ≡ skill
    → c ≤ s.later
    → IsPaced m c
    → IsCool m.cool_down c (strikes m.events)
    → IsPaced (hit (turn m d) s m.target) s.later
strike-IsPaced m s c d e h v k =
    let (q, st) = turn-IsQuiet m d in
    hit-IsPaced (turn m d) s m.target c (st ∙ e) h
      (quiet-IsPaced m (turn m d) c c q (omega arith) v.spaced k)
      (rw (q.same_skill, q.same_strikes) k)

-- The skill has not cooled down yet, or does so now.
wait-IsPaced :
    (m : Monster) (s : Scene) (c : ℕ)
    → m.state ≡ skill
    → c ≤ s.now
    → s.now ≤ s.later
    → IsPaced m c
    → IsPaced (if leb m.skill_tick s.now then record m { skill_tick = 0 } else m) s.later
wait-IsPaced m s c e h k v = elim (Bool-cases (leb m.skill_tick s.now)) [
  | inl over ↦ rw over (record {
    spaced = v.spaced;
    rest = inl (elim v.rest [
      | inl cool ↦ IsCool-later m.cool_down c s.later _ (omega arith) cool
      | inr (q, waits, n) ↦ Next-IsCool m.cool_down m.skill_tick s.later _ (ground arith) n
    ]);
  })
  | inr still ↦ rw still (record {
    spaced = v.spaced;
    rest = elim v.rest [
      | inl cool ↦ inl (IsCool-later m.cool_down c s.later _ (omega arith) cool)
      | inr next ↦ inr next
    ];
  })
]

update_skill-IsPaced :
    (m : Monster) (s : Scene) (c : ℕ)
    → m.state ≡ skill
    → is_some m.target ≡ true
    → s.connected ≡ true
    → c ≤ s.now
    → s.now ≤ s.later
    → IsPaced m c
    → IsPaced (update_skill m s) s.later
unfolding update_skill
update_skill-IsPaced m s c e t up h k v =
    let late : c ≤ s.later = omega arith in
    let sees : (is_some m.target && s.connected) ≡ true = rw (t, up) refl in
    rw sees elim (Bool-cases (m.skill_tick == 0)) [
      | inr waits ↦ rw waits (wait-IsPaced m s c e h k v)
      | inl ready ↦
          let cool = ready-IsCool m c v (ground arith) in
          let stopped = quiet-IsPaced m _ c s.later (stop-IsQuiet m) late v.spaced cool in
          rw ready elim (Bool-cases s.same_room) [
            | inr gone ↦ rw gone stopped
            | inl here ↦ rw here elim (Bool-cases (can_use (minus s.target_pos m.cell_pos))) [
              | inr cannot ↦ rw cannot stopped
              | inl can ↦ rw can (strike-IsPaced m s c _ e late v cool)
            ]
          ]
    ]

-- Only in the state of its skill does a monster wait for it.
idle-IsCool :
    (m : Monster) (c : ℕ) → IsPaced m c → m.state ≢ skill → IsCool m.cool_down c (strikes m.events)
idle-IsCool m c v other = elim v.rest [ inl k ↦ k | inr next ↦ absurd (other next.0) ]

-- The target, where there is one, is connected, and the clock does not run backwards.
abbrev pub IsWatched : ℕ → List Scene → Type 0
IsWatched clock [] = Unit {0}
IsWatched clock (s ∷ ss) =
    (s.connected ≡ true) × (clock ≤ s.now) × (s.now ≤ s.later) × IsWatched s.later ss

update_by-IsPaced :
    (m : Monster) (s : Scene) (c : ℕ) (e : EntityState)
    → m.state ≡ e
    → IsAimed m
    → s.connected ≡ true
    → c ≤ s.now
    → s.now ≤ s.later
    → IsPaced m c
    → IsPaced (update_by m s e) s.later
unfolding update_by
update_by-IsPaced m s c idle e a up h k v =
    quiet-IsPaced m _ c s.later (update_idle-IsQuiet m s) (omega arith) v.spaced
      (idle-IsCool m c v (λ q. cc (e, q)))
update_by-IsPaced m s c moving e a up h k v =
    quiet-IsPaced m _ c s.later (update_moving-IsQuiet m s) (omega arith) v.spaced
      (idle-IsCool m c v (λ q. cc (e, q)))
update_by-IsPaced m s c skill e a up h k v =
    update_skill-IsPaced m s c e (some_target m.target a) up h k v
  where
    some_target :
        (o : Option ℕ) → (m.state ≡ idle) ⊎ (m.state ≡ dead) ⊎ (o ≢ none) → is_some o ≡ true
    some_target (some t) b = refl
    some_target none (inl q) = cc (e, q)
    some_target none (inr (inl q)) = cc (e, q)
    some_target none (inr (inr n)) = absurd (n refl)
update_by-IsPaced m s c dead e a up h k v =
    quiet-IsPaced m m c s.later (record { same_strikes = refl; same_skill = refl }) (omega arith)
      v.spaced (idle-IsCool m c v (λ q. cc (e, q)))

run-IsPaced :
    (m : Monster) (ss : List Scene) (c : ℕ)
    → IsAimed m
    → IsWatched c ss
    → IsPaced m c
    → IsSpaced (run m ss).cool_down (strikes (run m ss).events)
unfolding run update
run-IsPaced m [] c a w v = v.spaced
run-IsPaced m (s ∷ ss) c a w v =
    run-IsPaced (update m s) ss s.later (update_by-IsAimed m s m.state refl a) w.3
      (update_by-IsPaced m s c m.state refl a w.0 w.1 w.2 v)

-- As long as no target disconnects, any two strikes of a monster that has not struck yet lie at
-- least the cool-down of its skill apart, through all changes of its target and its state.
pub run-IsSpaced :
    (m : Monster) (ss : List Scene) (clock : ℕ)
    → IsAimed m
    → m.events ≡ []
    → IsWatched clock ss
    → IsSpaced (run m ss).cool_down (strikes (run m ss).events)
run-IsSpaced m ss clock a none_yet w =
    let k : strikes m.events ≡ [] = ap strikes none_yet in
    run-IsPaced m ss clock a w (record { spaced = rw k tt; rest = inl (rw k tt) })
