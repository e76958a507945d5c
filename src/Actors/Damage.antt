-- ===== src/Actors/Damage.antt =====
-- `GameObject::OnDamaged` and `OnDead` of GameServer/GameObject.cpp. Healths, damages and defences
-- are never negative, so `max(0, a - b)` is the subtraction of natural numbers.
use mmo_server_cpp.Base.{
  ℕ, ◌+◌, ◌-◌, ◌≡◌, List, [], ◌∷◌, ◌++◌, Bool, true, ◌==◌, if◌then◌else◌, arith, ◌<◌, ◌≤◌, refl,
  length, ◌≢◌, ap, ◌∙◌,
}

-- What is broadcast around the object, in order; `died` comes with `OnDead`, where a monster gives
-- its reward.
pub data Event : Type 0 where
  damaged : Event
  hp_changed : ℕ → Event
  died : Event

pub record Fighter : Type 0 where
  pub hp : ℕ
  pub total_defence : ℕ
  pub in_room : Bool
  pub events : List Event

pub on_dead : Fighter → Fighter
on_dead f = if f.in_room then record f { events = f.events ++ (died ∷ []) } else f

pub on_damaged : Fighter → ℕ → Fighter
unfolding on_dead
on_damaged f damage =
    let final_damage = damage - f.total_defence in
    let hp = f.hp - final_damage in
    let hurt = record f { hp = hp; events = f.events ++ (damaged ∷ hp_changed hp ∷ []) } in
    if f.in_room then (if hp == 0 then on_dead hurt else hurt) else f

abbrev pub deaths : List Event → ℕ
deaths [] = 0
deaths (damaged ∷ es) = deaths es
deaths (hp_changed n ∷ es) = deaths es
deaths (died ∷ es) = 1 + deaths es

deaths-append : (es fs : List Event) → deaths (es ++ fs) ≡ deaths es + deaths fs
deaths-append [] fs = omega arith
deaths-append (damaged ∷ es) fs = deaths-append es fs
deaths-append (hp_changed n ∷ es) fs = deaths-append es fs
deaths-append (died ∷ es) fs = omega (arith, deaths-append es fs)

unfoldable pub on_damaged_all : Fighter → List ℕ → Fighter
on_damaged_all f [] = f
on_damaged_all f (damage ∷ ds) = on_damaged_all (on_damaged f damage) ds

-- What hits cost together, past the defence.
unfoldable pub cost : ℕ → List ℕ → ℕ
cost defence [] = 0
cost defence (damage ∷ ds) = (damage - defence) + cost defence ds

-- One hit in a room.
record Hit (f : Fighter) (damage : ℕ) (g : Fighter) : Type 0 where
  hp : g.hp ≡ f.hp - (damage - f.total_defence)
  deaths_lem :
      deaths g.events ≡ deaths f.events + (if f.hp - (damage - f.total_defence) == 0 then 1 else 0)
  stays : (g.in_room ≡ true) × (g.total_defence ≡ f.total_defence)

on_damaged-Hit : (f : Fighter) (damage : ℕ) → f.in_room ≡ true → Hit f damage (on_damaged f damage)
unfolding on_damaged
on_damaged-Hit f damage here =
    let hp = f.hp - (damage - f.total_defence) in
    let told = f.events ++ (damaged ∷ hp_changed hp ∷ []) in
    ground
      (arith, deaths-append f.events (damaged ∷ hp_changed hp ∷ []), deaths-append told (died ∷ []))

-- Hits that leave some health: nobody dies.
on_damaged_all_alive :
    (f : Fighter) (ds : List ℕ)
    → f.in_room ≡ true
    → cost f.total_defence ds < f.hp
    → let g = on_damaged_all f ds in
      (g.hp + cost f.total_defence ds ≡ f.hp)
      × (deaths g.events ≡ deaths f.events)
      × (g.in_room ≡ true)
      × (g.total_defence ≡ f.total_defence)
unfolding on_damaged_all cost
on_damaged_all_alive f [] here h = (omega arith, refl, here, refl)
on_damaged_all_alive f (damage ∷ ds) here h =
    let hit = on_damaged-Hit f damage here in
    let same = hit.stays.1 in
    let c : cost (on_damaged f damage).total_defence ds ≡ cost f.total_defence ds =
      ap (λ n. cost n ds) same in
    let some_left : f.hp - (damage - f.total_defence) ≢ 0 = omega arith in
    let ih = on_damaged_all_alive (on_damaged f damage) ds hit.stays.0 (omega (arith, hit.hp, c)) in
    let alive : deaths (on_damaged f damage).events ≡ deaths f.events =
      ground (arith, hit.deaths_lem, some_left) in
    (omega (arith, ih.0, hit.hp, c), ih.1 ∙ alive, ih.2, ih.3 ∙ same)

-- From a health of 0 on every hit is a death.
on_damaged_all_dead :
    (f : Fighter) (ds : List ℕ)
    → f.in_room ≡ true
    → f.hp ≡ 0
    → let g = on_damaged_all f ds in (g.hp ≡ 0) × (deaths g.events ≡ deaths f.events + length ds)
unfolding on_damaged_all
on_damaged_all_dead f [] here h = (h, omega arith)
on_damaged_all_dead f (damage ∷ ds) here h =
    let hit = on_damaged-Hit f damage here in
    let zero_hp : (on_damaged f damage).hp ≡ 0 = omega (arith, hit.hp, h) in
    let ih = on_damaged_all_dead (on_damaged f damage) ds hit.stays.0 zero_hp in
    let died_again : deaths (on_damaged f damage).events ≡ deaths f.events + 1 =
      ground (arith, hit.deaths_lem, h) in
    (ih.0, omega (arith, ih.1, died_again))

on_damaged_all-append :
    (f : Fighter) (ds es : List ℕ)
    → on_damaged_all f (ds ++ es) ≡ on_damaged_all (on_damaged_all f ds) es
unfolding on_damaged_all
on_damaged_all-append f [] es = refl
on_damaged_all-append f (d ∷ ds) es = on_damaged_all-append (on_damaged f d) ds es

-- Hits on an object in a room, split at the one whose damage, less the defence, takes what the hits
-- `before` have left of the health: before it each hit costs what exceeds the defence and nobody
-- dies; with it the health is 0 and stays 0, and it and every hit `after` it end in `OnDead`, so that
-- the object dies once more with each of them.
pub on_damaged_lem :
    (f : Fighter) (before : List ℕ) (damage : ℕ) (after : List ℕ)
    → f.in_room ≡ true
    → cost f.total_defence before < f.hp
    → f.hp ≤ cost f.total_defence before + (damage - f.total_defence)
    → ((on_damaged_all f before).hp + cost f.total_defence before ≡ f.hp)
      × (deaths (on_damaged_all f before).events ≡ deaths f.events)
      × ((on_damaged_all f (before ++ damage ∷ after)).hp ≡ 0)
      × (deaths (on_damaged_all f (before ++ damage ∷ after)).events
          ≡ deaths f.events + (1 + length after))
unfolding on_damaged_all
on_damaged_lem f before damage after here h k =
    let g = on_damaged_all f before in
    let (left, alive, still, same) = on_damaged_all_alive f before here h in
    let hit = on_damaged-Hit g damage still in
    let last : g.hp - (damage - g.total_defence) ≡ 0 = omega (arith, left, same, k) in
    let fatal : deaths (on_damaged g damage).events ≡ deaths g.events + 1 =
      ground (arith, hit.deaths_lem, last) in
    let (zero_hp, all) =
      on_damaged_all_dead (on_damaged g damage) after hit.stays.0 (hit.hp ∙ last) in
    let e = on_damaged_all-append f before (damage ∷ after) in
    (left, alive, rw e zero_hp, rw e (omega (arith, all, fatal, alive)))
