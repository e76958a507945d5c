-- ===== src/Actors/Monster.antt =====
-- The state machine of GameServer/Monster.cpp. What a call of `Update` reads of the rest of the
-- server is a `Scene`: the clock, the target's session, room and cell, the player that
-- `FindClosestPlayer` returns, the path of `FindPath`, and whether `ApplyMove` succeeds.
pub mod Laws
pub mod Pace
pub mod Strikes
use mmo_server_cpp.Base.{
  ℕ, ◌+◌, List, [], ◌∷◌, Option, none, some, Bool, true, false, not, ◌&&◌, ◌||◌, ltb, leb, ◌==◌,
  if◌then◌else◌, length,
}
use mmo_server_cpp.Base.Int.{pos, ◌==ℤ◌}
use mmo_server_cpp.World.Vector.{Vector2Int, minus, simple_distance}
use mmo_server_cpp.Actors.Facing.{MoveDir, up, down, left, right, get_dir}

pub data EntityState : Type 0 where
  idle : EntityState
  moving : EntityState
  skill : EntityState
  dead : EntityState

-- `now` is read by the test of a tick, `later` where the next tick is set.
pub record Scene : Type 0 where
  pub now : ℕ
  pub later : ℕ
  pub connected : Bool
  pub same_room : Bool
  pub target_pos : Vector2Int
  pub closest : Option ℕ
  pub path : List Vector2Int
  pub moved : Bool

-- `damages` is the call of `OnDamaged` on the target, with the time at which the next skill is set.
pub data Event : Type 0 where
  state_broadcast : Event
  damages : (target damage time : ℕ) → Event
  skill_broadcast : Event

-- `move_delay` is `1000 / GetSpeed()`, `cool_down` that of the skill in milliseconds, `damage` the
-- attack and the skill's damage. The last event comes first.
pub record Monster : Type 0 where
  pub state : EntityState
  pub target : Option ℕ
  pub dir : MoveDir
  pub cell_pos : Vector2Int
  pub search_tick : ℕ
  pub move_tick : ℕ
  pub skill_tick : ℕ
  pub move_delay : ℕ
  pub cool_down : ℕ
  pub damage : ℕ
  pub events : List Event

abbrev pub chase_range : ℕ
chase_range = 20

abbrev pub skill_range : ℕ
skill_range = 1

-- `StopTargeting(); BroadcastState();`
pub stop_targeting : Monster → Monster
stop_targeting m = record m { state = idle; target = none; events = state_broadcast ∷ m.events }

found : Monster → Option ℕ → Monster
found m none = record m { target = none }
found m (some t) = record m { target = some t; state = moving }

pub update_idle : Monster → Scene → Monster
unfolding found
update_idle m s =
    if ltb s.now m.search_tick
    then m
    else found (record m { search_tick = s.later + 1000 }) s.closest

abbrev pub is_some : Option ℕ → Bool
is_some none = false
is_some (some t) = true

-- In a straight line and near enough for the skill.
abbrev pub can_use : Vector2Int → Bool
can_use diff = leb (simple_distance diff) skill_range && ((diff.x ==ℤ pos 0) || (diff.y ==ℤ pos 0))

-- The last part of `UpdateMoving`, on a path of cells.
follow : Monster → Scene → List Vector2Int → Monster
unfolding stop_targeting
follow m s [] = stop_targeting m
follow m s (p ∷ ps) =
    if ltb chase_range (length (p ∷ ps))
    then stop_targeting m
    else if can_use (minus s.target_pos m.cell_pos)
    then record m { skill_tick = 0; state = skill }
    else record m {
      dir = get_dir (minus p m.cell_pos);
      cell_pos = if s.moved then p else m.cell_pos;
      events = state_broadcast ∷ m.events;
    }

chase : Monster → Scene → Monster
unfolding stop_targeting follow
chase m s =
    let dist = simple_distance (minus s.target_pos m.cell_pos) in
    if not s.same_room
    then stop_targeting m
    else if (dist == 0) || ltb chase_range dist
    then stop_targeting m
    else follow m s s.path

pub update_moving : Monster → Scene → Monster
unfolding stop_targeting chase
update_moving m s =
    if not (is_some m.target && s.connected)
    then stop_targeting m
    else if ltb s.now m.move_tick
    then m
    else chase (record m { move_tick = s.later + m.move_delay }) s

abbrev pub same_dir : MoveDir → MoveDir → Bool
same_dir up up = true
same_dir down down = true
same_dir left left = true
same_dir right right = true
same_dir a b = false

pub turn : Monster → MoveDir → Monster
turn m d = if same_dir d m.dir then m else record m { dir = d; events = state_broadcast ∷ m.events }

pub hit : Monster → Scene → Option ℕ → Monster
hit m s none = m
hit m s (some t) = record m {
  events = skill_broadcast ∷ damages t m.damage s.later ∷ m.events;
  skill_tick = s.later + m.cool_down;
}

pub update_skill : Monster → Scene → Monster
unfolding stop_targeting turn hit
update_skill m s =
    let diff = minus s.target_pos m.cell_pos in
    if not (is_some m.target && s.connected)
    then stop_targeting m
    else if m.skill_tick == 0
    then (if not s.same_room
        then stop_targeting m
        else if not (can_use diff)
        then stop_targeting m
        else hit (turn m (get_dir diff)) s m.target)
    else if leb m.skill_tick s.now
    then record m { skill_tick = 0 }
    else m

pub update_by : Monster → Scene → EntityState → Monster
unfolding update_idle update_moving update_skill
update_by m s idle = update_idle m s
update_by m s moving = update_moving m s
update_by m s skill = update_skill m s
update_by m s dead = m

-- One call of `Update` in a room; the timer calls it again after 200 ms.
pub update : Monster → Scene → Monster
unfolding update_by
update m s = update_by m s m.state

-- Calls of `Update`, one after another.
unfoldable pub run : Monster → List Scene → Monster
unfolding update
run m [] = m
run m (s ∷ ss) = run (update m s) ss
