-- ===== src/Actors/Skill.antt =====
-- `Room::HandleSkillPacket` of GameServer/Room.cpp.
use mmo_server_cpp.Base.{
  ℕ, ◌≡◌, refl, ap, sym, ◌∙◌, List, [], ◌∷◌, Option, some, true, false, ◌>>=◌, ◌⊎◌, inl, inr, ◌≢◌,
}
use mmo_server_cpp.World.Vector.{Vector2Int}
use mmo_server_cpp.World.Map.{find}
use mmo_server_cpp.World.Map.Laws.{find-defined}
use mmo_server_cpp.World.Room.{Room}
use mmo_server_cpp.World.Room.Zones.{IsReady}
use mmo_server_cpp.Actors.Facing.{get_front_cell_position}
use mmo_server_cpp.Actors.Monster.{EntityState, idle, moving, skill, dead}
use mmo_server_cpp.Actors.Moves.{Mover}
use mmo_server_cpp.Actors.Arrow.{Arrow}
use mmo_server_cpp.Actors.Arrow.Flight.{front, HasFlown, HasStruck, arrow_update_lem}

pub data SkillType : Type 0 where
  skill_none : SkillType
  skill_auto : SkillType
  skill_projectile : SkillType

-- `SkillData`; `tick` is `1000 / projectile.speed`, a division of floats.
pub record SkillData : Type 0 where
  pub skill_type : SkillType
  pub tick : ℕ

-- What is broadcast, and the job of `Room::Enter`, in order.
pub data Event : Type 0 where
  s_skill : (skill_id : ℕ) (at : Vector2Int) → Event
  enter_job : Arrow → Event

-- The arrow that a player shoots; `new_id` is what the object manager gives it, `attack` what the
-- player hits with.
abbrev pub shot : Mover → SkillData → ℕ → ℕ → Arrow
shot p skill_data new_id attack = record {
  object = record { id = new_id; cell_pos = p.object.cell_pos; in_room = false };
  dir = p.dir;
  has_owner = true;
  has_data = true;
  tick = skill_data.tick;
  attack = attack;
}

-- The switch on the type of the skill. What stands in front of the player is looked up, but not hit.
unfoldable pub use_skill : Room → Mover → SkillData → ℕ → ℕ → SkillType → Option (List Event)
use_skill r p skill_data new_id attack skill_none = some []
use_skill r p skill_data new_id attack skill_auto = do
  target ← find r.map (get_front_cell_position p.object.cell_pos p.dir)
  some []
use_skill r p skill_data new_id attack skill_projectile =
    some (enter_job (shot p skill_data new_id attack) ∷ [])

-- `none` is undefined: a skill without a sheet dereferences `nullptr`.
unfoldable pub cast :
    Room → Mover → ℕ → Option SkillData → ℕ → ℕ → EntityState → Option (Mover × List Event)
cast r p skill_id sheet new_id attack idle = do
  skill_data ← sheet
  events ← use_skill r p skill_data new_id attack skill_data.skill_type
  some (record p { state = skill }, s_skill skill_id p.object.cell_pos ∷ events)
cast r p skill_id sheet new_id attack moving = some (p, [])
cast r p skill_id sheet new_id attack skill = some (p, [])
cast r p skill_id sheet new_id attack dead = some (p, [])

unfoldable pub handle_skill_packet :
    Room → Mover → ℕ → Option SkillData → ℕ → ℕ → Option (Mover × List Event)
handle_skill_packet r p skill_id sheet new_id attack = cast r p skill_id sheet new_id attack p.state

-- The arrow once its job of `Room::Enter` has run.
abbrev pub entered : Arrow → Arrow
entered a = record a { object = record a.object { in_room = true } }

-- An arrow of the player, outside of the room until its job runs; then its first update in the room
-- `later` takes it to the cell in front of the player, or hits what stands there as the player would.
pub record IsShot (p : Mover) (d : SkillData) (new_id attack : ℕ) (later : Room) (a : Arrow)
    : Type 0 where
  pub new : (a.object.id ≡ new_id) × (a.object.in_room ≡ false)
  pub from : a.object.cell_pos ≡ p.object.cell_pos
  pub towards : a.dir ≡ p.dir
  pub aimed : front (entered a) ≡ get_front_cell_position p.object.cell_pos p.dir
  pub strength : (a.attack ≡ attack) × (a.tick ≡ d.tick)
  pub first_update : HasFlown later (entered a) ⊎ HasStruck later (entered a)

-- What follows the broadcast of the skill: one arrow for a projectile, nothing for the others.
abbrev pub Follows : Mover → SkillData → ℕ → ℕ → Room → List Event → Type 0
Follows p d new_id attack later es =
    ((d.skill_type ≡ skill_projectile)
      × (a : Arrow) × (es ≡ enter_job a ∷ [])
      × IsShot p d new_id attack later a)
    ⊎ ((d.skill_type ≢ skill_projectile) × (es ≡ []))

-- An idle player uses the skill, a player in another state is left alone.
abbrev pub Answers : Mover → Mover → ℕ → SkillData → ℕ → ℕ → Room → List Event → Type 0
Answers p q skill_id d new_id attack later es =
    ((p.state ≡ idle)
      × (q.state ≡ skill)
      × (tail : List Event) × (es ≡ s_skill skill_id p.object.cell_pos ∷ tail)
      × Follows p d new_id attack later tail)
    ⊎ ((p.state ≢ idle) × (q.state ≡ p.state) × (es ≡ []))

-- A handled packet: what comes of it, and what every further skill packet does.
abbrev pub HasCast :
    Room → Mover → ℕ → SkillData → ℕ → ℕ → Room → Option (Mover × List Event) → Type 0
HasCast r p skill_id d new_id attack later handled =
    (q : Mover) × (es : List Event) × (handled ≡ some (q, es))
    × (q.object ≡ p.object)
    × (q.dir ≡ p.dir)
    × Answers p q skill_id d new_id attack later es
    × ((other_id other_new other_attack : ℕ) (sheet : Option SkillData)
        → handle_skill_packet r q other_id sheet other_new other_attack ≡ some (q, []))

shot-IsShot :
    (p : Mover) (d : SkillData) (new_id attack : ℕ) (later : Room)
    → IsReady later
    → IsShot p d new_id attack later (shot p d new_id attack)
shot-IsShot p d new_id attack later v = record {
  new = (refl, refl);
  from = refl;
  towards = refl;
  aimed = refl;
  strength = (refl, refl);
  first_update = elim (arrow_update_lem later (entered (shot p d new_id attack)) v) [
    | inl (off, e) ↦ cc off
    | inr (on, flight) ↦ flight
  ];
}

use_skill_lem :
    (r : Room) (p : Mover) (d : SkillData) (new_id attack : ℕ) (later : Room) (type : SkillType)
    → d.skill_type ≡ type
    → IsReady r
    → IsReady later
    → (es : List Event) × (use_skill r p d new_id attack type ≡ some es)
      × Follows p d new_id attack later es
unfolding use_skill
use_skill_lem r p d new_id attack later skill_none e v w = ([], refl, inr (λ h. cc (e, h), refl))
use_skill_lem r p d new_id attack later skill_auto e v w =
    let (n, found) =
      find-defined r.map (get_front_cell_position p.object.cell_pos p.dir) v.loaded in
    ([], rw found refl, inr (λ h. cc (e, h), refl))
use_skill_lem r p d new_id attack later skill_projectile e v w =
    (_, refl, inl (e, _, refl, shot-IsShot p d new_id attack later w))

-- A player in a state that refuses skills.
refused :
    (r : Room) (p : Mover) (skill_id : ℕ) (d : SkillData) (new_id attack : ℕ) (later : Room)
    (state : EntityState)
    → p.state ≡ state
    → state ≢ idle
    → ((a b c : ℕ) (sheet : Option SkillData) → cast r p a sheet b c state ≡ some (p, []))
    → HasCast r p skill_id d new_id attack later (cast r p skill_id (some d) new_id attack state)
unfolding handle_skill_packet
refused r p skill_id d new_id attack later state e other nothing = (
  p,
  [],
  nothing skill_id new_id attack (some d),
  refl,
  refl,
  inr (λ h. other (sym e ∙ h), refl, refl),
  λ a b c sheet. ap (cast r p a sheet b c) e ∙ nothing a b c sheet,
)

cast_lem :
    (r : Room) (p : Mover) (skill_id : ℕ) (d : SkillData) (new_id attack : ℕ) (later : Room)
    (state : EntityState)
    → p.state ≡ state
    → IsReady r
    → IsReady later
    → HasCast r p skill_id d new_id attack later (cast r p skill_id (some d) new_id attack state)
unfolding cast handle_skill_packet
cast_lem r p skill_id d new_id attack later idle e v w =
    let (tail, uses, follows) = use_skill_lem r p d new_id attack later d.skill_type refl v w in
    (
      record p { state = skill },
      s_skill skill_id p.object.cell_pos ∷ tail,
      rw uses refl,
      refl,
      refl,
      inl (e, refl, tail, refl, follows),
      λ a b c sheet. refl,
    )
cast_lem r p skill_id d new_id attack later moving e v w =
    refused r p skill_id d new_id attack later moving e (λ h. cc h) (λ a b c sheet. refl)
cast_lem r p skill_id d new_id attack later skill e v w =
    refused r p skill_id d new_id attack later skill e (λ h. cc h) (λ a b c sheet. refl)
cast_lem r p skill_id d new_id attack later dead e v w =
    refused r p skill_id d new_id attack later dead e (λ h. cc h) (λ a b c sheet. refl)

-- In a ready room a skill packet for a skill that has a sheet is handled. A player that is not idle
-- does nothing. An idle player is broadcast to use the skill and is in the state of a skill; if the
-- skill is a projectile, one arrow is to enter, from the player's cell and in its direction, whose
-- first update in a ready room takes it to the cell in front of the player, or hits what stands
-- there. The player stays where it stood, and further skill packets do nothing while its state
-- stays.
pub handle_skill_packet_lem :
    (r : Room) (p : Mover) (skill_id : ℕ) (d : SkillData) (new_id attack : ℕ) (later : Room)
    → IsReady r
    → IsReady later
    → HasCast r p skill_id d new_id attack later
        (handle_skill_packet r p skill_id (some d) new_id attack)
unfolding handle_skill_packet
handle_skill_packet_lem r p skill_id d new_id attack later v w =
    cast_lem r p skill_id d new_id attack later p.state refl v w
