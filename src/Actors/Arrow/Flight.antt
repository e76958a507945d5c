-- ===== src/Actors/Arrow/Flight.antt =====
-- One update of an arrow in a ready room.
use mmo_server_cpp.Base.{
  ℕ, ◌≡◌, refl, ◌⊎◌, inl, inr, [], ◌∷◌, some, Bool, true, false, ◌&&◌, ◌==◌, if◌then◌else◌,
  Bool-cases,
}
use mmo_server_cpp.World.Vector.{Vector2Int}
use mmo_server_cpp.World.Map.{is_within_bounds, find}
use mmo_server_cpp.World.Map.Laws.{find-defined}
use mmo_server_cpp.World.Room.{Room, apply_move}
use mmo_server_cpp.World.Room.Zones.{IsReady}
use mmo_server_cpp.World.Room.Laws.{HasMoved, apply_move_cases}
use mmo_server_cpp.Actors.Facing.{get_front_cell_position}
use mmo_server_cpp.Actors.Arrow.{Arrow, timer, s_move, damaged, leave, strike, flown, arrow_update}

-- The cell in front of the arrow.
abbrev pub front : Arrow → Vector2Int
front a = get_front_cell_position a.object.cell_pos a.dir

abbrev pub is_armed : Arrow → Bool
is_armed a = a.has_owner && a.object.in_room && a.has_data

-- The arrow flies one cell on.
pub record HasFlown (r : Room) (a : Arrow) : Type 0 where
  pub r' : Room
  pub updates :
      arrow_update r a
      ≡ some (
        r',
        record a { object = record a.object { cell_pos = front a } },
        timer a.tick ∷ s_move (front a) ∷ [],
      )
  pub from : is_within_bounds r.map a.object.cell_pos ≡ true
  pub to : is_within_bounds r.map (front a) ≡ true
  pub moved : HasMoved r a.object (front a) r'

-- The arrow is stopped: what `Find` finds in front of it is hit, and it asks to leave.
pub record HasStruck (r : Room) (a : Arrow) : Type 0 where
  pub target : ℕ
  pub blocked : apply_move r a.object (front a) false true ≡ some (r, a.object, false)
  pub found : find r.map (front a) ≡ some target
  pub updates :
      arrow_update r a
      ≡ some (
        r,
        a,
        if target == 0
            then timer a.tick ∷ leave a.object.id ∷ []
            else timer a.tick ∷ damaged target a.attack ∷ leave a.object.id ∷ [],
      )

-- In a ready room an update of an arrow is defined. Without an owner, a room or data it does
-- nothing; otherwise the next update is set, and the arrow flies one cell on, which is broadcast,
-- or is stopped, hits what stands in front of it, and asks to leave.
pub arrow_update_lem :
    (r : Room) (a : Arrow)
    → IsReady r
    → ((is_armed a ≡ false) × (arrow_update r a ≡ some (r, a, [])))
      ⊎ ((is_armed a ≡ true) × (HasFlown r a ⊎ HasStruck r a))
unfolding arrow_update flown strike
arrow_update_lem r a v = elim (Bool-cases (is_armed a)) [
  | inr off ↦ inl (off, rw off refl)
  | inl on ↦ elim (apply_move_cases r a.object (front a) false v) [
    | inr (r', e, from, to, moved) ↦ inr (
      on,
      inl (record { r' = r'; updates = rw (on, e) refl; from = from; to = to; moved = moved }),
    )
    | inl blocked ↦
        let (target, found) = find-defined r.map (front a) v.loaded in
        inr (
          on,
          inr (record {
            target = target;
            blocked = blocked;
            found = found;
            updates = rw (on, blocked, found) refl;
          }),
        )
  ]
]
