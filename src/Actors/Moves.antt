-- ===== src/Actors/Moves.antt =====
-- `Room::HandleMovePacket` of GameServer/Room.cpp.
use mmo_server_cpp.Base.{
  ◌≡◌, refl, ◌∙◌, Option, none, some, Bool, true, false, if◌then◌else◌, inl, inr, ◌⊎◌,
}
use mmo_server_cpp.World.Vector.{Vector2Int, ◌==ᵥ◌}
use mmo_server_cpp.World.Map.{is_within_bounds, can_go}
use mmo_server_cpp.World.Map.Laws.{can_go_lem}
use mmo_server_cpp.World.Room.{Room, Object, Moved, apply_move}
use mmo_server_cpp.World.Room.Zones.{IsReady}
use mmo_server_cpp.World.Room.Laws.{HasMoved, apply_move_lem, apply_move_blocked}
use mmo_server_cpp.Actors.Facing.{MoveDir}
use mmo_server_cpp.Actors.Monster.{EntityState}

-- A player as far as the packet is concerned.
pub record Mover : Type 0 where
  pub object : Object
  pub state : EntityState
  pub dir : MoveDir

-- The `PositionInfo` of the packet.
pub record MovePacket : Type 0 where
  pub cell_pos : Vector2Int
  pub state : EntityState
  pub dir : MoveDir

-- The room, the player, and whether the move is broadcast; `none` is undefined.
abbrev pub Handled : Type 0
Handled = Option (Room × Mover × Bool)

moved_to : Mover → MovePacket → Moved → Handled
moved_to p packet none = none
moved_to p packet (some (r, o, b)) =
    some (r, record { object = o; state = packet.state; dir = packet.dir }, true)

apply_packet : Room → Mover → MovePacket → Handled
unfolding moved_to
apply_packet r p packet = moved_to p packet (apply_move r p.object packet.cell_pos false true)

check_packet : Room → Mover → MovePacket → Option Bool → Handled
unfolding apply_packet
check_packet r p packet none = none
check_packet r p packet (some false) = some (r, p, false)
check_packet r p packet (some true) = apply_packet r p packet

pub handle_move_packet : Room → Mover → MovePacket → Handled
unfolding apply_packet check_packet
handle_move_packet r p packet =
    if p.object.cell_pos ==ᵥ packet.cell_pos
    then apply_packet r p packet
    else check_packet r p packet (can_go r.map packet.cell_pos false)

-- The player with the state and the direction of the packet, on the cell `pos`.
abbrev pub updated : Mover → MovePacket → Vector2Int → Mover
updated p packet pos = record {
  object = record p.object { cell_pos = pos };
  state = packet.state;
  dir = packet.dir;
}

apply_packet_free :
    (r : Room) (p : Mover) (packet : MovePacket)
    → IsReady r
    → p.object.in_room ≡ true
    → is_within_bounds r.map p.object.cell_pos ≡ true
    → can_go r.map packet.cell_pos false ≡ some true
    → (r' : Room) × (apply_packet r p packet ≡ some (r', updated p packet packet.cell_pos, true))
      × HasMoved r p.object packet.cell_pos r'
unfolding apply_packet moved_to
apply_packet_free r p packet v here from free =
    let (r', e, moved) = apply_move_lem r p.object packet.cell_pos false v here from free in
    (r', rw e refl, moved)

apply_packet_blocked :
    (r : Room) (p : Mover) (packet : MovePacket)
    → p.object.in_room ≡ true
    → can_go r.map packet.cell_pos false ≡ some false
    → apply_packet r p packet ≡ some (r, updated p packet p.object.cell_pos, true)
unfolding apply_packet moved_to
apply_packet_blocked r p packet here blocked =
    rw (apply_move_blocked r p.object packet.cell_pos false true here blocked) refl

-- How a move packet is handled: as allowed, or as refused by `CanGo`.
abbrev pub IsHandled : Room → Mover → MovePacket → Type 0
IsHandled r p packet =
    ((can_go r.map packet.cell_pos false ≡ some true)
      × ((r' : Room) × (handle_move_packet r p packet
            ≡ some (r', updated p packet packet.cell_pos, true))
          × HasMoved r p.object packet.cell_pos r'))
    ⊎ ((can_go r.map packet.cell_pos false ≡ some false)
        × (handle_move_packet r p packet ≡ (
            if p.object.cell_pos ==ᵥ packet.cell_pos
            then some (r, updated p packet p.object.cell_pos, true)
            else some (r, p, false))))

-- In a ready room a move packet of a player on the map is always handled. Where `CanGo` allows it,
-- the player is on the cell of the packet afterwards and the map and the zones have followed.
-- Where it does not, the room keeps its state; then the packet is dropped, unless it names the
-- player's own cell: its state and direction are taken over and broadcast.
pub handle_move_packet_lem :
    (r : Room) (p : Mover) (packet : MovePacket)
    → IsReady r
    → p.object.in_room ≡ true
    → is_within_bounds r.map p.object.cell_pos ≡ true
    → IsHandled r p packet
unfolding handle_move_packet check_packet
handle_move_packet_lem r p packet v here from =
    elim (can_go_lem r.map packet.cell_pos false v.loaded) [
      | inl (out, e) ↦ decided false e
      | inr (wall, n, w, o, e) ↦ decided _ e
    ]
  where
    both :
        (b : Bool)
        → (if b then apply_packet r p packet else apply_packet r p packet) ≡ apply_packet r p packet
    both true = refl
    both false = refl

    decided : (b : Bool) → can_go r.map packet.cell_pos false ≡ some b → IsHandled r p packet
    decided true e =
        let (r', f, moved) = apply_packet_free r p packet v here from e in
        inl (e, (r', rw e (both (p.object.cell_pos ==ᵥ packet.cell_pos) ∙ f), moved))
    decided false e = inr (e, rw (e, apply_packet_blocked r p packet here e) refl)
