-- ===== src/Game/Dispatch.antt =====
-- From a packet to its handler: GameServer/ClientPacketHandler.h and ClientPacketHandler.cpp.
-- Protobuf's parser is a parameter.
pub mod Crashes
use mmo_server_cpp.Base.{
  ℕ, List, [], ◌∷◌, ◌++◌, Option, none, some, Bool, true, false, ◌==◌, ltb, if◌then◌else◌, ◌>>=◌,
  ◌&&◌,
}
use mmo_server_cpp.World.Room.{
  GameObjectType, player, monster, projectile, other, get_object_type_by_id,
}
use mmo_server_cpp.Game.Session.{
  Session, NewPlayer, Backend, Packet, c_login, c_create_player, c_enter_game, handle,
}

-- `HANDLER_MAX`, the size of the table of handlers.
abbrev pub handler_max : ℕ
handler_max = 0x2000

pub data Handler : Type 0 where
  handle_invalid : Handler
  handle_c_move : Handler
  handle_c_skill : Handler
  handle_c_login : Handler
  handle_c_enter_game : Handler
  handle_c_create_player : Handler
  handle_c_equip_item : Handler
  handle_c_use_item : Handler
  handle_c_drop_item : Handler
  handle_c_pong : Handler
  handle_c_anim_end : Handler
  handle_c_go_random : Handler

-- `g_packet_handler`, as `Init` fills it.
unfoldable pub packet_handler : ℕ → Handler
packet_handler id =
    if id == 4
    then handle_c_move
    else if id == 6
    then handle_c_skill
    else if id == 11
    then handle_c_login
    else if id == 13
    then handle_c_enter_game
    else if id == 15
    then handle_c_create_player
    else if id == 18
    then handle_c_equip_item
    else if id == 20
    then handle_c_use_item
    else if id == 22
    then handle_c_drop_item
    else if id == 25
    then handle_c_pong
    else if id == 27
    then handle_c_anim_end
    else if id == 29
    then handle_c_go_random
    else handle_invalid

-- What protobuf reads in a body: whether it parses as the packet of a handler, the unique id or
-- name in it, and the id of an object.
pub record Protobuf : Type 0 where
  pub parses : Handler → List ℕ → Bool
  pub text : List ℕ → ℕ
  pub object_id : List ℕ → ℕ

-- What is asked of the room of the player, in order: jobs with the handler of `Room`, and the call
-- of `OnDeadAnim`, which is no job.
pub data Request : Type 0 where
  push_job : Handler → List ℕ → Request
  on_dead_anim : ℕ → Request

-- `in_room` tells whether `GetRoom` of the current player is a room: `Room::Enter` sets it.
pub record Client : Type 0 where
  pub session : Session
  pub in_room : Bool
  pub heartbeat_tick : ℕ
  pub requests : List Request

-- What `at` finds under an id in the map of the players or of the monsters of a room: nothing, an
-- entry that is `nullptr`, which `_players[object_id]` of `Room::Leave` makes, or an object.
pub data Found : Type 0 where
  no_entry : Found
  null_entry : Found
  object_entry : Found

-- The rest of the server when the packet is handled: `present` is the room of the player.
pub record Around : Type 0 where
  pub backend : Backend
  pub present : ℕ → Found
  pub now : ℕ

-- A handler returns, or it dereferences `nullptr` or reads beyond the table, or it throws: `at` does
-- where there is no entry, `ThreadManager::Start` catches that, and the worker thread ends.
pub data Outcome : Type 0 where
  returns : Client → Bool → Outcome
  crashes : Outcome
  throws : Outcome

abbrev pub ask : Client → Request → Client
ask c r = record c { requests = c.requests ++ r ∷ [] }

-- `game_session->GetPlayer()` and `player->GetRoom()`, which are dereferenced; `none` is `nullptr`.
unfoldable pub room_of : Client → Option NewPlayer → Option NewPlayer
room_of c none = none
room_of c (some p) = if c.in_room then some p else none

abbrev pub or_crash : Option NewPlayer → Outcome → Outcome
or_crash none outcome = crashes
or_crash (some p) outcome = outcome

-- The handlers that push a job to the room, with what they return.
unfoldable pub push_to_room : Client → Handler → List ℕ → Bool → Outcome
push_to_room c h body result =
    or_crash (room_of c c.session.current_player) (returns (ask c (push_job h body)) result)

abbrev pub session_handled : Client → Option Session → Outcome
session_handled c none = crashes
session_handled c (some s) = returns (record c { session = s }) true

-- The handlers of the session.
unfoldable pub to_session : Client → Backend → Packet → Outcome
to_session c b packet = session_handled c (handle c.session b packet)

-- `GetPlayer` or `GetMonster` of the room; an id of another type is left `nullptr`.
abbrev pub find_object : GameObjectType → (ℕ → Found) → ℕ → Found
find_object player present id = present id
find_object monster present id = present id
find_object projectile present id = null_entry
find_object other present id = null_entry

abbrev pub dead_anim_of : Client → ℕ → Found → Outcome
dead_anim_of c id no_entry = throws
dead_anim_of c id null_entry = crashes
dead_anim_of c id object_entry = returns (ask c (on_dead_anim id)) true

unfoldable pub anim_end : Client → (ℕ → Found) → ℕ → Outcome
anim_end c present id =
    or_crash (room_of c c.session.current_player)
      (dead_anim_of c id (find_object (get_object_type_by_id id) present id))

unfoldable pub run_handler : Client → Around → Protobuf → List ℕ → Handler → Outcome
run_handler c a pb body handle_invalid = returns c false
run_handler c a pb body handle_c_move = push_to_room c handle_c_move body true
run_handler c a pb body handle_c_skill = push_to_room c handle_c_skill body true
run_handler c a pb body handle_c_login = to_session c a.backend (c_login (pb.text body))
run_handler c a pb body handle_c_enter_game = to_session c a.backend (c_enter_game (pb.text body))
run_handler c a pb body handle_c_create_player =
    to_session c a.backend (c_create_player (pb.text body))
run_handler c a pb body handle_c_equip_item = push_to_room c handle_c_equip_item body true
run_handler c a pb body handle_c_use_item = push_to_room c handle_c_use_item body false
run_handler c a pb body handle_c_drop_item = push_to_room c handle_c_drop_item body false
run_handler c a pb body handle_c_pong = returns (record c { heartbeat_tick = a.now }) true
run_handler c a pb body handle_c_anim_end = anim_end c a.present (pb.object_id body)
run_handler c a pb body handle_c_go_random = push_to_room c handle_c_go_random body true

-- `ParsePacket`; `Handle_INVALID` parses nothing.
unfoldable pub parse_packet : Client → Around → Protobuf → List ℕ → Handler → Outcome
parse_packet c a pb body h = if pb.parses h body then run_handler c a pb body h else returns c false

-- `HandlePacket` of a packet with this id and body. The id is not compared with the size of the
-- table: beyond it the read is undefined.
unfoldable pub handle_packet : Client → Around → Protobuf → ℕ → List ℕ → Outcome
handle_packet c a pb id body =
    if ltb id handler_max then parse_packet c a pb body (packet_handler id) else crashes
