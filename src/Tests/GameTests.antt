-- ===== src/Tests/GameTests.antt =====
-- Tests of the sessions of clients and of the dispatch of their packets.
use mmo_server_cpp.Game.Heartbeat.{Pulse, run_timer, IsGone, run_timer_lem}
use mmo_server_cpp.Base.{
  ◌<◌, ◌⊎◌, ◌+◌, ◌≡◌, refl, List, [], ◌∷◌, ◌++◌, none, some, Bool, true, false, not, ◌&&◌, ◌||◌,
  ltb, ◌==◌, if◌then◌else◌, arith,
}
use mmo_server_cpp.Items.Item.{ItemDb, weapon_data, make_item}
use mmo_server_cpp.Game.Outbox.{
  Buffer, server, Action, reserves, claims, flushes, hands_over, stores, new_outbox, run,
}
use mmo_server_cpp.Game.Outbox.Laws.{tally, in_flight, reserved, run-reserved}
use mmo_server_cpp.Game.Outbox.Watch.{
  IsWatched, all_up, stays_up, run-new_outbox-IsWatched, idle, late_timer, overtaken,
}
use mmo_server_cpp.Game.Session.{
  StatInfo, server_state_game, new_session, Backend, Packet, c_login, c_enter_game, handle_all,
  make_items,
}
use mmo_server_cpp.Game.Session.Notices.{logins, entries}
use mmo_server_cpp.Game.Session.Safe.{IsSafe, Works, Returns, handle_all-new_session}
use mmo_server_cpp.World.Room.{get_object_type_by_id}
use mmo_server_cpp.Base.Int.{pos}
use mmo_server_cpp.Actors.Monster.{moving}
use mmo_server_cpp.Actors.Facing.{up}
use mmo_server_cpp.Game.Dispatch.{
  handler_max, Protobuf, Client, Around, no_entry, throws, room_of, anim_end, run_handler,
  parse_packet, packet_handler, handle_packet,
}
use mmo_server_cpp.Game.Dispatch.Crashes.{Meets, fails, finds_nothing, requested, handle_packet_lem}

abbrev first_buffer : Buffer
first_buffer = record { name = 1; write_size = 40 }

abbrev second_buffer : Buffer
second_buffer = record { name = 2; write_size = 1000 }

abbrev some_flushes : List Action
some_flushes =
    reserves first_buffer
    ∷ claims
    ∷ flushes server
    ∷ reserves second_buffer
    ∷ hands_over 0
    ∷ stores 0
    ∷ claims
    ∷ []

abbrev is_second : Buffer → Bool
is_second b = b.name == 2

run-reserved_example :
    tally is_second (run new_outbox some_flushes).sent
      + in_flight is_second (run new_outbox some_flushes).flushing
      + tally is_second (run new_outbox some_flushes).send_packets
      + tally is_second (run new_outbox some_flushes).dropped
    ≡ reserved is_second some_flushes
run-reserved_example = run-reserved is_second some_flushes

some_flushes_up : all_up some_flushes ≡ true
unfolding all_up stays_up
some_flushes_up = refl

run-new_outbox-IsWatched_example : IsWatched (run new_outbox some_flushes)
run-new_outbox-IsWatched_example = run-new_outbox-IsWatched some_flushes some_flushes_up

overtaken_example :
    (run (idle new_outbox) (late_timer first_buffer second_buffer)).sent
    ≡ (new_outbox.sent ++ second_buffer ∷ []) ++ first_buffer ∷ []
overtaken_example = overtaken new_outbox first_buffer second_buffer (omega arith) (omega arith)

abbrev level_one : StatInfo
level_one = record { level = 1; hp = 100; max_hp = 100; attack = 10; speed = 5; total_exp = 0 }

abbrev sword : ItemDb
sword = record { item_db_id = 9; data_sheet_id = 1; count = 1; slot = 0; equipped = true }

abbrev answers : Backend
answers = record {
  select_login =
      λ name. some (record { account_id = 3; player = some (7, 42); stat = some level_one } ∷ []);
  insert_account = λ name. some 4;
  insert_player = λ name account. some 8;
  insert_stats = λ id stat. some 1;
  select_items = λ id. some (sword ∷ []);
  stat_data = λ level. some level_one;
  sheets = λ id. some (weapon_data id 1 25);
  has_room = true;
}

answers-Works : Works answers
unfolding make_items make_item
answers-Works = record {
  selects = λ name. (_, refl);
  inserts = λ name. (_, refl);
  creates = λ name account. (_, refl);
  fills = λ id stat. (_, refl);
  starts = (_, refl);
  equips = λ id. (_, _, refl, refl);
  rooms = refl;
}

abbrev visit : List (Packet × Backend)
visit = (c_login 5, answers) ∷ (c_enter_game 42, answers) ∷ (c_login 5, answers) ∷ []

handle_all-new_session_example : Returns (handle_all new_session visit)
handle_all-new_session_example =
    handle_all-new_session visit (answers-Works, (answers-Works, (answers-Works, tt)))

-- A client that sends a move before it has entered the game.
abbrev hasty : Client
hasty = record { session = new_session; in_room = false; heartbeat_tick = 0; requests = [] }

abbrev lenient : Protobuf
lenient = record { parses = λ h body. true; text = λ body. 5; object_id = λ body. 0x200_0001 }

abbrev nobody_around : Around
nobody_around = record { backend = answers; present = λ id. no_entry; now = 1000 }

new_session-IsSafe : IsSafe new_session
unfolding new_session logins entries
new_session-IsSafe = (refl, refl, refl)

-- A player of the room whose client names an object that is not there: the worker thread ends.
abbrev playing : Client
playing = record {
  session = record {
    server_state = server_state_game;
    account_id = some 1;
    lobby_players = [];
    current_player = some (record {
      player_db_id = 1;
      name = 2;
      stat = none;
      state = moving;
      cell_pos = record { x = pos 0; y = pos 0 };
      dir = up;
      inventory = [];
    });
    notices = [];
  };
  in_room = true;
  heartbeat_tick = 0;
  requests = [];
}

stray_anim_end : handle_packet playing nobody_around lenient 27 [] ≡ throws
unfolding handle_packet packet_handler parse_packet run_handler anim_end room_of
    get_object_type_by_id
stray_anim_end = refl

handle_packet_lem_example :
    Meets hasty
      (not (ltb 4 handler_max)
        || (lenient.parses (packet_handler 4) []
            && fails hasty nobody_around lenient [] (packet_handler 4)))
      (lenient.parses (packet_handler 4) []
        && finds_nothing nobody_around lenient [] (packet_handler 4))
      (if lenient.parses (packet_handler 4) [] then requested lenient [] (packet_handler 4) else [])
      (handle_packet hasty nobody_around lenient 4 [])
handle_packet_lem_example =
    handle_packet_lem hasty nobody_around lenient 4 [] answers-Works new_session-IsSafe

-- A session that connects and says nothing more.
abbrev fresh : Pulse
fresh = record { connected = true; heartbeat_tick = 100; ping_due = some 5100; pings = 0 }

run_timer_lem_example :
    ((100 + 8000 < 5100) ⊎ ((run_timer fresh 5100).connected ≡ true))
    × IsGone (run_timer (run_timer (run_timer fresh 5100) 10200) 15300)
run_timer_lem_example =
    run_timer_lem fresh 5100 5100 10200 15300 refl (omega arith) (omega arith) (omega arith)
      (omega arith) (omega arith)
