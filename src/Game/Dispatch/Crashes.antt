-- ===== src/Game/Dispatch/Crashes.antt =====
-- Which packets crash the server, and what the others do.
use mmo_server_cpp.Base.{
  ℕ, ◌≡◌, ◌⊎◌, inl, inr, refl, sym, List, [], ◌∷◌, ◌++◌, append-nil, Option, none, some, Bool, true,
  false, not, ◌&&◌, ◌||◌, ltb, if◌then◌else◌, arith, Bool-cases,
}
use mmo_server_cpp.World.Room.{
  GameObjectType, player, monster, projectile, other, get_object_type_by_id,
}
use mmo_server_cpp.Game.Session.{NewPlayer, Backend, Packet, c_login, c_create_player, c_enter_game}
use mmo_server_cpp.Game.Session.Safe.{IsSafe, Works, handle-Returns}
use mmo_server_cpp.Game.Dispatch.{
  handler_max, Handler, handle_invalid, handle_c_move, handle_c_skill, handle_c_login,
  handle_c_enter_game, handle_c_create_player, handle_c_equip_item, handle_c_use_item,
  handle_c_drop_item, handle_c_pong, handle_c_anim_end, handle_c_go_random, packet_handler,
  Protobuf, Request, push_job, on_dead_anim, Found, no_entry, null_entry, object_entry, Outcome,
  returns, crashes, throws, dead_anim_of, Client, Around, ask, room_of, push_to_room, to_session,
  find_object, anim_end, run_handler, parse_packet, handle_packet,
}

-- The handlers that use the room of the current player.
abbrev pub needs_room : Handler → Bool
needs_room handle_invalid = false
needs_room handle_c_move = true
needs_room handle_c_skill = true
needs_room handle_c_login = false
needs_room handle_c_enter_game = false
needs_room handle_c_create_player = false
needs_room handle_c_equip_item = true
needs_room handle_c_use_item = true
needs_room handle_c_drop_item = true
needs_room handle_c_pong = false
needs_room handle_c_anim_end = true
needs_room handle_c_go_random = true

abbrev pub is_there {ℓ} : {A : Type ℓ} → Option A → Bool
is_there none = false
is_there (some x) = true

-- The client plays: it has a player, and that player has a room.
abbrev pub plays : Client → Bool
plays c = is_there c.session.current_player && c.in_room

abbrev pub is_fighter : GameObjectType → Bool
is_fighter player = true
is_fighter monster = true
is_fighter projectile = false
is_fighter other = false

abbrev pub is_null : Found → Bool
is_null no_entry = false
is_null null_entry = true
is_null object_entry = false

abbrev pub is_absent : Found → Bool
is_absent no_entry = true
is_absent null_entry = false
is_absent object_entry = false

-- An animation ends for what is no player or monster by its id, or whose entry in the room is null.
abbrev pub finds_null : Around → Protobuf → List ℕ → Handler → Bool
finds_null a pb body handle_invalid = false
finds_null a pb body handle_c_move = false
finds_null a pb body handle_c_skill = false
finds_null a pb body handle_c_login = false
finds_null a pb body handle_c_enter_game = false
finds_null a pb body handle_c_create_player = false
finds_null a pb body handle_c_equip_item = false
finds_null a pb body handle_c_use_item = false
finds_null a pb body handle_c_drop_item = false
finds_null a pb body handle_c_pong = false
finds_null a pb body handle_c_anim_end =
    not (is_fighter (get_object_type_by_id (pb.object_id body)))
    || is_null (a.present (pb.object_id body))
finds_null a pb body handle_c_go_random = false

-- An animation ends for a player or monster by its id that the room has no entry for.
abbrev pub finds_nothing : Around → Protobuf → List ℕ → Handler → Bool
finds_nothing a pb body handle_invalid = false
finds_nothing a pb body handle_c_move = false
finds_nothing a pb body handle_c_skill = false
finds_nothing a pb body handle_c_login = false
finds_nothing a pb body handle_c_enter_game = false
finds_nothing a pb body handle_c_create_player = false
finds_nothing a pb body handle_c_equip_item = false
finds_nothing a pb body handle_c_use_item = false
finds_nothing a pb body handle_c_drop_item = false
finds_nothing a pb body handle_c_pong = false
finds_nothing a pb body handle_c_anim_end =
    is_fighter (get_object_type_by_id (pb.object_id body))
    && is_absent (a.present (pb.object_id body))
finds_nothing a pb body handle_c_go_random = false

-- What the packet of a handler asks of the room.
abbrev pub requested : Protobuf → List ℕ → Handler → List Request
requested pb body handle_invalid = []
requested pb body handle_c_move = push_job handle_c_move body ∷ []
requested pb body handle_c_skill = push_job handle_c_skill body ∷ []
requested pb body handle_c_login = []
requested pb body handle_c_enter_game = []
requested pb body handle_c_create_player = []
requested pb body handle_c_equip_item = push_job handle_c_equip_item body ∷ []
requested pb body handle_c_use_item = push_job handle_c_use_item body ∷ []
requested pb body handle_c_drop_item = push_job handle_c_drop_item body ∷ []
requested pb body handle_c_pong = []
requested pb body handle_c_anim_end = on_dead_anim (pb.object_id body) ∷ []
requested pb body handle_c_go_random = push_job handle_c_go_random body ∷ []

abbrev pub fails : Client → Around → Protobuf → List ℕ → Handler → Bool
fails c a pb body h = needs_room h && (not (plays c) || finds_null a pb body h)

-- A handler that returns has asked for this much, and leaves the session safe.
abbrev pub Asks : Client → List Request → Outcome → Type 0
Asks c requests r =
    (d : Client) × (ok : Bool) × (r ≡ returns d ok)
    × (d.requests ≡ c.requests ++ requests)
    × IsSafe d.session

-- It crashes where it must, throws where it must and does not crash, and returns otherwise.
abbrev pub Meets : Client → Bool → Bool → List Request → Outcome → Type 0
Meets c crash throw requests r =
    ((crash ≡ true) × (r ≡ crashes))
    ⊎ ((crash ≡ false) × (throw ≡ true) × (r ≡ throws))
    ⊎ ((crash ≡ false) × (throw ≡ false) × Asks c requests r)

room_of-cases :
    (c : Client)
    → ((plays c ≡ false) × (room_of c c.session.current_player ≡ none))
      ⊎ ((plays c ≡ true) × ((p : NewPlayer) × (room_of c c.session.current_player ≡ some p)))
unfolding room_of
room_of-cases c = by_player c c.session.current_player
  where
    by_player :
        (c : Client) (found : Option NewPlayer)
        → (((is_there found && c.in_room) ≡ false) × (room_of c found ≡ none))
          ⊎ (((is_there found && c.in_room) ≡ true)
              × ((p : NewPlayer) × (room_of c found ≡ some p)))
    by_player c none = inl (refl, refl)
    by_player c (some p) = elim (Bool-cases c.in_room) [
      | inl here ↦ inr (here, (p, rw here refl))
      | inr away ↦ inl (away, rw away refl)
    ]

push_to_room-Meets :
    (c : Client) (h : Handler) (body : List ℕ) (result : Bool)
    → IsSafe c.session
    → Meets c (not (plays c) || false) false (push_job h body ∷ []) (push_to_room c h body result)
unfolding push_to_room
push_to_room-Meets c h body result safe = elim (room_of-cases c) [
  | inl (idle, missing) ↦ inl (ground arith, rw missing refl)
  | inr (playing, (p, found)) ↦
      inr (inr (ground arith, refl, (ask c (push_job h body), result, rw found refl, refl, safe)))
]

to_session-Asks :
    (c : Client) (b : Backend) (packet : Packet)
    → Works b
    → IsSafe c.session
    → Asks c [] (to_session c b packet)
unfolding to_session
to_session-Asks c b packet w safe =
    let (s, handled, kept) = handle-Returns c.session b packet w safe in
    (record c { session = s }, true, rw handled refl, sym (append-nil c.requests), kept)

dead_anim_of-Meets :
    (c : Client) (id : ℕ) (entry : Found)
    → IsSafe c.session
    → Meets c (is_null entry) (is_absent entry) (on_dead_anim id ∷ []) (dead_anim_of c id entry)
dead_anim_of-Meets c id no_entry safe = inr (inl (refl, refl, refl))
dead_anim_of-Meets c id null_entry safe = inl (refl, refl)
dead_anim_of-Meets c id object_entry safe =
    inr (inr (refl, refl, (ask c (on_dead_anim id), true, refl, refl, safe)))

find_object-Meets :
    (c : Client) (type : GameObjectType) (present : ℕ → Found) (id : ℕ)
    → IsSafe c.session
    → Meets c
        (not (is_fighter type) || is_null (present id))
        (is_fighter type && is_absent (present id))
        (on_dead_anim id ∷ [])
        (dead_anim_of c id (find_object type present id))
find_object-Meets c player present id safe = dead_anim_of-Meets c id (present id) safe
find_object-Meets c monster present id safe = dead_anim_of-Meets c id (present id) safe
find_object-Meets c projectile present id safe = inl (refl, refl)
find_object-Meets c other present id safe = inl (refl, refl)

anim_end-Meets :
    (c : Client) (present : ℕ → Found) (id : ℕ)
    → IsSafe c.session
    → Meets c
        (not (plays c) || (not (is_fighter (get_object_type_by_id id)) || is_null (present id)))
        (is_fighter (get_object_type_by_id id) && is_absent (present id))
        (on_dead_anim id ∷ [])
        (anim_end c present id)
unfolding anim_end
anim_end-Meets c present id safe = elim (room_of-cases c) [
  | inl (idle, missing) ↦ inl (rw idle refl, rw missing refl)
  | inr (playing, (p, found)) ↦
      rw (playing, found) (find_object-Meets c (get_object_type_by_id id) present id safe)
]

run_handler-Meets :
    (c : Client) (a : Around) (pb : Protobuf) (body : List ℕ) (h : Handler)
    → Works a.backend
    → IsSafe c.session
    → Meets c
        (fails c a pb body h)
        (finds_nothing a pb body h)
        (requested pb body h)
        (run_handler c a pb body h)
unfolding run_handler
run_handler-Meets c a pb body handle_invalid w safe =
    inr (inr (refl, refl, (c, false, refl, sym (append-nil c.requests), safe)))
run_handler-Meets c a pb body handle_c_move w safe =
    push_to_room-Meets c handle_c_move body true safe
run_handler-Meets c a pb body handle_c_skill w safe =
    push_to_room-Meets c handle_c_skill body true safe
run_handler-Meets c a pb body handle_c_login w safe =
    inr (inr (refl, refl, to_session-Asks c a.backend (c_login (pb.text body)) w safe))
run_handler-Meets c a pb body handle_c_enter_game w safe =
    inr (inr (refl, refl, to_session-Asks c a.backend (c_enter_game (pb.text body)) w safe))
run_handler-Meets c a pb body handle_c_create_player w safe =
    inr (inr (refl, refl, to_session-Asks c a.backend (c_create_player (pb.text body)) w safe))
run_handler-Meets c a pb body handle_c_equip_item w safe =
    push_to_room-Meets c handle_c_equip_item body true safe
run_handler-Meets c a pb body handle_c_use_item w safe =
    push_to_room-Meets c handle_c_use_item body false safe
run_handler-Meets c a pb body handle_c_drop_item w safe =
    push_to_room-Meets c handle_c_drop_item body false safe
run_handler-Meets c a pb body handle_c_pong w safe = inr (
    inr (
      refl,
      refl,
      (record c { heartbeat_tick = a.now }, true, refl, sym (append-nil c.requests), safe),
    ))
run_handler-Meets c a pb body handle_c_anim_end w safe =
    anim_end-Meets c a.present (pb.object_id body) safe
run_handler-Meets c a pb body handle_c_go_random w safe =
    push_to_room-Meets c handle_c_go_random body true safe

parse_packet-Meets :
    (c : Client) (a : Around) (pb : Protobuf) (body : List ℕ) (h : Handler)
    → Works a.backend
    → IsSafe c.session
    → Meets c
        (pb.parses h body && fails c a pb body h)
        (pb.parses h body && finds_nothing a pb body h)
        (if pb.parses h body then requested pb body h else [])
        (parse_packet c a pb body h)
unfolding parse_packet
parse_packet-Meets c a pb body h w safe = elim (Bool-cases (pb.parses h body)) [
  | inl parsed ↦ rw parsed (run_handler-Meets c a pb body h w safe)
  | inr garbled ↦
      rw garbled (inr (inr (refl, refl, (c, false, refl, sym (append-nil c.requests), safe))))
]

-- While the backend answers, for a client whose session is safe: a packet crashes the server exactly
-- when its id is not below HANDLER_MAX, or when it parses and its handler needs the room of a player
-- that has none, or names by its id neither a player nor a monster, or one whose entry in the room is
-- null. Of the others it throws exactly when it parses and the animation of a player or monster ends
-- that the room has no entry for. Every other packet returns, leaves the session safe and asks the
-- room for exactly what its handler stands for: one job, the end of an animation, or nothing.
pub handle_packet_lem :
    (c : Client) (a : Around) (pb : Protobuf) (id : ℕ) (body : List ℕ)
    → Works a.backend
    → IsSafe c.session
    → Meets c
        (not (ltb id handler_max)
          || (pb.parses (packet_handler id) body && fails c a pb body (packet_handler id)))
        (pb.parses (packet_handler id) body && finds_nothing a pb body (packet_handler id))
        (if pb.parses (packet_handler id) body then requested pb body (packet_handler id) else [])
        (handle_packet c a pb id body)
unfolding handle_packet
handle_packet_lem c a pb id body w safe = elim (Bool-cases (ltb id handler_max)) [
  | inl within ↦ rw within (parse_packet-Meets c a pb body (packet_handler id) w safe)
  | inr beyond ↦ inl (rw beyond refl, rw beyond refl)
]
