-- ===== src/Game/Session/Safe.antt =====
-- The guards of the handlers: one login, one player, and no use of a deleted lobby player.
use mmo_server_cpp.Base.{
  ℕ, ◌≡◌, refl, sym, ap, ◌∙◌, subst, List, [], ◌∷◌, ◌++◌, map, Option, none, some, true, arith,
}
use mmo_server_cpp.Items.Item.{Item, ItemDb}
use mmo_server_cpp.Game.Session.Notices.{
  all_alive, all_alive-append, all_alive-map, logins, entries, logins-append, entries-append,
  clear-alive, find_by_name-alive,
}
use mmo_server_cpp.Game.Session.{
  LobbyPlayer, StatInfo, ServerState, server_state_login, server_state_lobby, server_state_game,
  NewPlayer, s_login, s_create_player, s_item_list, enter_job, Session, new_session, Row, Backend,
  new_player, clear_lobby_player, fetched, unbound, new_entry, log_in, handle_login,
  handle_create_player, make_items, enter_as, handle_enter_game, Packet, c_login, c_create_player,
  c_enter_game, handle, handle_all,
}

-- A session in a given state: nothing is listed before the login, nothing that is listed in the
-- lobby is deleted, and a session that plays has been sent into its room once.
abbrev pub IsSafeAt : ServerState → Session → Type 0
IsSafeAt server_state_login s =
    (s.lobby_players ≡ []) × (logins s.notices ≡ 0) × (entries s.notices ≡ 0)
IsSafeAt server_state_lobby s =
    (all_alive s.lobby_players ≡ true) × (logins s.notices ≡ 1) × (entries s.notices ≡ 0)
IsSafeAt server_state_game s =
    ((p : NewPlayer) × (s.current_player ≡ some p))
    × (logins s.notices ≡ 1)
    × (entries s.notices ≡ 1)

abbrev pub IsSafe : Session → Type 0
IsSafe s = IsSafeAt s.server_state s

-- The queries succeed, the sheets that they name are there, and room 1 is.
pub record Works (b : Backend) : Type 0 where
  pub selects : (name : ℕ) → (rows : List Row) × (b.select_login name ≡ some rows)
  pub inserts : (name : ℕ) → (id : ℕ) × (b.insert_account name ≡ some id)
  pub creates :
      (name : ℕ) (account : Option ℕ) → (id : ℕ) × (b.insert_player name account ≡ some id)
  pub fills : (id : ℕ) (stat : StatInfo) → (row : ℕ) × (b.insert_stats id stat ≡ some row)
  pub starts : (stat : StatInfo) × (b.stat_data 1 ≡ some stat)
  pub equips :
      (id : ℕ)
      → (rows : List ItemDb) × (items : List Item) × (b.select_items id ≡ some rows)
        × (make_items b.sheets rows ≡ some items)
  pub rooms : b.has_room ≡ true

-- A handler that returns a safe session.
abbrev pub Returns : Option Session → Type 0
Returns r = (t : Session) × (r ≡ some t) × IsSafe t

log_in-Returns :
    (s : Session) (id : ℕ) (rows : List Row)
    → s.lobby_players ≡ []
    → logins s.notices ≡ 0
    → entries s.notices ≡ 0
    → Returns (log_in s (some id) rows)
unfolding log_in logins entries all_alive
log_in-Returns s id [] none_listed l e = (
  _,
  refl,
  (
    ap all_alive none_listed,
    logins-append s.notices (s_login [] ∷ []) ∙ ground (arith, l),
    entries-append s.notices (s_login [] ∷ []) ∙ ground (arith, e),
  ),
)
log_in-Returns s id (row ∷ rows) none_listed l e =
    let players = fetched unbound (row ∷ rows) in
    (
      _,
      refl,
      (
        ap (λ old. all_alive (old ++ map new_entry players)) none_listed ∙ all_alive-map players,
        logins-append s.notices (s_login players ∷ []) ∙ ground (arith, l),
        entries-append s.notices (s_login players ∷ []) ∙ ground (arith, e),
      ),
    )

-- A guard that refuses the packet.
refused :
    (s : Session) (state : ServerState)
    → s.server_state ≡ state
    → IsSafeAt state s
    → Returns (some s)
refused s state e v = (s, refl, subst (λ t. IsSafeAt t s) (sym e) v)

handle_login-Returns :
    (s : Session) (b : Backend) (id : ℕ) (state : ServerState)
    → s.server_state ≡ state
    → Works b
    → IsSafeAt state s
    → Returns (handle_login s b id state)
unfolding handle_login clear_lobby_player
handle_login-Returns s b id server_state_login e w (none_listed, l, k) =
    let (rows, selected) = w.selects id in
    let (new_id, inserted) = w.inserts id in
    rw (none_listed, selected, inserted)
      (log_in-Returns (record s { lobby_players = [] }) new_id rows refl l k)
handle_login-Returns s b id server_state_lobby e w v = refused s server_state_lobby e v
handle_login-Returns s b id server_state_game e w v = refused s server_state_game e v

created-Returns :
    (s : Session) (p : LobbyPlayer)
    → s.server_state ≡ server_state_lobby
    → IsSafeAt server_state_lobby s
    → Returns (
        some (record s {
          lobby_players = s.lobby_players ++ new_entry p ∷ [];
          notices = s.notices ++ s_create_player p ∷ [];
        }))
unfolding logins entries all_alive
created-Returns s p e (alive, l, k) = (
  _,
  refl,
  subst
      (λ t. IsSafeAt t (record s {
        lobby_players = s.lobby_players ++ new_entry p ∷ [];
        notices = s.notices ++ s_create_player p ∷ [];
      }))
      (sym e)
      (
        all_alive-append s.lobby_players (new_entry p ∷ []) alive refl,
        logins-append s.notices (s_create_player p ∷ []) ∙ ground (arith, l),
        entries-append s.notices (s_create_player p ∷ []) ∙ ground (arith, k),
      ),
)

handle_create_player-Returns :
    (s : Session) (b : Backend) (name : ℕ) (state : ServerState)
    → s.server_state ≡ state
    → Works b
    → IsSafeAt state s
    → Returns (handle_create_player s b name state)
unfolding handle_create_player
handle_create_player-Returns s b name server_state_login e w v = refused s server_state_login e v
handle_create_player-Returns s b name server_state_lobby e w v =
    let (new_id, created) = w.creates name s.account_id in
    let (stat, found) = w.starts in
    let (row, filled) = w.fills new_id stat in
    rw (created, found, filled)
      (created-Returns s (record { player_db_id = new_id; name = name; stat = some stat }) e v)
handle_create_player-Returns s b name server_state_game e w v = refused s server_state_game e v

enter_as-Returns :
    (s : Session) (b : Backend) (found : Option LobbyPlayer)
    → s.server_state ≡ server_state_lobby
    → Works b
    → IsSafeAt server_state_lobby s
    → Returns (enter_as s b found)
unfolding enter_as logins entries
enter_as-Returns s b none e w v = refused s server_state_lobby e v
enter_as-Returns s b (some p) e w (alive, l, k) =
    let (rows, items, selected, made) = w.equips p.player_db_id in
    let (cleared, deleted) = clear-alive s.lobby_players alive in
    let sent = s_item_list items ∷ [] in
    let last = enter_job (new_player p items) ∷ [] in
    rw (selected, made, w.rooms, deleted)
      (
        _,
        refl,
        (
          (new_player p items, refl),
          logins-append (s.notices ++ sent) last ∙ ground (arith, logins-append s.notices sent, l),
          entries-append (s.notices ++ sent) last
              ∙ ground (arith, entries-append s.notices sent, k),
        ),
      )

handle_enter_game-Returns :
    (s : Session) (b : Backend) (name : ℕ) (state : ServerState)
    → s.server_state ≡ state
    → Works b
    → IsSafeAt state s
    → Returns (handle_enter_game s b name state)
unfolding handle_enter_game
handle_enter_game-Returns s b name server_state_login e w v = refused s server_state_login e v
handle_enter_game-Returns s b name server_state_lobby e w v =
    let (found, looked) = find_by_name-alive name s.lobby_players v.0 in
    rw looked (enter_as-Returns s b found e w v)
handle_enter_game-Returns s b name server_state_game e w v = refused s server_state_game e v

pub handle-Returns :
    (s : Session) (b : Backend) (packet : Packet) → Works b → IsSafe s → Returns (handle s b packet)
unfolding handle
handle-Returns s b (c_login id) w v = handle_login-Returns s b id s.server_state refl w v
handle-Returns s b (c_create_player name) w v =
    handle_create_player-Returns s b name s.server_state refl w v
handle-Returns s b (c_enter_game name) w v =
    handle_enter_game-Returns s b name s.server_state refl w v

abbrev pub AllWork : List (Packet × Backend) → Type 0
AllWork [] = Unit {0}
AllWork ((packet, b) ∷ rest) = Works b × AllWork rest

handle_all-from :
    (s : Session) (history : List (Packet × Backend))
    → AllWork history
    → IsSafe s
    → Returns (handle_all s history)
unfolding handle_all
handle_all-from s [] w v = (s, refl, v)
handle_all-from s ((packet, b) ∷ rest) (here, later) v =
    let (t, handled, safe) = handle-Returns s b packet here v in
    rw handled (handle_all-from t rest later safe)

-- Whatever a client sends, in whatever order: as long as the database, the data sheets and the
-- room manager answer, no handler crashes, reads a lobby player that was deleted or deletes one
-- twice, and the client is logged in at most once and sent into a room at most once, the latter
-- exactly when its session is in the state of the game.
pub handle_all-new_session :
    (history : List (Packet × Backend)) → AllWork history → Returns (handle_all new_session history)
unfolding new_session logins entries
handle_all-new_session history w = handle_all-from new_session history w new_session-IsSafe
  where
    new_session-IsSafe : IsSafe new_session
    new_session-IsSafe = (refl, refl, refl)
