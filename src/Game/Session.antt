-- ===== src/Game/Session.antt =====
-- A client's session before it plays: `HandleLogin`, `HandleCreatePlayer`, `HandleEnterGame` and
-- `ClearLobbyPlayer` of GameServer/GameSession.cpp. The database is a parameter.
pub mod Notices
pub mod Safe
use mmo_server_cpp.Base.{
  ℕ, List, [], ◌∷◌, ◌++◌, map, Option, none, some, Bool, true, false, ◌==◌, if◌then◌else◌, ◌>>=◌,
}
use mmo_server_cpp.Base.Int.{pos}
use mmo_server_cpp.World.Vector.{Vector2Int}
use mmo_server_cpp.Actors.Facing.{MoveDir, down}
use mmo_server_cpp.Actors.Monster.{EntityState, idle}
use mmo_server_cpp.Items.Item.{Item, ItemData, ItemDb, make_item}
use mmo_server_cpp.Items.Inventory.{Inventory, add}

-- The speed is only copied.
pub record StatInfo : Type 0 where
  pub level : ℕ
  pub hp : ℕ
  pub max_hp : ℕ
  pub attack : ℕ
  pub speed : ℕ
  pub total_exp : ℕ

-- `LobbyPlayerInfo`. Names are numbers, 0 is the empty one. Where `stat` is `none` it was copied
-- from variables that nobody had set.
pub record LobbyPlayer : Type 0 where
  pub player_db_id : ℕ
  pub name : ℕ
  pub stat : Option StatInfo

-- A pointer of `_lobby_players`; `deleted` tells whether its object is gone.
pub record Entry : Type 0 where
  pub player : LobbyPlayer
  pub deleted : Bool

pub data ServerState : Type 0 where
  server_state_login : ServerState
  server_state_lobby : ServerState
  server_state_game : ServerState

-- What a player has when it starts to play.
pub record NewPlayer : Type 0 where
  pub player_db_id : ℕ
  pub name : ℕ
  pub stat : Option StatInfo
  pub state : EntityState
  pub cell_pos : Vector2Int
  pub dir : MoveDir
  pub inventory : Inventory

-- What a session sends to its client and asks of the database and of the room, in order.
pub data Notice : Type 0 where
  s_login : List LobbyPlayer → Notice
  s_create_player : LobbyPlayer → Notice
  s_item_list : List Item → Notice
  enter_job : NewPlayer → Notice

pub record Session : Type 0 where
  pub server_state : ServerState
  pub account_id : Option ℕ
  pub lobby_players : List Entry
  pub current_player : Option NewPlayer
  pub notices : List Notice

unfoldable pub new_session : Session
new_session = record {
  server_state = server_state_login;
  account_id = none;
  lobby_players = [];
  current_player = none;
  notices = [];
}

-- A row of the query of `HandleLogin`. The joins leave `NULL` where an account has no player or a
-- player no stats.
pub record Row : Type 0 where
  pub account_id : ℕ
  pub player : Option (ℕ × ℕ)
  pub stat : Option StatInfo

-- What the database, the data sheets and the room manager answer; `none` and `false` where a query
-- fails, a sheet is not there, or there is no room 1. An insertion answers with its new id.
pub record Backend : Type 0 where
  pub select_login : ℕ → Option (List Row)
  pub insert_account : ℕ → Option ℕ
  pub insert_player : ℕ → Option ℕ → Option ℕ
  pub insert_stats : ℕ → StatInfo → Option ℕ
  pub select_items : ℕ → Option (List ItemDb)
  pub stat_data : ℕ → Option StatInfo
  pub sheets : ℕ → Option ItemData
  pub has_room : Bool

-- `delete player` for each pointer, which stays in the vector. Deleting twice is undefined.
unfoldable pub clear_lobby_player : List Entry → Option (List Entry)
clear_lobby_player [] = some []
clear_lobby_player (e ∷ es) =
    if e.deleted
    then none
    else (do rest ← clear_lobby_player es; some (record e { deleted = true } ∷ rest))

-- The variables that the columns of a player are bound to.
pub record Bound : Type 0 where
  pub player_id : ℕ
  pub player_name : ℕ
  pub stat : Option StatInfo

abbrev pub unbound : Bound
unbound = record { player_id = 0; player_name = 0; stat = none }

-- `Fetch` leaves the variable of a `NULL` as it was.
abbrev pub fetch_player : Bound → Option (ℕ × ℕ) → Bound
fetch_player b none = b
fetch_player b (some (id, name)) = record b { player_id = id; player_name = name }

abbrev pub fetch_stat : Bound → Option StatInfo → Bound
fetch_stat b none = b
fetch_stat b (some stat) = record b { stat = some stat }

-- The loop of `HandleLogin` over the rows.
unfoldable pub fetched : Bound → List Row → List LobbyPlayer
fetched b [] = []
fetched b (row ∷ rows) =
    let c = fetch_stat (fetch_player b row.player) row.stat in
    record { player_db_id = c.player_id; name = c.player_name; stat = c.stat } ∷ fetched c rows

abbrev pub last_account : ℕ → List Row → ℕ
last_account id [] = id
last_account id (row ∷ rows) = last_account row.account_id rows

abbrev pub new_entry : LobbyPlayer → Entry
new_entry p = record { player = p; deleted = false }

abbrev pub tell : Session → Notice → List Notice
tell s n = s.notices ++ n ∷ []

-- `HandleLogin` after its query; an account that is not there is made.
unfoldable pub log_in : Session → Option ℕ → List Row → Option Session
log_in s inserted [] = do
  new_id ← inserted
  some (record s {
    account_id = some new_id;
    notices = tell s (s_login []);
    server_state = server_state_lobby;
  })
log_in s inserted (row ∷ rows) =
    let players = fetched unbound (row ∷ rows) in
    some (record s {
      account_id = some (last_account 0 (row ∷ rows));
      lobby_players = s.lobby_players ++ map new_entry players;
      notices = tell s (s_login players);
      server_state = server_state_lobby;
    })

-- `HandleLogin`; `none` stands for a crash, of `ASSERT_CRASH` or on a bad pointer.
unfoldable pub handle_login : Session → Backend → ℕ → ServerState → Option Session
handle_login s b unique_id server_state_login = do
  cleared ← clear_lobby_player s.lobby_players
  rows ← b.select_login unique_id
  log_in (record s { lobby_players = cleared }) (b.insert_account unique_id) rows
handle_login s b unique_id server_state_lobby = some s
handle_login s b unique_id server_state_game = some s

unfoldable pub handle_create_player : Session → Backend → ℕ → ServerState → Option Session
handle_create_player s b name server_state_login = some s
handle_create_player s b name server_state_lobby = do
  new_player_id ← b.insert_player name s.account_id
  stat_data ← b.stat_data 1
  inserted ← b.insert_stats new_player_id stat_data
  let p : LobbyPlayer = record { player_db_id = new_player_id; name = name; stat = some stat_data }
  some (record s {
    lobby_players = s.lobby_players ++ new_entry p ∷ [];
    notices = tell s (s_create_player p);
  })
handle_create_player s b name server_state_game = some s

-- `find_if` by name. Reading the name of a deleted object is undefined.
unfoldable pub find_by_name : ℕ → List Entry → Option (Option LobbyPlayer)
find_by_name name [] = some none
find_by_name name (e ∷ es) =
    if e.deleted
    then none
    else if e.player.name == name
    then some (some e.player)
    else find_by_name name es

unfoldable pub make_items : (ℕ → Option ItemData) → List ItemDb → Option (List Item)
make_items sheets [] = some []
make_items sheets (row ∷ rows) = do
  item ← make_item sheets row
  items ← make_items sheets rows
  some (item ∷ items)

abbrev pub add_all : Inventory → List Item → Inventory
add_all inventory [] = inventory
add_all inventory (item ∷ items) = add_all (add inventory item) items

abbrev pub new_player : LobbyPlayer → List Item → NewPlayer
new_player p items = record {
  player_db_id = p.player_db_id;
  name = p.name;
  stat = p.stat;
  state = idle;
  cell_pos = record { x = pos 0; y = pos 0 };
  dir = down;
  inventory = add_all [] items;
}

-- `g_room_manager->Find(1)`, whose `nullptr` is dereferenced.
abbrev pub find_room : Bool → Option ℕ
find_room true = some 1
find_room false = none

-- `HandleEnterGame` after its search.
unfoldable pub enter_as : Session → Backend → Option LobbyPlayer → Option Session
enter_as s b none = some s
enter_as s b (some p) = do
  rows ← b.select_items p.player_db_id
  items ← make_items b.sheets rows
  room ← find_room b.has_room
  cleared ← clear_lobby_player s.lobby_players
  some (record s {
    current_player = some (new_player p items);
    notices = (s.notices ++ s_item_list items ∷ []) ++ enter_job (new_player p items) ∷ [];
    server_state = server_state_game;
    lobby_players = cleared;
  })

unfoldable pub handle_enter_game : Session → Backend → ℕ → ServerState → Option Session
handle_enter_game s b name server_state_login = some s
handle_enter_game s b name server_state_lobby = do
  found ← find_by_name name s.lobby_players
  enter_as s b found
handle_enter_game s b name server_state_game = some s

pub data Packet : Type 0 where
  c_login : ℕ → Packet
  c_create_player : ℕ → Packet
  c_enter_game : ℕ → Packet

-- Each handler starts with the test of `_server_state`.
unfoldable pub handle : Session → Backend → Packet → Option Session
handle s b (c_login unique_id) = handle_login s b unique_id s.server_state
handle s b (c_create_player name) = handle_create_player s b name s.server_state
handle s b (c_enter_game name) = handle_enter_game s b name s.server_state

-- Packets in the order of their arrival, each with what the rest of the server answers then.
unfoldable pub handle_all : Session → List (Packet × Backend) → Option Session
handle_all s [] = some s
handle_all s ((packet, b) ∷ rest) = do t ← handle s b packet; handle_all t rest
