-- ===== src/Game/Session/Notices.antt =====
-- The entries of the lobby and the notices of a session, counted.
use mmo_server_cpp.Base.{
  ℕ, ◌+◌, ◌≡◌, refl, List, [], ◌∷◌, ◌++◌, map, Option, none, some, Bool, true, false, not, ◌&&◌,
  ◌==◌, arith, inl, inr, Bool-cases,
}
use mmo_server_cpp.Game.Session.{
  Entry, LobbyPlayer, Notice, s_login, s_create_player, s_item_list, enter_job, clear_lobby_player,
  new_entry, find_by_name,
}

unfoldable pub all_alive : List Entry → Bool
all_alive [] = true
all_alive (e ∷ es) = not e.deleted && all_alive es

pub all_alive-append :
    (xs ys : List Entry) → all_alive xs ≡ true → all_alive ys ≡ true → all_alive (xs ++ ys) ≡ true
unfolding all_alive
all_alive-append [] ys h k = k
all_alive-append (x ∷ xs) ys h k = let rest = all_alive-append xs ys in ground arith

pub all_alive-map : (players : List LobbyPlayer) → all_alive (map new_entry players) ≡ true
unfolding all_alive
all_alive-map [] = refl
all_alive-map (p ∷ players) = all_alive-map players

-- How often the client was logged in, and how often a player was sent into a room.
unfoldable pub logins : List Notice → ℕ
logins [] = 0
logins (s_login players ∷ ns) = 1 + logins ns
logins (s_create_player p ∷ ns) = logins ns
logins (s_item_list items ∷ ns) = logins ns
logins (enter_job p ∷ ns) = logins ns

unfoldable pub entries : List Notice → ℕ
entries [] = 0
entries (s_login players ∷ ns) = entries ns
entries (s_create_player p ∷ ns) = entries ns
entries (s_item_list items ∷ ns) = entries ns
entries (enter_job p ∷ ns) = 1 + entries ns

pub logins-append : (xs ys : List Notice) → logins (xs ++ ys) ≡ logins xs + logins ys
unfolding logins
logins-append [] ys = omega arith
logins-append (s_login players ∷ ns) ys = omega (arith, logins-append ns ys)
logins-append (s_create_player p ∷ ns) ys = logins-append ns ys
logins-append (s_item_list items ∷ ns) ys = logins-append ns ys
logins-append (enter_job p ∷ ns) ys = logins-append ns ys

pub entries-append : (xs ys : List Notice) → entries (xs ++ ys) ≡ entries xs + entries ys
unfolding entries
entries-append [] ys = omega arith
entries-append (s_login players ∷ ns) ys = entries-append ns ys
entries-append (s_create_player p ∷ ns) ys = entries-append ns ys
entries-append (s_item_list items ∷ ns) ys = entries-append ns ys
entries-append (enter_job p ∷ ns) ys = omega (arith, entries-append ns ys)

pub clear-alive :
    (es : List Entry)
    → all_alive es ≡ true
    → (rest : List Entry) × (clear_lobby_player es ≡ some rest)
unfolding all_alive clear_lobby_player
clear-alive [] h = ([], refl)
clear-alive (e ∷ es) h =
    let alive : e.deleted ≡ false = ground arith in
    let (rest, cleared) = clear-alive es (ground arith) in
    (record e { deleted = true } ∷ rest, rw (alive, cleared) refl)

pub find_by_name-alive :
    (name : ℕ) (es : List Entry)
    → all_alive es ≡ true
    → (found : Option LobbyPlayer) × (find_by_name name es ≡ some found)
unfolding all_alive find_by_name
find_by_name-alive name [] h = (none, refl)
find_by_name-alive name (e ∷ es) h =
    let alive : e.deleted ≡ false = ground arith in
    let (found, later) = find_by_name-alive name es (ground arith) in
    elim (Bool-cases (e.player.name == name)) [
      | inl here ↦ (some e.player, rw (alive, here) refl)
      | inr other ↦ (found, rw (alive, other) later)
    ]
