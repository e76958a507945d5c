-- ===== src/Actors/View/Picture.antt =====
-- What the client makes of the messages of its view.
use mmo_server_cpp.Base.{
  ℕ, ◌≡◌, refl, sym, ap, ◌∙◌, inl, inr, Option, none, some, List, [], ◌∷◌, ◌++◌, Bool, true, false,
  not, ◌||◌, ◌&&◌, ◌==◌, ==_iff, if◌then◌else◌, contains, contains-append, arith, Bool-cases,
}
use mmo_server_cpp.World.Room.{erase_id}
use mmo_server_cpp.Actors.Crowd.Changes.{contains-erase_id}
use mmo_server_cpp.Actors.View.{
  ViewCube, Moment, get_objects, after_reset, except, Message, s_spawn, s_despawn, unless_empty,
  update,
}

erase_all : List ℕ → List ℕ → List ℕ
erase_all [] picture = picture
erase_all (id ∷ ids) picture = erase_id id (erase_all ids picture)

-- The objects that the client shows, after a message and after several.
unfoldable pub shown : List ℕ → Message → List ℕ
unfolding erase_all
shown picture (s_spawn ids) = ids ++ picture
shown picture (s_despawn ids) = erase_all ids picture

unfoldable pub show_all : List ℕ → List Message → List ℕ
unfolding shown
show_all picture [] = picture
show_all picture (message ∷ messages) = show_all (shown picture message) messages

contains-except :
    (id : ℕ) (lhs rhs : List ℕ)
    → contains id (except lhs rhs) ≡ (contains id lhs && not (contains id rhs))
unfolding contains except
contains-except id [] rhs = refl
contains-except id (x ∷ lhs) rhs =
    let rest = contains-except id lhs rhs in
    elim (Bool-cases (x == id)) [
      | inl e ↦
          let same : contains x rhs ≡ contains id rhs =
            ap (λ y. contains y rhs) ((==_iff x id).0 e) in
          ground (arith, rest, same)
      | inr e ↦ ground (arith, rest)
    ]

contains-erase_all :
    (id : ℕ) (ids picture : List ℕ)
    → contains id (erase_all ids picture) ≡ (not (contains id ids) && contains id picture)
unfolding contains erase_all
contains-erase_all id [] picture = refl
contains-erase_all id (x ∷ ids) picture =
    contains-erase_id id x (erase_all ids picture)
    ∙ ground (arith, contains-erase_all id ids picture)

show_all-append :
    (picture : List ℕ) (first rest : List Message)
    → show_all picture (first ++ rest) ≡ show_all (show_all picture first) rest
unfolding show_all
show_all-append picture [] rest = refl
show_all-append picture (message ∷ first) rest = show_all-append (shown picture message) first rest

contains-spawned :
    (id : ℕ) (ids picture : List ℕ)
    → contains id (show_all picture (unless_empty s_spawn ids))
      ≡ (contains id ids || contains id picture)
unfolding show_all shown unless_empty contains
contains-spawned id [] picture = refl
contains-spawned id (x ∷ ids) picture = contains-append id (x ∷ ids) picture

contains-despawned :
    (id : ℕ) (ids picture : List ℕ)
    → contains id (show_all picture (unless_empty s_despawn ids))
      ≡ (not (contains id ids) && contains id picture)
unfolding show_all shown unless_empty contains
contains-despawned id [] picture = refl
contains-despawned id (x ∷ ids) picture = contains-erase_all id (x ∷ ids) picture

update_here :
    (m : Moment) (v : ViewCube)
    → m.has_room ≡ true
    → update m v ≡ (
      record (after_reset v) { prev_objects = get_objects m; job_reserved = some 100 },
      unless_empty s_spawn (except (get_objects m) (after_reset v).prev_objects)
          ++ unless_empty s_despawn (except (after_reset v).prev_objects (get_objects m)),
    )
unfolding update
update_here m v here =
    ap
      (λ (b : Bool).
        if b
        then (
          record (after_reset v) { prev_objects = get_objects m; job_reserved = some 100 },
          unless_empty s_spawn (except (get_objects m) (after_reset v).prev_objects)
              ++ unless_empty s_despawn (except (after_reset v).prev_objects (get_objects m)),
        )
        else (v, []))
      here

update_gone : (m : Moment) (v : ViewCube) → m.has_room ≡ false → update m v ≡ (v, [])
unfolding update
update_gone m v gone = rw gone refl

-- The last word that the client has heard about an object since the last update, if any: whether it
-- is there.
abbrev pub bears : Option Bool → Bool → Bool
bears none current = true
bears (some there) current = if there then current else not current

abbrev pub believed : Option Bool → Bool → Bool
believed none remembered = remembered
believed (some there) remembered = there

-- The client shows the object as it was told last, or as the view remembers it; a view that is to be
-- reset remembers nothing.
abbrev pub Agrees : ℕ → Option Bool → ViewCube → List ℕ → Type 0
Agrees id word v picture =
    contains id picture ≡ believed word (contains id (after_reset v).prev_objects)

settles :
    (word : Option Bool) (p c : Bool)
    → bears word c ≡ true
    → (not (p && not c) && ((c && not p) || believed word p)) ≡ c
settles none p c h = ground arith
settles (some true) p c h = ground arith
settles (some false) p c h = ground arith

-- The client shows what is in view, after an update in a room that bears out the last word.
update_picture :
    (m : Moment) (v : ViewCube) (picture : List ℕ) (id : ℕ) (word : Option Bool)
    → m.has_room ≡ true
    → bears word (contains id (get_objects m)) ≡ true
    → Agrees id word v picture
    → contains id (show_all picture (update m v).1) ≡ contains id (get_objects m)
update_picture m v picture id word here borne agrees =
    let current = get_objects m in
    let prev = (after_reset v).prev_objects in
    ap (λ (u : ViewCube × List Message). contains id (show_all picture u.1)) (update_here m v here)
    ∙ ap (contains id) (
        show_all-append picture (unless_empty s_spawn (except current prev))
          (unless_empty s_despawn (except prev current)))
    ∙ contains-despawned id (except prev current)
        (show_all picture (unless_empty s_spawn (except current prev)))
    ∙ rw
        (
          contains-spawned id (except current prev) picture,
          contains-except id prev current,
          contains-except id current prev,
          agrees,
        )
        (settles word (contains id prev) (contains id current) borne)

reset_once :
    (b : Bool) (prev current : List ℕ) (job next : Option ℕ)
    → (after_reset
        (record (after_reset (record { is_reset = b; prev_objects = prev; job_reserved = job })) {
          prev_objects = current;
          job_reserved = next;
        })).prev_objects
      ≡ current
unfolding after_reset
reset_once true prev current job next = refl
reset_once false prev current job next = refl

update-Agrees :
    (m : Moment) (v : ViewCube) (picture : List ℕ) (id : ℕ) (word : Option Bool)
    → m.has_room ≡ true
    → bears word (contains id (get_objects m)) ≡ true
    → Agrees id word v picture
    → Agrees id none (update m v).0 (show_all picture (update m v).1)
update-Agrees m v picture id word here borne agrees =
    update_picture m v picture id word here borne agrees
    ∙ ap (contains id)
        (sym (reset_once v.is_reset v.prev_objects (get_objects m) v.job_reserved (some 100)))
    ∙ ap (λ (u : ViewCube × List Message). contains id (after_reset u.0).prev_objects)
        (sym (update_here m v here))

-- What reaches the client: the updates of its view, and what `Room::Enter` and `Room::Leave` broadcast.
pub data Event : Type 0 where
  updates : Moment → Event
  hears : Message → Event

-- The view and the picture after a history.
unfoldable pub watch : List Event → ViewCube → List ℕ → ViewCube × List ℕ
unfolding show_all shown
watch [] v picture = (v, picture)
watch (updates m ∷ events) v picture = watch events (update m v).0 (show_all picture (update m v).1)
watch (hears message ∷ events) v picture = watch events v (shown picture message)

unfoldable pub heard : ℕ → Option Bool → Message → Option Bool
heard id word (s_spawn ids) = if contains id ids then some true else word
heard id word (s_despawn ids) = if contains id ids then some false else word

-- What is broadcast about an object is borne out by the next update in a room: the last word before
-- it was a spawn, and the object is in view, or a despawn, and it is not, or there was none.
unfoldable pub is_borne_out : ℕ → Option Bool → List Event → Bool
is_borne_out id word [] = true
is_borne_out id word (hears message ∷ events) = is_borne_out id (heard id word message) events
is_borne_out id word (updates m ∷ events) =
    if m.has_room
    then bears word (contains id (get_objects m)) && is_borne_out id none events
    else is_borne_out id word events

heard-Agrees :
    (id : ℕ) (word : Option Bool) (v : ViewCube) (picture : List ℕ) (message : Message)
    → Agrees id word v picture
    → Agrees id (heard id word message) v (shown picture message)
unfolding heard shown
heard-Agrees id word v picture (s_spawn ids) agrees =
    let e = contains-append id ids picture in
    elim (Bool-cases (contains id ids)) [
      | inl named ↦ rw (e, named) refl
      | inr other ↦ rw (e, other) agrees
    ]
heard-Agrees id word v picture (s_despawn ids) agrees =
    let e = contains-erase_all id ids picture in
    elim (Bool-cases (contains id ids)) [
      | inl named ↦ rw (e, named) refl
      | inr other ↦ rw (e, other) agrees
    ]

watch_from :
    (events : List Event) (m : Moment) (v : ViewCube) (picture : List ℕ) (id : ℕ)
    (word : Option Bool)
    → Agrees id word v picture
    → is_borne_out id word (events ++ updates m ∷ []) ≡ true
    → m.has_room ≡ true
    → contains id (watch (events ++ updates m ∷ []) v picture).1 ≡ contains id (get_objects m)
unfolding watch is_borne_out show_all
watch_from [] m v picture id word agrees out here =
    update_picture m v picture id word here (ground (arith, out, here)) agrees
watch_from (hears message ∷ events) m v picture id word agrees out here =
    watch_from events m v (shown picture message) id (heard id word message)
      (heard-Agrees id word v picture message agrees) out here
watch_from (updates n ∷ events) m v picture id word agrees out here = elim (Bool-cases n.has_room) [
  | inl inside ↦
      watch_from events m (update n v).0 (show_all picture (update n v).1) id none
        (update-Agrees n v picture id word inside (ground (arith, out, inside)) agrees)
        (ground (arith, out, inside)) here
  | inr gone ↦
      ap
        (λ (u : ViewCube × List Message).
          contains id (watch (events ++ updates m ∷ []) u.0 (show_all picture u.1)).1)
        (update_gone n v gone)
      ∙ watch_from events m v picture id word agrees (ground (arith, out, gone)) here
]

-- A history of the updates of a view and of the spawns and despawns that are broadcast in between,
-- and an object for which the client began with what the view remembered. If each time the last
-- broadcast about it before an update is borne out by that update, then after an update in a room
-- the client shows the object exactly if `GetObjects` finds it.
pub watch_lem :
    (events : List Event) (m : Moment) (v : ViewCube) (picture : List ℕ) (id : ℕ)
    → Agrees id none v picture
    → is_borne_out id none (events ++ updates m ∷ []) ≡ true
    → m.has_room ≡ true
    → contains id (watch (events ++ updates m ∷ []) v picture).1 ≡ contains id (get_objects m)
watch_lem events m v picture id agrees out here =
    watch_from events m v picture id none agrees out here
