-- ===== src/Actors/Crowd/Orderly.antt =====
-- A room with a crowd in order, and that `Enter`, `Leave` and moves keep it so.
use mmo_server_cpp.Base.{
  ℕ, ◌<◌, ◌≡◌, ◌≢◌, refl, sym, ap, ◌∙◌, ◌⊎◌, inl, inr, List, [], ◌∷◌, Option, none, some, Bool,
  true, false, ◌||◌, ◌==◌, ==_iff, if◌then◌else◌, contains, arith, Bool-cases, subst,
}
use mmo_server_cpp.World.Vector.{Vector2Int, ==ᵥ_refl}
use mmo_server_cpp.World.Map.{is_within_bounds}
use mmo_server_cpp.World.Room.{
  Zone, Room, Object, GameObjectType, player, monster, get_object_type_by_id, get_zone_index,
  same_zone, insert_id, erase_id, insert_object, apply_move,
}
use mmo_server_cpp.World.Room.Zones.{IsReady, zone_after}
use mmo_server_cpp.World.Room.Laws.{HasMoved, apply_move_cases}
use mmo_server_cpp.Actors.Crowd.{
  Crowd, cell_of, with_object, Event, s_enter_game, view_update, object_update, entering,
  enter_player, enter_monster,
}
use mmo_server_cpp.Actors.Crowd.Changes.{
  Changes, nothing-Changes, insert_in_zone_lem, contains-insert_id,
}
use mmo_server_cpp.Actors.Crowd.Placed.{
  PlayersPlaced, placed_cong, placed_untouched, placed_insert, moved_to, insert_other, moved_other,
}

pub record IsOrderly (c : Crowd) : Type 0 where
  pub ready : IsReady c.room
  pub size : 0 < c.room.zone_cell_size
  pub placed : PlayersPlaced c.room c.players (cell_of c)
  pub named : (id : ℕ) → (c.object_of id).id ≡ id
  pub known :
      (id : ℕ)
      → contains id c.players ≡ true
      → (get_object_type_by_id id ≡ player) × ((c.object_of id).in_room ≡ true)

pub moved-Changes :
    {r r' : Room} {o : Object} {dest : Vector2Int}
    → HasMoved r o dest r'
    → Changes r r' (zone_after r o dest)
moved-Changes m = record { ready = m.still_ready; shape = m.shape; zone = m.zone }

pub with_object-named :
    (c : Crowd) (o : Object)
    → ((id : ℕ) → (c.object_of id).id ≡ id)
    → (id : ℕ) → ((with_object c o).object_of id).id ≡ id
with_object-named c o named id = elim (Bool-cases (id == o.id)) [
  | inl e ↦ rw e (sym ((==_iff id o.id).0 e))
  | inr e ↦ rw e (named id)
]

cell_if :
    (b : Bool) (o x : Object)
    → (if b then o else x).cell_pos ≡ (if b then o.cell_pos else x.cell_pos)
cell_if true o x = refl
cell_if false o x = refl

pub cell_of-with_object :
    (c : Crowd) (o : Object) (id : ℕ)
    → cell_of (with_object c o) id ≡ moved_to (cell_of c) o.id o.cell_pos id
cell_of-with_object c o id = cell_if (id == o.id) o (c.object_of id)

-- An operation that leaves the players alone.
pub other-IsOrderly :
    (c c' : Crowd) (g : Vector2Int → Zone → Zone)
    → IsOrderly c
    → Changes c.room c'.room g
    → ((k : Vector2Int) (z : Zone) → (g k z).players ≡ z.players)
    → c'.players ≡ c.players
    → ((id : ℕ) → (c'.object_of id).id ≡ id)
    → ((id : ℕ) → contains id c.players ≡ true → c'.object_of id ≡ c.object_of id)
    → IsOrderly c'
other-IsOrderly c c' g v ch same players named objects = record {
  ready = ch.ready;
  size = rw ch.shape.size v.size;
  placed = rw players (
      placed_cong c'.room c.players (cell_of c) (cell_of c')
        (placed_untouched c.room c'.room g ch c.players (cell_of c) v.placed same)
        (λ id h. ap (λ (o : Object). o.cell_pos) (objects id h)));
  named = named;
  known = λ id h.
      let has : contains id c.players ≡ true = rw players at h in
      let (type, here) = v.known id has in
      (type, ap (λ (o : Object). o.in_room) (objects id has) ∙ here);
}

-- No player has the id of an object of another type.
pub not_player :
    (c : Crowd) (o : Object)
    → IsOrderly c
    → get_object_type_by_id o.id ≢ player
    → (id : ℕ) → contains id c.players ≡ true
    → (with_object c o).object_of id ≡ c.object_of id
not_player c o v type id h = elim (Bool-cases (id == o.id)) [
  | inl e ↦
      let same : id ≡ o.id = (==_iff id o.id).0 e in
      absurd (type (ap get_object_type_by_id (sym same) ∙ (v.known id h).0))
  | inr e ↦ rw e refl
]

same_zone_refl : (i : Option Vector2Int) → same_zone i i ≡ true
same_zone_refl none = refl
same_zone_refl (some i) = ==ᵥ_refl i

stays_put : (r : Room) (o : Object) (k : Vector2Int) (z : Zone) → zone_after r o o.cell_pos k z ≡ z
stays_put r o k z = rw (same_zone_refl (get_zone_index r o.cell_pos)) refl

-- What an `ApplyMove` makes of a room with a crowd in order.
pub record Shifted (c : Crowd) (o : Object) (dest : Vector2Int) (through : Bool) : Type 0 where
  pub r : Room
  pub o' : Object
  pub b : Bool
  pub runs : apply_move c.room o dest through true ≡ some (r, o', b)
  pub id : o'.id ≡ o.id
  pub here : o'.in_room ≡ o.in_room
  pub how :
      ((r ≡ c.room) × (o' ≡ o))
      ⊎ ((o'.cell_pos ≡ dest)
          × (is_within_bounds c.room.map dest ≡ true)
          × Changes c.room r (zone_after c.room o dest))

pub shifts :
    (c : Crowd) (o : Object) (dest : Vector2Int) (through : Bool)
    → IsOrderly c
    → Shifted c o dest through
shifts c o dest through v = elim (apply_move_cases c.room o dest through v.ready) [
  | inl e ↦ record {
    r = c.room;
    o' = o;
    b = false;
    runs = e;
    id = refl;
    here = refl;
    how = inl (refl, refl);
  }
  | inr (r', e, from, to, moved) ↦ record {
    r = r';
    o' = record o { cell_pos = dest };
    b = true;
    runs = e;
    id = refl;
    here = refl;
    how = inr (refl, to, moved-Changes moved);
  }
]

-- A change of the room that leaves the players of each zone alone.
abbrev pub IsQuiet : Room → Room → Type 0
IsQuiet r r' =
    (g : Vector2Int → Zone → Zone) × Changes r r' g
    × ((k : Vector2Int) (z : Zone) → (g k z).players ≡ z.players)

pub IsQuiet-refl : (r r' : Room) → r' ≡ r → IsReady r → IsQuiet r r'
IsQuiet-refl r r' e v =
    ((λ k z. z), subst (λ s. Changes r s (λ k z. z)) (sym e) (nothing-Changes r v), λ k z. refl)

-- Neither a move to where the object stands nor one of another object touches the players.
pub Shifted-IsQuiet :
    (c : Crowd) (o : Object) (dest : Vector2Int) (through : Bool)
    → IsOrderly c
    → (dest ≡ o.cell_pos) ⊎ (get_object_type_by_id o.id ≢ player)
    → (s : Shifted c o dest through) → IsQuiet c.room s.r
Shifted-IsQuiet c o dest through v why s = elim s.how [
  | inl (same, _) ↦ IsQuiet-refl c.room s.r same v.ready
  | inr (_, _, ch) ↦ (
    zone_after c.room o dest,
    ch,
    elim why [
      | inl e ↦ rw e (λ k z. ap (λ (z : Zone). z.players) (stays_put c.room o k z))
      | inr type ↦ λ k z. moved_other c.room o dest k z type
    ],
  )
]

-- The crowd with one player more.
abbrev joined : Crowd → Room → Object → Crowd
joined c r o =
    with_object
      (record c {
        room = r;
        players = insert_id o.id c.players;
        null_players = erase_id o.id c.null_players;
      })
      o

joined-IsOrderly :
    (c : Crowd) (r0 r : Room) (o : Object)
    → IsOrderly c
    → PlayersPlaced r0 c.players (cell_of c)
    → r0.zone_cell_size ≡ c.room.zone_cell_size
    → is_within_bounds r0.map o.cell_pos ≡ true
    → o.in_room ≡ true
    → get_object_type_by_id o.id ≡ player
    → contains o.id c.players ≡ false
    → Changes r0 r (λ k z.
      if same_zone (get_zone_index r0 o.cell_pos) (some k) then insert_object player o.id z else z)
    → IsOrderly (joined c r o)
joined-IsOrderly c r0 r o v placed size within here type new ch = record {
  ready = ch.ready;
  size = rw (ch.shape.size, size) v.size;
  placed =
      placed_cong r (insert_id o.id c.players) (moved_to (cell_of c) o.id o.cell_pos)
        (cell_of (joined c r o))
        (placed_insert r0 c.players (cell_of c) placed o.id r o.cell_pos within new ch)
        (λ id h. cell_of-with_object c o id);
  named = with_object-named c o v.named;
  known = λ id h. elim (Bool-cases (id == o.id)) [
    | inl e ↦ let same : id ≡ o.id = (==_iff id o.id).0 e in (rw same type, rw e here)
    | inr e ↦
        let (t, i) = v.known id (old id e (sym (contains-insert_id id o.id c.players) ∙ h)) in
        (t, rw e i)
  ];
}
  where
    old :
        (id : ℕ)
        → (id == o.id) ≡ false
        → ((o.id == id) || contains id c.players) ≡ true
        → contains id c.players ≡ true
    old id e h = ground arith

module _ (c : Crowd) (o : Object) (v : IsOrderly c)
    (within : is_within_bounds c.room.map o.cell_pos ≡ true) where
  pub enter_player_lem :
      get_object_type_by_id o.id ≡ player
      → contains o.id c.players ≡ false
      → (c' : Crowd) × (es : List Event) × (enter_player c o ≡ some (c', es)) × IsOrderly c'
  unfolding enter_player
  enter_player_lem type new =
      let s = shifts c (entering o) o.cell_pos false v in
      let (g, ch, quiet) = Shifted-IsQuiet c (entering o) o.cell_pos false v (inl refl) s in
      let (r, inserted, ch') =
        insert_in_zone_lem s.r o.cell_pos player o.id ch.ready
          (ch.shape.bounds o.cell_pos ∙ within) in
      let at_place : s.o'.cell_pos ≡ o.cell_pos = elim s.how [
        | inl (_, e) ↦ ap (λ (x : Object). x.cell_pos) e
        | inr (e, _, _) ↦ e
      ] in
      (
        joined c r s.o',
        s_enter_game o.id ∷ view_update o.id ∷ [],
        rw (s.runs, inserted, s.id) refl,
        joined-IsOrderly c s.r r s.o' v
            (placed_untouched c.room s.r g ch c.players (cell_of c) v.placed quiet) ch.shape.size
            (ch.shape.bounds s.o'.cell_pos ∙ rw at_place within) s.here (rw s.id type) (rw s.id new)
            (rw (at_place, s.id) ch'),
      )

  -- An insertion among the objects of another kind.
  pub other_kept :
      (kind : GameObjectType)
      → kind ≢ player
      → (k : Vector2Int) (z : Zone)
      → (if same_zone (get_zone_index c.room o.cell_pos) (some k)
          then insert_object kind o.id z
          else z).players
        ≡ z.players
  other_kept kind other_kind k z = which (same_zone (get_zone_index c.room o.cell_pos) (some k))
    where
      which : (b : Bool) → (if b then insert_object kind o.id z else z).players ≡ z.players
      which true = insert_other kind o.id z other_kind
      which false = refl

  pub enter_monster_lem :
      get_object_type_by_id o.id ≢ player
      → (c' : Crowd) × (es : List Event) × (enter_monster c o ≡ some (c', es)) × IsOrderly c'
  unfolding enter_monster
  enter_monster_lem type =
      let (r, inserted, ch) = insert_in_zone_lem c.room o.cell_pos monster o.id v.ready within in
      let c1 = record c { room = r } in
      let v1 =
        other-IsOrderly c c1 _ v ch (other_kept monster (λ e. cc)) refl v.named (λ id h. refl) in
      let s = shifts c1 (entering o) o.cell_pos false v1 in
      let (g, ch', quiet) = Shifted-IsQuiet c1 (entering o) o.cell_pos false v1 (inl refl) s in
      (
        with_object (record c { room = s.r; monsters = insert_id o.id c.monsters }) s.o',
        object_update o.id ∷ [],
        rw (inserted, s.runs) refl,
        other-IsOrderly c1 _ g v1 ch' quiet refl (with_object-named c s.o' v.named)
            (not_player c1 s.o' v1 (rw s.id type)),
      )
