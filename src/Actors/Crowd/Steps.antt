-- ===== src/Actors/Crowd/Steps.antt =====
-- `Enter`, `Leave` and moves keep a crowd in order.
use mmo_server_cpp.Base.{
  ℕ, ◌≡◌, ◌≢◌, refl, sym, ap, ◌∙◌, ◌⊎◌, inl, inr, List, [], ◌∷◌, ◌++◌, Option, none, some, Bool,
  true, false, not, ◌&&◌, ◌==◌, ==_iff, if◌then◌else◌, contains, arith, Bool-cases,
}
use mmo_server_cpp.World.Vector.{Vector2Int}
use mmo_server_cpp.World.Map.{is_within_bounds}
use mmo_server_cpp.World.Room.{
  Zone, Room, Object, GameObjectType, player, monster, projectile, other, get_object_type_by_id,
  get_zone_index, same_zone, insert_id, erase_id, remove, apply_leave,
}
use mmo_server_cpp.World.Room.Zones.{IsReady, zone_after}
use mmo_server_cpp.World.Room.Laws.{apply_leave_lem, apply_leave_cases}
use mmo_server_cpp.World.Room.Adjacent.{broadcast}
use mmo_server_cpp.Actors.Arrow
use mmo_server_cpp.Actors.Arrow.{Arrow, arrow_update}
use mmo_server_cpp.Actors.Arrow.Flight.{front, arrow_update_lem}
use mmo_server_cpp.Actors.Crowd.{
  Crowd, cell_of, with_object, Event, flight, s_spawn, s_despawn, save_status, view_release,
  s_leave_game, entering, enter_projectile, enter_as, enter, leave_player, leave_monster,
  leave_projectile, leave_as, leave, move, no_pos,
}
use mmo_server_cpp.Actors.Crowd.Changes.{
  Changes, nothing-Changes, insert_in_zone_lem, contains-erase_id,
}
use mmo_server_cpp.Actors.Crowd.Placed.{
  placed_cong, placed_remove, placed_move, moved_to, remove_other, moved_other,
}
use mmo_server_cpp.Actors.Crowd.Orderly.{
  IsOrderly, moved-Changes, cell_of-with_object, with_object-named, other-IsOrderly, not_player,
  Shifted, shifts, Shifted-IsQuiet, IsQuiet, IsQuiet-refl, other_kept, enter_player_lem,
  enter_monster_lem,
}

-- The update of an arrow leaves the players alone.
arrow-IsQuiet :
    (r : Room) (a : Arrow)
    → IsReady r
    → get_object_type_by_id a.object.id ≢ player
    → (r' : Room) × (a' : Arrow) × (es : List Arrow.Event) × (arrow_update r a ≡ some (r', a', es))
      × IsQuiet r r'
      × (a'.object.id ≡ a.object.id)
arrow-IsQuiet r a v type = elim (arrow_update_lem r a v) [
  | inl (_, e) ↦ (r, a, [], e, IsQuiet-refl r r refl v, refl)
  | inr (_, inl f) ↦ (
    f.r',
    _,
    _,
    f.updates,
    (
      zone_after r a.object (front a),
      moved-Changes f.moved,
      λ k z. moved_other r a.object (front a) k z type,
    ),
    refl,
  )
  | inr (_, inr s) ↦ (r, a, _, s.updates, IsQuiet-refl r r refl v, refl)
]

module _ (c : Crowd) (o : Object) (v : IsOrderly c)
    (within : is_within_bounds c.room.map o.cell_pos ≡ true) where
  enter_projectile_lem :
      (a : Arrow)
      → get_object_type_by_id o.id ≢ player
      → (c' : Crowd) × (es : List Event) × (enter_projectile c o a ≡ some (c', es)) × IsOrderly c'
  unfolding enter_projectile
  enter_projectile_lem a type =
      let (r, inserted, ch) = insert_in_zone_lem c.room o.cell_pos projectile o.id v.ready within in
      let c1 = record c { room = r } in
      let v1 =
        other-IsOrderly c c1 _ v ch (other_kept c o v within projectile (λ e. cc)) refl v.named
          (λ id h. refl) in
      let (r', a', es, updates, (g, ch', quiet), same_id) =
        arrow-IsQuiet r (record a { object = entering o }) ch.ready type in
      (
        with_object (record c { room = r'; projectiles = insert_id o.id c.projectiles }) a'.object,
        flight o.id es ∷ [],
        rw (inserted, updates) refl,
        other-IsOrderly c1 _ g v1 ch' quiet refl (with_object-named c a'.object v.named)
            (not_player c1 a'.object v1 (rw same_id type)),
      )

  enter_as_lem :
      (a : Arrow) (type : GameObjectType)
      → get_object_type_by_id o.id ≡ type
      → contains o.id c.players ≡ false
      → (c' : Crowd) × (es : List Event) × (enter_as type c o a ≡ some (c', es)) × IsOrderly c'
  enter_as_lem a player e new = enter_player_lem c o v within e new
  enter_as_lem a monster e new = enter_monster_lem c o v within (λ p. cc)
  enter_as_lem a projectile e new = enter_projectile_lem a (λ p. cc)
  enter_as_lem a other e new = (c, [], refl, v)

  -- `Enter` on a cell of the map, of an object that is not a player of the room already.
  pub enter_lem :
      (a : Arrow)
      → contains o.id c.players ≡ false
      → (c' : Crowd) × (es : List Event) × (enter c o a ≡ some (c', es)) × IsOrderly c'
  unfolding enter
  enter_lem a new =
      let (c', es, e, v') = enter_as_lem a (get_object_type_by_id o.id) refl new in
      (c', es ++ s_spawn o.id (broadcast (cell_of c') c'.room o.cell_pos) ∷ [], rw e refl, v')

module _ (c : Crowd) (v : IsOrderly c) (id : ℕ) where
  -- A player that leaves.
  leave_present :
      get_object_type_by_id id ≡ player
      → contains id c.players ≡ true
      → (c' : Crowd) × (es : List Event) × (leave_player c id ≡ some (c', es)) × IsOrderly c'
  unfolding leave_player
  leave_present type has =
      let o = c.object_of id in
      let here = (v.known id has).1 in
      let within = v.placed.inside id has in
      let (r, left, occupant, zone, ready, shape) = apply_leave_lem c.room o v.ready here within in
      let ch : Changes c.room r (λ k z.
        if same_zone (get_zone_index c.room (cell_of c id)) (some k)
        then remove player id z
        else z) =
        record {
          ready = ready;
          shape = shape;
          zone = λ k z h.
              zone k z h
              ∙ ap
                  (λ (w : Zone).
                    some (if same_zone (get_zone_index c.room o.cell_pos) (some k) then w else z))
                  (removal z);
        } in
      let c' = record c { room = r; players = erase_id id c.players } in
      (
        c',
        save_status id
            ∷ view_release id
            ∷ s_leave_game id
            ∷ s_despawn id (broadcast (cell_of c') c'.room o.cell_pos)
            ∷ [],
        rw (has, left) refl,
        record {
          ready = ready;
          size = rw shape.size v.size;
          placed = placed_remove c.room c.players (cell_of c) v.placed id r ch;
          named = v.named;
          known = λ j h. v.known j (kept j (sym (contains-erase_id j id c.players) ∙ h));
        },
      )
    where
      removal :
          (z : Zone)
          → remove (get_object_type_by_id (c.object_of id).id) (c.object_of id).id z
            ≡ remove player id z
      removal z =
          ap (λ (i : ℕ). remove (get_object_type_by_id i) i z) (v.named id)
          ∙ ap (λ (t : GameObjectType). remove t id z) type

      kept : (j : ℕ) → (not (id == j) && contains j c.players) ≡ true → contains j c.players ≡ true
      kept j h = ground arith

  leave_player_lem :
      get_object_type_by_id id ≡ player
      → (c' : Crowd) × (es : List Event) × (leave_player c id ≡ some (c', es)) × IsOrderly c'
  unfolding leave_player
  leave_player_lem type = elim (Bool-cases (contains id c.players)) [
    | inl has ↦ leave_present type has
    | inr absent ↦
        let c' = record c { null_players = insert_id id c.null_players } in
        (
          c',
          [],
          rw absent refl,
          other-IsOrderly c c' _ v (nothing-Changes c.room v.ready) (λ k z. refl) refl v.named
              (λ j h. refl),
        )
  ]

  -- `ApplyLeave` of an object that is no player.
  left-IsQuiet :
      get_object_type_by_id id ≢ player
      → (r : Room) × (b : Bool) × (apply_leave c.room (c.object_of id) ≡ some (r, b))
        × IsQuiet c.room r
  left-IsQuiet type =
      let o = c.object_of id in
      elim (apply_leave_cases c.room o) [
        | inl e ↦ (c.room, false, e, IsQuiet-refl c.room c.room refl v.ready)
        | inr (here, within) ↦
            let (r, left, occupant, zone, ready, shape) =
              apply_leave_lem c.room o v.ready here within in
            (
              r,
              true,
              left,
              (
                _,
                record { ready = ready; shape = shape; zone = zone },
                λ k z. kept (same_zone (get_zone_index c.room o.cell_pos) (some k)) z,
              ),
            )
      ]
    where
      kept :
          (b : Bool) (z : Zone)
          → (if b
              then remove (get_object_type_by_id (c.object_of id).id) (c.object_of id).id z
              else z).players
            ≡ z.players
      kept true z = remove_other _ (c.object_of id).id z (rw (v.named id) type)
      kept false z = refl

  -- Whatever else becomes of the crowd, if one that is no player leaves.
  left-IsOrderly :
      (c' : Crowd) (o' : Object)
      → get_object_type_by_id id ≢ player
      → o'.id ≡ id
      → IsQuiet c.room c'.room
      → c'.players ≡ c.players
      → c'.object_of ≡ (with_object c o').object_of
      → IsOrderly c'
  left-IsOrderly c' o' type same_id (g, ch, quiet) players objects =
      other-IsOrderly c c' g v ch quiet players (rw objects (with_object-named c o' v.named))
        (rw objects (not_player c o' v (rw same_id type)))

  -- What is left of a monster or a projectile, and a projectile or a monster that is not there,
  -- for which `Leave` is undefined.
  abbrev pub OrderlyOr : Option (Crowd × List Event) → Type 0
  OrderlyOr outcome =
      (outcome ≡ none)
      ⊎ ((c' : Crowd) × (es : List Event) × (outcome ≡ some (c', es)) × IsOrderly c')

  leave_monster_lem : get_object_type_by_id id ≢ player → OrderlyOr (leave_monster c id)
  unfolding leave_monster
  leave_monster_lem type =
      let o = c.object_of id in
      let (r, b, left, quiet) = left-IsQuiet type in
      let o' = record o { in_room = false } in
      let c' = with_object (record c { room = r; monsters = erase_id id c.monsters }) o' in
      elim (Bool-cases (contains id c.monsters)) [
        | inr absent ↦ inl (rw absent refl)
        | inl has ↦ inr (
          c',
          s_despawn id (broadcast (cell_of c') c'.room o.cell_pos) ∷ [],
          rw (has, left) refl,
          left-IsOrderly c' o' type (v.named id) quiet refl refl,
        )
      ]

  leave_projectile_lem : get_object_type_by_id id ≢ player → OrderlyOr (leave_projectile c id)
  unfolding leave_projectile
  leave_projectile_lem type =
      let o = c.object_of id in
      let (r, b, left, quiet) = left-IsQuiet type in
      let o' = record o { in_room = false } in
      let c' = with_object (record c { room = r; projectiles = erase_id id c.projectiles }) o' in
      elim (Bool-cases (contains id c.projectiles)) [
        | inr absent ↦ inl (rw absent refl)
        | inl has ↦ inr (
          c',
          s_despawn id (broadcast (cell_of c') c'.room o.cell_pos) ∷ [],
          rw (has, left) refl,
          left-IsOrderly c' o' type (v.named id) quiet refl refl,
        )
      ]

  leave_as_lem :
      (type : GameObjectType) → get_object_type_by_id id ≡ type → OrderlyOr (leave_as type c id)
  leave_as_lem player e = inr (leave_player_lem e)
  leave_as_lem monster e = leave_monster_lem (λ p. cc)
  leave_as_lem projectile e = leave_projectile_lem (λ p. cc)
  leave_as_lem other e = inr (c, s_despawn id (broadcast (cell_of c) c.room no_pos) ∷ [], refl, v)

  pub leave_lem : OrderlyOr (leave c id)
  unfolding leave
  leave_lem = leave_as_lem (get_object_type_by_id id) refl

  -- The crowd after a move.
  abbrev after :
      (dest : Vector2Int) (through : Bool) → Shifted c (c.object_of id) dest through → Crowd
  after dest through s = with_object (record c { room = s.r }) s.o'

  moved_not_player :
      (dest : Vector2Int) (through : Bool)
      → get_object_type_by_id id ≢ player
      → (s : Shifted c (c.object_of id) dest through) → IsOrderly (after dest through s)
  moved_not_player dest through type s =
      let o = c.object_of id in
      let (g, ch, quiet) = Shifted-IsQuiet c o dest through v (inr (rw (v.named id) type)) s in
      other-IsOrderly c (after dest through s) g v ch quiet refl (with_object-named c s.o' v.named)
        (not_player c s.o' v (rw (s.id, v.named id) type))

  moved_player :
      (dest : Vector2Int) (through : Bool)
      → contains id c.players ≡ true
      → (s : Shifted c (c.object_of id) dest through) → IsOrderly (after dest through s)
  moved_player dest through has s =
      let o = c.object_of id in
      let c' = after dest through s in
      elim s.how [
        | inl (same, unmoved) ↦
            let (g, ch, quiet) = IsQuiet-refl c.room s.r same v.ready in
            other-IsOrderly c c' g v ch quiet refl (with_object-named c s.o' v.named)
              (λ j h. back j s.o' unmoved)
        | inr (at_dest, within, ch) ↦ record {
          ready = ch.ready;
          size = rw ch.shape.size v.size;
          placed =
              placed_cong s.r c.players (moved_to (cell_of c) id dest) (cell_of c')
                (placed_move c.room c.players (cell_of c) v.placed id s.r o dest (v.named id) refl
                  (v.known id has).0 has within ch)
                (λ j h. cell_of-with_object c s.o' j ∙ rw (s.id, v.named id, at_dest) refl);
          named = with_object-named c s.o' v.named;
          known = λ j h. ((v.known j h).0, still j (v.known j h).1);
        }
      ]
    where
      back :
          (j : ℕ) (o' : Object)
          → o' ≡ c.object_of id
          → (with_object c o').object_of j ≡ c.object_of j
      back j o' e = elim (Bool-cases (j == o'.id)) [
        | inl q ↦
            let at_id : j ≡ id = (==_iff j o'.id).0 q ∙ ap (λ (x : Object). x.id) e ∙ v.named id in
            rw (q, at_id) e
        | inr q ↦ rw q refl
      ]

      still :
          (j : ℕ)
          → (c.object_of j).in_room ≡ true
          → ((with_object c s.o').object_of j).in_room ≡ true
      still j h = elim (Bool-cases (j == s.o'.id)) [
        | inl q ↦ rw q (s.here ∙ (v.known id has).1)
        | inr q ↦ rw q h
      ]

  -- A move of a player of the room, or of an object that is no player.
  pub move_lem :
      (dest : Vector2Int) (through : Bool)
      → (contains id c.players ≡ true) ⊎ (get_object_type_by_id id ≢ player)
      → (c' : Crowd) × (b : Bool) × (move c id dest through ≡ some (c', b)) × IsOrderly c'
  unfolding move
  move_lem dest through who =
      let s = shifts c (c.object_of id) dest through v in
      (
        after dest through s,
        s.b,
        rw s.runs refl,
        elim who [
          | inl has ↦ moved_player dest through has s
          | inr type ↦ moved_not_player dest through type s
        ],
      )
