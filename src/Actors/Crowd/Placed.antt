-- ===== src/Actors/Crowd/Placed.antt =====
-- The zones keep holding exactly the players that stand in them, whatever changes.
use mmo_server_cpp.Base.{
  ℕ, ◌≡◌, ◌≢◌, refl, sym, ap, ◌∙◌, inl, inr, List, Option, none, some, Bool, true, false, not, ◌||◌,
  ◌&&◌, ◌==◌, ==_iff, if◌then◌else◌, contains, arith, Bool-cases,
}
use mmo_server_cpp.World.Vector.{Vector2Int, ==ᵥ_eq}
use mmo_server_cpp.World.Grid.{cell}
use mmo_server_cpp.World.Map.{is_within_bounds}
use mmo_server_cpp.World.Room.{
  Zone, Room, Object, GameObjectType, player, monster, projectile, other, get_object_type_by_id,
  get_zone_index, same_zone, insert_id, erase_id, insert_object, erase_object, remove,
}
use mmo_server_cpp.World.Room.Zones.{zone_after}
use mmo_server_cpp.World.Room.Adjacent.Reaches.{IsPlaced}
use mmo_server_cpp.Actors.Crowd.Changes.{Changes, contains-erase_id, contains-insert_id}

abbrev pub PlayersPlaced : Room → List ℕ → (ℕ → Vector2Int) → Type 0
PlayersPlaced r ids f = IsPlaced (λ z. z.players) r ids f

pub placed_cong :
    (r : Room) (ids : List ℕ) (f f' : ℕ → Vector2Int)
    → PlayersPlaced r ids f
    → ((id : ℕ) → contains id ids ≡ true → f' id ≡ f id)
    → PlayersPlaced r ids f'
placed_cong r ids f f' p same = record {
  inside = λ id h. rw (same id h) (p.inside id h);
  held = λ k z id h.
      p.held k z id h
      ∙ elim (Bool-cases (contains id ids)) [ inl e ↦ rw (e, same id e) refl | inr e ↦ rw e refl ];
}

module _ (r r' : Room) (g : Vector2Int → Zone → Zone) (ch : Changes r r' g) where
  pub placed_after :
      (ids : List ℕ) (f : ℕ → Vector2Int)
      → ((id : ℕ) → contains id ids ≡ true → is_within_bounds r.map (f id) ≡ true)
      → ((k : Vector2Int) (z : Zone) (id : ℕ)
          → cell r.zones k ≡ some z
          → contains id (g k z).players
            ≡ (contains id ids && same_zone (get_zone_index r (f id)) (some k)))
      → PlayersPlaced r' ids f
  placed_after ids f within held = record {
    inside = λ id h. ch.shape.bounds (f id) ∙ within id h;
    held = λ k z' id h.
        let (z, e) = ch.shape.back k z' h in
        let same : z' ≡ g k z = cc (h, ch.zone k z e) in
        rw (same, ch.shape.index (f id)) (held k z id e);
  }

  -- Other objects do not touch the players of a zone.
  pub placed_untouched :
      (ids : List ℕ) (f : ℕ → Vector2Int)
      → PlayersPlaced r ids f
      → ((k : Vector2Int) (z : Zone) → (g k z).players ≡ z.players)
      → PlayersPlaced r' ids f
  placed_untouched ids f p same =
      placed_after ids f p.inside (λ k z id h. ap (contains id) (same k z) ∙ p.held k z id h)

pub insert_other :
    (type : GameObjectType) (id : ℕ) (z : Zone)
    → type ≢ player
    → (insert_object type id z).players ≡ z.players
insert_other player id z h = absurd (h refl)
insert_other monster id z h = refl
insert_other projectile id z h = refl
insert_other other id z h = refl

erase_other :
    (type : GameObjectType) (id : ℕ) (z : Zone)
    → type ≢ player
    → (erase_object type id z).players ≡ z.players
erase_other player id z h = absurd (h refl)
erase_other monster id z h = refl
erase_other projectile id z h = refl
erase_other other id z h = refl

pub remove_other :
    (type : GameObjectType) (id : ℕ) (z : Zone)
    → type ≢ player
    → (remove type id z).players ≡ z.players
remove_other player id z h = absurd (h refl)
remove_other monster id z h = refl
remove_other projectile id z h = refl
remove_other other id z h = refl

pub moved_other :
    (r : Room) (o : Object) (dest k : Vector2Int) (z : Zone)
    → get_object_type_by_id o.id ≢ player
    → (zone_after r o dest k z).players ≡ z.players
moved_other r o dest k z h =
    let type = get_object_type_by_id o.id in
    let before = get_zone_index r o.cell_pos in
    let after = get_zone_index r dest in
    which (same_zone before after) (same_zone after (some k)) (same_zone before (some k)) _ _
      (insert_other type o.id z h) (erase_other type o.id z h)
  where
    which :
        (a b c : Bool) (z1 z2 : Zone)
        → z1.players ≡ z.players
        → z2.players ≡ z.players
        → (if a then z else if b then z1 else if c then z2 else z).players ≡ z.players
    which true b c z1 z2 p q = refl
    which false true c z1 z2 p q = p
    which false false true z1 z2 p q = q
    which false false false z1 z2 p q = refl

-- `f` with `p` at `id`.
abbrev pub moved_to : (ℕ → Vector2Int) → ℕ → Vector2Int → ℕ → Vector2Int
moved_to f id p j = if j == id then p else f j

-- Membership after an insertion, or an erasure, in the zone at hand only.
contains-insert_if :
    (s : Bool) (j id : ℕ) (z : Zone)
    → contains j (if s then insert_object player id z else z).players
      ≡ ((s && (id == j)) || contains j z.players)
contains-insert_if true j id z = contains-insert_id j id z.players
contains-insert_if false j id z = refl

contains-erase_if :
    (s : Bool) (j id : ℕ) (z : Zone)
    → contains j (if s then erase_object player id z else z).players
      ≡ (not (s && (id == j)) && contains j z.players)
contains-erase_if true j id z = contains-erase_id j id z.players
contains-erase_if false j id z = refl

contains-zone_if :
    (b a d : Bool) (j id : ℕ) (z : Zone)
    → contains j
        (if b
          then z
          else if a
          then insert_object player id z
          else if d
          then erase_object player id z
          else z).players
      ≡ (if b
          then contains j z.players
          else if a
          then (id == j) || contains j z.players
          else if d
          then not (id == j) && contains j z.players
          else contains j z.players)
contains-zone_if true a d j id z = refl
contains-zone_if false true d j id z = contains-insert_id j id z.players
contains-zone_if false false true j id z = contains-erase_id j id z.players
contains-zone_if false false false j id z = refl

same_zone_eq : (a b : Option Vector2Int) → same_zone a b ≡ true → a ≡ b
same_zone_eq none none h = refl
same_zone_eq none (some j) h = cc
same_zone_eq (some i) none h = cc
same_zone_eq (some i) (some j) h = ap some (==ᵥ_eq i j h)

==_sym : (a b : ℕ) → (a == b) ≡ (b == a)
==_sym a b = ground arith

module _ (r : Room) (ids : List ℕ) (f : ℕ → Vector2Int) (placed : PlayersPlaced r ids f)
    (id : ℕ) where
  -- A player that was not there comes into the zone of `p`.
  pub placed_insert :
      (r' : Room) (p : Vector2Int)
      → is_within_bounds r.map p ≡ true
      → contains id ids ≡ false
      → Changes r r'
          (λ k z. if same_zone (get_zone_index r p) (some k) then insert_object player id z else z)
      → PlayersPlaced r' (insert_id id ids) (moved_to f id p)
  placed_insert r' p within new ch =
      placed_after r r' _ ch (insert_id id ids) (moved_to f id p)
        (λ j h. elim (Bool-cases (j == id)) [
          | inl e ↦ rw e within
          | inr e ↦ rw e (placed.inside j (old j e (sym (contains-insert_id j id ids) ∙ h)))
        ])
        (λ k z j h.
          let s = same_zone (get_zone_index r p) (some k) in
          contains-insert_if s j id z ∙ elim (Bool-cases (j == id)) [
            | inl e ↦
                let is_id : j ≡ id = (==_iff j id).0 e in
                let absent : contains j z.players ≡ false =
                  rw is_id (placed.held k z id h ∙ rw new refl) in
                rw (absent, contains-insert_id j id ids, ==_sym id j, e) (here s)
            | inr e ↦
                rw (contains-insert_id j id ids, ==_sym id j, e) (there s _ ∙ placed.held k z j h)
          ])
    where
      old :
          (j : ℕ) → (j == id) ≡ false → ((id == j) || contains j ids) ≡ true → contains j ids ≡ true
      old j e h = ground arith

      here : (s : Bool) → ((s && true) || false) ≡ (true && s)
      here true = refl
      here false = refl

      there : (s b : Bool) → ((s && false) || b) ≡ b
      there true b = refl
      there false b = refl

  -- A player leaves the zone where it stands.
  pub placed_remove :
      (r' : Room)
      → Changes r r'
          (λ k z. if same_zone (get_zone_index r (f id)) (some k) then remove player id z else z)
      → PlayersPlaced r' (erase_id id ids) f
  placed_remove r' ch =
      placed_after r r' _ ch (erase_id id ids) f
        (λ j h. placed.inside j (kept j (sym (contains-erase_id j id ids) ∙ h)))
        (λ k z j h.
          let s = same_zone (get_zone_index r (f id)) (some k) in
          contains-erase_if s j id z ∙ elim (Bool-cases (id == j)) [
            | inl e ↦
                let is_id : id ≡ j = (==_iff id j).0 e in
                rw (contains-erase_id j id ids, e, placed.held k z j h, ← is_id)
                  (gone s (contains id ids))
            | inr e ↦ rw (contains-erase_id j id ids, e) (stays s _ ∙ placed.held k z j h)
          ])
    where
      kept : (j : ℕ) → (not (id == j) && contains j ids) ≡ true → contains j ids ≡ true
      kept j h = ground arith

      gone : (s b : Bool) → (not (s && true) && (b && s)) ≡ (false && s)
      gone true b = refl
      gone false true = refl
      gone false false = refl

      stays : (s b : Bool) → (not (s && false) && b) ≡ b
      stays true b = refl
      stays false b = refl

  -- A player goes to `dest`.
  pub placed_move :
      (r' : Room) (o : Object) (dest : Vector2Int)
      → o.id ≡ id
      → o.cell_pos ≡ f id
      → get_object_type_by_id id ≡ player
      → contains id ids ≡ true
      → is_within_bounds r.map dest ≡ true
      → Changes r r' (zone_after r o dest)
      → PlayersPlaced r' ids (moved_to f id dest)
  placed_move r' o dest is_id at_f type has within ch =
      placed_after r r' _ ch ids (moved_to f id dest)
        (λ j h. elim (Bool-cases (j == id)) [
          | inl e ↦ rw e within
          | inr e ↦ rw e (placed.inside j h)
        ])
        (λ k z j h.
          let before = get_zone_index r (f id) in
          let after = get_zone_index r dest in
          let b = same_zone before after in
          let a = same_zone after (some k) in
          let d = same_zone before (some k) in
          rw (at_f, is_id, type)
            (contains-zone_if b a d j id z ∙ elim (Bool-cases (j == id)) [
              | inl e ↦
                  let is_j : j ≡ id = (==_iff j id).0 e in
                  let held : contains j z.players ≡ d =
                    rw is_j (placed.held k z id h ∙ rw has refl) in
                  let known : contains j ids ≡ true = rw is_j has in
                  rw (held, known, ==_sym id j, e)
                    (goes b a d (λ p. ap (λ i. same_zone i (some k)) (same_zone_eq before after p)))
              | inr e ↦ rw (==_sym id j, e) (stays b a d _ ∙ placed.held k z j h)
            ]))
    where
      goes :
          (b a d : Bool)
          → (b ≡ true → d ≡ a)
          → (if b then d else if a then true || d else if d then not true && d else d) ≡ (true && a)
      goes true a d h = h refl
      goes false true d h = refl
      goes false false true h = refl
      goes false false false h = refl

      stays :
          (b a d c : Bool)
          → (if b then c else if a then false || c else if d then not false && c else c) ≡ c
      stays true a d c = refl
      stays false true d c = refl
      stays false false true c = refl
      stays false false false c = refl
