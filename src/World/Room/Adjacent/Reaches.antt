-- ===== src/World/Room/Adjacent/Reaches.antt =====
-- Whom `Broadcast` reaches, in a room whose zones hold what stands in them.
use mmo_server_cpp.Base.{
  ℕ, ◌<◌, ◌≡◌, refl, ◌∙◌, sym, ap, inl, inr, List, [], ◌∷◌, some, Bool, true, false, ◌&&◌, ◌==◌,
  ==_iff, arith, Bool-cases, contains,
}
use mmo_server_cpp.World.Vector.{Vector2Int, ==ᵥ_refl}
use mmo_server_cpp.World.Grid.{cell}
use mmo_server_cpp.World.Map.{is_within_bounds}
use mmo_server_cpp.World.Room.{Zone, Room, get_zone_index, same_zone}
use mmo_server_cpp.World.Room.Zones.{IsReady}
use mmo_server_cpp.World.Room.Adjacent.{
  k_range, gather, get_adjacent_zones, within, keep_within, get_adjacent_players, broadcast,
}
use mmo_server_cpp.World.Room.Adjacent.Covers.{gathers, adjacent_sound, adjacent_complete}

-- The objects `ids` of one kind stand within the map, and a zone holds those of them that stand in
-- it and nothing else.
pub record IsPlaced (kind : Zone → List ℕ) (r : Room) (ids : List ℕ) (cell_of : ℕ → Vector2Int)
    : Type 0 where
  pub inside : (id : ℕ) → contains id ids ≡ true → is_within_bounds r.map (cell_of id) ≡ true
  pub held :
      (k : Vector2Int) (z : Zone) (id : ℕ)
      → cell r.zones k ≡ some z
      → contains id (kind z)
        ≡ (contains id ids && same_zone (get_zone_index r (cell_of id)) (some k))

contains-keep_within :
    (range : ℕ) (p : Vector2Int) (cell_of : ℕ → Vector2Int) (ids : List ℕ) (id : ℕ)
    → contains id (keep_within range p cell_of ids)
      ≡ (contains id ids && within range p (cell_of id))
unfolding contains keep_within
contains-keep_within range p cell_of [] id = refl
contains-keep_within range p cell_of (x ∷ ids) id =
    let ih = contains-keep_within range p cell_of ids id in
    elim (Bool-cases (x == id)) [
      | inl e ↦
          let same : x ≡ id = (==_iff x id).0 e in
          let there = ap (λ y. within range p (cell_of y)) same in ground (arith, ih, there)
      | inr e ↦ ground (arith, ih)
    ]

module _ (kind : Zone → List ℕ) (r : Room) (ids : List ℕ) (cell_of : ℕ → Vector2Int)
    (ready : IsReady r) (size : 0 < r.zone_cell_size) (placed : IsPlaced kind r ids cell_of) where
  gathers-near :
      (p : Vector2Int) (range id : ℕ)
      → contains id ids ≡ true
      → within range p (cell_of id) ≡ true
      → gathers kind id (get_adjacent_zones r p range) ≡ true
  gathers-near p range id has near =
      let (i, z, at_i, e) = ready.zoned (cell_of id) (placed.inside id has) in
      adjacent_complete kind id r p (cell_of id) i range z size near at_i e
        (placed.held i z id e ∙ rw (has, at_i) (==ᵥ_refl i))

  gathers-known :
      (p : Vector2Int) (range id : ℕ)
      → gathers kind id (get_adjacent_zones r p range) ≡ true
      → contains id ids ≡ true
  gathers-known p range id h =
      let (i, z, e, has) = adjacent_sound kind id r p range h in
      first _ _ (sym (placed.held i z id e) ∙ has)
    where
      first : (a b : Bool) → (a && b) ≡ true → a ≡ true
      first a b e = ground arith

  -- The objects near `p` are exactly those in range.
  pub near_lem :
      (p : Vector2Int) (range id : ℕ)
      → contains id (keep_within range p cell_of (gather kind (get_adjacent_zones r p range)))
        ≡ (contains id ids && within range p (cell_of id))
  near_lem p range id =
      contains-keep_within range p cell_of _ id
      ∙ both _ (contains id ids) (within range p (cell_of id)) (gathers-known p range id)
          (gathers-near p range id)
    where
      both :
          (a b c : Bool)
          → (a ≡ true → b ≡ true)
          → (b ≡ true → c ≡ true → a ≡ true)
          → (a && c) ≡ (b && c)
      both a true true f g = rw (g refl refl) refl
      both true true false f g = refl
      both false true false f g = refl
      both true false c f g = cc (f refl)
      both false false c f g = refl

-- In a ready room whose zones hold the players that stand in them, a broadcast at a cell goes to
-- exactly the players of the room that are at most ten cells away in either direction.
pub broadcast_lem :
    (r : Room) (players : List ℕ) (cell_of : ℕ → Vector2Int) (p : Vector2Int) (id : ℕ)
    → IsReady r
    → 0 < r.zone_cell_size
    → IsPlaced (λ z. z.players) r players cell_of
    → contains id (broadcast cell_of r p) ≡ (contains id players && within k_range p (cell_of id))
unfolding broadcast get_adjacent_players
broadcast_lem r players cell_of p id ready size placed =
    near_lem (λ z. z.players) r players cell_of ready size placed p k_range id
