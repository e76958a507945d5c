-- ===== src/Items/Player/Effects.antt =====
-- What the item packets do: the stats, and the slot that is emptied.
use mmo_server_cpp.Base.{
  ℕ, ◌+◌, ◌≡◌, ◌≢◌, refl, ap, ◌∙◌, [], ◌∷◌, ◌++◌, none, some, Bool, true, false, ◌==◌,
  if◌then◌else◌, lookup, arith, Bool-cases, Option-cases, inl, inr, ◌⊎◌, lookup-erase,
}
use mmo_server_cpp.Items.Item.{Item, Kind, consumable}
use mmo_server_cpp.Items.Inventory.{Inventory, key_of, at_key, get, find_if}
use mmo_server_cpp.Items.Player.{
  Player, drop_item_noti, s_drop_item, damage_of, defence_of, count_item, count_items, refresh_stat,
  can_equip, worn, equip, equip_found, handle_equip_item, handle_use_item, handle_drop_item,
}
use mmo_server_cpp.Items.Player.Laws.{equip_inventory, unequip_there}
use mmo_server_cpp.Items.Inventory.Laws.{lookup-set_equipped}

-- What the equipped items add up to.
pub total : (Kind → ℕ) → Inventory → ℕ
total f [] = 0
total f ((k, item) ∷ rest) = (if item.equipped then f item.kind else 0) + total f rest

-- The totals are those of the items that are worn, on top of a base of 30 and the attack.
pub record IsFresh (p : Player) : Type 0 where
  pub damage : p.weapon_damage ≡ 30 + total damage_of p.inventory + p.attack
  pub defence : p.armor_defence ≡ total defence_of p.inventory

count_items_lem :
    (p : Player) (items : Inventory)
    → ((count_items p items).weapon_damage ≡ p.weapon_damage + total damage_of items)
      × ((count_items p items).armor_defence ≡ p.armor_defence + total defence_of items)
      × ((count_items p items).attack ≡ p.attack)
      × ((count_items p items).inventory ≡ p.inventory)
unfolding count_items total
count_items_lem p [] = (omega arith, omega arith, refl, refl)
count_items_lem p ((k, item) ∷ rest) =
    let ih = count_items_lem (count_item p item) rest in ground (arith, ih)

refresh_stat-IsFresh : (p : Player) → IsFresh (refresh_stat p)
unfolding refresh_stat
refresh_stat-IsFresh p =
    let q = record p { weapon_damage = 30; armor_defence = 0 } in
    let (d, f, a, i) = count_items_lem q p.inventory in
    record { damage = rw (i, a, d) (omega arith); defence = rw (i, f) (omega arith) }

equip-IsFresh : (p : Player) (slot : ℕ) (b : Bool) → IsFresh (equip p slot b)
unfolding equip
equip-IsFresh p slot b = refresh_stat-IsFresh _

-- What an equip packet did to the item in its slot, and to the stats.
pub record HasEquipped (x : Item) (slot : ℕ) (b : Bool) (q : Player) : Type 0 where
  pub item : Item
  pub there : get q.inventory slot ≡ some item
  pub kind : item.kind ≡ x.kind
  pub equipped : item.equipped ≡ b
  pub fresh : IsFresh q

equip-HasEquipped :
    (p : Player) (slot : ℕ) (b : Bool) (x y : Item)
    → get p.inventory slot ≡ some y
    → y.kind ≡ x.kind
    → HasEquipped x slot b (equip p slot b)
equip-HasEquipped p slot b x y there kind =
    let k = key_of slot in
    let same : (k == k) ≡ true = ground arith in
    record {
      item = record y { equipped = b };
      there =
          ap (lookup k) (equip_inventory p slot b)
          ∙ lookup-set_equipped k k b p.inventory
          ∙ rw (same, there) refl;
      kind = kind;
      equipped = refl;
      fresh = equip-IsFresh p slot b;
    }

equip_found-HasEquipped :
    (p : Player) (slot : ℕ) (b : Bool) (x : Item)
    → get p.inventory slot ≡ some x
    → can_equip x.kind ≡ true
    → HasEquipped x slot b (equip_found p slot b (some x))
unfolding equip_found
equip_found-HasEquipped p slot true x e can =
    let (y, there, kind) = unequip_there p (find_if (worn x.kind) p.inventory) (key_of slot) e in
    rw can (equip-HasEquipped _ slot true x y there kind)
equip_found-HasEquipped p slot false x e can = rw can (equip-HasEquipped p slot false x x e refl)

-- An equip packet for an item that can be equipped sets it as asked, and afterwards the stats of
-- the player are those of what is worn.
pub handle_equip_item_lem :
    (p : Player) (slot : ℕ) (b : Bool) (x : Item)
    → get p.inventory slot ≡ some x
    → can_equip x.kind ≡ true
    → HasEquipped x slot b (handle_equip_item p slot b)
unfolding handle_equip_item
handle_equip_item_lem p slot b x e can = rw e (equip_found-HasEquipped p slot b x e can)

-- The key of the slot is empty now, and the others are as they were.
abbrev pub IsEmptied : Inventory → ℕ → Inventory → Type 0
IsEmptied before slot after =
    (k : ℕ) → at_key after k ≡ (if key_of slot == k then none else at_key before k)

-- A drop packet for a taken slot empties that slot and no other, and tells the database and the
-- client; for an empty slot nothing happens.
pub handle_drop_item_lem :
    (p : Player) (slot : ℕ)
    → ((get p.inventory slot ≡ none) × (handle_drop_item p slot ≡ p))
      ⊎ ((get p.inventory slot ≢ none)
          × IsEmptied p.inventory slot (handle_drop_item p slot).inventory
          × ((handle_drop_item p slot).notices
              ≡ p.notices ++ (drop_item_noti (key_of slot) ∷ s_drop_item slot ∷ [])))
unfolding handle_drop_item
handle_drop_item_lem p slot = elim (Option-cases (get p.inventory slot)) [
  | inl gone ↦ inl (gone, rw gone refl)
  | inr (x, there) ↦ inr (
    λ e. cc (e, there),
    rw (there, there) (λ k. lookup-erase (key_of slot) k p.inventory),
    rw (there, there) refl,
  )
]

-- A use packet changes nothing unless a consumable is in the slot and the player is not at full
-- health; then its damage is added to the health, without a bound, and the slot is emptied.
pub handle_use_item_lem :
    (p : Player) (slot type damage max_count : ℕ) (x : Item)
    → get p.inventory slot ≡ some x
    → x.kind ≡ consumable type damage max_count
    → ((p.hp ≡ p.max_hp) × (handle_use_item p slot ≡ p))
      ⊎ ((p.hp ≢ p.max_hp)
          × ((handle_use_item p slot).hp ≡ p.hp + damage)
          × IsEmptied p.inventory slot (handle_use_item p slot).inventory)
unfolding handle_use_item
handle_use_item_lem p slot type damage max_count x there kind =
    elim (Bool-cases (p.hp == p.max_hp)) [
      | inl full ↦ inl (ground arith, rw (there, kind, full) refl)
      | inr hurt ↦ inr (
        ground arith,
        rw (there, kind, hurt, there) (omega arith),
        rw (there, kind, hurt, there) (λ k. lookup-erase (key_of slot) k p.inventory),
      )
    ]
