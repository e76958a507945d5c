-- ===== src/Items/Player.antt =====
-- The item packets of GameServer/Player.cpp: `RefreshStat`, `HandleEquipItemPacket`,
-- `HandleUseItemPacket` and `HandleDropItemPacket`.
pub mod Places
pub mod Laws
pub mod Effects
pub mod Packets
use mmo_server_cpp.Base.{
  ℕ, ◌+◌, List, [], ◌∷◌, ◌++◌, Option, none, some, Bool, true, false, ◌==◌, ◌&&◌, if◌then◌else◌,
}
use mmo_server_cpp.Items.Item.{Item, Kind, weapon, armor, consumable}
use mmo_server_cpp.Items.Inventory.{Inventory, key_of, get, erase_slot, find_if, set_equipped}

-- What a handler sends to the client and asks of the database, in order. The jobs of the database are
-- given an item, which is named here by the key under which it stands.
pub data Notice : Type 0 where
  equip_item_noti : (key : ℕ) (equipped : Bool) → Notice
  drop_item_noti : (key : ℕ) → Notice
  s_equip_item : (slot : ℕ) (equipped : Bool) → Notice
  s_change_hp : (hp : ℕ) → Notice
  s_use_item : (slot : ℕ) → Notice
  s_drop_item : (slot : ℕ) → Notice

-- `hp`, `max_hp` and `attack` are those of the `StatInfo`.
pub record Player : Type 0 where
  pub inventory : Inventory
  pub weapon_damage : ℕ
  pub armor_defence : ℕ
  pub hp : ℕ
  pub max_hp : ℕ
  pub attack : ℕ
  pub notices : List Notice

abbrev pub tell : Player → List Notice → Player
tell p ns = record p { notices = p.notices ++ ns }

abbrev pub damage_of : Kind → ℕ
damage_of (weapon weapon_type damage) = damage
damage_of (armor armor_type defence) = 0
damage_of (consumable consumable_type damage max_count) = 0

abbrev pub defence_of : Kind → ℕ
defence_of (weapon weapon_type damage) = 0
defence_of (armor armor_type defence) = defence
defence_of (consumable consumable_type damage max_count) = 0

-- One round of the loop of `RefreshStat`.
abbrev pub count_item : Player → Item → Player
count_item p item =
    if item.equipped
    then record p {
      weapon_damage = p.weapon_damage + damage_of item.kind;
      armor_defence = p.armor_defence + defence_of item.kind;
    }
    else p

pub count_items : Player → Inventory → Player
count_items p [] = p
count_items p ((k, item) ∷ rest) = count_items (count_item p item) rest

unfoldable pub refresh_stat : Player → Player
unfolding count_items
refresh_stat p =
    let q = count_items (record p { weapon_damage = 30; armor_defence = 0 }) p.inventory in
    record q { weapon_damage = q.weapon_damage + q.attack }

-- `WEAPON_TYPE_BOW`
abbrev pub bow : ℕ
bow = 2

-- Equipping `chosen` takes off an equipped item of this kind. The source compares armor types
-- through pointers to `Weapon`; both classes have their type as their first own field.
abbrev pub same_place : Kind → Kind → Bool
same_place (weapon t d) (weapon u e) = true
same_place (weapon t d) (armor u e) = false
same_place (weapon t d) (consumable u e m) = false
same_place (armor t d) (weapon u e) = false
same_place (armor t d) (armor u e) = u == t
same_place (armor t d) (consumable u e m) = false
same_place (consumable t d m) other = false

abbrev pub can_equip : Kind → Bool
can_equip (weapon weapon_type damage) = weapon_type == bow
can_equip (armor armor_type defence) = true
can_equip (consumable consumable_type damage max_count) = false

-- `if (to_unequip_item) …`
pub unequip : Player → Option (ℕ × Item) → Player
unequip p none = p
unequip p (some (k, item)) =
    tell (record p { inventory = set_equipped k false p.inventory })
      (equip_item_noti k false ∷ s_equip_item item.slot false ∷ [])

-- What is worn in the place of `chosen`.
abbrev pub worn : Kind → Item → Bool
worn chosen item = item.equipped && same_place chosen item.kind

pub equip : Player → ℕ → Bool → Player
equip p slot equipped = refresh_stat (
    tell (record p { inventory = set_equipped (key_of slot) equipped p.inventory })
      (equip_item_noti (key_of slot) equipped ∷ s_equip_item slot equipped ∷ []))

equip_found : Player → ℕ → Bool → Option Item → Player
unfolding unequip equip
equip_found p slot equipped none = p
equip_found p slot equipped (some item) =
    if can_equip item.kind
    then equip (if equipped then unequip p (find_if (worn item.kind) p.inventory) else p) slot
        equipped
    else p

-- `HandleEquipItemPacket` on a packet with `slot` and `equipped`.
pub handle_equip_item : Player → ℕ → Bool → Player
unfolding equip_found
handle_equip_item p slot equipped = equip_found p slot equipped (get p.inventory slot)

-- The last part of `HandleUseItemPacket`.
consume : Player → ℕ → ℕ → Player
consume p slot damage =
    let healed = record p { hp = damage + p.hp } in
    let (items, gone) = erase_slot p.inventory slot in
    if gone == 0
    then healed
    else tell (record healed { inventory = items })
        (drop_item_noti (key_of slot) ∷ s_change_hp healed.hp ∷ s_use_item slot ∷ [])

use_kind : Player → ℕ → Kind → Player
unfolding consume
use_kind p slot (weapon weapon_type damage) = p
use_kind p slot (armor armor_type defence) = p
use_kind p slot (consumable consumable_type damage max_count) =
    if p.hp == p.max_hp then p else consume p slot damage

use_found : Player → ℕ → Option Item → Player
unfolding use_kind
use_found p slot none = p
use_found p slot (some item) = use_kind p slot item.kind

pub handle_use_item : Player → ℕ → Player
unfolding use_found
handle_use_item p slot = use_found p slot (get p.inventory slot)

drop_found : Player → ℕ → Option Item → Player
drop_found p slot none = p
drop_found p slot (some item) =
    let (items, gone) = erase_slot p.inventory slot in
    if gone == 0
    then p
    else tell (record p { inventory = items })
        (drop_item_noti (key_of slot) ∷ s_drop_item slot ∷ [])

pub handle_drop_item : Player → ℕ → Player
unfolding drop_found
handle_drop_item p slot = drop_found p slot (get p.inventory slot)
