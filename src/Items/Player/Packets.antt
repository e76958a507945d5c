-- ===== src/Items/Player/Packets.antt =====
-- Every item packet keeps the inventory tidy and one item in each place. The packets are those that
-- `Room::HandleEquipItemPacket` and its two kin pass on to the player (GameServer/Room.cpp).
use mmo_server_cpp.Base.{
  ℕ, ◌≡◌, refl, sym, ◌∙◌, List, [], ◌∷◌, Option, none, some, Bool, ◌==◌, if◌then◌else◌, erase,
  Bool-cases, inl, inr, lookup-erase,
}
use mmo_server_cpp.Items.Item.{Item, Kind, weapon, armor, consumable}
use mmo_server_cpp.Items.Inventory.{Inventory, key_of, at_key, get}
use mmo_server_cpp.Items.Player.{
  Player, handle_equip_item, use_kind, use_found, handle_use_item, drop_found, handle_drop_item,
}
use mmo_server_cpp.Items.Player.Laws.{IsDressed, handle_equip_item-IsDressed}
use mmo_server_cpp.Items.Player.Places.{IsExclusive}
use mmo_server_cpp.Items.Inventory.Laws.{erase-IsTidy}
use mmo_server_cpp.Items.Player.Effects.{IsEmptied}

still_there :
    (k slot : ℕ) (before after : Inventory) {a : Item}
    → IsEmptied before slot after
    → at_key after k ≡ some a
    → at_key before k ≡ some a
still_there k slot before after {a} gone h = elim (Bool-cases (key_of slot == k)) [
  | inl same ↦
      let g : at_key after k ≡ (if key_of slot == k then none else at_key before k) = gone k in
      cc (h, rw same at g)
  | inr off ↦
      let g : at_key after k ≡ (if key_of slot == k then none else at_key before k) = gone k in
      sym (rw off at g) ∙ h
]

emptied-IsExclusive :
    (slot : ℕ) (before after : Inventory)
    → IsEmptied before slot after
    → IsExclusive before
    → IsExclusive after
emptied-IsExclusive slot before after gone e i j a b ha hb =
    e i j a b (still_there i slot before after gone ha) (still_there j slot before after gone hb)

erase-IsDressed :
    (p q : Player) (slot : ℕ)
    → q.inventory ≡ erase (key_of slot) p.inventory
    → IsDressed p
    → IsDressed q
erase-IsDressed p q slot e d = record {
  tidy = rw e (erase-IsTidy (key_of slot) p.inventory d.tidy);
  exclusive = rw e (
      emptied-IsExclusive slot p.inventory (erase (key_of slot) p.inventory)
        (λ k. lookup-erase (key_of slot) k p.inventory) d.exclusive);
}

drop_found-IsDressed :
    (p : Player) (slot : ℕ) (o : Option Item)
    → get p.inventory slot ≡ o
    → IsDressed p
    → IsDressed (drop_found p slot o)
unfolding drop_found
drop_found-IsDressed p slot none e d = d
drop_found-IsDressed p slot (some x) e d = erase-IsDressed p _ slot (rw e refl) d

use_kind-IsDressed :
    (p : Player) (slot : ℕ) (x : Item) (kind : Kind)
    → get p.inventory slot ≡ some x
    → IsDressed p
    → IsDressed (use_kind p slot kind)
unfolding use_kind
use_kind-IsDressed p slot x (weapon t m) e d = d
use_kind-IsDressed p slot x (armor t m) e d = d
use_kind-IsDressed p slot x (consumable t m c) e d = elim (Bool-cases (p.hp == p.max_hp)) [
  | inl full ↦ rw full d
  | inr hurt ↦ rw hurt (erase-IsDressed p _ slot (rw e refl) d)
]

use_found-IsDressed :
    (p : Player) (slot : ℕ) (o : Option Item)
    → get p.inventory slot ≡ o
    → IsDressed p
    → IsDressed (use_found p slot o)
unfolding use_found
use_found-IsDressed p slot none e d = d
use_found-IsDressed p slot (some x) e d = use_kind-IsDressed p slot x x.kind e d

-- The packets of a player about its items.
pub data Packet : Type 0 where
  c_equip_item : (slot : ℕ) (equipped : Bool) → Packet
  c_use_item : (slot : ℕ) → Packet
  c_drop_item : (slot : ℕ) → Packet

pub handle : Player → Packet → Player
unfolding handle_equip_item handle_use_item handle_drop_item
handle p (c_equip_item slot equipped) = handle_equip_item p slot equipped
handle p (c_use_item slot) = handle_use_item p slot
handle p (c_drop_item slot) = handle_drop_item p slot

pub handle_all : Player → List Packet → Player
unfolding handle
handle_all p [] = p
handle_all p (packet ∷ packets) = handle_all (handle p packet) packets

handle-IsDressed : (p : Player) (packet : Packet) → IsDressed p → IsDressed (handle p packet)
unfolding handle
handle-IsDressed p (c_equip_item slot equipped) d = handle_equip_item-IsDressed p slot equipped d
handle-IsDressed p (c_use_item slot) d = use_found-IsDressed p slot (get p.inventory slot) refl d
handle-IsDressed p (c_drop_item slot) d = drop_found-IsDressed p slot (get p.inventory slot) refl d

-- Whatever item packets a client sends, in any order and for any slots of an `int32`, which are cut to
-- the `int16` of a key: an inventory that is tidy, with one item in each place, stays tidy,
-- and never are two weapons, or two armors of one type, equipped at once.
pub handle_all-IsDressed :
    (p : Player) (packets : List Packet) → IsDressed p → IsDressed (handle_all p packets)
unfolding handle_all
handle_all-IsDressed p [] d = d
handle_all-IsDressed p (packet ∷ packets) d =
    handle_all-IsDressed (handle p packet) packets (handle-IsDressed p packet d)
