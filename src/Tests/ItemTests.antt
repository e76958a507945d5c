-- ===== src/Tests/ItemTests.antt =====
-- Tests of the inventory and of the item packets.
use mmo_server_cpp.Items.Reward.{RewardData, Owner, Job, rewards, inserts, adds, do_jobs}
use mmo_server_cpp.Items.Reward.Given.{given, settled, HasLost}
use mmo_server_cpp.Items.Reward.Lost.{do_jobs-in_a_row}
use mmo_server_cpp.Base.{
  ℕ, ◌+◌, ◌≡◌, ◌≢◌, ◌∙◌, sym, ◌⊎◌, refl, List, [], ◌∷◌, ◌++◌, Option, none, some, Bool, true, false,
  arith, lookup,
}
use mmo_server_cpp.Items.Item.{ItemData, consumable_data, Item, Kind, weapon, consumable}
use mmo_server_cpp.Items.Inventory.{Inventory, key_of, at_key, get_empty_slot, find_if}
use mmo_server_cpp.Items.Inventory.Laws.{IsTidy}
use mmo_server_cpp.Items.Player.{Player, handle_use_item, worn}
use mmo_server_cpp.Items.Player.Laws.{IsDressed}
use mmo_server_cpp.Items.Player.Effects.{IsEmptied, handle_use_item_lem}
use mmo_server_cpp.Items.Player.Packets.{
  Packet, c_equip_item, c_use_item, c_drop_item, handle_all, handle_all-IsDressed,
}

abbrev item : Kind → ℕ → Bool → Item
item kind slot equipped = record {
  kind = kind;
  item_db_id = 100 + slot;
  data_sheet_id = 7;
  count = 1;
  slot = slot;
  equipped = equipped;
  stackable = false;
}

-- Two bows, one of them in use, and a potion.
abbrev bag : Inventory
bag =
    (0, item (weapon 2 10) 0 true)
    ∷ (1, item (weapon 2 25) 1 false)
    ∷ (3, item (consumable 1 40 5) 3 false)
    ∷ []

abbrev archer : Player
archer = record {
  inventory = bag;
  weapon_damage = 0;
  armor_defence = 0;
  hp = 90;
  max_hp = 100;
  attack = 5;
  notices = [];
}

bag-IsTidy : IsTidy bag
bag-IsTidy = omega arith

equipped_at : (k : ℕ) {a : Item} → at_key bag k ≡ some a → a.equipped ≡ true → k ≡ 0
unfolding lookup
equipped_at k h e = ground arith

archer-IsDressed : IsDressed archer
archer-IsDressed = record {
  tidy = bag-IsTidy;
  exclusive = λ k l a b ha hb ea wb.
      equipped_at k ha ea ∙ sym (equipped_at l hb (worn_equipped a.kind b wb));
}
  where
    worn_equipped : (c : Kind) (b : Item) → worn c b ≡ true → b.equipped ≡ true
    worn_equipped c b w = ground arith

-- The last packet is about the slot 65536, which is cut to the key 0.
abbrev packets : List Packet
packets = c_equip_item 1 true ∷ c_use_item 3 ∷ c_drop_item 0x1_0000 ∷ []

handle_all-IsDressed_example : IsDressed (handle_all archer packets)
handle_all-IsDressed_example = handle_all-IsDressed archer packets archer-IsDressed

handle_use_item_lem_example :
    ((archer.hp ≡ archer.max_hp) × (handle_use_item archer 3 ≡ archer))
    ⊎ ((archer.hp ≢ archer.max_hp)
        × ((handle_use_item archer 3).hp ≡ archer.hp + 40)
        × IsEmptied archer.inventory 3 (handle_use_item archer 3).inventory)
unfolding lookup key_of
handle_use_item_lem_example =
    handle_use_item_lem archer 3 1 40 5 (item (consumable 1 40 5) 3 false) refl refl

-- Two potions in a row for the owner of the bag.
abbrev potion : RewardData
potion = record { probability = 10; item_id = 7; count = 1 }

abbrev gem : RewardData
gem = record { probability = 10; item_id = 8; count = 2 }

abbrev owner : Owner
owner = record { inventory = bag; saving = []; adding = []; rows = []; s_add_item = [] }

abbrev all_potions : ℕ → Option ItemData
all_potions id = some (consumable_data id 1 40 5)

bag_free : get_empty_slot bag ≡ some 2
unfolding get_empty_slot find_if
bag_free = refl

-- The second reward is given after the row of the first has been inserted.
abbrev giving : List Job
giving = rewards potion ∷ inserts (some 31) ∷ rewards gem ∷ []

abbrev adding : List Job
adding = adds all_potions ∷ inserts (some 32) ∷ adds all_potions ∷ []

do_jobs-in_a_row_example :
    (p : Owner) × (do_jobs (settled owner) (giving ++ adding) ≡ some p) × HasLost owner 2 2 p
unfolding given
do_jobs-in_a_row_example =
    do_jobs-in_a_row owner 2 giving adding bag_free (tt, (tt, (tt, tt)))
      (sheeted, (tt, (sheeted, tt)))
  where
    sheeted : (id : ℕ) → all_potions id ≢ none
    sheeted id e = cc e
