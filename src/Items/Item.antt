-- ===== src/Items/Item.antt =====
-- GameServer/Item.h and Item.cpp. The data sheets (`g_data_manager`) are read from files that the
-- server loads; they are a parameter, a function from the id of a sheet to its contents.
use mmo_server_cpp.Base.{ℕ, ◌≡◌, sym, ap, Option, none, some, Bool, false, ltb}

-- `ItemData` with its subclasses. Damages, defences and counts are never negative.
pub data ItemData : Type 0 where
  weapon_data : (id weapon_type damage : ℕ) → ItemData
  armor_data : (id armor_type defence : ℕ) → ItemData
  consumable_data : (id consumable_type damage max_count : ℕ) → ItemData

-- The subclass of an item, with the fields that it adds.
pub data Kind : Type 0 where
  weapon : (weapon_type damage : ℕ) → Kind
  armor : (armor_type defence : ℕ) → Kind
  consumable : (consumable_type damage max_count : ℕ) → Kind

pub record Item : Type 0 where
  pub kind : Kind
  pub item_db_id : ℕ
  pub data_sheet_id : ℕ
  pub count : ℕ
  pub slot : ℕ
  pub equipped : Bool
  pub stackable : Bool

-- A row of the table of items.
pub record ItemDb : Type 0 where
  pub item_db_id : ℕ
  pub data_sheet_id : ℕ
  pub count : ℕ
  pub slot : ℕ
  pub equipped : Bool

-- The constructors, which call `Init`: what a sheet makes of a new item.
abbrev pub init : ItemData → Item
init (weapon_data id weapon_type damage) = record {
  kind = weapon weapon_type damage;
  item_db_id = 0;
  data_sheet_id = id;
  count = 1;
  slot = 0;
  equipped = false;
  stackable = false;
}
init (armor_data id armor_type defence) = record {
  kind = armor armor_type defence;
  item_db_id = 0;
  data_sheet_id = id;
  count = 1;
  slot = 0;
  equipped = false;
  stackable = false;
}
init (consumable_data id consumable_type damage max_count) = record {
  kind = consumable consumable_type damage max_count;
  item_db_id = 0;
  data_sheet_id = id;
  count = 1;
  slot = 0;
  equipped = false;
  stackable = ltb 1 max_count;
}

fill_in : ItemDb → Option ItemData → Option Item
fill_in row none = none
fill_in row (some sheet) = some (record (init sheet) {
  item_db_id = row.item_db_id;
  data_sheet_id = row.data_sheet_id;
  count = row.count;
  slot = row.slot;
  equipped = row.equipped;
})

-- `MakeItem`; an id without a sheet is a dereference of `nullptr`, here `none`.
unfoldable pub make_item : (ℕ → Option ItemData) → ItemDb → Option Item
unfolding fill_in
make_item sheets row = fill_in row (sheets row.data_sheet_id)

slot_or : ℕ → Option Item → ℕ
slot_or n none = n
slot_or n (some item) = item.slot

filled-slot :
    (row : ItemDb) (sheet : Option ItemData) (item : Item)
    → fill_in row sheet ≡ some item
    → item.slot ≡ row.slot
unfolding fill_in slot_or
filled-slot row none item e = cc
filled-slot row (some sheet) item e = sym (ap (slot_or 0) e)

-- An item is made with the slot of its row.
pub make_item-slot :
    (sheets : ℕ → Option ItemData) (row : ItemDb) (item : Item)
    → make_item sheets row ≡ some item
    → item.slot ≡ row.slot
unfolding make_item
make_item-slot sheets row item e = filled-slot row (sheets row.data_sheet_id) item e

-- An item whose sheet is there is made.
pub make_item-defined :
    (sheets : ℕ → Option ItemData) (row : ItemDb) {sheet : ItemData}
    → sheets row.data_sheet_id ≡ some sheet
    → (item : Item) × (make_item sheets row ≡ some item)
unfolding make_item fill_in
make_item-defined sheets row e = (_, ap (fill_in row) e)
