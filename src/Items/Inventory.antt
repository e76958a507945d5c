-- ===== src/Items/Inventory.antt =====
-- GameServer/Inventory.h and Inventory.cpp.
pub mod Laws
pub mod Slots
use mmo_server_cpp.Base.{
  ℕ, zero, suc, ◌+◌, List, [], ◌∷◌, Option, none, some, Bool, true, false, ltb, ◌==◌, if◌then◌else◌,
  ◌%◌, ◌^◌, lookup, erase,
}
use mmo_server_cpp.Items.Item.{Item}

-- `_items`, a `std::map`: the entries in the order of their keys.
abbrev pub Inventory : Type 0
Inventory = List (ℕ × Item)

-- `_items[k] = item`
unfoldable pub put : ℕ → Item → Inventory → Inventory
put k item [] = (k, item) ∷ []
put k item ((j, other) ∷ rest) =
    if k == j
    then (k, item) ∷ rest
    else if ltb k j
    then (k, item) ∷ (j, other) ∷ rest
    else (j, other) ∷ put k item rest

-- A slot is an `int32`, a key of `_items` an `int16`: the conversion keeps the lower 16 bits. Here
-- both stand by their two's complement, and items stand in slots below 2^15, in whose range the order
-- of the keys is that of the numbers.
unfoldable pub key_of : ℕ → ℕ
key_of slot = slot % 2 ^ 16

abbrev pub add : Inventory → Item → Inventory
add items item = put (key_of item.slot) item items

-- What stands under a key.
abbrev pub at_key : Inventory → ℕ → Option Item
at_key items k = lookup k items

-- `Get`; `none` is `nullptr`.
abbrev pub get : Inventory → ℕ → Option Item
get items slot = at_key items (key_of slot)

abbrev count_of : Option Item → ℕ
count_of none = 0
count_of (some item) = 1

-- `Erase`, with the number of entries that went.
abbrev pub erase_slot : Inventory → ℕ → Inventory × ℕ
erase_slot items slot = (erase (key_of slot) items, count_of (get items slot))

-- `FindIf`, with the key under which the item stands.
unfoldable pub find_if : (Item → Bool) → Inventory → Option (ℕ × Item)
find_if p [] = none
find_if p ((k, item) ∷ rest) = if p item then some (k, item) else find_if p rest

-- `item->SetEquipped(equipped)` for the item that stands under `k`.
unfoldable pub set_equipped : ℕ → Bool → Inventory → Inventory
set_equipped k equipped [] = []
set_equipped k equipped ((j, item) ∷ rest) =
    if j == k
    then (j, record item { equipped = equipped }) ∷ rest
    else (j, item) ∷ set_equipped k equipped rest

abbrev pub slot_count : ℕ
slot_count = 20

is_end : Option (ℕ × Item) → Bool
is_end none = true
is_end (some entry) = false

-- The loop of `GetEmptySlot` from `slot` on, with `left` rounds to go.
unfoldable pub empty_slot_from : ℕ → ℕ → Inventory → Option ℕ
unfolding is_end
empty_slot_from zero slot items = none
empty_slot_from (suc left) slot items =
    let later = empty_slot_from left (slot + 1) items in
    if is_end (find_if (λ item. item.slot == slot) items) then some slot else later

unfoldable pub get_empty_slot : Inventory → Option ℕ
unfolding empty_slot_from find_if
get_empty_slot items = empty_slot_from slot_count 0 items
