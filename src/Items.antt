-- ===== src/Items.antt =====
-- What players own: items, the inventory, and the packets about them.
pub mod Item
pub mod Inventory
pub mod Reward
pub mod Player
