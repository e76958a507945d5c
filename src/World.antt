-- ===== src/World.antt =====
-- The world of GameServer: cells, the map of a room, and its zones.
pub mod Vector
pub mod Grid
pub mod Map
pub mod Room
pub mod Path
