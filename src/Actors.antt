-- ===== src/Actors.antt =====
-- Who acts in a room: directions, damage, and the monsters.
pub mod Facing
pub mod Damage
pub mod Monster
pub mod Moves
pub mod Skill
pub mod Arrow
pub mod Crowd
pub mod View
