-- ===== src/World/Vector.antt =====
-- `Vector2Int` of GameServer/Types.h, and division as C++ does it.
use mmo_server_cpp.Base.{ℕ, zero, suc, ◌+◌, ◌/◌, ◌≡◌, Bool, true, ◌&&◌, arith}
use mmo_server_cpp.Base.Int.{ℤ, pos, negsuc, ◌+ℤ◌, ◌-ℤ◌, abs, ◌==ℤ◌, eq_of_parts}

pub record Vector2Int : Type 0 where
  pub x : ℤ
  pub y : ℤ

-- `operator==`
infix 50 ◌==ᵥ◌
abbrev pub ◌==ᵥ◌ : Vector2Int → Vector2Int → Bool
a ==ᵥ b = (a.x ==ℤ b.x) && (a.y ==ℤ b.y)

-- `operator+` and `operator-`
abbrev pub plus : Vector2Int → Vector2Int → Vector2Int
plus a b = record { x = a.x +ℤ b.x; y = a.y +ℤ b.y }

abbrev pub minus : Vector2Int → Vector2Int → Vector2Int
minus a b = record { x = a.x -ℤ b.x; y = a.y -ℤ b.y }

-- `SimpleDistance`
abbrev pub simple_distance : Vector2Int → ℕ
simple_distance d = abs d.x + abs d.y

abbrev pub negated : ℕ → ℤ
negated zero = pos 0
negated (suc n) = negsuc n

-- `a / d` rounds towards 0; `d` is positive here.
unfoldable pub quot : ℤ → ℕ → ℤ
quot (pos n) d = pos (n / d)
quot (negsuc n) d = negated (suc n / d)

pub ==ᵥ_eq : (a b : Vector2Int) → (a ==ᵥ b) ≡ true → a ≡ b
==ᵥ_eq a b h = ground (arith, eq_of_parts a.x b.x, eq_of_parts a.y b.y)

pub ==ᵥ_refl : (a : Vector2Int) → (a ==ᵥ a) ≡ true
==ᵥ_refl a = ground arith
