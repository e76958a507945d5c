-- ===== src/Items/Reward/Drawn.antt =====
-- Which reward `GetRandomReward` draws (GameServer/Monster.cpp).
use mmo_server_cpp.Base.{
  ℕ, ◌+◌, ◌<◌, ◌≤◌, ◌≡◌, ◌⊎◌, inl, inr, refl, ap, List, [], ◌∷◌, ◌++◌, none, some, leb, arith,
  Bool-cases,
}
use mmo_server_cpp.Items.Reward.{RewardData, reward_from, get_random_reward}

abbrev pub total : List RewardData → ℕ
total [] = 0
total (r ∷ rs) = r.probability + total rs

reward_from_lem :
    (base sum : ℕ) (rs : List RewardData)
    → sum < base
    → ((reward_from base sum rs ≡ none) × (sum + total rs < base))
      ⊎ ((before : List RewardData) × (r : RewardData) × (after : List RewardData) × (reward_from
              base sum rs
            ≡ some r)
          × (rs ≡ before ++ r ∷ after)
          × (sum + total before < base)
          × (base ≤ sum + total before + r.probability))
unfolding reward_from
reward_from_lem base sum [] h = inl (refl, omega arith)
reward_from_lem base sum (r ∷ rs) h = elim (Bool-cases (leb base (sum + r.probability))) [
  | inl reached ↦ inr ([], r, rs, rw reached refl, refl, omega arith, ground arith)
  | inr further ↦ elim (reward_from_lem base (sum + r.probability) rs (ground arith)) [
    | inl (missed, low) ↦ inl (rw further missed, omega arith)
    | inr (before, drawn, after, found, split, low, high) ↦
        inr (r ∷ before, drawn, after, rw further found, ap (◌∷◌ r) split, omega arith, omega arith)
  ]
]

-- The reward that is drawn is the one where the probabilities, added up in their order, reach the
-- number that was drawn; there is none exactly when all of them together stay below it.
pub get_random_reward_lem :
    (base : ℕ) (rs : List RewardData)
    → 0 < base
    → ((get_random_reward base rs ≡ none) × (total rs < base))
      ⊎ ((before : List RewardData) × (r : RewardData) × (after : List RewardData)
          × (get_random_reward base rs ≡ some r)
          × (rs ≡ before ++ r ∷ after)
          × (total before < base)
          × (base ≤ total before + r.probability))
unfolding get_random_reward
get_random_reward_lem base rs h = elim (reward_from_lem base 0 rs h) [
  | inl (missed, low) ↦ inl (missed, omega arith)
  | inr (before, r, after, found, split, low, high) ↦
      inr (before, r, after, found, split, omega arith, omega arith)
]
