-- ===== src/Items/Reward.antt =====
-- The reward of a monster: `GetRandomReward` of GameServer/Monster.cpp and `SavePlayerReward` of
-- GameServer/DBSerializer.cpp, whose three parts run one after another on different threads.
pub mod Drawn
pub mod Given
pub mod Lost
use mmo_server_cpp.Base.{
  ℕ, ◌+◌, List, [], ◌∷◌, ◌++◌, Option, none, some, Bool, true, false, leb, if◌then◌else◌, ◌>>=◌,
}
use mmo_server_cpp.Items.Item.{Item, ItemData, ItemDb, make_item}
use mmo_server_cpp.Items.Inventory.{Inventory, add, get_empty_slot}

pub record RewardData : Type 0 where
  pub probability : ℕ
  pub item_id : ℕ
  pub count : ℕ

-- The loop of `GetRandomReward`; `base` is what `Random::GetRandom(10, 100)` has drawn.
unfoldable pub reward_from : ℕ → ℕ → List RewardData → Option RewardData
reward_from base sum [] = none
reward_from base sum (reward ∷ rewards) =
    if leb base (sum + reward.probability)
    then some reward
    else reward_from base (sum + reward.probability) rewards

unfoldable pub get_random_reward : ℕ → List RewardData → Option RewardData
get_random_reward base rewards = reward_from base 0 rewards

-- A player and the rewards that are on their way: `saving` are the jobs of the serializer, with the
-- slot that was chosen, `adding` those of the room. `rows` is the table of items, `s_add_item` what
-- was sent to the client.
pub record Owner : Type 0 where
  pub inventory : Inventory
  pub saving : List (RewardData × ℕ)
  pub adding : List ItemDb
  pub rows : List ItemDb
  pub s_add_item : List Item

-- Without an empty slot nothing happens.
unfoldable pub save_in : Owner → RewardData → Option ℕ → Owner
save_in o reward none = o
save_in o reward (some slot) = record o { saving = o.saving ++ (reward, slot) ∷ [] }

-- `SavePlayerReward`, up to its push of a job.
unfoldable pub save_player_reward : Owner → RewardData → Owner
save_player_reward o reward = save_in o reward (get_empty_slot o.inventory)

abbrev pub row_of : RewardData → ℕ → ℕ → ItemDb
row_of reward slot new_id = record {
  item_db_id = new_id;
  data_sheet_id = reward.item_id;
  count = reward.count;
  slot = slot;
  equipped = false;
}

-- The job of the serializer; `inserted` is the id of the new row, `none` where the query fails and
-- the job throws.
unfoldable pub insert_row : Owner → Option ℕ → List (RewardData × ℕ) → Option Owner
insert_row o inserted [] = some o
insert_row o inserted ((reward, slot) ∷ saving) = do
  new_id ← inserted
  let row = row_of reward slot new_id
  some (record o { saving = saving; adding = o.adding ++ row ∷ []; rows = o.rows ++ row ∷ [] })

-- The job of the room; an item without a sheet is a dereference of `nullptr`.
unfoldable pub add_row : Owner → (ℕ → Option ItemData) → List ItemDb → Option Owner
add_row o sheets [] = some o
add_row o sheets (row ∷ adding) = do
  item ← make_item sheets row
  some (record o {
    adding = adding;
    inventory = add o.inventory item;
    s_add_item = o.s_add_item ++ item ∷ [];
  })

pub data Job : Type 0 where
  rewards : RewardData → Job
  inserts : Option ℕ → Job
  adds : (ℕ → Option ItemData) → Job

unfoldable pub do_job : Owner → Job → Option Owner
do_job o (rewards reward) = some (save_player_reward o reward)
do_job o (inserts inserted) = insert_row o inserted o.saving
do_job o (adds sheets) = add_row o sheets o.adding

unfoldable pub do_jobs : Owner → List Job → Option Owner
do_jobs o [] = some o
do_jobs o (job ∷ jobs) = do p ← do_job o job; do_jobs p jobs
