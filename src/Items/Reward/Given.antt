-- ===== src/Items/Reward/Given.antt =====
-- The jobs of `SavePlayerReward`, one by one, where several rewards are given at once.
use mmo_server_cpp.Base.{
  ℕ, ◌+◌, ◌<◌, ◌≡◌, inl, inr, refl, ap, List, [], ◌∷◌, ◌++◌, Option, none, some, ◌==◌,
  if◌then◌else◌, arith, ◌≢◌, All, length, zero, suc, ◌∙◌, append_assoc, length-append, Option-cases,
  subst,
}
use mmo_server_cpp.Items.Item.{Item, ItemData, ItemDb, make_item, make_item-slot, make_item-defined}
use mmo_server_cpp.Items.Inventory.{
  Inventory, key_of, at_key, add, slot_count, empty_slot_from, get_empty_slot,
}
use mmo_server_cpp.Items.Inventory.Laws.{lookup-put}
use mmo_server_cpp.Items.Reward.{
  RewardData, Owner, save_in, save_player_reward, row_of, insert_row, add_row, Job, rewards,
  inserts, adds,
}

-- The jobs that run while rewards are given: nothing is added to the inventory yet, and no query
-- fails.
abbrev pub IsEarly : Job → Type 0
IsEarly (rewards reward) = Unit {0}
IsEarly (inserts none) = ⊥
IsEarly (inserts (some id)) = Unit {0}
IsEarly (adds sheets) = ⊥

-- The jobs that run afterwards: no more rewards, no query fails, and every item has a sheet.
abbrev pub IsLate : Job → Type 0
IsLate (rewards reward) = ⊥
IsLate (inserts none) = ⊥
IsLate (inserts (some id)) = Unit {0}
IsLate (adds sheets) = (id : ℕ) → sheets id ≢ none

unfoldable pub given : List Job → ℕ
given [] = 0
given (rewards reward ∷ jobs) = 1 + given jobs
given (inserts inserted ∷ jobs) = given jobs
given (adds sheets ∷ jobs) = given jobs

unfoldable pub last_or : Option Item → List Item → Option Item
last_or before [] = before
last_or before (item ∷ items) = last_or (some item) items

-- What became of `n` rewards: some wait for the serializer, some for the room, and some have been
-- sent; all of them have the same slot, and of those that were sent the inventory has the last.
pub record HasLost (o : Owner) (slot n : ℕ) (p : Owner) : Type 0 where
  pub new : List ItemDb
  pub sent : List Item
  pub saving_at : All (λ s. s.1 ≡ slot) p.saving
  pub adding_at : All (λ row. row.slot ≡ slot) p.adding
  pub stored : p.rows ≡ o.rows ++ new
  pub stored_at : All (λ row. row.slot ≡ slot) new
  pub told : p.s_add_item ≡ o.s_add_item ++ sent
  pub told_at : All (λ item. item.slot ≡ slot) sent
  pub none_missing : length p.saving + length p.adding + length sent ≡ n
  pub none_unstored : length new ≡ length p.adding + length sent
  pub kept :
      (k : ℕ)
      → at_key p.inventory k
        ≡ (if slot == k then last_or (at_key o.inventory k) sent else at_key o.inventory k)

-- An owner with no reward on its way.
unfoldable pub settled : Owner → Owner
settled o = record o { saving = []; adding = [] }

All-one_more {ℓ κ} :
    {A : Type ℓ} (P : A → Type κ) (xs : List A) (x : A) → All P xs → P x → All P (xs ++ x ∷ [])
All-one_more P [] x a h = (h, tt)
All-one_more P (y ∷ ys) x a h = (a.0, All-one_more P ys x a.1 h)

last_or-one_more :
    (before : Option Item) (items : List Item) (item : Item)
    → last_or before (items ++ item ∷ []) ≡ some item
unfolding last_or
last_or-one_more before [] item = refl
last_or-one_more before (x ∷ items) item = last_or-one_more (some x) items item

empty_slot_from_bound :
    (left slot : ℕ) (items : Inventory) (s : ℕ)
    → empty_slot_from left slot items ≡ some s
    → s < slot + left
unfolding empty_slot_from
empty_slot_from_bound zero slot items s e = absurd (cc e)
empty_slot_from_bound (suc left) slot items s e =
    let ih = empty_slot_from_bound left (slot + 1) items s in ground (arith, ih, e)

pub key_of_slot :
    (items : Inventory) (slot : ℕ) → get_empty_slot items ≡ some slot → key_of slot ≡ slot
unfolding get_empty_slot key_of
key_of_slot items slot e = omega (arith, empty_slot_from_bound slot_count 0 items slot e)

-- One job, on an owner for whom `n` rewards have the same slot.
abbrev pub LosesOn : Owner → ℕ → ℕ → Option Owner → (Owner → Type 0) → Type 0
LosesOn o slot n r also = (q : Owner) × (r ≡ some q) × HasLost o slot n q × also q

pub insert_row-HasLost :
    (o : Owner) (slot n : ℕ) (p : Owner) (id : ℕ) (saving : List (RewardData × ℕ))
    → p.saving ≡ saving
    → HasLost o slot n p
    → LosesOn o slot n (insert_row p (some id) saving) (λ q. q.inventory ≡ p.inventory)
unfolding insert_row
insert_row-HasLost o slot n p id [] e h = (p, refl, h, refl)
insert_row-HasLost o slot n p id ((reward, s) ∷ rest) e h =
    let row = row_of reward s id in
    let at = subst (All (λ (x : RewardData × ℕ). x.1 ≡ slot)) e h.saving_at in
    (
      record p { saving = rest; adding = p.adding ++ row ∷ []; rows = p.rows ++ row ∷ [] },
      refl,
      record {
        new = h.new ++ row ∷ [];
        sent = h.sent;
        saving_at = at.1;
        adding_at = All-one_more (λ (x : ItemDb). x.slot ≡ slot) p.adding row h.adding_at at.0;
        stored = ap (λ rows. rows ++ row ∷ []) h.stored ∙ append_assoc o.rows h.new (row ∷ []);
        stored_at = All-one_more (λ (x : ItemDb). x.slot ≡ slot) h.new row h.stored_at at.0;
        told = h.told;
        told_at = h.told_at;
        none_missing =
            omega (arith, h.none_missing, ap length e, length-append p.adding (row ∷ []));
        none_unstored = omega (
          arith,
          h.none_unstored,
          length-append p.adding (row ∷ []),
          length-append h.new (row ∷ []),
        );
        kept = h.kept;
      },
      refl,
    )

item_of :
    (sheets : ℕ → Option ItemData) (row : ItemDb)
    → ((id : ℕ) → sheets id ≢ none)
    → (item : Item) × (make_item sheets row ≡ some item)
item_of sheets row sheeted = elim (Option-cases (sheets row.data_sheet_id)) [
  | inl bad ↦ absurd (sheeted row.data_sheet_id bad)
  | inr (sheet, good) ↦ make_item-defined sheets row good
]

pub add_row-HasLost :
    (o : Owner) (slot n : ℕ) (p : Owner) (sheets : ℕ → Option ItemData) (adding : List ItemDb)
    → key_of slot ≡ slot
    → ((id : ℕ) → sheets id ≢ none)
    → p.adding ≡ adding
    → HasLost o slot n p
    → LosesOn o slot n (add_row p sheets adding) (λ q. Unit {0})
unfolding add_row
add_row-HasLost o slot n p sheets [] fits sheeted e h = (p, refl, h, tt)
add_row-HasLost o slot n p sheets (row ∷ rest) fits sheeted e h =
    let (item, made) = item_of sheets row sheeted in
    let at = subst (All (λ (x : ItemDb). x.slot ≡ slot)) e h.adding_at in
    let own : item.slot ≡ slot = make_item-slot sheets row item made ∙ at.0 in
    let key : key_of item.slot ≡ slot = ap key_of own ∙ fits in
    (
      record p {
        adding = rest;
        inventory = add p.inventory item;
        s_add_item = p.s_add_item ++ item ∷ [];
      },
      rw made refl,
      record {
        new = h.new;
        sent = h.sent ++ item ∷ [];
        saving_at = h.saving_at;
        adding_at = at.1;
        stored = h.stored;
        stored_at = h.stored_at;
        told =
            ap (λ items. items ++ item ∷ []) h.told ∙ append_assoc o.s_add_item h.sent (item ∷ []);
        told_at = All-one_more (λ (x : Item). x.slot ≡ slot) h.sent item h.told_at own;
        none_missing = omega (arith, h.none_missing, ap length e, length-append h.sent (item ∷ []));
        none_unstored =
            omega (arith, h.none_unstored, ap length e, length-append h.sent (item ∷ []));
        kept = λ k.
            let put = lookup-put (key_of item.slot) k item p.inventory in
            let last = last_or-one_more (at_key o.inventory k) h.sent item in
            ground (arith, put, last, key, h.kept k);
      },
      tt,
    )

pub save_player_reward-HasLost :
    (o : Owner) (slot n : ℕ) (p : Owner) (reward : RewardData)
    → get_empty_slot p.inventory ≡ some slot
    → HasLost o slot n p
    → LosesOn o slot (1 + n) (some (save_player_reward p reward)) (λ q. q.inventory ≡ p.inventory)
unfolding save_player_reward save_in
save_player_reward-HasLost o slot n p reward free h = (
  record p { saving = p.saving ++ (reward, slot) ∷ [] },
  rw free refl,
  record {
    new = h.new;
    sent = h.sent;
    saving_at =
        All-one_more (λ (x : RewardData × ℕ). x.1 ≡ slot) p.saving (reward, slot) h.saving_at refl;
    adding_at = h.adding_at;
    stored = h.stored;
    stored_at = h.stored_at;
    told = h.told;
    told_at = h.told_at;
    none_missing = omega (arith, h.none_missing, length-append p.saving ((reward, slot) ∷ []));
    none_unstored = h.none_unstored;
    kept = h.kept;
  },
  refl,
)
