-- ===== src/Items/Inventory/Slots.antt =====
-- The empty slots of an inventory.
use mmo_server_cpp.Base.{
  ℕ, zero, suc, ◌+◌, ◌<◌, ◌≡◌, ◌≢◌, refl, subst, [], ◌∷◌, none, some, ◌==◌, All, arith,
  Option-cases, inl, inr, ◌⊎◌, dec_lt,
}
use mmo_server_cpp.Items.Item.{Item}
use mmo_server_cpp.Items.Inventory.{
  Inventory, at_key, find_if, slot_count, empty_slot_from, get_empty_slot,
}
use mmo_server_cpp.Items.Inventory.Laws.{IsTidy, lookup-All, find_if-none, find_if-some}

-- The slot is free and those below it are taken.
abbrev pub IsFirstFree : Inventory → ℕ → Type 0
IsFirstFree items s = (at_key items s ≡ none) × ((t : ℕ) → t < s → at_key items t ≢ none)

-- No item stands under a slot that `find_if` does not see.
slot-cases :
    (items : Inventory) (slot : ℕ)
    → IsTidy items
    → ((find_if (λ item. item.slot == slot) items ≡ none) × (at_key items slot ≡ none))
      ⊎ ((e : ℕ × Item) × (find_if (λ item. item.slot == slot) items ≡ some e)
          × (at_key items slot ≢ none))
slot-cases items slot t = elim (Option-cases (find_if (λ item. item.slot == slot) items)) [
  | inl unseen ↦ elim (Option-cases (at_key items slot)) [
    | inl free ↦ inl (unseen, free)
    | inr (item, there) ↦
        let own : item.slot ≡ slot =
          lookup-All (λ e. e.1.slot ≡ e.0) slot items (slots items t) there in
        let miss = find_if-none (λ x. x.slot == slot) items slot unseen there in
        absurd (ground arith)
  ]
  | inr ((k, item), seen) ↦
      let (there, hit) = find_if-some (λ x. x.slot == slot) items t seen in
      let own : item.slot ≡ k = lookup-All (λ e. e.1.slot ≡ e.0) k items (slots items t) there in
      let same : k ≡ slot = ground arith in inr ((k, item), seen, λ gone. cc (gone, there, same))
]
  where
    slots : (items : Inventory) → IsTidy items → All (λ e. e.1.slot ≡ e.0) items
    slots [] t = tt
    slots ((k, item) ∷ rest) t = (t.0, slots rest t.2)

empty_slot_from_lem :
    (left slot : ℕ) (items : Inventory)
    → IsTidy items
    → ((t : ℕ) → t < slot → at_key items t ≢ none)
    → ((s : ℕ) × (empty_slot_from left slot items ≡ some s)
        × (s < slot + left)
        × IsFirstFree items s)
      ⊎ ((empty_slot_from left slot items ≡ none)
          × ((t : ℕ) → t < slot + left → at_key items t ≢ none))
unfolding empty_slot_from
empty_slot_from_lem zero slot items t below = inr (refl, λ s h. below s (omega arith))
empty_slot_from_lem (suc left) slot items t below = elim (slot-cases items slot t) [
  | inl (unseen, free) ↦ inl (slot, rw unseen refl, omega arith, (free, below))
  | inr (e, seen, taken) ↦
      let below' : (s : ℕ) → s < slot + 1 → at_key items s ≢ none = λ s h. elim (dec_lt s slot) [
        | yes lower ↦ below s lower
        | no at ↦ let same : slot ≡ s = omega arith in subst (λ q. at_key items q ≢ none) same taken
      ] in
      elim (empty_slot_from_lem left (slot + 1) items t below') [
        | inl (s, found, h, first) ↦ inl (s, rw seen found, omega arith, first)
        | inr (full, all) ↦ inr (rw seen full, λ s h. all s (omega arith))
      ]
]

-- In a tidy inventory `GetEmptySlot` returns the first free slot of the twenty, and nothing exactly
-- when all of them are taken.
pub get_empty_slot_lem :
    (items : Inventory)
    → IsTidy items
    → ((s : ℕ) × (get_empty_slot items ≡ some s) × (s < slot_count) × IsFirstFree items s)
      ⊎ ((get_empty_slot items ≡ none) × ((t : ℕ) → t < slot_count → at_key items t ≢ none))
unfolding get_empty_slot
get_empty_slot_lem items t = empty_slot_from_lem slot_count 0 items t (λ s h. absurd (omega arith))
