-- ===== src/Items/Player/Laws.antt =====
-- The item packets keep the inventory tidy and one item in each place.
use mmo_server_cpp.Base.{
  ℕ, ◌≡◌, refl, ◌∙◌, [], ◌∷◌, Option, none, some, Bool, true, false, ◌==◌, arith, Bool-cases,
  Option-cases, inl, inr,
}
use mmo_server_cpp.Items.Item.{Item, Kind}
use mmo_server_cpp.Items.Inventory.{Inventory, key_of, at_key, get, find_if, set_equipped}
use mmo_server_cpp.Items.Inventory.Laws.{
  IsTidy, set_equipped-IsTidy, lookup-set_equipped, find_if-none, find_if-some,
}
use mmo_server_cpp.Items.Player.{
  Player, count_item, count_items, refresh_stat, can_equip, worn, unequip, equip, equip_found,
  handle_equip_item,
}
use mmo_server_cpp.Items.Player.Places.{
  IsExclusive, IsVacant, unequip-IsExclusive, equip-IsExclusive, unequip-IsVacant,
}

pub record IsDressed (p : Player) : Type 0 where
  pub tidy : IsTidy p.inventory
  pub exclusive : IsExclusive p.inventory

count_items_keeps : (p : Player) (items : Inventory) → (count_items p items).inventory ≡ p.inventory
unfolding count_items
count_items_keeps p [] = refl
count_items_keeps p ((k, item) ∷ rest) = count_items_keeps (count_item p item) rest ∙ ground arith

refresh_stat_keeps : (p : Player) → (refresh_stat p).inventory ≡ p.inventory
unfolding refresh_stat
refresh_stat_keeps p = count_items_keeps _ p.inventory

unequip_lem :
    (p : Player) (c : Kind)
    → IsDressed p
    → IsDressed (unequip p (find_if (worn c) p.inventory))
      × IsVacant c (unequip p (find_if (worn c) p.inventory)).inventory
unfolding unequip
unequip_lem p c d = elim (Option-cases (find_if (worn c) p.inventory)) [
  | inl unseen ↦ rw unseen (d, λ k x h w. cc (w, find_if-none (worn c) p.inventory k unseen h))
  | inr ((k, y), seen) ↦
      let (there, w) = find_if-some (worn c) p.inventory d.tidy seen in
      rw seen (
        record {
          tidy = set_equipped-IsTidy k false p.inventory d.tidy;
          exclusive = unequip-IsExclusive k p.inventory d.exclusive;
        },
        unequip-IsVacant c k y p.inventory d.exclusive there w,
      )
]

pub equip_inventory :
    (p : Player) (s : ℕ) (b : Bool)
    → (equip p s b).inventory ≡ set_equipped (key_of s) b p.inventory
unfolding equip
equip_inventory p s b = refresh_stat_keeps _

-- The item is still there when another has been taken off.
pub unequip_there :
    (p : Player) (o : Option (ℕ × Item)) (s : ℕ) {x : Item}
    → at_key p.inventory s ≡ some x
    → (y : Item) × (at_key (unequip p o).inventory s ≡ some y) × (y.kind ≡ x.kind)
unfolding unequip
unequip_there p none s {x} h = (x, h, refl)
unequip_there p (some (k, item)) s {x} h = set_there (k == s) refl
  where
    set_there :
        (c : Bool)
        → (k == s) ≡ c
        → (y : Item) × (at_key (set_equipped k false p.inventory) s ≡ some y) × (y.kind ≡ x.kind)
    set_there true e = (
      record x { equipped = false },
      lookup-set_equipped k s false p.inventory ∙ rw (e, h) refl,
      refl,
    )
    set_there false e = (x, lookup-set_equipped k s false p.inventory ∙ rw (e, h) refl, refl)

equip-IsDressed :
    (p : Player) (s : ℕ) (b : Bool) (chosen : Item)
    → get p.inventory s ≡ some chosen
    → (b ≡ true → IsVacant chosen.kind p.inventory)
    → IsDressed p
    → IsDressed (equip p s b)
equip-IsDressed p s b chosen there vacant d = record {
  tidy = rw (equip_inventory p s b) (set_equipped-IsTidy (key_of s) b p.inventory d.tidy);
  exclusive = rw (equip_inventory p s b) (places b vacant);
}
  where
    places :
        (b : Bool)
        → (b ≡ true → IsVacant chosen.kind p.inventory)
        → IsExclusive (set_equipped (key_of s) b p.inventory)
    places true vacant =
        equip-IsExclusive (key_of s) p.inventory chosen there (vacant refl) d.exclusive
    places false vacant = unequip-IsExclusive (key_of s) p.inventory d.exclusive

equip_found-IsDressed :
    (p : Player) (s : ℕ) (b : Bool) (o : Option Item)
    → get p.inventory s ≡ o
    → IsDressed p
    → IsDressed (equip_found p s b o)
unfolding equip_found
equip_found-IsDressed p s b none e d = d
equip_found-IsDressed p s true (some x) e d = elim (Bool-cases (can_equip x.kind)) [
  | inr no_way ↦ rw no_way d
  | inl can ↦
      let (dressed, vacant) = unequip_lem p x.kind d in
      let (y, there, kind) = unequip_there p (find_if (worn x.kind) p.inventory) (key_of s) e in
      rw can (equip-IsDressed _ s true y there (λ t. rw kind vacant) dressed)
]
equip_found-IsDressed p s false (some x) e d = elim (Bool-cases (can_equip x.kind)) [
  | inr no_way ↦ rw no_way d
  | inl can ↦ rw can (equip-IsDressed p s false x e (λ t. cc) d)
]

-- An equip packet for any slot keeps the inventory tidy, and never leaves two weapons, or two
-- armors of one type, equipped at once.
pub handle_equip_item-IsDressed :
    (p : Player) (slot : ℕ) (equipped : Bool)
    → IsDressed p
    → IsDressed (handle_equip_item p slot equipped)
unfolding handle_equip_item
handle_equip_item-IsDressed p slot equipped d =
    equip_found-IsDressed p slot equipped (get p.inventory slot) refl d
