-- ===== src/Items/Player/Places.antt =====
-- The places in which items are worn: one item in each.
use mmo_server_cpp.Base.{
  ℕ, ◌≡◌, refl, sym, ap, ◌∙◌, none, some, Bool, true, false, ◌==◌, ◌&&◌, if◌then◌else◌, arith,
  Bool-cases, Option-cases, inl, inr,
}
use mmo_server_cpp.Items.Item.{Item, Kind, weapon, armor, consumable}
use mmo_server_cpp.Items.Inventory.{Inventory, at_key, set_equipped}
use mmo_server_cpp.Items.Inventory.Laws.{lookup-set_equipped}
use mmo_server_cpp.Items.Player.{same_place, worn}

-- No two equipped items want the same place.
abbrev pub IsExclusive : Inventory → Type 0
IsExclusive items =
    (k l : ℕ) (a b : Item)
    → at_key items k ≡ some a
    → at_key items l ≡ some b
    → a.equipped ≡ true
    → worn a.kind b ≡ true
    → k ≡ l

same_place_sym : (a b : Kind) → same_place a b ≡ true → same_place b a ≡ true
same_place_sym (weapon t d) (weapon u e) h = refl
same_place_sym (weapon t d) (armor u e) h = cc
same_place_sym (weapon t d) (consumable u e m) h = cc
same_place_sym (armor t d) (weapon u e) h = cc
same_place_sym (armor t d) (armor u e) h = ground arith
same_place_sym (armor t d) (consumable u e m) h = cc
same_place_sym (consumable t d m) b h = cc

same_place_trans :
    (c a b : Kind) → same_place c a ≡ true → same_place c b ≡ true → same_place a b ≡ true
same_place_trans (weapon t d) (weapon u e) (weapon v f) h k = refl
same_place_trans (weapon t d) (armor u e) b h k = cc
same_place_trans (weapon t d) (consumable u e m) b h k = cc
same_place_trans (weapon t d) (weapon u e) (armor v f) h k = cc
same_place_trans (weapon t d) (weapon u e) (consumable v f m) h k = cc
same_place_trans (armor t d) (armor u e) (armor v f) h k = ground arith
same_place_trans (armor t d) (weapon u e) b h k = cc
same_place_trans (armor t d) (consumable u e m) b h k = cc
same_place_trans (armor t d) (armor u e) (weapon v f) h k = cc
same_place_trans (armor t d) (armor u e) (consumable v f m) h k = cc
same_place_trans (consumable t d m) a b h k = cc

worn_parts :
    (c : Kind) (x : Item) → worn c x ≡ true → (x.equipped ≡ true) × (same_place c x.kind ≡ true)
worn_parts c x h = both x.equipped (same_place c x.kind) h
  where
    both : (p q : Bool) → (p && q) ≡ true → (p ≡ true) × (q ≡ true)
    both true q h = (refl, h)
    both false q h = cc

worn_of : (c : Kind) (x : Item) → x.equipped ≡ true → same_place c x.kind ≡ true → worn c x ≡ true
worn_of c x e p = rw (e, p) refl

-- What stands under `i` once the item under `k` is set to `b`.
record WasSet (items : Inventory) (k i : ℕ) (b : Bool) (a : Item) : Type 0 where
  before : Item
  there : at_key items i ≡ some before
  kind : before.kind ≡ a.kind
  equipped : a.equipped ≡ (if k == i then b else before.equipped)

was_set :
    (k i : ℕ) (b : Bool) (items : Inventory) {a : Item}
    → at_key (set_equipped k b items) i ≡ some a
    → WasSet items k i b a
was_set k i b items {a} h = elim (Option-cases (at_key items i)) [
  | inl gone ↦ absurd (nothing (k == i) (sym h ∙ lookup-set_equipped k i b items ∙ rw gone refl))
  | inr (x, there) ↦
      let f : some a ≡ (if k == i then some (record x { equipped = b }) else some x) =
        sym h ∙ lookup-set_equipped k i b items ∙ rw there refl in
      found x there (k == i) refl f
]
  where
    nothing : (c : Bool) → some a ≡ (if c then none else none) → ⊥
    nothing true e = cc
    nothing false e = cc

    found :
        (x : Item)
        → at_key items i ≡ some x
        → (c : Bool) → (k == i) ≡ c
        → some a ≡ (if c then some (record x { equipped = b }) else some x)
        → WasSet items k i b a
    found x there true e f = record { before = x; there = there; kind = cc; equipped = rw e cc }
    found x there false e f = record { before = x; there = there; kind = cc; equipped = rw e cc }

-- Unequipping anything keeps the places exclusive.
pub unequip-IsExclusive :
    (k : ℕ) (items : Inventory) → IsExclusive items → IsExclusive (set_equipped k false items)
unequip-IsExclusive k items e i j a b ha hb ea wb =
    let p = was_set k i false items ha in
    let q = was_set k j false items hb in
    let (eb, place) = worn_parts a.kind b wb in
    let fa : p.before.equipped ≡ true = ground (arith, p.equipped) in
    let fb : q.before.equipped ≡ true = ground (arith, q.equipped) in
    let place' : same_place p.before.kind q.before.kind ≡ true = rw (p.kind, q.kind) place in
    e i j p.before q.before p.there q.there fa (worn_of p.before.kind q.before fb place')

-- Nothing that is equipped wants the place of an item of the kind `c`.
abbrev pub IsVacant : Kind → Inventory → Type 0
IsVacant c items = (k : ℕ) (x : Item) → at_key items k ≡ some x → worn c x ≡ true → ⊥

pub equip-IsExclusive :
    (s : ℕ) (items : Inventory) (chosen : Item)
    → at_key items s ≡ some chosen
    → IsVacant chosen.kind items
    → IsExclusive items
    → IsExclusive (set_equipped s true items)
equip-IsExclusive s items chosen there vacant e i j a b ha hb ea wb =
    let p = was_set s i true items ha in
    let q = was_set s j true items hb in
    let (eb, place) = worn_parts a.kind b wb in
    let place' : same_place p.before.kind q.before.kind ≡ true = rw (p.kind, q.kind) place in
    elim (Bool-cases (s == i)) [
      | inl at_i ↦ elim (Bool-cases (s == j)) [
        | inl at_j ↦ ground arith
        | inr off_j ↦
            let si : s ≡ i = ground arith in
            let c : p.before ≡ chosen = cc (there, p.there, ap (at_key items) si) in
            let fb : q.before.equipped ≡ true = ground (arith, q.equipped) in
            absurd (vacant j q.before q.there (worn_of chosen.kind q.before fb (rw (← c) place')))
      ]
      | inr off_i ↦
          let fa : p.before.equipped ≡ true = ground (arith, p.equipped) in
          elim (Bool-cases (s == j)) [
            | inl at_j ↦
                let sj : s ≡ j = ground arith in
                let c : q.before ≡ chosen = cc (there, q.there, ap (at_key items) sj) in
                let back : same_place chosen.kind p.before.kind ≡ true =
                  same_place_sym p.before.kind chosen.kind (rw (← c) place') in
                absurd (vacant i p.before p.there (worn_of chosen.kind p.before fa back))
            | inr off_j ↦
                let fb : q.before.equipped ≡ true = ground (arith, q.equipped) in
                e i j p.before q.before p.there q.there fa
                  (worn_of p.before.kind q.before fb place')
          ]
    ]

-- Once the item that `FindIf` found is off, the place is vacant.
pub unequip-IsVacant :
    (c : Kind) (k : ℕ) (y : Item) (items : Inventory)
    → IsExclusive items
    → at_key items k ≡ some y
    → worn c y ≡ true
    → IsVacant c (set_equipped k false items)
unequip-IsVacant c k y items e there w i x h wx =
    let p = was_set k i false items h in
    let (ex, place) = worn_parts c x wx in
    let (ey, mine) = worn_parts c y w in
    let fx : p.before.equipped ≡ true = ground (arith, p.equipped) in
    let off : (k == i) ≡ false = ground (arith, p.equipped) in
    let place' : same_place y.kind p.before.kind ≡ true =
      rw p.kind (same_place_trans c y.kind x.kind mine place) in
    let same : k ≡ i = e k i y p.before there p.there ey (worn_of y.kind p.before fx place') in
    ground arith
