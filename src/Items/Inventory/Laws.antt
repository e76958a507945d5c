-- ===== src/Items/Inventory/Laws.antt =====
-- An inventory is in order and knows the slots of its items; its operations keep it so.
use mmo_server_cpp.Base.{
  ℕ, ◌<◌, ◌≡◌, refl, ap, subst, [], ◌∷◌, Option, none, some, Bool, true, false, ltb, ◌==◌,
  if◌then◌else◌, lookup, erase, All, arith, Bool-cases, inl, inr,
}
use mmo_server_cpp.Items.Item.{Item}
use mmo_server_cpp.Items.Inventory.{Inventory, put, find_if, set_equipped}

-- The keys ascend, and every item stands under its slot.
abbrev pub IsTidy : Inventory → Type 0
IsTidy [] = Unit {0}
IsTidy ((k, item) ∷ rest) = (item.slot ≡ k) × All (λ e. k < e.0) rest × IsTidy rest

pub lookup-put :
    (k j : ℕ) (item : Item) (items : Inventory)
    → lookup j (put k item items) ≡ (if k == j then some item else lookup j items)
unfolding lookup put
lookup-put k j item [] = refl
lookup-put k j item ((i, other) ∷ rest) = let ih = lookup-put k j item rest in ground (arith, ih)

pub lookup-All :
    (P : ℕ × Item → Type 0) (j : ℕ) (items : Inventory) {item : Item}
    → All P items
    → lookup j items ≡ some item
    → P (j, item)
unfolding lookup
lookup-All P j [] a e = cc
lookup-All P j ((i, other) ∷ rest) {item} a e = elim (Bool-cases (i == j)) [
  | inl same ↦
      let k : i ≡ j = ground arith in
      let f : other ≡ item = cc (rw same at e) in
      let g : (i, other) ≡ (j, item) = cc in subst P g a.0
  | inr differs ↦ lookup-All P j rest a.1 (rw differs at e)
]

All-put :
    (P : ℕ × Item → Type 0) (k : ℕ) (item : Item) (items : Inventory)
    → All P items
    → P (k, item)
    → All P (put k item items)
unfolding put
All-put P k item [] a p = (p, tt)
All-put P k item ((j, other) ∷ rest) a p = elim (Bool-cases (k == j)) [
  | inl same ↦ rw same (p, a.1)
  | inr differs ↦ elim (Bool-cases (ltb k j)) [
    | inl before ↦ rw (differs, before) (p, a)
    | inr after ↦ rw (differs, after) (a.0, All-put P k item rest a.1 p)
  ]
]

All-above :
    (k j : ℕ) (items : Inventory) → k < j → All (λ e. j < e.0) items → All (λ e. k < e.0) items
All-above k j [] h a = tt
All-above k j (e ∷ rest) h a = (omega arith, All-above k j rest h a.1)

put-IsTidy :
    (k : ℕ) (item : Item) (items : Inventory)
    → item.slot ≡ k
    → IsTidy items
    → IsTidy (put k item items)
unfolding put
put-IsTidy k item [] s t = (s, tt, tt)
put-IsTidy k item ((j, other) ∷ rest) s t = elim (Bool-cases (k == j)) [
  | inl same ↦
      let e : j ≡ k = ground arith in rw same (s, subst (λ i. All (λ x. i < x.0) rest) e t.1, t.2)
  | inr differs ↦ elim (Bool-cases (ltb k j)) [
    | inl before ↦
        let h : k < j = ground arith in rw (differs, before) (s, (h, All-above k j rest h t.1), t)
    | inr after ↦
        let h : j < k = ground arith in
        rw (differs, after)
          (t.0, All-put (λ e. j < e.0) k item rest t.1 h, put-IsTidy k item rest s t.2)
  ]
]

All-erase :
    (P : ℕ × Item → Type 0) (k : ℕ) (items : Inventory) → All P items → All P (erase k items)
unfolding erase
All-erase P k [] a = tt
All-erase P k ((j, other) ∷ rest) a = elim (Bool-cases (j == k)) [
  | inl same ↦ rw same (All-erase P k rest a.1)
  | inr differs ↦ rw differs (a.0, All-erase P k rest a.1)
]

pub erase-IsTidy : (k : ℕ) (items : Inventory) → IsTidy items → IsTidy (erase k items)
unfolding erase
erase-IsTidy k [] t = tt
erase-IsTidy k ((j, other) ∷ rest) t = elim (Bool-cases (j == k)) [
  | inl same ↦ rw same (erase-IsTidy k rest t.2)
  | inr differs ↦ rw differs (t.0, All-erase (λ e. j < e.0) k rest t.1, erase-IsTidy k rest t.2)
]

above-set_equipped :
    (i k : ℕ) (b : Bool) (items : Inventory)
    → All (λ e. i < e.0) items
    → All (λ e. i < e.0) (set_equipped k b items)
unfolding set_equipped
above-set_equipped i k b [] a = tt
above-set_equipped i k b ((j, other) ∷ rest) a = elim (Bool-cases (j == k)) [
  | inl same ↦ rw same a
  | inr differs ↦ rw differs (a.0, above-set_equipped i k b rest a.1)
]

pub set_equipped-IsTidy :
    (k : ℕ) (b : Bool) (items : Inventory) → IsTidy items → IsTidy (set_equipped k b items)
unfolding set_equipped
set_equipped-IsTidy k b [] t = tt
set_equipped-IsTidy k b ((j, other) ∷ rest) t = elim (Bool-cases (j == k)) [
  | inl same ↦ rw same t
  | inr differs ↦
      rw differs (t.0, above-set_equipped j k b rest t.1, set_equipped-IsTidy k b rest t.2)
]

abbrev pub with_equipped : Bool → Option Item → Option Item
with_equipped b none = none
with_equipped b (some item) = some (record item { equipped = b })

pub lookup-set_equipped :
    (k j : ℕ) (b : Bool) (items : Inventory)
    → lookup j (set_equipped k b items)
      ≡ (if k == j then with_equipped b (lookup j items) else lookup j items)
unfolding lookup set_equipped
lookup-set_equipped k j b [] = ground arith
lookup-set_equipped k j b ((i, other) ∷ rest) =
    let ih = lookup-set_equipped k j b rest in ground (arith, ih)

-- What `FindIf` does not find is not there.
pub find_if-none :
    (p : Item → Bool) (items : Inventory) (k : ℕ) {item : Item}
    → find_if p items ≡ none
    → lookup k items ≡ some item
    → p item ≡ false
unfolding find_if lookup
find_if-none p [] k e h = cc
find_if-none p ((j, other) ∷ rest) k {item} e h = elim (Bool-cases (p other)) [
  | inl good ↦ cc (rw good at e)
  | inr bad ↦ elim (Bool-cases (j == k)) [
    | inl same ↦ let f : other ≡ item = cc (rw same at h) in rw (← f) bad
    | inr differs ↦ find_if-none p rest k (rw bad at e) (rw differs at h)
  ]
]

-- What `FindIf` finds is there.
pub find_if-some :
    (p : Item → Bool) (items : Inventory) {k : ℕ} {item : Item}
    → IsTidy items
    → find_if p items ≡ some (k, item)
    → (lookup k items ≡ some item) × (p item ≡ true)
unfolding find_if lookup
find_if-some p [] t e = cc
find_if-some p ((j, other) ∷ rest) {k} {item} t e = elim (Bool-cases (p other)) [
  | inl good ↦
      let g : j ≡ k = cc (rw good at e) in
      let h : other ≡ item = cc (rw good at e) in
      let same : (j == k) ≡ true = ground arith in (rw same (ap some h), rw (← h) good)
  | inr bad ↦
      let (there, good) = find_if-some p rest t.2 (rw bad at e) in
      let above : j < k = lookup-All (λ q. j < q.0) k rest t.1 there in
      let differs : (j == k) ≡ false = ground arith in (rw differs there, good)
]
