-- ===== src/Memory/SendBuffer/Laws.antt =====
-- Send buffers that are in use lie inside their chunks and do not overlap.
use mmo_server_cpp.Base.{
  ℕ, suc, ◌+◌, ◌<◌, ◌≤◌, ◌≡◌, ◌≢◌, refl, ap, subst, List, [], ◌∷◌, Option, none, some, Bool, true,
  false, ◌==◌, if◌then◌else◌, arith, inl, inr, ◌⊎◌, Bool-cases, All,
}
use mmo_server_cpp.Memory.SendBuffer.{
  SendBuffer, Chunk, Manager, initial, is_held, install, retire, retire_old, replace, chunk_size,
  is_current,
}

-- Two buffers share no byte.
abbrev pub Apart : SendBuffer → SendBuffer → Type 0
Apart a b =
    (a.owner_chunk ≢ b.owner_chunk)
    ⊎ (a.start + a.alloc_size ≤ b.start)
    ⊎ (b.start + b.alloc_size ≤ a.start)

abbrev pub AllApart : List SendBuffer → Type 0
AllApart [] = Unit {0}
AllApart (b ∷ bs) = All (Apart b) bs × AllApart bs

abbrev pub Fits : Option Chunk → Type 0
Fits none = Unit {0}
Fits (some c) = c.used_size ≤ chunk_size

abbrev pub times : ℕ → List ℕ → ℕ
times b [] = 0
times b (x ∷ xs) = if x == b then suc (times b xs) else times b xs

-- No buffer reaches into the free part of the current chunk.
abbrev pub AllBelow : Option Chunk → List SendBuffer → Type 0
AllBelow none bs = Unit {0}
AllBelow (some c) bs = All (λ b. (b.owner_chunk ≢ c.id) ⊎ (b.start + b.alloc_size ≤ c.used_size)) bs

-- Everything that the operations keep. A chunk in stock is there once, is not the current one, and
-- no buffer lies in it.
pub record IsSound (m : Manager) : Type 0 where
  pub inside : All (λ b. b.start + b.alloc_size ≤ chunk_size) m.live
  pub fits : Fits m.current
  pub below : AllBelow m.current m.live
  pub apart : AllApart m.live
  pub once : (k : ℕ) → times k m.stock ≤ 1
  pub stocked :
      (k : ℕ) → 0 < times k m.stock → (is_held k m.live ≡ false) × (is_current m.current k ≡ false)
  pub known :
      (k : ℕ)
      → m.fresh ≤ k
      → (times k m.stock ≡ 0) × (is_held k m.live ≡ false) × (is_current m.current k ≡ false)

pub initial-IsSound : IsSound initial
unfolding initial
initial-IsSound = record {
  inside = tt;
  fits = tt;
  below = tt;
  apart = tt;
  once = λ k. omega arith;
  stocked = λ k h. absurd (omega arith);
  known = λ k h. (refl, refl, refl);
}

not_held :
    (k : ℕ) (bs : List SendBuffer) (P : SendBuffer → Type 0)
    → is_held k bs ≡ false
    → All (λ b. (b.owner_chunk ≢ k) ⊎ P b) bs
not_held k [] P h = tt
not_held k (b ∷ bs) P h = (inl (ground arith), not_held k bs P (ground arith))

-- The state between `Pop` and the release of the old chunk: as sound, apart from what `old` holds.
record IsOpen (m : Manager) (old : Option Chunk) : Type 0 where
  sound : IsSound m
  old_out :
      (k : ℕ)
      → is_current old k ≡ true
      → (times k m.stock ≡ 0) × (is_current m.current k ≡ false) × (k < m.fresh)

install-IsOpen :
    (m : Manager) (s : List ℕ) → m.stock ≡ s → IsSound m → IsOpen (install m s) m.current
unfolding install
install-IsOpen m [] e v = record {
  sound = record {
    inside = v.inside;
    fits = omega arith;
    below = not_held m.fresh m.live _ (v.known m.fresh (omega arith)).1;
    apart = v.apart;
    once = v.once;
    stocked = λ k h. let q = v.known k in ((v.stocked k h).0, grind arith);
    known = λ k h. let q = v.known k (omega arith) in (q.0, q.1, ground arith);
  };
  old_out = λ k h.
      let q = v.known k in
      let r = v.stocked k in let t = v.once k in (grind arith, grind arith, grind arith);
}
install-IsOpen m (x ∷ xs) e v = record {
  sound = record {
    inside = v.inside;
    fits = omega arith;
    below = not_held x m.live _ (v.stocked x (rw e (ground arith))).0;
    apart = v.apart;
    once = λ k. let q = v.once k in let t = ap (times k) e in ground arith;
    stocked = λ k h.
        let q = v.once k in
        let t = ap (times k) e in let r = v.stocked k (ground arith) in (r.0, ground arith);
    known =
        λ k h. let q = v.known k h in let t = ap (times k) e in (ground arith, q.1, ground arith);
  };
  old_out = λ k h.
      let q = v.known k in
      let r = v.stocked k in let t = ap (times k) e in (grind arith, grind arith, grind arith);
}

pub retire-IsSound :
    (m : Manager) (k : ℕ)
    → IsSound m
    → times k m.stock ≡ 0
    → is_current m.current k ≡ false
    → k < m.fresh
    → IsSound (retire m k)
unfolding retire
retire-IsSound m k v out other old = elim (Bool-cases (is_held k m.live)) [
  | inl held ↦ rw held v
  | inr empty ↦ rw empty (record {
    inside = v.inside;
    fits = v.fits;
    below = v.below;
    apart = v.apart;
    once = λ j. let o = v.once j in ground arith;
    stocked = λ j h. stocked empty j h (k == j) refl;
    known = λ j h. let q = v.known j h in (ground arith, q.1, q.2);
  })
]
  where
    stocked :
        is_held k m.live ≡ false
        → (j : ℕ) → 0 < (if k == j then suc (times j m.stock) else times j m.stock)
        → (b : Bool) → (k == j) ≡ b
        → (is_held j m.live ≡ false) × (is_current m.current j ≡ false)
    stocked empty j h true e =
        let q : k ≡ j = ground arith in
        subst (λ z. (is_held z m.live ≡ false) × (is_current m.current z ≡ false)) q (empty, other)
    stocked empty j h false e = v.stocked j (rw e at h)

retire_old-IsSound : (m : Manager) (old : Option Chunk) → IsOpen m old → IsSound (retire_old m old)
unfolding retire_old
retire_old-IsSound m none o = o.sound
retire_old-IsSound m (some c) o =
    let q = o.old_out c.id (ground arith) in retire-IsSound m c.id o.sound q.0 q.1 q.2

pub replace-IsSound : (m : Manager) → IsSound m → IsSound (replace m)
unfolding replace
replace-IsSound m v = retire_old-IsSound _ m.current (install-IsOpen m m.stock refl v)
