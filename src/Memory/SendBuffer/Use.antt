-- ===== src/Memory/SendBuffer/Use.antt =====
-- Send buffers through their lives: `Acquire`, and the release of the last reference.
use mmo_server_cpp.Base.{
  ℕ, zero, suc, ◌+◌, ◌<◌, ◌≤◌, ◌≡◌, refl, sym, ap, subst, ◌∙◌, List, [], ◌∷◌, Option, none, some,
  true, false, ltb, ◌==◌, arith, inl, inr, Bool-cases, All,
}
use mmo_server_cpp.Memory.SendBuffer.{
  SendBuffer, Chunk, Manager, initial, is_held, free_size, chunk_size, acquire_in, with_chunk,
  with_room, acquire, is_current, nth, without_nth, let_go, release,
}
use mmo_server_cpp.Memory.SendBuffer.Laws.{
  Apart, AllApart, AllBelow, Fits, times, IsSound, initial-IsSound, retire-IsSound, replace-IsSound,
}

with_chunk-IsSound : (m : Manager) (c : Option Chunk) → IsSound m → IsSound (with_chunk m c)
unfolding with_chunk
with_chunk-IsSound m none v = replace-IsSound m v
with_chunk-IsSound m (some c) v = v

with_room-IsSound :
    (m : Manager) (c : Option Chunk) (size : ℕ) → IsSound m → IsSound (with_room m c size)
unfolding with_room
with_room-IsSound m none size v = v
with_room-IsSound m (some c) size v = elim (Bool-cases (ltb (free_size c) size)) [
  | inl full ↦ rw full (replace-IsSound m v)
  | inr room ↦ rw room v
]

Apart-new :
    (c : Chunk) (size : ℕ) (bs : List SendBuffer)
    → AllBelow (some c) bs
    → All (Apart (record { owner_chunk = c.id; start = c.used_size; alloc_size = size })) bs
Apart-new c size [] a = tt
Apart-new c size (b ∷ bs) a = (
  elim a.0 [ inl differs ↦ inl (λ e. differs (sym e)) | inr before ↦ inr (inr before) ],
  Apart-new c size bs a.1,
)

below_grow :
    (c : Chunk) (size : ℕ) (bs : List SendBuffer)
    → AllBelow (some c) bs
    → AllBelow (some (record c { used_size = c.used_size + size })) bs
below_grow c size [] a = tt
below_grow c size (b ∷ bs) a = (
  elim a.0 [ inl differs ↦ inl differs | inr before ↦ inr (omega arith) ],
  below_grow c size bs a.1,
)

acquire_in-IsSound :
    (m : Manager) (o : Option Chunk) (size : ℕ)
    → m.current ≡ o
    → IsSound m
    → IsSound (acquire_in m o size).0
unfolding acquire_in
acquire_in-IsSound m none size e v = v
acquire_in-IsSound m (some c) size e v = elim (Bool-cases (ltb chunk_size size)) [
  | inl huge ↦ rw huge v
  | inr small ↦ elim (Bool-cases (ltb (free_size c) size)) [
    | inl full ↦ rw (small, full) v
    | inr room ↦
        let fits : c.used_size ≤ chunk_size = subst Fits e v.fits in
        let below : AllBelow (some c) m.live = subst (λ o. AllBelow o m.live) e v.below in
        let current : (k : ℕ) → is_current m.current k ≡ (c.id == k) =
          λ k. ap (λ o. is_current o k) e in
        rw (small, room)
          (record {
            inside = (ground arith, v.inside);
            fits = ground arith;
            below = (inr (omega arith), below_grow c size m.live below);
            apart = (Apart-new c size m.live below, v.apart);
            once = v.once;
            stocked =
                λ k h. let q = v.stocked k h in let r = current k in (ground arith, ground arith);
            known = λ k h.
                let q = v.known k h in let r = current k in (q.0, ground arith, ground arith);
          })
  ]
]

-- `Acquire` of any size keeps the manager sound.
acquire-IsSound : (m : Manager) (size : ℕ) → IsSound m → IsSound (acquire m size).0
unfolding acquire
acquire-IsSound m size v =
    let v1 = with_chunk-IsSound m m.current v in
    let m1 = with_chunk m m.current in
    let v2 = with_room-IsSound m1 m1.current size v1 in acquire_in-IsSound _ _ size refl v2

All-without_nth {ℓ} :
    (P : SendBuffer → Type ℓ) (i : ℕ) (bs : List SendBuffer) → All P bs → All P (without_nth i bs)
All-without_nth P i [] a = a
All-without_nth P zero (b ∷ bs) a = a.1
All-without_nth P (suc i) (b ∷ bs) a = (a.0, All-without_nth P i bs a.1)

AllApart-without_nth : (i : ℕ) (bs : List SendBuffer) → AllApart bs → AllApart (without_nth i bs)
AllApart-without_nth i [] a = a
AllApart-without_nth zero (b ∷ bs) a = a.1
AllApart-without_nth (suc i) (b ∷ bs) a =
    (All-without_nth (Apart b) i bs a.0, AllApart-without_nth i bs a.1)

held-without_nth :
    (k i : ℕ) (bs : List SendBuffer) → is_held k bs ≡ false → is_held k (without_nth i bs) ≡ false
held-without_nth k i [] h = h
held-without_nth k zero (b ∷ bs) h = ground arith
held-without_nth k (suc i) (b ∷ bs) h = ground (arith, held-without_nth k i bs)

held_nth :
    (i : ℕ) (bs : List SendBuffer) {b : SendBuffer}
    → nth i bs ≡ some b
    → is_held b.owner_chunk bs ≡ true
held_nth i [] e = cc
held_nth zero (c ∷ bs) {b} e =
    let f : c ≡ b = cc in ap (λ z. is_held b.owner_chunk (z ∷ bs)) f ∙ ground arith
held_nth (suc i) (c ∷ bs) e = ground (arith, held_nth i bs e)

drop-IsSound :
    (m : Manager) (i : ℕ) → IsSound m → IsSound (record m { live = without_nth i m.live })
drop-IsSound m i v = record {
  inside = All-without_nth _ i m.live v.inside;
  fits = v.fits;
  below = fewer m.current v.below;
  apart = AllApart-without_nth i m.live v.apart;
  once = v.once;
  stocked = λ k h. (held-without_nth k i m.live (v.stocked k h).0, (v.stocked k h).1);
  known = λ k h. let q = v.known k h in (q.0, held-without_nth k i m.live q.1, q.2);
}
  where
    fewer : (c : Option Chunk) → AllBelow c m.live → AllBelow c (without_nth i m.live)
    fewer none a = a
    fewer (some c) a = All-without_nth _ i m.live a

let_go-IsSound :
    (m m' : Manager) (o : Option SendBuffer) (i : ℕ)
    → IsSound m
    → m' ≡ record m { live = without_nth i m.live }
    → nth i m.live ≡ o
    → IsSound (let_go m' o)
unfolding let_go
let_go-IsSound m m' none i v e h = rw e (drop-IsSound m i v)
let_go-IsSound m m' (some b) i v e h =
    let held = held_nth i m.live h in
    let st = v.stocked b.owner_chunk in
    let kn = v.known b.owner_chunk in
    rw e elim (Bool-cases (is_current m.current b.owner_chunk)) [
      | inl mine ↦ rw mine (drop-IsSound m i v)
      | inr other ↦
          rw other
            (retire-IsSound _ b.owner_chunk (drop-IsSound m i v) (grind arith) other (grind arith))
    ]

release-IsSound : (m : Manager) (i : ℕ) → IsSound m → IsSound (release m i)
unfolding release
release-IsSound m i v = let_go-IsSound m _ (nth i m.live) i v refl refl

-- What threads do: acquire buffers of any size, and let go of any buffer that is in use.
pub data Action : Type 0 where
  acquires : ℕ → Action
  releases : ℕ → Action

pub step : Manager → Action → Manager
step m (acquires size) = (acquire m size).0
step m (releases i) = release m i

pub run : Manager → List Action → Manager
unfolding step
run m [] = m
run m (a ∷ as') = run (step m a) as'

run-IsSound : (m : Manager) (as' : List Action) → IsSound m → IsSound (run m as')
unfolding run step
run-IsSound m [] v = v
run-IsSound m (acquires size ∷ as') v =
    run-IsSound (acquire m size).0 as' (acquire-IsSound m size v)
run-IsSound m (releases i ∷ as') v = run-IsSound (release m i) as' (release-IsSound m i v)

-- In every history of a thread's acquisitions and of releases by anyone, the send buffers in use
-- lie inside their chunks and no two of them share a byte; chunks in stock hold none of them.
pub buffers-AllApart :
    (as' : List Action)
    → let m = run initial as' in
      All (λ b. b.start + b.alloc_size ≤ chunk_size) m.live
      × AllApart m.live
      × ((k : ℕ) → 0 < times k m.stock → is_held k m.live ≡ false)
buffers-AllApart as' =
    let v = run-IsSound initial as' initial-IsSound in (v.inside, v.apart, λ k h. (v.stocked k h).0)
