-- ===== src/Net/RecvBuffer/Laws.antt =====
-- The receive buffer's invariant, and what each operation does to the pending bytes.
use mmo_server_cpp.Base.{
  ℕ, ◌+◌, ◌-◌, ◌*◌, ◌≤◌, ◌<◌, ◌≡◌, ◌≢◌, sym, refl, ◌++◌, List, Option, none, some, true, inl, inr,
  arith, length, take, drop, length-append, length-take, length-drop, length-replicate, drop-drop,
  Bool-cases, ltb, ◌==◌, le→ltb, drop-take, take-append_of_eq, window-splice,
}
use mmo_server_cpp.Net.RecvBuffer.{
  RecvBuffer, make, data_size_to_read, free_size, clear, on_read, on_write, fill, pending,
  memcpy_to_front, compact,
}

-- The cursors lie in order inside the storage, which holds `capacity` bytes.
pub record IsValid (r : RecvBuffer) : Type 0 where
  pub ordered : r.read_at ≤ r.write_at
  pub within : r.write_at ≤ r.capacity
  pub stored : length r.buffer ≡ r.capacity
  pub sized : r.capacity ≡ r.buffer_size * 10

pub make-IsValid : (n : ℕ) → IsValid (make n)
unfolding make
make-IsValid n = record {
  ordered = omega arith;
  within = omega arith;
  stored = length-replicate (n * 10) 0;
  sized = refl;
}

pub on_read-IsValid : (r : RecvBuffer) (n : ℕ) → IsValid r → IsValid (on_read r n).0
unfolding on_read
on_read-IsValid r n v = ground arith

pub on_write-IsValid : (r : RecvBuffer) (n : ℕ) → IsValid r → IsValid (on_write r n).0
unfolding on_write
on_write-IsValid r n v = ground arith

pub length-memcpy :
    (buf : List ℕ) (src n : ℕ) {out : List ℕ}
    → src + n ≤ length buf
    → memcpy_to_front buf src n ≡ some out
    → length out ≡ length buf
unfolding memcpy_to_front
length-memcpy buf src n h e = ground (
  arith,
  length-append (take n (drop src buf)) (drop n buf),
  length-take n (drop src buf),
  length-drop src buf,
  length-drop n buf,
)

-- What `Clear` did: emptied, kept, or moved the pending bytes to the front.
pub data Cleared (r : RecvBuffer) (s : RecvBuffer) : Type 0 where
  emptied : r.write_at ≤ r.read_at → s ≡ record r { read_at = 0; write_at = 0 } → Cleared r s
  kept : r.buffer_size ≤ free_size r → s ≡ r → Cleared r s
  moved :
      (out : List ℕ)
      → memcpy_to_front r.buffer r.read_at (data_size_to_read r) ≡ some out
      → s ≡ record r { read_at = 0; write_at = data_size_to_read r; buffer = out }
      → Cleared r s

compact-eq-some :
    (r : RecvBuffer) (o : Option (List ℕ)) {s : RecvBuffer}
    → compact r o ≡ some s
    → (out : List ℕ) × (o ≡ some out)
      × (s ≡ record r { read_at = 0; write_at = data_size_to_read r; buffer = out })
unfolding compact
compact-eq-some r none e = cc
compact-eq-some r (some out) e = (out, refl, ground arith)

clear-Cleared : (r : RecvBuffer) {s : RecvBuffer} → clear r ≡ some s → Cleared r s
unfolding clear
clear-Cleared r e = elim (Bool-cases (data_size_to_read r == 0)) [
  | inl z ↦ emptied (ground arith) (ground arith)
  | inr nz ↦ elim (Bool-cases (ltb (free_size r) r.buffer_size)) [
    | inl low ↦ let (out, p, q) = compact-eq-some r _ (rw (nz, low) at e) in moved out p q
    | inr room ↦ kept (ground arith) (ground arith)
  ]
]

pub clear-IsValid : (r : RecvBuffer) {s : RecvBuffer} → IsValid r → clear r ≡ some s → IsValid s
clear-IsValid r v e = elim (clear-Cleared r e) [
  | emptied h q ↦ ground arith
  | kept h q ↦ ground arith
  | moved out p q ↦
      let n : length out ≡ length r.buffer = length-memcpy r.buffer r.read_at _ (omega arith) p in
      ground arith
]

-- `OnRead` takes bytes from the front of what is pending.
pub on_read-pending :
    (r : RecvBuffer) (n : ℕ)
    → n ≤ data_size_to_read r
    → ((on_read r n).1 ≡ true) × (pending (on_read r n).0 ≡ drop n (pending r))
unfolding on_read
on_read-pending r n h =
    let e : r.write_at - (r.read_at + n) ≡ r.write_at - r.read_at - n = omega arith in
    rw (le→ltb _ _ h) (
      refl,
      rw (e, ← drop-drop n r.read_at r.buffer)
          (sym (drop-take n (r.write_at - r.read_at) (drop r.read_at r.buffer))),
    )

memcpy_pending :
    (buf : List ℕ) (src n : ℕ) {out : List ℕ}
    → src + n ≤ length buf
    → memcpy_to_front buf src n ≡ some out
    → take n out ≡ take n (drop src buf)
unfolding memcpy_to_front
memcpy_pending buf src n {out} h e =
    let p : out ≡ take n (drop src buf) ++ drop n buf = ground arith in
    let k : n ≡ length (take n (drop src buf)) =
      omega (arith, length-take n (drop src buf), length-drop src buf) in
    rw p (take-append_of_eq n (take n (drop src buf)) (drop n buf) k)

-- `Clear` keeps the pending bytes, whenever its copy is defined.
pub pending-clear :
    (r : RecvBuffer) {s : RecvBuffer} → IsValid r → clear r ≡ some s → pending s ≡ pending r
pending-clear r v e = elim (clear-Cleared r e) [
  | emptied h q ↦ let z : r.write_at - r.read_at ≡ 0 = omega arith in rw (q, z)
  | kept h q ↦ rw q
  | moved out p q ↦
      let z : data_size_to_read r - 0 ≡ data_size_to_read r = omega arith in
      rw (q, z) (memcpy_pending r.buffer r.read_at (r.write_at - r.read_at) (omega arith) p)
]

-- The received bytes follow those that are pending.
pub pending-fill :
    (r : RecvBuffer) (bytes : List ℕ)
    → IsValid r
    → length bytes ≤ free_size r
    → ((on_write (fill r bytes) (length bytes)).1 ≡ true)
      × (pending (on_write (fill r bytes) (length bytes)).0 ≡ pending r ++ bytes)
unfolding on_write fill
pending-fill r bytes v h =
    rw (le→ltb _ _ h)
      (refl, window-splice r.buffer bytes _ r.read_at r.write_at v.ordered (omega arith))

pub fill-IsValid :
    (r : RecvBuffer) (bytes : List ℕ)
    → IsValid r
    → length bytes ≤ free_size r
    → IsValid (fill r bytes)
unfolding fill
fill-IsValid r bytes v h = record {
  ordered = v.ordered;
  within = v.within;
  stored =
      unfold fill in
      omega (
        arith,
        length-append (take r.write_at r.buffer)
            (bytes ++ drop (r.write_at + length bytes) r.buffer),
        length-append bytes (drop (r.write_at + length bytes) r.buffer),
        length-take r.write_at r.buffer,
        length-drop (r.write_at + length bytes) r.buffer,
        v.stored,
      );
  sized = v.sized;
}

pub length-pending : (r : RecvBuffer) → IsValid r → length (pending r) ≡ data_size_to_read r
length-pending r v = omega (
  arith,
  length-take (r.write_at - r.read_at) (drop r.read_at r.buffer),
  length-drop r.read_at r.buffer,
  v.stored,
)

-- The copy of `Clear` is defined while no more is pending than has been read.
pub clear_defined : (r : RecvBuffer) → data_size_to_read r ≤ r.read_at → clear r ≢ none
unfolding clear memcpy_to_front
clear_defined r h = ground arith

-- A receive moves the write cursor alone.
pub fill_cursors :
    (r : RecvBuffer) (bytes : List ℕ)
    → length bytes ≤ free_size r
    → let w = (on_write (fill r bytes) (length bytes)).0 in
      (w.read_at ≡ r.read_at)
      × (w.write_at ≡ r.write_at + length bytes)
      × (w.capacity ≡ r.capacity)
      × (w.buffer_size ≡ r.buffer_size)
unfolding on_write fill
fill_cursors r bytes h = ground arith

pub on_read_cursors :
    (r : RecvBuffer) (n : ℕ)
    → n ≤ data_size_to_read r
    → let w = (on_read r n).0 in
      (w.read_at ≡ r.read_at + n)
      × (w.write_at ≡ r.write_at)
      × (w.capacity ≡ r.capacity)
      × (w.buffer_size ≡ r.buffer_size)
unfolding on_read
on_read_cursors r n h = ground arith

-- With room for another receive `Clear` leaves the bytes where they are.
pub clear_roomy :
    (r : RecvBuffer) → 0 < data_size_to_read r → r.buffer_size ≤ free_size r → clear r ≡ some r
unfolding clear
clear_roomy r h k = ground arith
