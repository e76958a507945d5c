-- ===== src/Net/Packet/Laws.antt =====
-- One round of the receiving loop, its termination, and where it does not end.
use mmo_server_cpp.Base.{
  ℕ, zero, suc, ◌+◌, ◌-◌, ◌≤◌, ◌<◌, ◌≡◌, ap, ◌∙◌, List, [], ◌∷◌, some, take, drop, arith, inl, inr,
  le→ltb, ◌⊎◌,
}
use mmo_server_cpp.Net.Packet.{header_at, header_size, Received, hand_over, receive_loop}

-- A packet stands whole between `at` and `len`.
abbrev pub IsWhole : List ℕ → ℕ → ℕ → Type 0
IsWhole buffer len at = (header_size ≤ len - at) × ((header_at buffer at).size ≤ len - at)

pub receive_loop_stop :
    (fuel : ℕ) (buffer : List ℕ) (len at : ℕ)
    → ((len - at < header_size) ⊎ (len - at < (header_at buffer at).size))
    → receive_loop (suc fuel) buffer len at ≡ some (record { process_length = at; packets = [] })
unfolding receive_loop
receive_loop_stop fuel buffer len at h = ground arith

pub receive_loop_more :
    (fuel : ℕ) (buffer : List ℕ) (len at : ℕ)
    → IsWhole buffer len at
    → receive_loop (suc fuel) buffer len at
      ≡ hand_over
          (take (header_at buffer at).size (drop at buffer))
          (receive_loop fuel buffer len (at + (header_at buffer at).size))
unfolding receive_loop
receive_loop_more fuel buffer len at h = rw (le→ltb _ _ h.0, le→ltb _ _ h.1)

-- The positions at which the loop looks for a header, and those where it stops: it starts at 0, and
-- moves on by the size of a packet that stands whole.
pub data Reaches (buffer : List ℕ) (len : ℕ) : ℕ → Type 0 where
  start : Reaches buffer len 0
  next :
      (at : ℕ)
      → Reaches buffer len at
      → IsWhole buffer len at
      → Reaches buffer len (at + (header_at buffer at).size)

-- Every header that the loop reads announces at least one byte.
abbrev pub NoEmptyHeader : List ℕ → ℕ → Type 0
NoEmptyHeader buffer len =
    (at : ℕ) → Reaches buffer len at → header_size ≤ len - at → 0 < (header_at buffer at).size

Whole-cases :
    (buffer : List ℕ) (len at : ℕ)
    → ((len - at < header_size) ⊎ (len - at < (header_at buffer at).size)) ⊎ IsWhole buffer len at
Whole-cases buffer len at = grind arith

pub receive_loop_total :
    (fuel : ℕ) (buffer : List ℕ) (len at : ℕ)
    → NoEmptyHeader buffer len
    → Reaches buffer len at
    → len - at < fuel
    → at ≤ len
    → (r : Received) × (receive_loop fuel buffer len at ≡ some r)
      × (at ≤ r.process_length)
      × (r.process_length ≤ len)
receive_loop_total zero buffer len at ne c h k = absurd (omega arith)
receive_loop_total (suc fuel) buffer len at ne c h k = elim (Whole-cases buffer len at) [
  | inl stop ↦ (
    record { process_length = at; packets = [] },
    receive_loop_stop fuel buffer len at stop,
    omega arith,
    k,
  )
  | inr whole ↦
      let size = (header_at buffer at).size in
      let p : 0 < size = ne at c whole.0 in
      let (r, e, lo, hi) =
        receive_loop_total fuel buffer len (at + size) ne (next at c whole) (omega arith)
          (omega arith) in
      (
        record r { packets = take size (drop at buffer) ∷ r.packets },
        receive_loop_more fuel buffer len at whole ∙ ap (hand_over _) e,
        omega arith,
        hi,
      )
]
