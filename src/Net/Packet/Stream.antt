-- ===== src/Net/Packet/Stream.antt =====
-- What the receiving loop makes of a stream of packets that `MakeSendBuffer` has written.
use mmo_server_cpp.Base.{
  ℕ, zero, suc, ◌+◌, ◌-◌, ◌%◌, ◌≤◌, ◌<◌, ◌≡◌, refl, sym, ap, ◌∙◌, ◌⊎◌, inl, inr, List, [], ◌∷◌,
  ◌++◌, none, some, length, take, drop, arith, length-append, length-take, drop-drop, append_assoc,
  append-nil, dec_lt, Option, Option-cases, All, ◌>>=◌, drop-append_of_eq, take-append_of_eq, map,
}
use mmo_server_cpp.Net.Packet.{
  header_at, header_size, Received, hand_over, receive_loop, on_recv_completed, make_send_buffer,
  write_packet, u16_mod,
}
use mmo_server_cpp.Memory.SendBuffer.{chunk_size}
use mmo_server_cpp.Net.Packet.Laws.{
  receive_loop_stop, receive_loop_more, receive_loop_total, NoEmptyHeader, start,
}

-- A packet to send: its id and its serialised body.
pub record Packet : Type 0 where
  pub id : ℕ
  pub body : List ℕ

abbrev pub encode : Packet → List ℕ
encode p = write_packet p.body p.id

abbrev pub frames : List Packet → List ℕ
frames [] = []
frames (p ∷ ps) = encode p ++ frames ps

-- `MakeSendBuffer` writes the packet: it fits a chunk of the send buffers.
abbrev pub IsSendable : Packet → Type 0
IsSendable p = (length p.body + header_size ≤ chunk_size) × (p.id < u16_mod)

abbrev pub AllSendable : List Packet → Type 0
AllSendable [] = Unit {0}
AllSendable (p ∷ ps) = IsSendable p × AllSendable ps

take_all : (xs : List ℕ) (n : ℕ) → n ≡ length xs → take n xs ≡ xs
take_all xs n e = ap (take n) (sym (append-nil xs)) ∙ take-append_of_eq n xs [] e

length-encode : (p : Packet) → IsSendable p → length (encode p) ≡ length p.body + 4
unfolding write_packet
length-encode p s = omega (arith, length-take (length p.body % u16_mod) p.body)

-- The header of an encoded packet gives back its size and its id.
pub header-encode :
    (p : Packet) (rest : List ℕ)
    → IsSendable p
    → ((header_at (encode p ++ rest) 0).size ≡ length p.body + 4)
      × ((header_at (encode p ++ rest) 0).id ≡ p.id)
unfolding write_packet
header-encode p rest s = omega arith

-- The first `k` bytes of `rest` hold no whole packet.
abbrev pub IsPartial : List ℕ → ℕ → Type 0
IsPartial rest k = (k < header_size) ⊎ (k < (header_at rest 0).size)

receive_loop-frames :
    (fuel : ℕ) (ps : List Packet) (buffer rest : List ℕ) (at k : ℕ)
    → AllSendable ps
    → drop at buffer ≡ frames ps ++ rest
    → IsPartial rest k
    → length ps < fuel
    → receive_loop fuel buffer (at + length (frames ps) + k) at
      ≡ some (record { process_length = at + length (frames ps); packets = map encode ps })
receive_loop-frames zero ps buffer rest at k s e part h = absurd (omega arith)
receive_loop-frames (suc fuel) [] buffer rest at k s e part h =
    let z : at + 0 ≡ at = omega arith in
    let y : at + k - at ≡ k = omega arith in
    rw z (receive_loop_stop fuel buffer (at + k) at (rw (e, y) part))
receive_loop-frames (suc fuel) (p ∷ ps) buffer rest at k s e part h =
    let size : ℕ = length p.body + 4 in
    let n : length (encode p) ≡ size = length-encode p s.0 in
    let e' : drop at buffer ≡ encode p ++ (frames ps ++ rest) =
      e ∙ append_assoc (encode p) (frames ps) rest in
    let tail : drop (at + size) buffer ≡ frames ps ++ rest =
      sym (drop-drop size at buffer)
      ∙ ap (drop size) e'
      ∙ drop-append_of_eq size (encode p) (frames ps ++ rest) (sym n) in
    let hsize : (header_at buffer at).size ≡ size =
      ap (λ b. (header_at b 0).size) e' ∙ (header-encode p (frames ps ++ rest) s.0).0 in
    let packet : take size (drop at buffer) ≡ encode p =
      ap (take size) e' ∙ take-append_of_eq size (encode p) (frames ps ++ rest) (sym n) in
    let total : at + length (encode p ++ frames ps) ≡ at + size + length (frames ps) =
      omega (arith, length-append (encode p) (frames ps)) in
    let more =
      receive_loop_more fuel buffer (at + size + length (frames ps) + k) at
        (omega arith, omega arith) in
    let ih = receive_loop-frames fuel ps buffer rest (at + size) k s.1 tail part (omega arith) in
    rw (total, more, hsize, packet, ih)

-- `MakeSendBuffer` on one packet after the other; `none` where one of them crashes.
abbrev pub write_all : List Packet → Option (List (List ℕ))
write_all [] = some []
write_all (p ∷ ps) = do
  piece ← make_send_buffer p.body p.id
  pieces ← write_all ps
  some (piece ∷ pieces)

abbrev pub joined : List (List ℕ) → List ℕ
joined [] = []
joined (piece ∷ pieces) = piece ++ joined pieces

make_send_buffer-IsSendable :
    (p : Packet) (piece : List ℕ)
    → p.id < u16_mod
    → make_send_buffer p.body p.id ≡ some piece
    → IsSendable p × (piece ≡ encode p)
unfolding make_send_buffer
make_send_buffer-IsSendable p piece i e = ground arith

-- What has been written are sendable packets, and the bytes of their frames.
record Written (ps : List Packet) (pieces : List (List ℕ)) : Type 0 where
  sendable : AllSendable ps
  encoded : pieces ≡ map encode ps
  bytes : joined pieces ≡ frames ps

write_all-Written :
    (ps : List Packet) (pieces : List (List ℕ))
    → All (λ p. p.id < u16_mod) ps
    → write_all ps ≡ some pieces
    → Written ps pieces
write_all-Written [] pieces i e =
    let n : [] ≡ pieces = cc in record { sendable = tt; encoded = sym n; bytes = ap joined (sym n) }
write_all-Written (p ∷ ps) pieces i e = elim (Option-cases (make_send_buffer p.body p.id)) [
  | inl bad ↦ let n : none ≡ some pieces = ground (arith, bad, e) in cc n
  | inr (piece, good) ↦ elim (Option-cases (write_all ps)) [
    | inl bad ↦ let n : none ≡ some pieces = ground (arith, good, bad, e) in cc n
    | inr (later, fine) ↦
        let q : piece ∷ later ≡ pieces = ground (arith, good, fine, e) in
        let (sendable, own) = make_send_buffer-IsSendable p piece i.0 good in
        let w = write_all-Written ps later i.1 fine in
        record {
          sendable = (sendable, w.sendable);
          encoded = cc (q, own, w.encoded);
          bytes = ap joined (sym q) ∙ cc (own, w.bytes);
        }
  ]
]

-- A run of packets, and after it part of one.
abbrev pub stream : List Packet → List ℕ → List ℕ
stream ps rest = frames ps ++ rest

-- Four bytes are enough to read the header.
pub header-append :
    (xs ys : List ℕ) → header_size ≤ length xs → header_at (xs ++ ys) 0 ≡ header_at xs 0
header-append (a ∷ b ∷ c ∷ d ∷ xs) ys h = refl
header-append [] ys h = absurd (omega arith)
header-append (a ∷ []) ys h = absurd (omega arith)
header-append (a ∷ b ∷ []) ys h = absurd (omega arith)
header-append (a ∷ b ∷ c ∷ []) ys h = absurd (omega arith)

pub IsPartial-append :
    (rest junk : List ℕ) (k : ℕ) → k ≤ length rest → IsPartial rest k → IsPartial (rest ++ junk) k
IsPartial-append rest junk k h (inl short) = inl short
IsPartial-append rest junk k h (inr size) = elim (dec_lt k header_size) [
  | yes short ↦ inl short
  | no long ↦
      let e : (header_at (rest ++ junk) 0).size ≡ (header_at rest 0).size =
        ap (λ h. h.size) (header-append rest junk (omega arith)) in
      inr (omega arith)
]

-- The loop on the frames of sendable packets, and after them a part of one.
pub on_recv_completed-stream :
    (ps : List Packet) (rest junk : List ℕ)
    → AllSendable ps
    → IsPartial rest (length rest)
    → on_recv_completed (length ps + 1) (stream ps rest ++ junk) (length (stream ps rest))
      ≡ some (record { process_length = length (frames ps); packets = map encode ps })
unfolding on_recv_completed
on_recv_completed-stream ps rest junk s part =
    let n : length (frames ps ++ rest) ≡ 0 + length (frames ps) + length rest =
      omega (arith, length-append (frames ps) rest) in
    let z : 0 + length (frames ps) ≡ length (frames ps) = omega arith in
    let run =
      receive_loop-frames (length ps + 1) ps (stream ps rest ++ junk) (rest ++ junk) 0 (length rest)
        s (append_assoc (frames ps) rest junk)
        (IsPartial-append rest junk (length rest) (omega arith) part) (omega arith) in
    rw n (run ∙ ap (λ m. some (record { process_length = m; packets = map encode ps })) z)

-- Whatever packets `MakeSendBuffer` has written without a crash, under ids of a `uint16`, and
-- whatever `junk` stands in the buffer behind the received bytes: `OnRecvCompleted` hands over
-- exactly the written pieces, in order and whole, and stops in front of a part of a packet that has
-- not arrived whole.
pub on_recv_completed-frames :
    (ps : List Packet) (pieces : List (List ℕ)) (rest junk : List ℕ)
    → All (λ p. p.id < u16_mod) ps
    → write_all ps ≡ some pieces
    → IsPartial rest (length rest)
    → on_recv_completed
        (length ps + 1)
        ((joined pieces ++ rest) ++ junk)
        (length (joined pieces ++ rest))
      ≡ some (record { process_length = length (joined pieces); packets = pieces })
on_recv_completed-frames ps pieces rest junk i e part =
    let w = write_all-Written ps pieces i e in
    rw (w.bytes, w.encoded) (on_recv_completed-stream ps rest junk w.sendable part)

-- The loop hands over nothing while the first packet is larger than the length that it is given.
pub on_recv_completed_short :
    (fuel : ℕ) (buffer : List ℕ) (len : ℕ)
    → IsPartial buffer len
    → on_recv_completed (suc fuel) buffer len ≡ some (record { process_length = 0; packets = [] })
unfolding on_recv_completed
on_recv_completed_short fuel buffer len part =
    let z : len - 0 ≡ len = omega arith in receive_loop_stop fuel buffer len 0 (rw z part)

-- If no header that the loop reads is empty, fuel for one round a byte is enough: the loop ends, and
-- has processed at most the received length.
pub on_recv_completed_total :
    (buffer : List ℕ) (len : ℕ)
    → NoEmptyHeader buffer len
    → (r : Received) × (on_recv_completed (len + 1) buffer len ≡ some r) × (r.process_length ≤ len)
unfolding on_recv_completed
on_recv_completed_total buffer len ne =
    let (r, e, lo, hi) =
      receive_loop_total (len + 1) buffer len 0 ne start (omega arith) (omega arith) in
    (r, e, hi)

receive_loop_stuck :
    (fuel : ℕ) (buffer : List ℕ) (len at : ℕ)
    → header_size ≤ len - at
    → (header_at buffer at).size ≡ 0
    → receive_loop fuel buffer len at ≡ none
unfolding receive_loop
receive_loop_stuck zero buffer len at h e = refl
receive_loop_stuck (suc fuel) buffer len at h e =
    let z : at + 0 ≡ at = omega arith in
    let ih = receive_loop_stuck fuel buffer len at h e in
    receive_loop_more fuel buffer len at (h, omega arith)
    ∙ rw (e, z) (ap (hand_over (take 0 (drop at buffer))) ih)

-- A header that announces size 0 is handed over again and again: the loop never ends.
pub on_recv_completed_zero :
    (fuel : ℕ) (buffer : List ℕ) (len : ℕ)
    → header_size ≤ len
    → (header_at buffer 0).size ≡ 0
    → on_recv_completed fuel buffer len ≡ none
unfolding on_recv_completed
on_recv_completed_zero fuel buffer len h e = receive_loop_stuck fuel buffer len 0 (omega arith) e

header_size-encode : (p : Packet) → IsSendable p → (header_at (encode p) 0).size ≡ length (encode p)
header_size-encode p s =
    ap (λ b. (header_at b 0).size) (sym (append-nil (encode p)))
    ∙ (header-encode p [] s).0
    ∙ sym (length-encode p s)

-- Neither a proper prefix of a packet nor a length below the packet's is enough for the loop.
pub prefix-IsPartial :
    (p : Packet) (a b : List ℕ)
    → IsSendable p
    → encode p ≡ a ++ b
    → 0 < length b
    → IsPartial a (length a)
prefix-IsPartial p a b s e pos = elim (dec_lt (length a) header_size) [
  | yes short ↦ inl short
  | no long ↦
      let h : (header_at a 0).size ≡ length (encode p) =
        ap (λ h. h.size) (sym (header-append a b (omega arith)))
        ∙ ap (λ c. (header_at c 0).size) (sym e)
        ∙ header_size-encode p s in
      inr (omega (arith, h, ap length e, length-append a b))
]

pub below-IsPartial :
    (p : Packet) (k : ℕ) → IsSendable p → k < length (encode p) → IsPartial (encode p) k
below-IsPartial p k s h = inr (omega (arith, header_size-encode p s))
