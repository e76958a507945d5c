-- ===== src/Net/Recv/Stream.antt =====
-- `ProcessRecv` on a stream of packets: whole packets are delivered; a packet split over two
-- receives is not.
use mmo_server_cpp.Base.{
  ℕ, suc, ◌+◌, ◌≤◌, ◌<◌, ◌≡◌, ◌≢◌, refl, sym, ap, ◌∙◌, List, [], ◌∷◌, ◌++◌, none, some, inl, inr,
  arith, length, drop, map, Option-cases, Bool-cases, take-append-drop, append-nil,
  drop-append_of_eq, length-append, subst, append_assoc, ◌⊎◌, dec_lt,
}
use mmo_server_cpp.Net.RecvBuffer.{
  RecvBuffer, on_read, clear, free_size, pending, data_size_to_read,
}
use mmo_server_cpp.Net.RecvBuffer.Laws.{
  IsValid, fill-IsValid, on_write-IsValid, on_read-IsValid, pending-fill, length-pending,
  pending-clear, on_read-pending, fill_cursors, on_read_cursors, clear_roomy, clear_defined,
}
use mmo_server_cpp.Net.Packet.{Received, on_recv_completed}
use mmo_server_cpp.Net.Packet.Stream.{
  Packet, encode, frames, stream, AllSendable, IsSendable, IsPartial, prefix-IsPartial,
  below-IsPartial, IsPartial-append, on_recv_completed-stream, on_recv_completed_short,
}
use mmo_server_cpp.Net.Recv.{
  Event, packet, post_recv, post_disconnect, Session, register_recv, done, packets_of, finish,
  process_recv,
}
use mmo_server_cpp.Net.Recv.Laws.{arrived, process_recv_lem, process_recv-IsValid, Leaves}

packets_of-append : (es fs : List Event) → packets_of (es ++ fs) ≡ packets_of es ++ packets_of fs
packets_of-append [] fs = refl
packets_of-append (packet p ∷ es) fs = ap (◌∷◌ p) (packets_of-append es fs)
packets_of-append (post_recv n ∷ es) fs = packets_of-append es fs
packets_of-append (post_disconnect ∷ es) fs = packets_of-append es fs

packets_of-map : (ps : List (List ℕ)) → packets_of (map packet ps) ≡ ps
packets_of-map [] = refl
packets_of-map (p ∷ ps) = ap (◌∷◌ p) (packets_of-map ps)

packets_of-register : (s : Session) → packets_of (register_recv s).events ≡ packets_of s.events
unfolding register_recv
packets_of-register s = elim (Bool-cases s.connected) [
  | inl up ↦ rw up (packets_of-append s.events (post_recv _ ∷ []) ∙ append-nil _)
  | inr down ↦ rw down
]

register_keeps :
    (s : Session)
    → ((register_recv s).recv_buffer ≡ s.recv_buffer) × ((register_recv s).connected ≡ s.connected)
unfolding register_recv
register_keeps s = ground arith

-- What a receive delivered, and what it left in the buffer.
pub record Delivered (s : Session) (ps : List (List ℕ)) (rest : List ℕ) (t : Session) : Type 0 where
  pub packets : packets_of t.events ≡ packets_of s.events ++ ps
  pub left : pending t.recv_buffer ≡ rest
  pub up : t.connected ≡ s.connected

finish-Delivered :
    (s : Session) (r : RecvBuffer) (ps : List (List ℕ)) (rest : List ℕ)
    → IsValid r
    → pending r ≡ rest
    → clear r ≢ none
    → (t : Session) × (finish
          (record s { recv_buffer = r; events = s.events ++ map packet ps })
          (clear r)
        ≡ done t)
      × Delivered s ps rest t
      × (clear r ≡ some t.recv_buffer)
unfolding finish
finish-Delivered s r ps rest v e def = elim (Option-cases (clear r)) [
  | inl bad ↦ absurd (def bad)
  | inr (q, good) ↦
      let u : Session = record s { recv_buffer = q; events = s.events ++ map packet ps } in
      (
        register_recv u,
        rw good,
        record {
          packets =
              packets_of-register u
              ∙ packets_of-append s.events (map packet ps)
              ∙ ap (◌++◌ (packets_of s.events)) (packets_of-map ps);
          left = ap pending (register_keeps u).0 ∙ pending-clear r v good ∙ e;
          up = (register_keeps u).1;
        },
        good ∙ ap some (sym (register_keeps u).0),
      )
]

-- The memory behind the read cursor starts with what is pending.
memory :
    (r : RecvBuffer)
    → drop r.read_at r.buffer ≡ pending r ++ drop (data_size_to_read r) (drop r.read_at r.buffer)
memory r = sym (take-append-drop (data_size_to_read r) (drop r.read_at r.buffer))

process_recv-Delivered :
    (fuel : ℕ) (s : Session) (bytes : List ℕ) (r : Received)
    → IsValid s.recv_buffer
    → 0 < length bytes
    → length bytes ≤ free_size s.recv_buffer
    → on_recv_completed fuel
        (drop (arrived s bytes).read_at (arrived s bytes).buffer)
        (length bytes)
      ≡ some r
    → r.process_length ≤ length bytes
    → clear (on_read (arrived s bytes) r.process_length).0 ≢ none
    → (t : Session) × (process_recv fuel s bytes ≡ done t)
      × Delivered s r.packets (drop r.process_length (pending s.recv_buffer ++ bytes)) t
      × (clear (on_read (arrived s bytes) r.process_length).0 ≡ some t.recv_buffer)
process_recv-Delivered fuel s bytes r v pos h e le def =
    let w : IsValid (arrived s bytes) =
      on_write-IsValid _ (length bytes) (fill-IsValid s.recv_buffer bytes v h) in
    let cursors = fill_cursors s.recv_buffer bytes h in
    let fits : r.process_length ≤ data_size_to_read (arrived s bytes) =
      omega (arith, cursors, v.ordered) in
    let left =
      (on_read-pending (arrived s bytes) r.process_length fits).1
      ∙ ap (drop r.process_length) (pending-fill s.recv_buffer bytes v h).1 in
    let (t, ends, d, c) =
      finish-Delivered s (on_read (arrived s bytes) r.process_length).0 r.packets _
        (on_read-IsValid _ r.process_length w) left def in
    (t, process_recv_lem fuel s bytes r v pos h e le ∙ ends, d, c)

-- What the loop is given: the pending bytes, those received, and what stood behind them.
abbrev junk : Session → List ℕ → List ℕ
junk s bytes =
    drop (data_size_to_read (arrived s bytes))
      (drop (arrived s bytes).read_at (arrived s bytes).buffer)

on_arrival :
    (fuel : ℕ) (s : Session) (bytes : List ℕ)
    → IsValid s.recv_buffer
    → length bytes ≤ free_size s.recv_buffer
    → on_recv_completed fuel
        (drop (arrived s bytes).read_at (arrived s bytes).buffer)
        (length bytes)
      ≡ on_recv_completed fuel ((pending s.recv_buffer ++ bytes) ++ junk s bytes) (length bytes)
on_arrival fuel s bytes v h =
    ap (λ b. on_recv_completed fuel b (length bytes))
      (memory (arrived s bytes)
        ∙ ap (λ p. p ++ junk s bytes) (pending-fill s.recv_buffer bytes v h).1)

-- Nothing is pending in a valid receive buffer, and a receive that fits the free space brings a run
-- of packets, each of which fits a chunk of send buffers under an id of a `uint16`, and a part of one,
-- not both empty; behind it there is room for another receive, or the part is no longer than what
-- stands before it in the buffer. Then all the packets are delivered, in order, and the part stays
-- pending; the connection is kept.
pub process_recv-frames :
    (s : Session) (ps : List Packet) (rest : List ℕ)
    → IsValid s.recv_buffer
    → pending s.recv_buffer ≡ []
    → AllSendable ps
    → IsPartial rest (length rest)
    → 0 < length (stream ps rest)
    → length (stream ps rest) ≤ free_size s.recv_buffer
    → (length rest ≤ s.recv_buffer.read_at + length (frames ps))
      ⊎ (s.recv_buffer.buffer_size + length (stream ps rest) ≤ free_size s.recv_buffer)
    → (t : Session) × (process_recv (length ps + 1) s (stream ps rest) ≡ done t)
      × Delivered s (map encode ps) rest t
process_recv-frames s ps rest v empty sendable part pos h low =
    let bytes : List ℕ = stream ps rest in
    let e = on_arrival (length ps + 1) s bytes v h in
    let only : pending s.recv_buffer ++ bytes ≡ bytes = ap (λ p. p ++ bytes) empty in
    let cursors = fill_cursors s.recv_buffer bytes h in
    let none_left : data_size_to_read s.recv_buffer ≡ 0 =
      sym (length-pending s.recv_buffer v) ∙ ap length empty in
    let n : length bytes ≡ length (frames ps) + length rest = length-append (frames ps) rest in
    let fits : length (frames ps) ≤ data_size_to_read (arrived s bytes) =
      omega (arith, cursors, v.ordered) in
    let read = on_read_cursors (arrived s bytes) (length (frames ps)) fits in
    let read_buffer = (on_read (arrived s bytes) (length (frames ps))).0 in
    let def : clear read_buffer ≢ none = elim low [
      | inl near ↦ clear_defined read_buffer (omega (arith, cursors, read, none_left, near, n))
      | inr room ↦ elim (dec_lt 0 (length rest)) [
        | yes more ↦
            let roomy =
              clear_roomy read_buffer (omega (arith, cursors, read, none_left, n))
                (omega (arith, cursors, read, none_left, n, room)) in
            λ e. cc (roomy, e)
        | no none_more ↦
            clear_defined read_buffer (omega (arith, cursors, read, none_left, n, none_more))
      ]
    ] in
    let (t, ends, d, c) =
      process_recv-Delivered (length ps + 1) s bytes
        (record { process_length = length (frames ps); packets = map encode ps }) v pos h
        (e
          ∙ ap (λ p. on_recv_completed (length ps + 1) (p ++ junk s bytes) (length bytes)) only
          ∙ on_recv_completed-stream ps rest (junk s bytes) sendable part)
        (omega (arith, n)) def in
    (
      t,
      ends,
      record {
        packets = d.packets;
        left =
            d.left
            ∙ ap (drop (length (frames ps))) only
            ∙ drop-append_of_eq (length (frames ps)) (frames ps) rest refl;
        up = d.up;
      },
    )

-- The write cursor has moved on by `n` bytes, in a buffer of the same size.
pub record Grown (r : RecvBuffer) (n : ℕ) (q : RecvBuffer) : Type 0 where
  pub cursor : q.write_at ≡ r.write_at + n
  pub same_capacity : q.capacity ≡ r.capacity
  pub same_size : q.buffer_size ≡ r.buffer_size

-- While the first packet pending is larger than what just arrived, nothing is delivered, also when
-- that packet now stands whole in the buffer.
pub process_recv_short :
    (fuel : ℕ) (s : Session) (bytes : List ℕ)
    → IsValid s.recv_buffer
    → 0 < length bytes
    → IsPartial (pending s.recv_buffer ++ bytes) (length bytes)
    → s.recv_buffer.write_at + length bytes + s.recv_buffer.buffer_size ≤ s.recv_buffer.capacity
    → (t : Session) × (process_recv (suc fuel) s bytes ≡ done t)
      × Delivered s [] (pending s.recv_buffer ++ bytes) t
      × Grown s.recv_buffer (length bytes) t.recv_buffer
process_recv_short fuel s bytes v pos part room =
    let h : length bytes ≤ free_size s.recv_buffer = omega arith in
    let cursors = fill_cursors s.recv_buffer bytes h in
    let n : length bytes ≤ length (pending s.recv_buffer ++ bytes) =
      omega (arith, length-append (pending s.recv_buffer) bytes) in
    let read = on_read_cursors (arrived s bytes) 0 (omega arith) in
    let roomy =
      clear_roomy (on_read (arrived s bytes) 0).0 (omega (arith, cursors, read, v.ordered))
        (omega (arith, cursors, read)) in
    let (t, ends, d, c) =
      process_recv-Delivered (suc fuel) s bytes (record { process_length = 0; packets = [] }) v pos
        h
        (on_arrival (suc fuel) s bytes v h
          ∙ on_recv_completed_short fuel _ (length bytes)
              (IsPartial-append _ (junk s bytes) (length bytes) n part))
        (omega arith) (λ e. cc (roomy, e)) in
    let q : (on_read (arrived s bytes) 0).0 ≡ t.recv_buffer = cc (roomy, c) in
    (
      t,
      ends,
      d,
      subst (Grown s.recv_buffer (length bytes)) q (record {
        cursor = omega (arith, cursors, read);
        same_capacity = omega (arith, cursors, read);
        same_size = omega (arith, cursors, read);
      }),
    )

-- A packet that fits a chunk of send buffers under an id of a `uint16` is split over two receives,
-- `a` and `b ++ c`, where `c` are the bytes behind it and neither `a` nor `b` is empty; the second
-- receive is shorter than the packet. Nothing was pending in the valid receive buffer, which behind
-- both has room for another receive. Then nothing is delivered: after the second receive the packet
-- and `c` are pending.
pub split_packet :
    (s : Session) (p : Packet) (a b c : List ℕ)
    → IsValid s.recv_buffer
    → pending s.recv_buffer ≡ []
    → IsSendable p
    → encode p ≡ a ++ b
    → 0 < length a
    → 0 < length b
    → length (b ++ c) < length (encode p)
    → s.recv_buffer.write_at + length a + length (b ++ c) + s.recv_buffer.buffer_size
      ≤ s.recv_buffer.capacity
    → (t : Session) × (u : Session) × (process_recv 1 s a ≡ done t)
      × (process_recv 1 t (b ++ c) ≡ done u)
      × (packets_of u.events ≡ packets_of s.events)
      × (pending u.recv_buffer ≡ encode p ++ c)
split_packet s p a b c v empty sendable e pa pb less room =
    let n : length (b ++ c) ≡ length b + length c = length-append b c in
    let only : pending s.recv_buffer ++ a ≡ a = ap (λ q. q ++ a) empty in
    let part : IsPartial (pending s.recv_buffer ++ a) (length a) =
      subst (λ q. IsPartial q (length a)) (sym only) (prefix-IsPartial p a b sendable e pb) in
    let (t, first, d, g) = process_recv_short 0 s a v pa part (omega arith) in
    let w : IsValid t.recv_buffer =
      subst (Leaves IsValid) first (process_recv-IsValid 1 s a v (omega arith)) in
    let whole : pending t.recv_buffer ++ (b ++ c) ≡ encode p ++ c =
      ap (λ q. q ++ (b ++ c)) (d.left ∙ only)
      ∙ sym (append_assoc a b c)
      ∙ ap (λ q. q ++ c) (sym e) in
    let part' : IsPartial (pending t.recv_buffer ++ (b ++ c)) (length (b ++ c)) =
      subst (λ q. IsPartial q (length (b ++ c))) (sym whole)
        (IsPartial-append (encode p) c (length (b ++ c)) (omega arith)
          (below-IsPartial p (length (b ++ c)) sendable less)) in
    let (u, second, d', g') =
      process_recv_short 0 t (b ++ c) w (omega arith) part' (omega (arith, g, room)) in
    (t, u, first, second, d'.packets ∙ append-nil _ ∙ d.packets ∙ append-nil _, d'.left ∙ whole)
