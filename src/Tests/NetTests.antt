-- ===== src/Tests/NetTests.antt =====
-- Tests of the receive buffer, of packets and of sessions.
use mmo_server_cpp.Base.{
  ℕ, zero, suc, ◌≤◌, ◌<◌, ◌≡◌, refl, inl, List, [], ◌∷◌, ◌++◌, none, some, true, false, arith, map,
  inr, ap, sym, subst, ◌+◌, ◌-◌, ◌⊎◌,
}
use mmo_server_cpp.Net.RecvBuffer.{make, pending}
use mmo_server_cpp.Net.RecvBuffer.Laws.{IsValid, make-IsValid}
use mmo_server_cpp.Net.Packet.{
  Received, make_send_buffer, write_packet, header_at, on_recv_completed,
}
use mmo_server_cpp.Net.Packet.Laws.{Reaches, start, next, NoEmptyHeader}
use mmo_server_cpp.Net.Packet.Stream.{
  Packet, encode, stream, joined, on_recv_completed-frames, on_recv_completed_zero,
  on_recv_completed_total,
}
use mmo_server_cpp.Net.Recv.{Session, done, packets_of, process_recv}
use mmo_server_cpp.Net.Recv.Laws.{Leaves, process_recv-IsValid}
use mmo_server_cpp.Net.Recv.Stream.{Delivered, process_recv-frames, split_packet}
use mmo_server_cpp.Net.Send.{initial, Action, pushes, exchanges, registers, completes, run}
use mmo_server_cpp.Net.Send.Laws.{Inv, queued, run-initial-Inv, send-fifo}

-- A session with a buffer of ten times eight bytes.
abbrev small : Session
small = record { connected = true; recv_buffer = make 8; events = [] }

abbrev move_packet : Packet
move_packet = record { id = 4; body = 1 ∷ 2 ∷ [] }

abbrev pong_packet : Packet
pong_packet = record { id = 25; body = [] }

move_bytes : encode move_packet ≡ 6 ∷ 0 ∷ 4 ∷ 0 ∷ 1 ∷ 2 ∷ []
unfolding write_packet
move_bytes = refl

abbrev both : List Packet
both = move_packet ∷ pong_packet ∷ []

received_both :
    on_recv_completed 3 (6 ∷ 0 ∷ 4 ∷ 0 ∷ 1 ∷ 2 ∷ 4 ∷ 0 ∷ 25 ∷ 0 ∷ 9 ∷ []) 11
    ≡ some (record {
      process_length = 10;
      packets = (6 ∷ 0 ∷ 4 ∷ 0 ∷ 1 ∷ 2 ∷ []) ∷ (4 ∷ 0 ∷ 25 ∷ 0 ∷ []) ∷ [];
    })
unfolding on_recv_completed
received_both = refl

abbrev both_written : List (List ℕ)
both_written = (6 ∷ 0 ∷ 4 ∷ 0 ∷ 1 ∷ 2 ∷ []) ∷ (4 ∷ 0 ∷ 25 ∷ 0 ∷ []) ∷ []

on_recv_completed-frames_example :
    on_recv_completed 3 ((joined both_written ++ (9 ∷ [])) ++ (8 ∷ [])) 11
    ≡ some (record { process_length = 10; packets = both_written })
unfolding make_send_buffer write_packet
on_recv_completed-frames_example =
    on_recv_completed-frames both both_written (9 ∷ []) (8 ∷ []) (omega arith) refl
      (inl (omega arith))

-- A packet that does not fit a chunk crashes.
abbrev zeros : ℕ → List ℕ
zeros zero = []
zeros (suc n) = 0 ∷ zeros n

large_packet : make_send_buffer (zeros (0x3000 - 3)) 4 ≡ none
unfolding make_send_buffer
large_packet = refl

on_recv_completed_zero_example : on_recv_completed 100 (0 ∷ 0 ∷ 4 ∷ 0 ∷ []) 4 ≡ none
on_recv_completed_zero_example =
    on_recv_completed_zero 100 (0 ∷ 0 ∷ 4 ∷ 0 ∷ []) 4 (omega arith) refl

-- Two packets `C_Pong` in a buffer that is zero behind them.
abbrev two_pongs : List ℕ
two_pongs = 4 ∷ 0 ∷ 25 ∷ 0 ∷ 4 ∷ 0 ∷ 25 ∷ 0 ∷ 0 ∷ 0 ∷ []

two_pongs-Reaches : (at : ℕ) → Reaches two_pongs 8 at → (at ≡ 0) ⊎ (at ≡ 4) ⊎ (at ≡ 8)
two_pongs-Reaches _ start = inl refl
two_pongs-Reaches _ (next at c whole) = elim (two_pongs-Reaches at c) [
  | inl first ↦ inr (inl (ap (λ n. n + (header_at two_pongs n).size) first))
  | inr (inl second) ↦ inr (inr (ap (λ n. n + (header_at two_pongs n).size) second))
  | inr (inr last) ↦ absurd (omega (arith, whole.0, last))
]

two_pongs-NoEmptyHeader : NoEmptyHeader two_pongs 8
two_pongs-NoEmptyHeader at c h = elim (two_pongs-Reaches at c) [
  | inl first ↦ subst (λ n. 0 < (header_at two_pongs n).size) (sym first) (omega arith)
  | inr (inl second) ↦ subst (λ n. 0 < (header_at two_pongs n).size) (sym second) (omega arith)
  | inr (inr last) ↦ absurd (omega (arith, h, last))
]

on_recv_completed_total_example :
    (r : Received) × (on_recv_completed 9 two_pongs 8 ≡ some r) × (r.process_length ≤ 8)
on_recv_completed_total_example = on_recv_completed_total two_pongs 8 two_pongs-NoEmptyHeader

small-IsValid : IsValid small.recv_buffer
small-IsValid = make-IsValid 8

process_recv-IsValid_example : Leaves IsValid (process_recv 3 small (6 ∷ 0 ∷ 4 ∷ 0 ∷ 1 ∷ []))
unfolding make
process_recv-IsValid_example =
    process_recv-IsValid 3 small (6 ∷ 0 ∷ 4 ∷ 0 ∷ 1 ∷ []) small-IsValid (omega arith)

process_recv-frames_example :
    (t : Session) × (process_recv 3 small (stream both (9 ∷ [])) ≡ done t)
    × Delivered small (map encode both) (9 ∷ []) t
unfolding make write_packet
process_recv-frames_example =
    process_recv-frames small both (9 ∷ []) small-IsValid refl (omega arith) (inl (omega arith))
      (omega arith) (omega arith) (inl (omega arith))

split_packet_example :
    (t : Session) × (u : Session) × (process_recv 1 small (6 ∷ 0 ∷ 4 ∷ []) ≡ done t)
    × (process_recv 1 t ((0 ∷ 1 ∷ 2 ∷ []) ++ (4 ∷ 0 ∷ [])) ≡ done u)
    × (packets_of u.events ≡ [])
    × (pending u.recv_buffer ≡ encode move_packet ++ (4 ∷ 0 ∷ []))
unfolding make write_packet
split_packet_example =
    split_packet small move_packet (6 ∷ 0 ∷ 4 ∷ []) (0 ∷ 1 ∷ 2 ∷ []) (4 ∷ 0 ∷ []) small-IsValid refl
      (omega arith) refl (omega arith) (omega arith) (omega arith) (omega arith)

-- Two threads send; the second buffer waits for the completion of the first.
abbrev two_sends : List Action
two_sends =
    pushes (1 ∷ [])
    ∷ exchanges
    ∷ registers true false
    ∷ pushes (2 ∷ [])
    ∷ exchanges
    ∷ completes 40
    ∷ registers true false
    ∷ []

two_sends_handed : (run initial two_sends).handed ≡ 1 ∷ 2 ∷ []
unfolding run initial
two_sends_handed = refl

run-initial-Inv_example : Inv (run initial two_sends)
run-initial-Inv_example = run-initial-Inv two_sends

send-fifo_example :
    (run initial two_sends).handed ++ (run initial two_sends).send_queue ≡ queued initial two_sends
send-fifo_example = send-fifo two_sends
