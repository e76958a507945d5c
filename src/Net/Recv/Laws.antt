-- ===== src/Net/Recv/Laws.antt =====
-- What `ProcessRecv` does with a completed receive.
use mmo_server_cpp.Base.{
  ℕ, ◌≤◌, ◌<◌, ◌≡◌, refl, List, ◌++◌, Option, none, some, false, inl, inr, arith, length, drop, map,
  Bool-cases, ltb, le→ltb, ◌==◌,
}
use mmo_server_cpp.Net.RecvBuffer.{
  RecvBuffer, fill, on_write, on_read, clear, free_size, data_size_to_read,
}
use mmo_server_cpp.Net.RecvBuffer.Laws.{
  IsValid, fill-IsValid, on_write-IsValid, on_read-IsValid, clear-IsValid, pending-fill,
  on_read-pending, fill_cursors,
}
use mmo_server_cpp.Net.Packet.{Received, on_recv_completed}
use mmo_server_cpp.Net.Recv.{
  packet, Session, disconnect, Outcome, done, runs_on, undefined, finish, consume, dispatch,
  process_recv,
}

-- The outcome leaves a buffer with `P`, where there is one.
abbrev pub Leaves : (RecvBuffer → Type 0) → Outcome → Type 0
Leaves P (done s) = P s.recv_buffer
Leaves P runs_on = Unit {0}
Leaves P undefined = Unit {0}

disconnect_buffer : (s : Session) → (disconnect s).recv_buffer ≡ s.recv_buffer
unfolding disconnect
disconnect_buffer s = ground arith

finish-IsValid :
    (s : Session) (r : RecvBuffer) (o : Option RecvBuffer)
    → IsValid r
    → clear r ≡ o
    → Leaves IsValid (finish s o)
unfolding finish
finish-IsValid s r none v e = tt
finish-IsValid s r (some q) v e = let w : IsValid q = clear-IsValid r v e in ground arith

consume-IsValid : (s : Session) (n p : ℕ) → IsValid s.recv_buffer → Leaves IsValid (consume s n p)
unfolding consume
consume-IsValid s n p v =
    let gone : IsValid (disconnect s).recv_buffer = rw (disconnect_buffer s) v in
    elim (Bool-cases (ltb n p)) [
      | inl bad ↦ rw bad gone
      | inr good ↦ elim (Bool-cases (on_read s.recv_buffer p).1) [
        | inl moved ↦
            rw (good, moved) (finish-IsValid _ _ _ (on_read-IsValid s.recv_buffer p v) refl)
        | inr stays ↦ rw (good, stays) gone
      ]
    ]

dispatch-IsValid :
    (s : Session) (n : ℕ) (o : Option Received)
    → IsValid s.recv_buffer
    → Leaves IsValid (dispatch s n o)
unfolding dispatch
dispatch-IsValid s n none v = tt
dispatch-IsValid s n (some r) v = consume-IsValid _ n r.process_length v

-- The buffer once the received bytes are in it.
abbrev pub arrived : Session → List ℕ → RecvBuffer
arrived s bytes = (on_write (fill s.recv_buffer bytes) (length bytes)).0

-- Whatever arrives, within the room that `WSARecv` was given, and whatever the contents make of
-- it, `ProcessRecv` keeps the receive buffer valid on every path that returns.
pub process_recv-IsValid :
    (fuel : ℕ) (s : Session) (bytes : List ℕ)
    → IsValid s.recv_buffer
    → length bytes ≤ free_size s.recv_buffer
    → Leaves IsValid (process_recv fuel s bytes)
unfolding process_recv
process_recv-IsValid fuel s bytes v h =
    let filled : IsValid (fill s.recv_buffer bytes) = fill-IsValid s.recv_buffer bytes v h in
    let w : IsValid (arrived s bytes) = on_write-IsValid _ (length bytes) filled in
    let room = (pending-fill s.recv_buffer bytes v h).0 in
    elim (Bool-cases (length bytes == 0)) [
      | inl empty ↦ rw (empty, disconnect_buffer s) v
      | inr more ↦ rw (more, room) (dispatch-IsValid _ (length bytes) _ w)
    ]

-- A receive on which the loop of `OnRecvCompleted` ends with `r`.
pub process_recv_lem :
    (fuel : ℕ) (s : Session) (bytes : List ℕ) (r : Received)
    → IsValid s.recv_buffer
    → 0 < length bytes
    → length bytes ≤ free_size s.recv_buffer
    → on_recv_completed fuel
        (drop (arrived s bytes).read_at (arrived s bytes).buffer)
        (length bytes)
      ≡ some r
    → r.process_length ≤ length bytes
    → process_recv fuel s bytes
      ≡ finish
          (record s {
            recv_buffer = (on_read (arrived s bytes) r.process_length).0;
            events = s.events ++ map packet r.packets;
          })
          (clear (on_read (arrived s bytes) r.process_length).0)
unfolding process_recv dispatch consume
process_recv_lem fuel s bytes r v pos h e le =
    let filled : IsValid (fill s.recv_buffer bytes) = fill-IsValid s.recv_buffer bytes v h in
    let w : IsValid (arrived s bytes) = on_write-IsValid _ (length bytes) filled in
    let room = (pending-fill s.recv_buffer bytes v h).0 in
    let cursors = fill_cursors s.recv_buffer bytes h in
    let fits : r.process_length ≤ data_size_to_read (arrived s bytes) =
      omega (arith, cursors, v.ordered) in
    let moved = (on_read-pending (arrived s bytes) r.process_length fits).0 in
    let more : (length bytes == 0) ≡ false = ground arith in
    rw (more, room, e, le→ltb _ _ le, moved)
