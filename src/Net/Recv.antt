-- ===== src/Net/Recv.antt =====
-- `Session::ProcessRecv`, `RegisterRecv` and `Disconnect` of ServerCore/Session.cpp.
pub mod Laws
pub mod Stream
use mmo_server_cpp.Base.{
  ℕ, List, [], ◌∷◌, ◌++◌, Option, none, some, Bool, true, false, ltb, ◌==◌, if◌then◌else◌, length,
  drop, map,
}
use mmo_server_cpp.Net.RecvBuffer.{RecvBuffer, make, fill, on_write, on_read, clear, free_size}
use mmo_server_cpp.Net.Packet.{Received, on_recv_completed}

-- What a session asks of Winsock, and the packets that it hands to the contents.
pub data Event : Type 0 where
  packet : List ℕ → Event
  post_recv : ℕ → Event
  post_disconnect : Event

pub record Session : Type 0 where
  pub connected : Bool
  pub recv_buffer : RecvBuffer
  pub events : List Event

abbrev pub emit : Session → List Event → Session
emit s es = record s { events = s.events ++ es }

pub disconnect : Session → Session
disconnect s =
    if s.connected then emit (record s { connected = false }) (post_disconnect ∷ []) else s

-- The call of `WSARecv` succeeds here, at once or as pending.
pub register_recv : Session → Session
register_recv s = if s.connected then emit s (post_recv (free_size s.recv_buffer) ∷ []) else s

-- How a call of `ProcessRecv` ends: it may loop for ever (here: the fuel runs out), or copy between
-- overlapping regions.
pub data Outcome : Type 0 where
  done : Session → Outcome
  runs_on : Outcome
  undefined : Outcome

abbrev pub packets_of : List Event → List (List ℕ)
packets_of [] = []
packets_of (packet p ∷ es) = p ∷ packets_of es
packets_of (post_recv n ∷ es) = packets_of es
packets_of (post_disconnect ∷ es) = packets_of es

-- `_recv_buffer.Clear(); RegisterRecv();`
pub finish : Session → Option RecvBuffer → Outcome
unfolding register_recv
finish s none = undefined
finish s (some r) = done (register_recv (record s { recv_buffer = r }))

-- After `OnRecvCompleted`: the checks of `process_size`, and the cursor.
pub consume : Session → ℕ → ℕ → Outcome
consume s recv_bytes process_size =
    let (r, moved) = on_read s.recv_buffer process_size in
    if ltb recv_bytes process_size
    then done (disconnect s)
    else if moved
    then finish (record s { recv_buffer = r }) (clear r)
    else done (disconnect s)

pub dispatch : Session → ℕ → Option Received → Outcome
dispatch s recv_bytes none = runs_on
dispatch s recv_bytes (some r) = consume (emit s (map packet r.packets)) recv_bytes r.process_length

-- The completion of a receive of `bytes`, which stand at `WriteAt()` by now. The length passed on
-- is that of the new bytes, as in the source.
pub process_recv : ℕ → Session → List ℕ → Outcome
process_recv fuel s bytes =
    let (r, room) = on_write (fill s.recv_buffer bytes) (length bytes) in
    let filled = record s { recv_buffer = r } in
    if length bytes == 0
    then done (disconnect s)
    else if room
    then dispatch filled (length bytes)
        (on_recv_completed fuel (drop r.read_at r.buffer) (length bytes))
    else done (disconnect (record s { recv_buffer = fill s.recv_buffer bytes }))
