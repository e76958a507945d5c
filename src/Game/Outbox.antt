-- ===== src/Game/Outbox.antt =====
-- Packets that wait for their flush: `ReserveSend`, `FlushSend` and `OnDisconnectCompleted` of
-- GameServer/GameSession.cpp, as the steps that the threads around a session take in any order.
pub mod Laws
pub mod Watch
use mmo_server_cpp.Base.{
  ℕ, ◌+◌, ◌-◌, ◌%◌, ◌^◌, List, [], ◌∷◌, ◌++◌, Option, none, some, Bool, true, false, ◌==◌, leb,
  if◌then◌else◌, get_elem?, suc, zero,
}

-- A send buffer, with what `WriteSize` says.
pub record Buffer : Type 0 where
  pub name : ℕ
  pub write_size : ℕ

-- `SEND_BYTE`
abbrev pub send_byte : ℕ
send_byte = 0x400

-- Who calls `FlushSend`: a thread in `ReserveSend`, a job of the timer, or the loop of the server
-- over all sessions.
pub data Caller : Type 0 where
  reserver : Caller
  timer : Caller
  server : Caller

-- `full` threads in `ReserveSend` are about to call `FlushSend`, and `claiming` threads are about
-- to exchange `_can_flush`; `timers` jobs wait for their time. `flushing` are the calls of
-- `FlushSend` that hold what they have taken out, and `storing` those that have sent it. `sent` is
-- all that was handed to `Session::Send`, `dropped` what a disconnection threw away.
pub record Outbox : Type 0 where
  pub send_packets : List Buffer
  pub pending_bytes : ℕ
  pub can_flush : Bool
  pub full : ℕ
  pub claiming : ℕ
  pub timers : ℕ
  pub flushing : List (Caller × List Buffer)
  pub storing : List Caller
  pub sent : List Buffer
  pub dropped : List Buffer

unfoldable pub new_outbox : Outbox
new_outbox = record {
  send_packets = [];
  pending_bytes = 0;
  can_flush = true;
  full = 0;
  claiming = 0;
  timers = 0;
  flushing = [];
  storing = [];
  sent = [];
  dropped = [];
}

-- The locked block of `ReserveSend`, and its test of `sendible`.
unfoldable pub reserve : Outbox → Buffer → Outbox
reserve o b =
    let pending = (o.pending_bytes + b.write_size) % 2 ^ 32 in
    let pushed = record o { pending_bytes = pending; send_packets = o.send_packets ++ b ∷ [] } in
    if leb send_byte pending
    then record pushed { full = o.full + 1 }
    else record pushed { claiming = o.claiming + 1 }

-- The exchange of `_can_flush`, and the timed job.
unfoldable pub claim : Outbox → Outbox
claim o =
    if o.claiming == 0
    then o
    else if o.can_flush
    then record o { claiming = o.claiming - 1; can_flush = false; timers = o.timers + 1 }
    else record o { claiming = o.claiming - 1 }

-- A caller of `FlushSend` that returns: `ReserveSend` goes on to its exchange.
unfoldable pub returned : Outbox → Caller → Outbox
returned o reserver = record o { claiming = o.claiming + 1 }
returned o timer = o
returned o server = o

-- The locked block of `FlushSend`, on the queue it finds.
unfoldable pub take_out : Outbox → Caller → List Buffer → Outbox
take_out o c [] = returned (record o { can_flush = true }) c
take_out o c (b ∷ bs) = record o {
  send_packets = [];
  pending_bytes = 0;
  flushing = o.flushing ++ (c, b ∷ bs) ∷ [];
}

-- `FlushSend` up to the end of its locked block, if there is somebody to call it.
unfoldable pub flush_send : Outbox → Caller → Outbox
flush_send o reserver =
    if o.full == 0 then o else take_out (record o { full = o.full - 1 }) reserver o.send_packets
flush_send o timer =
    if o.timers == 0 then o else take_out (record o { timers = o.timers - 1 }) timer o.send_packets
flush_send o server = take_out o server o.send_packets

unfoldable pub remove_at {ℓ} : {A : Type ℓ} → List A → ℕ → List A
remove_at [] i = []
remove_at (x ∷ xs) zero = xs
remove_at (x ∷ xs) (suc i) = x ∷ remove_at xs i

-- `Session::Send(reserved_packet)` of the i-th call, if there is one.
unfoldable pub send : Outbox → ℕ → Option (Caller × List Buffer) → Outbox
send o i none = o
send o i (some (c, bs)) = record o {
  flushing = remove_at o.flushing i;
  storing = o.storing ++ c ∷ [];
  sent = o.sent ++ bs;
}

unfoldable pub hand_over : Outbox → ℕ → Outbox
hand_over o i = send o i (get_elem? o.flushing i)

-- The last line of `FlushSend`, in the i-th call that gets there, if there is one.
unfoldable pub finish : Outbox → ℕ → Option Caller → Outbox
finish o i none = o
finish o i (some c) = returned (record o { storing = remove_at o.storing i; can_flush = true }) c

unfoldable pub store : Outbox → ℕ → Outbox
store o i = finish o i (get_elem? o.storing i)

-- The first block of `OnDisconnectCompleted`.
unfoldable pub on_disconnect_completed : Outbox → Outbox
on_disconnect_completed o = record o {
  send_packets = [];
  can_flush = false;
  dropped = o.dropped ++ o.send_packets;
}

pub data Action : Type 0 where
  reserves : Buffer → Action
  claims : Action
  flushes : Caller → Action
  hands_over : ℕ → Action
  stores : ℕ → Action
  disconnects : Action

unfoldable pub step : Outbox → Action → Outbox
step o (reserves b) = reserve o b
step o claims = claim o
step o (flushes c) = flush_send o c
step o (hands_over i) = hand_over o i
step o (stores i) = store o i
step o disconnects = on_disconnect_completed o

unfoldable pub run : Outbox → List Action → Outbox
run o [] = o
run o (a ∷ rest) = run (step o a) rest
