-- ===== src/Game/Outbox/Watch.antt =====
-- No full queue is forgotten, no flag stays down; and a later packet can overtake an earlier one.
use mmo_server_cpp.Base.{
  ℕ, ◌+◌, ◌-◌, ◌<◌, ◌%◌, ◌^◌, ◌≡◌, ◌⊎◌, inl, inr, refl, ap, List, [], ◌∷◌, ◌++◌, Bool, true, false,
  Option, none, some, get_elem?, length, length-append, arith, ◌&&◌, leb,
}
use mmo_server_cpp.Game.Outbox.{
  Buffer, Caller, reserver, timer, server, Outbox, new_outbox, send_byte, reserve, claim, returned,
  take_out, flush_send, remove_at, send, hand_over, finish, store, Action, reserves, claims,
  flushes, hands_over, stores, disconnects, step, run,
}

-- The count of bytes is that of the queue, a queue of `SEND_BYTE` bytes has a thread that
-- is about to flush it, and the flag is down only while a job or a call will raise it.
pub bytes : List Buffer → ℕ
bytes [] = 0
bytes (b ∷ bs) = b.write_size + bytes bs

bytes-append : (xs : List Buffer) (b : Buffer) → bytes (xs ++ b ∷ []) ≡ bytes xs + b.write_size
unfolding bytes
bytes-append [] b = omega arith
bytes-append (x ∷ xs) b = omega (arith, bytes-append xs b)

pub record IsWatched (o : Outbox) : Type 0 where
  pub counted : o.pending_bytes ≡ bytes o.send_packets % 2 ^ 32
  pub full_seen : (o.pending_bytes < send_byte) ⊎ (0 < o.full)
  pub flag_seen : (o.can_flush ≡ true) ⊎ (0 < o.timers + length o.flushing + length o.storing)

new_outbox-IsWatched : IsWatched new_outbox
unfolding new_outbox bytes
new_outbox-IsWatched = record {
  counted = refl;
  full_seen = inl (omega arith);
  flag_seen = inl refl;
}

reserve-IsWatched : (o : Outbox) (b : Buffer) → IsWatched o → IsWatched (reserve o b)
unfolding reserve
reserve-IsWatched o b v = record {
  counted = let more = bytes-append o.send_packets b in let k = v.counted in ground arith;
  full_seen = ground (arith, v.full_seen);
  flag_seen = ground (arith, v.flag_seen);
}

claim-IsWatched : (o : Outbox) → IsWatched o → IsWatched (claim o)
unfolding claim
claim-IsWatched o v = record {
  counted = ground (arith, v.counted);
  full_seen = ground (arith, v.full_seen);
  flag_seen = ground (arith, v.flag_seen);
}

returned-IsWatched : (o : Outbox) (c : Caller) → IsWatched o → IsWatched (returned o c)
unfolding returned
returned-IsWatched o reserver v = record {
  counted = v.counted;
  full_seen = v.full_seen;
  flag_seen = v.flag_seen;
}
returned-IsWatched o timer v = v
returned-IsWatched o server v = v

take_out-IsWatched :
    (o : Outbox) (c : Caller) (q : List Buffer)
    → o.send_packets ≡ q
    → o.pending_bytes ≡ bytes o.send_packets % 2 ^ 32
    → IsWatched (take_out o c q)
unfolding take_out bytes
take_out-IsWatched o c [] e k =
    let none_left = ap bytes e in
    returned-IsWatched (record o { can_flush = true }) c
      (record { counted = k; full_seen = inl (omega arith); flag_seen = inl refl })
take_out-IsWatched o c (b ∷ bs) e k = record {
  counted = refl;
  full_seen = inl (omega arith);
  flag_seen = inr (let more = length-append o.flushing ((c, b ∷ bs) ∷ []) in omega (arith, more));
}

flush_send-IsWatched : (o : Outbox) (c : Caller) → IsWatched o → IsWatched (flush_send o c)
unfolding flush_send
flush_send-IsWatched o reserver v =
    let taken =
      take_out-IsWatched (record o { full = o.full - 1 }) reserver o.send_packets refl v.counted in
    ground arith
flush_send-IsWatched o timer v =
    let taken =
      take_out-IsWatched (record o { timers = o.timers - 1 }) timer o.send_packets refl v.counted in
    ground arith
flush_send-IsWatched o server v = take_out-IsWatched o server o.send_packets refl v.counted

send-IsWatched :
    (o : Outbox) (i : ℕ) (found : Option (Caller × List Buffer))
    → IsWatched o
    → IsWatched (send o i found)
unfolding send
send-IsWatched o i none v = v
send-IsWatched o i (some (c, bs)) v = record {
  counted = v.counted;
  full_seen = v.full_seen;
  flag_seen = inr (let more = length-append o.storing (c ∷ []) in omega (arith, more));
}

finish-IsWatched :
    (o : Outbox) (i : ℕ) (found : Option Caller) → IsWatched o → IsWatched (finish o i found)
unfolding finish
finish-IsWatched o i none v = v
finish-IsWatched o i (some c) v =
    returned-IsWatched (record o { storing = remove_at o.storing i; can_flush = true }) c
      (record { counted = v.counted; full_seen = v.full_seen; flag_seen = inl refl })

-- Histories without a disconnection.
unfoldable pub stays_up : Action → Bool
stays_up (reserves b) = true
stays_up claims = true
stays_up (flushes c) = true
stays_up (hands_over i) = true
stays_up (stores i) = true
stays_up disconnects = false

unfoldable pub all_up : List Action → Bool
unfolding stays_up
all_up [] = true
all_up (a ∷ rest) = stays_up a && all_up rest

step-IsWatched : (o : Outbox) (a : Action) → stays_up a ≡ true → IsWatched o → IsWatched (step o a)
unfolding step stays_up hand_over store
step-IsWatched o (reserves b) up v = reserve-IsWatched o b v
step-IsWatched o claims up v = claim-IsWatched o v
step-IsWatched o (flushes c) up v = flush_send-IsWatched o c v
step-IsWatched o (hands_over i) up v = send-IsWatched o i (get_elem? o.flushing i) v
step-IsWatched o (stores i) up v = finish-IsWatched o i (get_elem? o.storing i) v
step-IsWatched o disconnects up v = absurd (ground arith)

run-IsWatched :
    (o : Outbox) (actions : List Action)
    → all_up actions ≡ true
    → IsWatched o
    → IsWatched (run o actions)
unfolding run all_up
run-IsWatched o [] up v = v
run-IsWatched o (a ∷ rest) up v =
    run-IsWatched (step o a) rest (ground arith) (step-IsWatched o a (ground arith) v)

-- In every interleaving without a disconnection: `_pending_bytes` is what the queue holds, up to
-- the range of `uint32`; when it has reached `SEND_BYTE` a thread in `ReserveSend` is about to
-- flush; and while `_can_flush` is down, a timed job or a call of `FlushSend` is left that will
-- raise it.
pub run-new_outbox-IsWatched :
    (actions : List Action) → all_up actions ≡ true → IsWatched (run new_outbox actions)
run-new_outbox-IsWatched actions up = run-IsWatched new_outbox actions up new_outbox-IsWatched

-- Two packets that are reserved one after the other, while the server's loop and the timer flush.
abbrev pub late_timer : Buffer → Buffer → List Action
late_timer first second =
    reserves first
    ∷ claims
    ∷ flushes server
    ∷ reserves second
    ∷ flushes timer
    ∷ hands_over 1
    ∷ hands_over 0
    ∷ []

-- An outbox where nothing waits and no job is due.
pub idle : Outbox → Outbox
idle o = record o {
  send_packets = [];
  pending_bytes = 0;
  can_flush = true;
  claiming = 0;
  timers = 0;
  flushing = [];
}

-- Whatever was sent before: of two small packets that are reserved one after the other, where
-- nothing waits, the second is sent first, if the timer flushes it while the server's loop holds
-- the first and has not sent it yet.
pub overtaken :
    (o : Outbox) (first second : Buffer)
    → first.write_size < send_byte
    → second.write_size < send_byte
    → (run (idle o) (late_timer first second)).sent ≡ (o.sent ++ second ∷ []) ++ first ∷ []
unfolding run step reserve claim flush_send take_out hand_over send returned remove_at idle
overtaken o first second small small' =
    let below : (n : ℕ) → n < send_byte → leb send_byte ((0 + n) % 2 ^ 32) ≡ false =
      λ n h. ground arith in
    rw (below first.write_size small, below second.write_size small') refl
