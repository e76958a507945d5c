-- ===== src/Game/Outbox/Laws.antt =====
-- No reserved packet is lost or doubled, and no full queue is forgotten.
use mmo_server_cpp.Base.{
  ℕ, suc, zero, ◌+◌, ◌-◌, ◌≡◌, refl, ap, ◌∙◌, List, [], ◌∷◌, ◌++◌, Bool, true, Option, none, some,
  if◌then◌else◌, get_elem?, arith,
}
use mmo_server_cpp.Game.Outbox.{
  Buffer, Caller, reserver, timer, server, Outbox, new_outbox, reserve, claim, returned, take_out,
  flush_send, remove_at, send, hand_over, finish, store, on_disconnect_completed, Action, reserves,
  claims, flushes, hands_over, stores, disconnects, step, run,
}

-- How many buffers of a list pass a test.
unfoldable pub tally : (Buffer → Bool) → List Buffer → ℕ
tally p [] = 0
tally p (b ∷ bs) = if p b then suc (tally p bs) else tally p bs

tally-append :
    (p : Buffer → Bool) (xs ys : List Buffer) → tally p (xs ++ ys) ≡ tally p xs + tally p ys
unfolding tally
tally-append p [] ys = omega arith
tally-append p (x ∷ xs) ys = ground (arith, tally-append p xs ys)

pub in_flight : (Buffer → Bool) → List (Caller × List Buffer) → ℕ
in_flight p [] = 0
in_flight p ((c, bs) ∷ fs) = tally p bs + in_flight p fs

in_flight-append :
    (p : Buffer → Bool) (fs : List (Caller × List Buffer)) (c : Caller) (bs : List Buffer)
    → in_flight p (fs ++ (c, bs) ∷ []) ≡ in_flight p fs + tally p bs
unfolding in_flight
in_flight-append p [] c bs = omega arith
in_flight-append p ((d, ds) ∷ fs) c bs = omega (arith, in_flight-append p fs c bs)

in_flight-remove_at :
    (p : Buffer → Bool) (fs : List (Caller × List Buffer)) (i : ℕ) (c : Caller) (bs : List Buffer)
    → get_elem? fs i ≡ some (c, bs)
    → in_flight p fs ≡ tally p bs + in_flight p (remove_at fs i)
unfolding in_flight remove_at
in_flight-remove_at p [] i c bs e = ground arith
in_flight-remove_at p ((d, ds) ∷ fs) zero c bs e =
    let same : tally p ds ≡ tally p bs =
      ap (λ (o : Option (Caller × List Buffer)). elim o [ none ↦ 0 | some f ↦ tally p f.1 ]) e in
    ground (arith, same)
in_flight-remove_at p ((d, ds) ∷ fs) (suc i) c bs e =
    omega (arith, in_flight-remove_at p fs i c bs e)

-- What was reserved and is not lost: sent, on its way, waiting or dropped.
abbrev accounted : (Buffer → Bool) → Outbox → ℕ
accounted p o = tally p o.sent + in_flight p o.flushing + tally p o.send_packets + tally p o.dropped

pub reserved_by : (Buffer → Bool) → Action → ℕ
unfolding tally
reserved_by p (reserves b) = tally p (b ∷ [])
reserved_by p claims = 0
reserved_by p (flushes c) = 0
reserved_by p (hands_over i) = 0
reserved_by p (stores i) = 0
reserved_by p disconnects = 0

-- How many of the buffers that a history reserves pass a test.
pub reserved : (Buffer → Bool) → List Action → ℕ
unfolding reserved_by
reserved p [] = 0
reserved p (a ∷ rest) = reserved_by p a + reserved p rest

returned-accounted :
    (p : Buffer → Bool) (o : Outbox) (c : Caller) → accounted p (returned o c) ≡ accounted p o
unfolding returned
returned-accounted p o reserver = refl
returned-accounted p o timer = refl
returned-accounted p o server = refl

take_out-accounted :
    (p : Buffer → Bool) (o : Outbox) (c : Caller) (q : List Buffer)
    → o.send_packets ≡ q
    → accounted p (take_out o c q) ≡ accounted p o
unfolding take_out tally
take_out-accounted p o c [] e = returned-accounted p (record o { can_flush = true }) c
take_out-accounted p o c (b ∷ bs) e =
    let all = ap (tally p) e in
    let more = in_flight-append p o.flushing c (b ∷ bs) in omega (arith, all, more)

reserve-accounted :
    (p : Buffer → Bool) (o : Outbox) (b : Buffer)
    → accounted p (reserve o b) ≡ accounted p o + tally p (b ∷ [])
unfolding reserve
reserve-accounted p o b = let more = tally-append p o.send_packets (b ∷ []) in ground (arith, more)

flush_send-accounted :
    (p : Buffer → Bool) (o : Outbox) (c : Caller) → accounted p (flush_send o c) ≡ accounted p o
unfolding flush_send
flush_send-accounted p o reserver =
    ground
      (arith, take_out-accounted p (record o { full = o.full - 1 }) reserver o.send_packets refl)
flush_send-accounted p o timer =
    ground
      (arith, take_out-accounted p (record o { timers = o.timers - 1 }) timer o.send_packets refl)
flush_send-accounted p o server = take_out-accounted p o server o.send_packets refl

send-accounted :
    (p : Buffer → Bool) (o : Outbox) (i : ℕ) (found : Option (Caller × List Buffer))
    → get_elem? o.flushing i ≡ found
    → accounted p (send o i found) ≡ accounted p o
unfolding send
send-accounted p o i none e = refl
send-accounted p o i (some (c, bs)) e =
    omega (arith, in_flight-remove_at p o.flushing i c bs e, tally-append p o.sent bs)

finish-accounted :
    (p : Buffer → Bool) (o : Outbox) (i : ℕ) (found : Option Caller)
    → accounted p (finish o i found) ≡ accounted p o
unfolding finish
finish-accounted p o i none = refl
finish-accounted p o i (some c) =
    returned-accounted p (record o { storing = remove_at o.storing i; can_flush = true }) c

claim-accounted : (p : Buffer → Bool) (o : Outbox) → accounted p (claim o) ≡ accounted p o
unfolding claim
claim-accounted p o = ground arith

dropped-accounted :
    (p : Buffer → Bool) (o : Outbox) → accounted p (on_disconnect_completed o) ≡ accounted p o
unfolding on_disconnect_completed tally
dropped-accounted p o = omega (arith, tally-append p o.dropped o.send_packets)

step-accounted :
    (p : Buffer → Bool) (o : Outbox) (a : Action)
    → accounted p (step o a) ≡ accounted p o + reserved_by p a
unfolding step reserved_by hand_over store
step-accounted p o (reserves b) = reserve-accounted p o b
step-accounted p o claims = omega (arith, claim-accounted p o)
step-accounted p o (flushes c) = omega (arith, flush_send-accounted p o c)
step-accounted p o (hands_over i) =
    omega (arith, send-accounted p o i (get_elem? o.flushing i) refl)
step-accounted p o (stores i) = omega (arith, finish-accounted p o i (get_elem? o.storing i))
step-accounted p o disconnects = omega (arith, dropped-accounted p o)

run-accounted :
    (p : Buffer → Bool) (o : Outbox) (actions : List Action)
    → accounted p (run o actions) ≡ accounted p o + reserved p actions
unfolding run reserved
run-accounted p o [] = omega arith
run-accounted p o (a ∷ rest) = omega (arith, run-accounted p (step o a) rest, step-accounted p o a)

-- In every interleaving, whatever is picked out among the buffers: as many as were reserved have
-- been handed to `Session::Send`, are on their way there in a call of `FlushSend`, wait in the
-- queue, or were dropped by a disconnection.
pub run-reserved :
    (p : Buffer → Bool) (actions : List Action)
    → tally p (run new_outbox actions).sent
        + in_flight p (run new_outbox actions).flushing
        + tally p (run new_outbox actions).send_packets
        + tally p (run new_outbox actions).dropped
      ≡ reserved p actions
unfolding new_outbox tally in_flight
run-reserved p actions = run-accounted p new_outbox actions ∙ omega arith
