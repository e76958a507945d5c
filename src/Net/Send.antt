-- ===== src/Net/Send.antt =====
-- The sending half of a session: `Send`, `RegisterSend`, `ProcessSend` and `Disconnect` of
-- ServerCore/Session.cpp, as the atomic steps that threads take in any order.
pub mod Laws
use mmo_server_cpp.Base.{
  ℕ, zero, suc, ◌+◌, ◌-◌, List, [], ◌∷◌, ◌++◌, Bool, true, false, ◌==◌, if◌then◌else◌, not, ◌&&◌,
}

-- A send buffer is named by a number. `waiting` threads stand between the push and the exchange of
-- `Send`; `registering` holds while one is in `RegisterSend`; `outstanding` while a `WSASend` has
-- not completed. `handed` lists all that was handed to `WSASend`, which is given all the buffers of
-- the send event; `failed` notes a failed call.
pub record Sender : Type 0 where
  pub connected : Bool
  pub send_queue : List ℕ
  pub send_registered : Bool
  pub event_buffers : List ℕ
  pub waiting : ℕ
  pub registering : Bool
  pub outstanding : Bool
  pub handed : List ℕ
  pub failed : Bool

unfoldable pub initial : Sender
initial = record {
  connected = true;
  send_queue = [];
  send_registered = false;
  event_buffers = [];
  waiting = 0;
  registering = false;
  outstanding = false;
  handed = [];
  failed = false;
}

-- `Send` up to the end of its locked block. A queue of buffers goes in at once.
pub push : Sender → List ℕ → Sender
push s buffers =
    if s.connected
    then record s { send_queue = s.send_queue ++ buffers; waiting = s.waiting + 1 }
    else s

-- `if (false == _send_registered.exchange(true)) RegisterSend();`
pub exchange : Sender → Sender
exchange s =
    if s.waiting == 0
    then s
    else if s.send_registered
    then record s { waiting = s.waiting - 1 }
    else record s { waiting = s.waiting - 1; send_registered = true; registering = true }

-- The locked block of `RegisterSend` and its `WSASend`; `accepted` is false where that fails with
-- an error other than `WSA_IO_PENDING`, and `reset` tells whether `HandleError` disconnects.
post : Sender → List ℕ → Bool → Bool → Sender
post s [] accepted reset = record s { send_registered = false; registering = false }
post s (b ∷ bs) true reset = record s {
  send_queue = [];
  event_buffers = s.event_buffers ++ (b ∷ bs);
  registering = false;
  outstanding = true;
  handed = s.handed ++ (s.event_buffers ++ (b ∷ bs));
}
post s (b ∷ bs) false reset = record s {
  connected = s.connected && not reset;
  send_queue = [];
  event_buffers = [];
  send_registered = false;
  registering = false;
  handed = s.handed ++ (s.event_buffers ++ (b ∷ bs));
  failed = true;
}

pub register_send : Sender → Bool → Bool → Sender
unfolding post
register_send s accepted reset =
    if s.registering
    then (if s.connected
        then post s s.send_queue accepted reset
        else record s { registering = false })
    else s

settle : Sender → List ℕ → Sender
settle s [] = record s { send_registered = false }
settle s (b ∷ bs) = record s { registering = true }

-- `ProcessSend`, when the outstanding `WSASend` completes.
pub process_send : Sender → ℕ → Sender
unfolding settle
process_send s send_bytes =
    let released = record s { event_buffers = []; outstanding = false } in
    if s.outstanding
    then (if send_bytes == 0
        then record released { connected = false }
        else settle released s.send_queue)
    else s

pub disconnect : Sender → Sender
disconnect s = record s { connected = false }

pub data Action : Type 0 where
  pushes : List ℕ → Action
  exchanges : Action
  registers : Bool → Bool → Action
  completes : ℕ → Action
  disconnects : Action

pub step : Sender → Action → Sender
unfolding push exchange register_send process_send disconnect
step s (pushes bs) = push s bs
step s exchanges = exchange s
step s (registers accepted reset) = register_send s accepted reset
step s (completes n) = process_send s n
step s disconnects = disconnect s

unfoldable pub run : Sender → List Action → Sender
unfolding step
run s [] = s
run s (a ∷ as') = run (step s a) as'
