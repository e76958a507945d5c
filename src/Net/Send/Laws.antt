-- ===== src/Net/Send/Laws.antt =====
-- One `WSASend` at a time, buffers in order, and no lost wake-up.
use mmo_server_cpp.Base.{
  ℕ, ◌≡◌, refl, sym, ap, ◌∙◌, ◌<◌, List, [], ◌∷◌, ◌++◌, Bool, true, false, inl, inr, ◌⊎◌, arith,
  Bool-cases, if◌then◌else◌, append_assoc, append-nil,
}
use mmo_server_cpp.Net.Send.{
  Sender, initial, Action, pushes, exchanges, registers, completes, disconnects, push, exchange,
  register_send, process_send, step, run,
}

-- Whoever registers or has a send outstanding holds the flag, and never both at once.
pub record IsExclusive (s : Sender) : Type 0 where
  pub registering_flag : (s.registering ≡ false) ⊎ (s.send_registered ≡ true)
  pub outstanding_flag : (s.outstanding ≡ false) ⊎ (s.send_registered ≡ true)
  pub one : (s.registering ≡ false) ⊎ (s.outstanding ≡ false)
  pub released : (s.outstanding ≡ true) ⊎ (s.event_buffers ≡ [])

pub step-IsExclusive : (s : Sender) (a : Action) → IsExclusive s → IsExclusive (step s a)
unfolding step
step-IsExclusive s (pushes bs) v = ground arith
step-IsExclusive s exchanges v = ground arith
step-IsExclusive s (registers accepted reset) v = ground arith
step-IsExclusive s (completes n) v = ground arith
step-IsExclusive s disconnects v = ground arith

-- While the session is connected and no call has failed, queued buffers are in somebody's charge.
abbrev pub IsServed : Sender → Type 0
IsServed s =
    (s.connected ≡ false)
    ⊎ (s.failed ≡ true)
    ⊎ (s.send_queue ≡ [])
    ⊎ (0 < s.waiting)
    ⊎ (s.registering ≡ true)
    ⊎ (s.outstanding ≡ true)

-- The flag is set only while somebody is at work.
abbrev pub IsHeld : Sender → Type 0
IsHeld s =
    (s.connected ≡ false)
    ⊎ (s.send_registered ≡ false)
    ⊎ (s.registering ≡ true)
    ⊎ (s.outstanding ≡ true)

pub step-IsHeld : (s : Sender) (a : Action) → IsHeld s → IsHeld (step s a)
unfolding step
step-IsHeld s (pushes bs) v = ground arith
step-IsHeld s exchanges v = ground arith
step-IsHeld s (registers accepted reset) v = ground arith
step-IsHeld s (completes n) v = ground arith
step-IsHeld s disconnects v = ground arith

pub step-IsServed : (s : Sender) (a : Action) → IsHeld s → IsServed s → IsServed (step s a)
unfolding step
step-IsServed s (pushes bs) w v = ground arith
step-IsServed s exchanges w v = ground arith
step-IsServed s (registers accepted reset) w v = ground arith
step-IsServed s (completes n) w v = ground arith
step-IsServed s disconnects w v = ground arith

pub record Inv (s : Sender) : Type 0 where
  pub exclusive : IsExclusive s
  pub held : IsHeld s
  pub served : IsServed s

initial-Inv : Inv initial
unfolding initial
initial-Inv = record { exclusive = ground arith; held = ground arith; served = ground arith }

run-Inv : (s : Sender) (as' : List Action) → Inv s → Inv (run s as')
unfolding run
run-Inv s [] v = v
run-Inv s (a ∷ as') v = run-Inv (step s a) as' (record {
  exclusive = step-IsExclusive s a v.exclusive;
  held = step-IsHeld s a v.held;
  served = step-IsServed s a v.held v.served;
})

-- In every interleaving of a session's threads, a thread in `RegisterSend` and a `WSASend` that has
-- not completed exclude one another and hold `_send_registered`; and while the session is connected
-- and no `WSASend` has failed, a non-empty queue has a thread or a completion that will see it.
pub run-initial-Inv : (as' : List Action) → Inv (run initial as')
run-initial-Inv as' = run-Inv initial as' initial-Inv

-- The buffers that the pushes of a history put into the queue.
pub queued_by : Sender → Action → List ℕ
queued_by s (pushes bs) = if s.connected then bs else []
queued_by s exchanges = []
queued_by s (registers accepted reset) = []
queued_by s (completes n) = []
queued_by s disconnects = []

pub queued : Sender → List Action → List ℕ
queued s [] = []
queued s (a ∷ as') = queued_by s a ++ queued (step s a) as'

-- What waits and what was handed over, in order.
abbrev line : Sender → List ℕ
line s = s.handed ++ s.send_queue

push-line : (s : Sender) (bs : List ℕ) → line (push s bs) ≡ line s ++ queued_by s (pushes bs)
unfolding push queued_by
push-line s bs = elim (Bool-cases s.connected) [
  | inl up ↦ rw up (sym (append_assoc s.handed s.send_queue bs))
  | inr down ↦ rw down (sym (append-nil (line s)))
]

register-line :
    (s : Sender) (q : List ℕ) (accepted reset : Bool)
    → IsExclusive s
    → s.send_queue ≡ q
    → line (register_send s accepted reset) ≡ line s
unfolding register_send
register-line s [] accepted reset v e = ground arith
register-line s (b ∷ bs) true reset v e = ground (arith, append-nil (s.handed ++ (b ∷ bs)))
register-line s (b ∷ bs) false reset v e = ground (arith, append-nil (s.handed ++ (b ∷ bs)))

exchange-line : (s : Sender) → line (exchange s) ≡ line s
unfolding exchange
exchange-line s = ground arith

process-line :
    (s : Sender) (q : List ℕ) (n : ℕ) → s.send_queue ≡ q → line (process_send s n) ≡ line s
unfolding process_send
process-line s [] n e = ground arith
process-line s (b ∷ bs) n e = ground arith

step-line : (s : Sender) (a : Action) → IsExclusive s → line (step s a) ≡ line s ++ queued_by s a
unfolding step queued_by
step-line s (pushes bs) v = push-line s bs
step-line s exchanges v = exchange-line s ∙ sym (append-nil (line s))
step-line s (registers accepted reset) v =
    register-line s s.send_queue accepted reset v refl ∙ sym (append-nil (line s))
step-line s (completes n) v = process-line s s.send_queue n refl ∙ sym (append-nil (line s))
step-line s disconnects v = sym (append-nil (line s))

run-line :
    (s : Sender) (as' : List Action) → IsExclusive s → line (run s as') ≡ line s ++ queued s as'
unfolding run queued
run-line s [] v = sym (append-nil (line s))
run-line s (a ∷ as') v =
    run-line (step s a) as' (step-IsExclusive s a v)
    ∙ ap (λ l. l ++ queued (step s a) as') (step-line s a v)
    ∙ append_assoc (line s) (queued_by s a) (queued (step s a) as')

-- What was handed to `WSASend`, followed by what still waits, is what was queued, in that order:
-- no buffer is left out, handed over twice or overtaken.
pub send-fifo :
    (as' : List Action)
    → (run initial as').handed ++ (run initial as').send_queue ≡ queued initial as'
unfolding initial
send-fifo as' = run-line initial as' initial-Inv.exclusive
