-- ===== src/Game/Heartbeat.antt =====
-- The heartbeat of a session: GameServer/Heartbeat.cpp and `OnConnectCompleted` of GameSession.cpp.
use mmo_server_cpp.Base.{
  ℕ, ◌+◌, ◌-◌, ◌%◌, ◌^◌, ◌<◌, ◌≤◌, ◌≡◌, refl, ap, ◌∙◌, subst, sym, Option, none, some, Bool, true,
  false, ltb, leb, if◌then◌else◌, arith, ◌⊎◌, inl, inr, dec_lt,
}

-- `ping_due` is the time of the next `Ping` that is reserved, in milliseconds.
pub record Pulse : Type 0 where
  pub connected : Bool
  pub heartbeat_tick : ℕ
  pub ping_due : Option ℕ
  pub pings : ℕ

unfoldable pub on_connect_completed : Pulse → ℕ → Pulse
on_connect_completed p now = record p {
  connected = true;
  heartbeat_tick = now;
  ping_due = some (now + 5000);
}

-- `Ping`; the difference is one of `uint64`.
unfoldable pub ping : Pulse → ℕ → Pulse
ping p now =
    if ltb 8000 ((now + 2 ^ 64 - p.heartbeat_tick) % 2 ^ 64)
    then record p { connected = false; ping_due = none }
    else record p { pings = p.pings + 1; ping_due = some (now + 5000) }

unfoldable pub handle_pong : Pulse → ℕ → Pulse
handle_pong p now = record p { heartbeat_tick = now }

-- The timer runs a `Ping` that is due.
unfoldable pub ping_if : Pulse → ℕ → Option ℕ → Pulse
ping_if p now none = p
ping_if p now (some due) = if leb due now then ping p now else p

unfoldable pub run_timer : Pulse → ℕ → Pulse
run_timer p now = ping_if p now p.ping_due

ping_late :
    (p : Pulse) (now : ℕ)
    → now < 2 ^ 64
    → p.heartbeat_tick + 8000 < now
    → ping p now ≡ record p { connected = false; ping_due = none }
unfolding ping
ping_late p now small late =
    let d : (now + 2 ^ 64 - p.heartbeat_tick) % 2 ^ 64 ≡ now - p.heartbeat_tick = omega arith in
    ground (arith, d)

ping_early :
    (p : Pulse) (now : ℕ)
    → now < 2 ^ 64
    → p.heartbeat_tick ≤ now
    → now ≤ p.heartbeat_tick + 8000
    → ping p now ≡ record p { pings = p.pings + 1; ping_due = some (now + 5000) }
unfolding ping
ping_early p now small passed early =
    let d : (now + 2 ^ 64 - p.heartbeat_tick) % 2 ^ 64 ≡ now - p.heartbeat_tick = omega arith in
    ground (arith, d)

abbrev pub IsGone : Pulse → Type 0
IsGone p = (p.connected ≡ false) × (p.ping_due ≡ none)

run_timer-IsGone : (p : Pulse) (now : ℕ) → IsGone p → IsGone (run_timer p now)
unfolding run_timer ping_if
run_timer-IsGone p now (gone, never) =
    let same : run_timer p now ≡ p = ap (ping_if p now) never in
    (ap (λ (q : Pulse). q.connected) same ∙ gone, ap (λ (q : Pulse). q.ping_due) same ∙ never)

-- What the timer makes of a session whose ping is due.
run_timer_due :
    (p : Pulse) (due now : ℕ)
    → p.ping_due ≡ some due
    → due ≤ now
    → p.heartbeat_tick ≤ now
    → now < 2 ^ 64
    → IsGone (run_timer p now)
      ⊎ ((now ≤ p.heartbeat_tick + 8000)
          × (run_timer p now ≡ record p { pings = p.pings + 1; ping_due = some (now + 5000) }))
unfolding run_timer ping_if
run_timer_due p due now e h k small =
    let reached : leb due now ≡ true = ground arith in
    let runs : run_timer p now ≡ ping p now = ap (ping_if p now) e ∙ rw reached refl in
    elim (dec_lt (p.heartbeat_tick + 8000) now) [
      | yes late ↦
          let gone = runs ∙ ping_late p now small late in
          inl (ap (λ (q : Pulse). q.connected) gone, ap (λ (q : Pulse). q.ping_due) gone)
      | no early ↦ inr (omega arith, runs ∙ ping_early p now small k (omega arith))
    ]

-- From a reserved ping on: a session whose last answer is at most 8 seconds old is not
-- disconnected by the ping, and one that gives no answer between three pings is disconnected by
-- the third, if not before.
pub run_timer_lem :
    (p : Pulse) (due first second third : ℕ)
    → p.ping_due ≡ some due
    → p.heartbeat_tick ≤ due
    → due ≤ first
    → first + 5000 ≤ second
    → second + 5000 ≤ third
    → third < 2 ^ 64
    → ((p.heartbeat_tick + 8000 < first) ⊎ ((run_timer p first).connected ≡ p.connected))
      × IsGone (run_timer (run_timer (run_timer p first) second) third)
unfolding run_timer ping_if
run_timer_lem p due first second third e a b c d small = (
  elim (dec_lt (p.heartbeat_tick + 8000) first) [
    | yes late ↦ inl late
    | no early ↦ inr (answered (omega arith))
  ],
  elim (run_timer_due p due first e b (omega arith) (omega arith)) [
    | inl gone ↦
        run_timer-IsGone (run_timer (run_timer p first) second) third
          (run_timer-IsGone (run_timer p first) second gone)
    | inr (early, once) ↦
        let q : Pulse = record p { pings = p.pings + 1; ping_due = some (first + 5000) } in
        let again : IsGone (run_timer (run_timer q second) third) =
          elim (run_timer_due q (first + 5000) second refl c (omega arith) (omega arith)) [
            | inl gone ↦ run_timer-IsGone (run_timer q second) third gone
            | inr (early', twice) ↦
                let r : Pulse = record q { pings = q.pings + 1; ping_due = some (second + 5000) } in
                let last : IsGone (run_timer r third) =
                  elim (run_timer_due r (second + 5000) third refl d (omega arith) small) [
                    | inl gone ↦ gone
                    | inr (late, never) ↦ absurd (omega arith)
                  ] in
                subst (λ t. IsGone (run_timer t third)) (sym twice) last
          ] in
        subst (λ r. IsGone (run_timer (run_timer r second) third)) (sym once) again
  ],
)
  where
    answered : first ≤ p.heartbeat_tick + 8000 → (run_timer p first).connected ≡ p.connected
    answered early =
        let reached : leb due first ≡ true = ground arith in
        let runs : run_timer p first ≡ ping p first = ap (ping_if p first) e ∙ rw reached refl in
        ap (λ (q : Pulse). q.connected)
          (runs ∙ ping_early p first (omega arith) (omega arith) early)
