-- ===== src/Jobs/Queue/Laws.antt =====
-- One executor at a time, no job forgotten, and jobs in order.
use mmo_server_cpp.Base.{
  ℕ, ◌+◌, ◌≡◌, refl, sym, ap, ap₂, ◌∙◌, List, [], ◌∷◌, ◌++◌, Bool, true, false, ◌==◌, if◌then◌else◌,
  length, arith, inl, inr, append_assoc, append-nil, length-append, Bool-cases,
}
use mmo_server_cpp.Jobs.Queue.{
  JobQueue, Phase, idle, posted, polling, running, empty, push_other, push_first, take_by, pop_by,
  finish_by, Action, counts, pushes, pushes_first, takes, pops, finishes, step, run,
}

abbrev pub batch_of : Phase → List ℕ
batch_of idle = []
batch_of posted = []
batch_of polling = []
batch_of (running batch) = batch

abbrev pub one_if : Bool → ℕ
one_if true = 1
one_if false = 0

abbrev pub is_served : Phase → Bool
is_served idle = false
is_served posted = true
is_served polling = true
is_served (running batch) = true

-- The counter counts the jobs that are announced, queued or running; and it is positive exactly
-- when one party, and only one, has the queue in its charge: the first pusher, or whoever serves
-- it.
pub record Inv (q : JobQueue) : Type 0 where
  pub counted : q.job_count ≡ one_if q.first + q.others + length q.jobs + length (batch_of q.phase)
  pub charged : one_if q.first + one_if (is_served q.phase) ≡ (if q.job_count == 0 then 0 else 1)

step-Inv : (q : JobQueue) (a : Action) → Inv q → Inv (step q a)
unfolding step
step-Inv q counts v = ground arith
step-Inv q (pushes job) v = ground (arith, length-append q.jobs (job ∷ []))
step-Inv q (pushes_first job direct) v = ground (arith, length-append q.jobs (job ∷ []))
step-Inv q takes v = ground arith
step-Inv q pops v = ground arith
step-Inv q (finishes time_up) v = ground arith

empty-Inv : Inv empty
unfolding empty
empty-Inv = record { counted = refl; charged = refl }

run-Inv : (q : JobQueue) (as' : List Action) → Inv q → Inv (run q as')
unfolding run
run-Inv q [] v = v
run-Inv q (a ∷ as') v = run-Inv (step q a) as' (step-Inv q a v)

-- In every interleaving, `_job_count` counts the jobs that are announced, queued or running, and it
-- is positive exactly when one party has the queue in its charge: never two threads execute the
-- queue, and a queue that holds a job is never left without anybody to run it.
pub run-empty-Inv : (as' : List Action) → Inv (run empty as')
run-empty-Inv as' = run-Inv empty as' empty-Inv

-- The jobs that a history puts into the queue, in the order in which they enter it.
pub entered_by : JobQueue → Action → List ℕ
entered_by q counts = []
entered_by q (pushes job) = if q.others == 0 then [] else job ∷ []
entered_by q (pushes_first job direct) = if q.first then job ∷ [] else []
entered_by q takes = []
entered_by q pops = []
entered_by q (finishes time_up) = []

pub entered : JobQueue → List Action → List ℕ
entered q [] = []
entered q (a ∷ as') = entered_by q a ++ entered (step q a) as'

-- The jobs that have run, that run, and that wait, in order.
abbrev pub line : JobQueue → List ℕ
line q = q.executed ++ (batch_of q.phase ++ q.jobs)

push_other-line :
    (q : JobQueue) (job : ℕ) → line (push_other q job) ≡ line q ++ entered_by q (pushes job)
unfolding push_other entered_by
push_other-line q job = elim (Bool-cases (q.others == 0)) [
  | inl nobody ↦ rw nobody (sym (append-nil (line q)))
  | inr somebody ↦ rw somebody (
      ap (◌++◌ q.executed) (sym (append_assoc (batch_of q.phase) q.jobs (job ∷ [])))
      ∙ sym (append_assoc q.executed (batch_of q.phase ++ q.jobs) (job ∷ [])))
]

push_first-line :
    (q : JobQueue) (job : ℕ) (direct : Bool)
    → batch_of q.phase ≡ []
    → line (push_first q job direct) ≡ line q ++ entered_by q (pushes_first job direct)
unfolding push_first entered_by
push_first-line q job direct e = elim (Bool-cases q.first) [
  | inl yes_first ↦
      let b : batch_of (if direct then polling else posted) ≡ [] = ground arith in
      rw (yes_first, e, b) (sym (append_assoc q.executed q.jobs (job ∷ [])))
  | inr not_first ↦ rw not_first (sym (append-nil (line q)))
]

take_by-line : (q : JobQueue) (p : Phase) → q.phase ≡ p → line (take_by q p) ≡ line q
unfolding take_by
take_by-line q posted e = ground arith
take_by-line q idle e = refl
take_by-line q polling e = refl
take_by-line q (running batch) e = refl

pop_by-line : (q : JobQueue) (p : Phase) → q.phase ≡ p → line (pop_by q p) ≡ line q
unfolding pop_by
pop_by-line q polling e = rw e (ap (◌++◌ q.executed) (append-nil q.jobs))
pop_by-line q idle e = refl
pop_by-line q posted e = refl
pop_by-line q (running batch) e = refl

finish_by-line :
    (q : JobQueue) (p : Phase) (time_up : Bool)
    → q.phase ≡ p
    → line (finish_by q p time_up) ≡ line q
unfolding finish_by
finish_by-line q (running batch) time_up e =
    let b : batch_of
          (if length batch == q.job_count then idle else if time_up then posted else polling)
        ≡ [] =
      ground arith in
    rw (e, b) (append_assoc q.executed batch q.jobs)
finish_by-line q idle time_up e = refl
finish_by-line q posted time_up e = refl
finish_by-line q polling time_up e = refl

-- Whoever pushes first does so while nobody serves the queue.
first-idle : (q : JobQueue) → Inv q → q.first ≡ true → batch_of q.phase ≡ []
first-idle q v e = ground arith

step-line : (q : JobQueue) (a : Action) → Inv q → line (step q a) ≡ line q ++ entered_by q a
unfolding step entered_by
step-line q counts v = ground (arith, append-nil (line q))
step-line q (pushes job) v = push_other-line q job
step-line q (pushes_first job direct) v = elim (Bool-cases q.first) [
  | inl yes_first ↦ push_first-line q job direct (first-idle q v yes_first)
  | inr not_first ↦ rw not_first (sym (append-nil (line q)))
]
step-line q takes v = take_by-line q q.phase refl ∙ sym (append-nil (line q))
step-line q pops v = pop_by-line q q.phase refl ∙ sym (append-nil (line q))
step-line q (finishes time_up) v = finish_by-line q q.phase time_up refl ∙ sym (append-nil (line q))

run-line : (q : JobQueue) (as' : List Action) → Inv q → line (run q as') ≡ line q ++ entered q as'
unfolding run entered
run-line q [] v = sym (append-nil (line q))
run-line q (a ∷ as') v =
    run-line (step q a) as' (step-Inv q a v)
    ∙ ap (λ l. l ++ entered (step q a) as') (step-line q a v)
    ∙ append_assoc (line q) (entered_by q a) (entered (step q a) as')

-- In every interleaving, the jobs that have run, those that run and those that wait are the jobs
-- that were pushed, each once and in the order of their pushes.
pub jobs-fifo :
    (as' : List Action)
    → let q = run empty as' in q.executed ++ (batch_of q.phase ++ q.jobs) ≡ entered empty as'
unfolding empty
jobs-fifo as' = run-line empty as' empty-Inv

nil_of_length : (xs : List ℕ) → length xs ≡ 0 → xs ≡ []
nil_of_length [] e = refl
nil_of_length (x ∷ xs) e = absurd (omega arith)

-- When the counter is back at 0, every job that was pushed has run.
pub drained :
    (as' : List Action)
    → (run empty as').job_count ≡ 0
    → (run empty as').executed ≡ entered empty as'
drained as' zero_jobs =
    let q = run empty as' in
    let v = run-empty-Inv as' in
    let no_jobs : q.jobs ≡ [] = nil_of_length q.jobs (omega (arith, v.counted)) in
    let no_batch : batch_of q.phase ≡ [] =
      nil_of_length (batch_of q.phase) (omega (arith, v.counted)) in
    sym (append-nil q.executed)
    ∙ ap (◌++◌ q.executed) (sym (ap₂ ◌++◌ no_batch no_jobs))
    ∙ jobs-fifo as'
