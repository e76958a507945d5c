-- ===== src/Jobs/Queue.antt =====
-- ServerCore/JobQueue.cpp, with LockQueue.h, GlobalQueue.cpp and `ThreadManager::WorkGlobalQueue`:
-- one job queue, as the atomic steps that threads take in any order. Jobs are numbers; what a job
-- does when it runs is any further steps.
pub mod Laws
use mmo_server_cpp.Base.{
  ℕ, zero, suc, ◌+◌, ◌-◌, List, [], ◌∷◌, ◌++◌, Bool, true, false, ◌==◌, if◌then◌else◌, length,
}

-- What becomes of the queue: nobody serves it, it waits in `g_global_queue`, a thread in `Execute`
-- is about to call `PopAll`, or it runs the jobs that it has taken.
pub data Phase : Type 0 where
  idle : Phase
  posted : Phase
  polling : Phase
  running : List ℕ → Phase

-- `first` holds while the thread that saw `prev_count == 0` has not pushed its job yet; `others`
-- threads have counted their job and not pushed it. `executed` lists the jobs that have run.
pub record JobQueue : Type 0 where
  pub jobs : List ℕ
  pub job_count : ℕ
  pub first : Bool
  pub others : ℕ
  pub phase : Phase
  pub executed : List ℕ

unfoldable pub empty : JobQueue
empty = record { jobs = []; job_count = 0; first = false; others = 0; phase = idle; executed = [] }

-- `const int32 prev_count = _job_count.fetch_add(1);`
pub count_up : JobQueue → JobQueue
count_up q =
    if q.job_count == 0
    then record q { job_count = q.job_count + 1; first = true }
    else record q { job_count = q.job_count + 1; others = q.others + 1 }

-- `_jobs.Push(job)` where `prev_count` was not 0.
pub push_other : JobQueue → ℕ → JobQueue
push_other q job =
    if q.others == 0 then q else record q { others = q.others - 1; jobs = q.jobs ++ (job ∷ []) }

-- `_jobs.Push(job)` where `prev_count` was 0: `direct` tells whether the thread executes the queue
-- itself (`push_only == false && nullptr == tls_current_job_queue`) or posts it.
pub push_first : JobQueue → ℕ → Bool → JobQueue
push_first q job direct =
    if q.first
    then record q {
      first = false;
      jobs = q.jobs ++ (job ∷ []);
      phase = if direct then polling else posted;
    }
    else q

-- `WorkGlobalQueue`: a worker takes the posted queue and calls `Execute`.
take_by : JobQueue → Phase → JobQueue
take_by q posted = record q { phase = polling }
take_by q idle = q
take_by q polling = q
take_by q (running batch) = q

pub take : JobQueue → JobQueue
unfolding take_by
take q = take_by q q.phase

-- `_jobs.PopAll(OUT jobs)`
pop_by : JobQueue → Phase → JobQueue
pop_by q polling = record q { phase = running q.jobs; jobs = [] }
pop_by q idle = q
pop_by q posted = q
pop_by q (running batch) = q

pub pop_all : JobQueue → JobQueue
unfolding pop_by
pop_all q = pop_by q q.phase

-- The jobs have run: `fetch_sub`, and the test of the time slice.
finish_by : JobQueue → Phase → Bool → JobQueue
finish_by q (running batch) time_up = record q {
  job_count = q.job_count - length batch;
  executed = q.executed ++ batch;
  phase = if length batch == q.job_count then idle else if time_up then posted else polling;
}
finish_by q idle time_up = q
finish_by q posted time_up = q
finish_by q polling time_up = q

pub finish : JobQueue → Bool → JobQueue
unfolding finish_by
finish q time_up = finish_by q q.phase time_up

pub data Action : Type 0 where
  counts : Action
  pushes : ℕ → Action
  pushes_first : ℕ → Bool → Action
  takes : Action
  pops : Action
  finishes : Bool → Action

pub step : JobQueue → Action → JobQueue
unfolding count_up push_other push_first take pop_all finish
step q counts = count_up q
step q (pushes job) = push_other q job
step q (pushes_first job direct) = push_first q job direct
step q takes = take q
step q pops = pop_all q
step q (finishes time_up) = finish q time_up

unfoldable pub run : JobQueue → List Action → JobQueue
unfolding step
run q [] = q
run q (a ∷ as') = run (step q a) as'
