-- ===== src/Jobs/Timer.antt =====
-- ServerCore/JobTimer.h and JobTimer.cpp: jobs that wait for their time.
pub mod Laws
use mmo_server_cpp.Base.{ℕ, ◌+◌, List, [], ◌∷◌, ◌++◌, Bool, true, false, ltb, if◌then◌else◌, map}

-- `TimerItem` with its `JobData`: `owner` names the queue of the `weak_ptr`.
pub record TimerItem : Type 0 where
  pub execute_time : ℕ
  pub owner : ℕ
  pub job : ℕ

-- `_timer_items`, the earliest item first; items of the same time keep no promised order in a
-- `priority_queue`, and stand here in the order of their arrival.
pub record JobTimer : Type 0 where
  pub items : List TimerItem
  pub processing : Bool

pub insert : TimerItem → List TimerItem → List TimerItem
insert x [] = x ∷ []
insert x (y ∷ ys) = if ltb x.execute_time y.execute_time then x ∷ y ∷ ys else y ∷ insert x ys

unfoldable pub reserve_job : JobTimer → ℕ → ℕ → ℕ → ℕ → JobTimer
reserve_job t tick delay owner job = record t {
  items = insert (record { execute_time = tick + delay; owner = owner; job = job }) t.items;
}

-- The locked loop of `DistributeJobs`: the items whose time has come, and those that stay.
pub take_due : ℕ → List TimerItem → List TimerItem × List TimerItem
take_due now [] = ([], [])
take_due now (x ∷ xs) =
    let (due, later) = take_due now xs in
    if ltb now x.execute_time then ([], x ∷ xs) else (x ∷ due, later)

-- The loop over the taken items: a job goes to its queue if that is still alive.
pub deliver : (ℕ → Bool) → List TimerItem → List (ℕ × ℕ)
deliver alive [] = []
deliver alive (x ∷ xs) =
    let rest = deliver alive xs in if alive x.owner then (x.owner, x.job) ∷ rest else rest

-- The pushes that `DistributeJobs` makes. It returns at once while another thread is in it.
unfoldable pub distribute_jobs : JobTimer → ℕ → (ℕ → Bool) → JobTimer × List (ℕ × ℕ)
distribute_jobs t now alive = if t.processing then (t, []) else (
  record t { items = (take_due now t.items).1; processing = false },
  deliver alive (take_due now t.items).0,
)

pub clear : JobTimer → JobTimer
clear t = record t { items = [] }
