-- ===== src/Tests/JobTests.antt =====
-- Tests of job queues and of the timer.
use mmo_server_cpp.Base.{
  ℕ, ◌≡◌, ◌<◌, ◌≤◌, refl, List, [], ◌∷◌, ◌++◌, true, false, arith, All, ◌==◌, if◌then◌else◌,
}
use mmo_server_cpp.Jobs.Queue.{
  empty, Action, counts, pushes, pushes_first, takes, pops, finishes, run,
}
use mmo_server_cpp.Jobs.Queue.Laws.{Inv, batch_of, entered, run-empty-Inv, jobs-fifo, drained}
use mmo_server_cpp.Jobs.Timer.{TimerItem, JobTimer, distribute_jobs}
use mmo_server_cpp.Jobs.Timer.Laws.{IsOrdered, jobs_to, jobs_of, distribute_jobs_lem}

-- A second thread pushes while the first executes; a worker takes the queue over.
abbrev history : List Action
history =
    counts
    ∷ pushes_first 1 true
    ∷ counts
    ∷ pops
    ∷ pushes 2
    ∷ finishes true
    ∷ takes
    ∷ pops
    ∷ finishes false
    ∷ []

history_executed : (run empty history).executed ≡ 1 ∷ 2 ∷ []
unfolding run empty
history_executed = refl

run-empty-Inv_example : Inv (run empty history)
run-empty-Inv_example = run-empty-Inv history

jobs-fifo_example :
    (run empty history).executed ++ (batch_of (run empty history).phase ++ (run empty history).jobs)
    ≡ entered empty history
jobs-fifo_example = jobs-fifo history

drained_example : (run empty history).executed ≡ entered empty history
unfolding run empty
drained_example = drained history refl

abbrev item : ℕ → ℕ → ℕ → TimerItem
item time owner job = record { execute_time = time; owner = owner; job = job }

abbrev three_items : JobTimer
three_items = record { items = item 100 1 7 ∷ item 150 2 8 ∷ item 250 1 9 ∷ []; processing = false }

distribute_jobs_example :
    (due : List TimerItem) × (three_items.items
      ≡ due ++ (distribute_jobs three_items 200 (λ o. o == 1)).0.items)
    × All (λ x. x.execute_time ≤ 200) due
    × All (λ x. 200 < x.execute_time) (distribute_jobs three_items 200 (λ o. o == 1)).0.items
    × IsOrdered (distribute_jobs three_items 200 (λ o. o == 1)).0.items
    × ((k : ℕ)
        → jobs_to k (distribute_jobs three_items 200 (λ o. o == 1)).1
          ≡ (if k == 1 then jobs_of k due else []))
    × ((distribute_jobs three_items 200 (λ o. o == 1)).0.processing ≡ false)
distribute_jobs_example = distribute_jobs_lem three_items 200 (λ o. o == 1) (omega arith) refl
