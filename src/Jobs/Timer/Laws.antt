-- ===== src/Jobs/Timer/Laws.antt =====
-- A job is delivered once its time has come, and not before.
use mmo_server_cpp.Base.{
  ℕ, ◌≤◌, ◌<◌, ◌≡◌, refl, ap, List, [], ◌∷◌, ◌++◌, Bool, false, ltb, arith, All, inl, inr,
  Bool-cases, ◌==◌, if◌then◌else◌,
}
use mmo_server_cpp.Jobs.Timer.{
  TimerItem, JobTimer, insert, reserve_job, take_due, deliver, distribute_jobs,
}

abbrev pub NotBefore : ℕ → List TimerItem → Type 0
NotBefore n [] = Unit {0}
NotBefore n (x ∷ xs) = (n ≤ x.execute_time) × NotBefore n xs

-- The queue is in order of time.
abbrev pub IsOrdered : List TimerItem → Type 0
IsOrdered [] = Unit {0}
IsOrdered (x ∷ xs) = NotBefore x.execute_time xs × IsOrdered xs

NotBefore-mono : (m n : ℕ) (xs : List TimerItem) → m ≤ n → NotBefore n xs → NotBefore m xs
NotBefore-mono m n [] h b = tt
NotBefore-mono m n (x ∷ xs) h b = (omega arith, NotBefore-mono m n xs h b.1)

insert-NotBefore :
    (n : ℕ) (x : TimerItem) (ys : List TimerItem)
    → n ≤ x.execute_time
    → NotBefore n ys
    → NotBefore n (insert x ys)
unfolding insert
insert-NotBefore n x [] h b = (h, tt)
insert-NotBefore n x (y ∷ ys) h b = ground (arith, insert-NotBefore n x ys h b.1)

insert-IsOrdered : (x : TimerItem) (ys : List TimerItem) → IsOrdered ys → IsOrdered (insert x ys)
unfolding insert
insert-IsOrdered x [] o = (tt, tt)
insert-IsOrdered x (y ∷ ys) o = elim (Bool-cases (ltb x.execute_time y.execute_time)) [
  | inl before ↦
      rw before
        ((ground arith, NotBefore-mono x.execute_time y.execute_time ys (ground arith) o.0), o)
  | inr after ↦
      rw after (insert-NotBefore y.execute_time x ys (ground arith) o.0, insert-IsOrdered x ys o.1)
]

-- `ReserveJob` keeps the queue in order.
pub reserve_job-IsOrdered :
    (t : JobTimer) (tick delay owner job : ℕ)
    → IsOrdered t.items
    → IsOrdered (reserve_job t tick delay owner job).items
unfolding reserve_job
reserve_job-IsOrdered t tick delay owner job o = insert-IsOrdered _ t.items o

NotBefore-late :
    (now n : ℕ) (xs : List TimerItem)
    → now < n
    → NotBefore n xs
    → All (λ x. now < x.execute_time) xs
NotBefore-late now n [] h b = tt
NotBefore-late now n (x ∷ xs) h b = (omega arith, NotBefore-late now n xs h b.1)

-- What `DistributeJobs` takes is the front of the queue: all that is due, and nothing else.
record Split (now : ℕ) (xs due later : List TimerItem) : Type 0 where
  parts : xs ≡ due ++ later
  all_due : All (λ x. x.execute_time ≤ now) due
  all_later : All (λ x. now < x.execute_time) later
  ordered : IsOrdered later

take_due-Split :
    (now : ℕ) (xs : List TimerItem)
    → IsOrdered xs
    → Split now xs (take_due now xs).0 (take_due now xs).1
unfolding take_due
take_due-Split now [] o = record { parts = refl; all_due = tt; all_later = tt; ordered = tt }
take_due-Split now (x ∷ xs) o = elim (Bool-cases (ltb now x.execute_time)) [
  | inl early ↦ rw early (record {
    parts = refl;
    all_due = tt;
    all_later = (ground arith, NotBefore-late now x.execute_time xs (ground arith) o.0);
    ordered = o;
  })
  | inr due ↦
      let s = take_due-Split now xs o.1 in
      rw due (record {
        parts = ap (◌∷◌ x) s.parts;
        all_due = (ground arith, s.all_due);
        all_later = s.all_later;
        ordered = s.ordered;
      })
]

-- The jobs among the pushes that go to the queue `k`, and the jobs of `k` among the items.
pub jobs_to : ℕ → List (ℕ × ℕ) → List ℕ
jobs_to k [] = []
jobs_to k (x ∷ xs) = if x.0 == k then x.1 ∷ jobs_to k xs else jobs_to k xs

pub jobs_of : ℕ → List TimerItem → List ℕ
jobs_of k [] = []
jobs_of k (x ∷ xs) = if x.owner == k then x.job ∷ jobs_of k xs else jobs_of k xs

deliver-jobs_to :
    (alive : ℕ → Bool) (due : List TimerItem) (k : ℕ)
    → jobs_to k (deliver alive due) ≡ (if alive k then jobs_of k due else [])
unfolding jobs_to jobs_of deliver
deliver-jobs_to alive [] k = ground arith
deliver-jobs_to alive (x ∷ xs) k = elim (Bool-cases (x.owner == k)) [
  | inl own ↦
      let same : x.owner ≡ k = ground (arith, own) in
      ground (arith, deliver-jobs_to alive xs k, ap alive same)
  | inr other ↦ ground (arith, deliver-jobs_to alive xs k)
]

-- One call of `DistributeJobs` on an ordered queue, with no other thread in it: the queue splits
-- into items that are due and items that are not; those stay, in order; each queue that is alive is
-- pushed its due jobs, all of them and in order of time, and a dead queue none. The next call can
-- go in.
pub distribute_jobs_lem :
    (t : JobTimer) (now : ℕ) (alive : ℕ → Bool)
    → IsOrdered t.items
    → t.processing ≡ false
    → (due : List TimerItem) × (t.items ≡ due ++ (distribute_jobs t now alive).0.items)
      × All (λ x. x.execute_time ≤ now) due
      × All (λ x. now < x.execute_time) (distribute_jobs t now alive).0.items
      × IsOrdered (distribute_jobs t now alive).0.items
      × ((k : ℕ)
          → jobs_to k (distribute_jobs t now alive).1 ≡ (if alive k then jobs_of k due else []))
      × ((distribute_jobs t now alive).0.processing ≡ false)
unfolding distribute_jobs
distribute_jobs_lem t now alive o idle =
    let s = take_due-Split now t.items o in
    let due = (take_due now t.items).0 in
    rw idle (due, s.parts, s.all_due, s.all_later, s.ordered, deliver-jobs_to alive due, refl)
