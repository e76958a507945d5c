-- ===== src/Threads/Detector.antt =====
-- ServerCore/DeadLockDetector.h and DeadLockDetector.cpp. Threads and locks are numbers; each
-- operation runs under the detector's own mutex, so it is one step.
pub mod Search
pub mod Exact
pub mod Nested
use mmo_server_cpp.Base.{
  ℕ, zero, suc, ◌+◌, List, [], ◌∷◌, ◌++◌, Option, none, some, Bool, true, false, ◌==◌,
  if◌then◌else◌, length, lookup, insert, erase, contains,
}
use mmo_server_cpp.Base.Int.{ℤ, pos, negsuc, ◌+ℤ◌, ltb_ℤ, ◌==ℤ◌}

pub record Detector : Type 0 where
  pub owner_count : List (ℕ × ℤ)
  pub wait_map : List (ℕ × List ℕ)
  pub owner_map : List (ℕ × ℕ)

abbrev pub or_empty : Option (List ℕ) → List ℕ
or_empty none = []
or_empty (some ls) = ls

-- The locks that thread `t` is asking for; a thread without an entry asks for none.
abbrev pub waits_for : Detector → ℕ → List ℕ
waits_for d t = or_empty (lookup t d.wait_map)

-- What a search returns: the answer and `visited_thread`, or `none` where the fuel runs out.
abbrev pub Found : Type 0
Found = Option (Bool × List ℕ)

pub go_on : (List ℕ → Found) → Found → Found
go_on rest none = none
go_on rest (some (true, visited)) = some (true, visited)
go_on rest (some (false, visited)) = rest visited

-- One round of the loop of `CheckCycle`, at a lock with the owner `owner`; `rec` is the recursive
-- call and `rest` the rounds that follow.
pub visit : (ℕ → List ℕ → Found) → ℕ → (List ℕ → Found) → Option ℕ → List ℕ → Found
unfolding go_on
visit rec current rest none visited = rest visited
visit rec current rest (some next) visited =
    let deeper = go_on rest (rec next visited) in
    if next == current then some (true, visited) else deeper

pub check_locks : (ℕ → List ℕ → Found) → Detector → ℕ → List ℕ → List ℕ → Found
unfolding visit
check_locks rec d current [] visited = some (false, visited)
check_locks rec d current (lk ∷ lks) visited =
    visit rec current (λ visited'. check_locks rec d current lks visited') (lookup lk d.owner_map)
      visited

-- `CheckCycle`; `none` where the fuel runs out.
pub check_cycle : ℕ → Detector → ℕ → ℕ → List ℕ → Found
unfolding check_locks
check_cycle zero d current next visited = none
check_cycle (suc fuel) d current next visited =
    let search =
      check_locks (check_cycle fuel d current) d current (waits_for d next) (next ∷ visited) in
    if contains next visited then some (false, visited) else search

-- An operation returns, throws, or (only for want of fuel) does not end.
pub data Result : Type 0 where
  returns : Detector → Result
  throws : Detector → Result
  runs_on : Result

report : Detector → Found → Result
report d none = runs_on
report d (some (true, visited)) = throws d
report d (some (false, visited)) = returns d

unfoldable pub request : Detector → ℕ → ℕ → Detector
request d thread lk = record d {
  wait_map = insert thread (waits_for d thread ++ (lk ∷ [])) d.wait_map;
}

search_from : Detector → ℕ → Option ℕ → Result
unfolding report
search_from d thread none = returns d
search_from d thread (some owner) =
    if owner == thread
    then returns d
    else report d (check_cycle (length d.owner_map + 1) d thread owner [])

unfoldable pub before_lock : Detector → ℕ → ℕ → Result
unfolding request search_from check_cycle
before_lock d thread lk =
    let d' = request d thread lk in search_from d' thread (lookup lk d'.owner_map)

-- `vector_lock.erase(find_lock)`: the first entry of `lk` goes.
pub remove_first : ℕ → List ℕ → List ℕ
remove_first lk [] = []
remove_first lk (x ∷ xs) = if x == lk then xs else x ∷ remove_first lk xs

abbrev pub or_zero : Option ℤ → ℤ
or_zero none = pos 0
or_zero (some n) = n

abbrev pub count_of : Detector → ℕ → ℤ
count_of d thread = or_zero (lookup thread d.owner_count)

abbrev is_owner : Option ℕ → ℕ → Bool
is_owner none thread = false
is_owner (some owner) thread = owner == thread

own : Detector → ℕ → ℕ → Detector
own d thread lk =
    if is_owner (lookup lk d.owner_map) thread
    then record d { owner_count = insert thread (count_of d thread +ℤ pos 1) d.owner_count }
    else record d {
      owner_count = insert thread (pos 1) d.owner_count;
      owner_map = insert lk thread d.owner_map;
    }

after_wait : Detector → ℕ → ℕ → Option (List ℕ) → Result
unfolding own
after_wait d thread lk none = throws d
after_wait d thread lk (some waiting) =
    returns
      (own (record d { wait_map = insert thread (remove_first lk waiting) d.wait_map }) thread lk)

pub after_lock : Detector → ℕ → ℕ → Result
unfolding after_wait
after_lock d thread lk = after_wait d thread lk (lookup thread d.wait_map)

settle : Detector → ℕ → ℤ → Result
settle d lk count =
    if count ==ℤ pos 0
    then returns (record d { owner_map = erase lk d.owner_map })
    else if ltb_ℤ count (pos 0)
    then throws d
    else returns d

unfoldable pub before_unlock : Detector → ℕ → ℕ → Result
unfolding settle
before_unlock d thread lk =
    let count = count_of d thread +ℤ negsuc 0 in
    if is_owner (lookup lk d.owner_map) thread
    then settle (record d { owner_count = insert thread count d.owner_count }) lk count
    else throws d

-- `BEFORE_LOCK`, the lock itself, `AFTER_LOCK`: what a guard's constructor does in a debug build.
infixl 5 ◌then_do◌
abbrev pub ◌then_do◌ : Result → (Detector → Result) → Result
(returns d) then_do f = f d
(throws d) then_do f = throws d
runs_on then_do f = runs_on

unfoldable pub acquire : Detector → ℕ → ℕ → Result
acquire d thread lk = before_lock d thread lk then_do λ d'. after_lock d' thread lk
