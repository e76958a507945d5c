-- ===== src/Threads/Lock.antt =====
-- ServerCore/Lock.h and Lock.cpp: the spinning read-write lock. Each function is one attempt of a
-- thread: the loops of `WriteLock` and `ReadLock` repeat it until it succeeds or the time is up.
-- The first load and the compare-exchange are one step here: only thread `t` itself can make or
-- unmake `t` the owner, so nothing that happens between the two changes the outcome.
pub mod Spec
pub mod Refine
pub mod Exclusion
use mmo_server_cpp.Base.{
  ℕ, ◌+◌, ◌-◌, ◌*◌, ◌/◌, ◌%◌, ◌^◌, List, [], ◌∷◌, Bool, true, false, ◌==◌, if◌then◌else◌,
}

-- `_lock_flag` is a `uint32`: the owner in the upper half, the count of readers in the lower.
-- `_write_count` is a `uint16`.
pub record Lock : Type 0 where
  pub lock_flag : ℕ
  pub write_count : ℕ

pub data Outcome : Type 0 where
  acquired : Outcome
  refused : Outcome
  released : Outcome
  crash : Outcome

abbrev pub empty_flag : ℕ
empty_flag = 0

-- `(_lock_flag & WRITE_THREAD_MASK) >> 16`
abbrev pub owner_of : ℕ → ℕ
owner_of flag = flag / 0x1_0000 % 0x1_0000

-- `_lock_flag & READ_COUNT_MASK`
abbrev pub read_count_of : ℕ → ℕ
read_count_of flag = flag % 0x1_0000

abbrev pub u32 : ℕ → ℕ
u32 n = n % 0x1_0000_0000

abbrev pub u16 : ℕ → ℕ
u16 n = n % 0x1_0000

pub write_lock : Lock → ℕ → Lock × Outcome
write_lock l thread_id =
    if owner_of l.lock_flag == thread_id
    then (record l { write_count = u16 (l.write_count + 1) }, acquired)
    else if l.lock_flag == empty_flag
    then (
      record l { lock_flag = u32 (thread_id * 0x1_0000); write_count = u16 (l.write_count + 1) },
      acquired,
    )
    else (l, refused)

pub write_unlock : Lock → Lock × Outcome
write_unlock l =
    let lock_count = u16 (l.write_count + 0xffff) in
    if read_count_of l.lock_flag == 0
    then (if lock_count == 0
        then (record l { lock_flag = empty_flag; write_count = lock_count }, released)
        else (record l { write_count = lock_count }, released))
    else (l, crash)

pub read_lock : Lock → ℕ → Lock × Outcome
read_lock l thread_id =
    let expected = read_count_of l.lock_flag in
    if owner_of l.lock_flag == thread_id
    then (record l { lock_flag = u32 (l.lock_flag + 1) }, acquired)
    else if l.lock_flag == expected
    then (record l { lock_flag = u32 (expected + 1) }, acquired)
    else (l, refused)

pub read_unlock : Lock → Lock × Outcome
read_unlock l = (
  record l { lock_flag = u32 (l.lock_flag + 0xffff_ffff) },
  if read_count_of l.lock_flag == 0 then crash else released,
)

pub data Call : Type 0 where
  write_locks : ℕ → Call
  write_unlocks : ℕ → Call
  read_locks : ℕ → Call
  read_unlocks : ℕ → Call

unfoldable pub call : Lock → Call → Lock × Outcome
unfolding write_lock write_unlock read_lock read_unlock
call l (write_locks t) = write_lock l t
call l (write_unlocks t) = write_unlock l
call l (read_locks t) = read_lock l t
call l (read_unlocks t) = read_unlock l

-- The calls of all threads in the order in which they take effect, with what each returns.
unfoldable pub run : Lock → List Call → Lock × List Outcome
run l [] = (l, [])
run l (c ∷ cs) = let (m, o) = call l c in let (n, os) = run m cs in (n, o ∷ os)

unfoldable pub unlocked : Lock
unlocked = record { lock_flag = empty_flag; write_count = 0 }
