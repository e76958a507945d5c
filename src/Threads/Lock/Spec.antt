-- ===== src/Threads/Lock/Spec.antt =====
-- What the README promises of the lock: one writing thread, which may lock again and may read;
-- readers together while nobody writes; no reading thread becomes the writer.
use mmo_server_cpp.Base.{
  ℕ, ◌+◌, ◌-◌, ◌<◌, ◌≡◌, List, [], ◌∷◌, Bool, true, false, ◌==◌, ◌||◌, ◌&&◌, if◌then◌else◌,
}
use mmo_server_cpp.Threads.Lock.{
  Outcome, acquired, refused, released, crash, Call, write_locks, write_unlocks, read_locks,
  read_unlocks,
}

-- `owner` is 0 while nobody writes; `readers` has an entry for each read lock that is held.
pub record Held : Type 0 where
  pub owner : ℕ
  pub depth : ℕ
  pub readers : List ℕ

unfoldable pub free : Held
free = record { owner = 0; depth = 0; readers = [] }

abbrev pub is_empty : List ℕ → Bool
is_empty [] = true
is_empty (x ∷ xs) = false

-- One lock of thread `t` goes.
unfoldable pub remove : ℕ → List ℕ → List ℕ
remove t [] = []
remove t (x ∷ xs) = if x == t then xs else x ∷ remove t xs

unfoldable pub holds : ℕ → List ℕ → Bool
holds t [] = false
holds t (x ∷ xs) = (x == t) || holds t xs

may_write : Held → ℕ → Bool
may_write h t = (h.owner == t) || ((h.owner == 0) && is_empty h.readers)

may_read : Held → ℕ → Bool
may_read h t = (h.owner == t) || (h.owner == 0)

-- Threads unlock what they hold (`AllowedCall`), so nothing is refused there.
unfoldable pub spec : Held → Call → Held × Outcome
unfolding may_write may_read
spec h (write_locks t) =
    if may_write h t then (record h { owner = t; depth = h.depth + 1 }, acquired) else (h, refused)
spec h (write_unlocks t) =
    if is_empty h.readers
    then (record h { owner = if h.depth == 1 then 0 else h.owner; depth = h.depth - 1 }, released)
    else (h, crash)
spec h (read_locks t) =
    if may_read h t then (record h { readers = t ∷ h.readers }, acquired) else (h, refused)
spec h (read_unlocks t) = (record h { readers = remove t h.readers }, released)

-- Guards unlock only what they have locked; thread ids are those of `ThreadManager::InitTLS`.
abbrev pub Allowed : Held → Call → Type 0
Allowed h (write_locks t) = (0 < t) × (t < 0x1_0000)
Allowed h (write_unlocks t) = (0 < t) × (h.owner ≡ t)
Allowed h (read_locks t) = (0 < t) × (t < 0x1_0000)
Allowed h (read_unlocks t) = holds t h.readers ≡ true

unfoldable pub run : Held → List Call → Held × List Outcome
run h [] = (h, [])
run h (c ∷ cs) = let (k, o) = spec h c in let (l, os) = run k cs in (l, o ∷ os)

abbrev pub AllAllowed : Held → List Call → Type 0
AllAllowed h [] = Unit {0}
AllAllowed h (c ∷ cs) = Allowed h c × AllAllowed (spec h c).0 cs
