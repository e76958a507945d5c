-- ===== src/Threads/Lock/Refine.antt =====
-- The lock word behaves as the abstract lock.
use mmo_server_cpp.Base.{
  ℕ, suc, ◌+◌, ◌*◌, ◌<◌, ◌≤◌, ◌≡◌, ◌≢◌, ◌↔◌, refl, ap₂, List, [], ◌∷◌, true, arith, length, All,
  subst,
}
use mmo_server_cpp.Threads.Lock
use mmo_server_cpp.Threads.Lock.{
  Lock, Outcome, acquired, refused, released, crash, Call, write_locks, write_unlocks, read_locks,
  read_unlocks, call, unlocked, write_lock, write_unlock, read_lock, read_unlock, owner_of,
  read_count_of,
}
use mmo_server_cpp.Threads.Lock.Spec
use mmo_server_cpp.Threads.Lock.Spec.{Held, free, spec, remove, holds, Allowed, AllAllowed}

-- The word `l` stands for the holders `h`, of which there are at most `n` of a kind.
pub record Refines (l : Lock) (h : Held) (n : ℕ) : Type 0 where
  pub flag : l.lock_flag ≡ h.owner * 0x1_0000 + length h.readers
  pub count : l.write_count ≡ h.depth
  pub owner_small : h.owner < 0x1_0000
  pub few_readers : length h.readers ≤ n
  pub few_locks : h.depth ≤ n
  pub free_iff : (h.depth ≡ 0) ↔ (h.owner ≡ 0)

-- The abstract lock keeps readers and a writer of another thread apart.
abbrev pub Excludes : Held → Type 0
Excludes h = h.owner ≢ 0 → All (λ t. t ≡ h.owner) h.readers

length-remove : (t : ℕ) (xs : List ℕ) → holds t xs ≡ true → suc (length (remove t xs)) ≡ length xs
unfolding remove holds
length-remove t [] h = cc
length-remove t (x ∷ xs) h = ground (arith, length-remove t xs)

module _ (l : Lock) (h : Held) (n : ℕ) (small : n < 0xffff) (r : Refines l h n) where
  owner_of_flag : owner_of l.lock_flag ≡ h.owner
  owner_of_flag = omega (arith, r)

  read_count : read_count_of l.lock_flag ≡ length h.readers
  read_count = omega (arith, r)

  pub call-Refines :
      (c : Call)
      → Allowed h c
      → ((call l c).1 ≡ (spec h c).1) × Refines (call l c).0 (spec h c).0 (suc n)
  unfolding call spec write_lock write_unlock read_lock read_unlock
  call-Refines (write_locks t) a = ground (arith, owner_of_flag, read_count)
  call-Refines (write_unlocks t) a = ground (arith, owner_of_flag, read_count)
  call-Refines (read_locks t) a = ground (arith, owner_of_flag, read_count)
  call-Refines (read_unlocks t) a =
      ground (arith, owner_of_flag, read_count, length-remove t h.readers)

unlocked-Refines : Refines unlocked free 0
unfolding unlocked free
unlocked-Refines = omega arith

pub run-Refines :
    (cs : List Call) (l : Lock) (h : Held) (n : ℕ)
    → n + length cs ≤ 0xffff
    → Refines l h n
    → AllAllowed h cs
    → ((Lock.run l cs).1 ≡ (Spec.run h cs).1)
      × Refines (Lock.run l cs).0 (Spec.run h cs).0 (n + length cs)
unfolding Lock.run Spec.run
run-Refines [] l h n small r a = (refl, subst (Refines l h) (omega arith) r)
run-Refines (c ∷ cs) l h n small r a =
    let (o, r') = call-Refines l h n (omega arith) r c a.0 in
    let (os, r'') = run-Refines cs (call l c).0 (spec h c).0 (suc n) (omega arith) r' a.1 in
    (ap₂ ◌∷◌ o os, subst (Refines _ _) (omega arith) r'')

-- No history of fewer than 2^16 calls tells the lock word from the abstract lock: every attempt is
-- granted or refused as the policy says, and the word always spells out the owner and the number
-- of read locks.
pub run-unlocked-Refines :
    (cs : List Call)
    → length cs < 0x1_0000
    → AllAllowed free cs
    → ((Lock.run unlocked cs).1 ≡ (Spec.run free cs).1)
      × Refines (Lock.run unlocked cs).0 (Spec.run free cs).0 (length cs)
run-unlocked-Refines cs small a =
    let z : 0 + length cs ≡ length cs = omega arith in
    let (os, r) = run-Refines cs unlocked free 0 (omega arith) unlocked-Refines a in
    (os, subst (Refines _ _) z r)
