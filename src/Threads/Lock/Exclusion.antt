-- ===== src/Threads/Lock/Exclusion.antt =====
-- Mutual exclusion.
use mmo_server_cpp.Base.{
  ℕ, ◌<◌, ◌≡◌, ◌≢◌, refl, sym, ◌∙◌, List, [], ◌∷◌, true, ◌==◌, ◌&&◌, subst, arith, length,
  Bool-cases, inl, inr, All,
}
use mmo_server_cpp.Threads.Lock
use mmo_server_cpp.Threads.Lock.{
  Lock, Call, write_locks, write_unlocks, read_locks, read_unlocks, unlocked, owner_of,
  read_count_of, acquired, refused,
}
use mmo_server_cpp.Threads.Lock.Spec
use mmo_server_cpp.Threads.Lock.Spec.{Held, free, spec, remove, is_empty, Allowed, AllAllowed}
use mmo_server_cpp.Threads.Lock.Refine.{Excludes, run-unlocked-Refines}

All-remove : (P : ℕ → Type 0) (t : ℕ) (xs : List ℕ) → All P xs → All P (remove t xs)
unfolding remove
All-remove P t [] a = a
All-remove P t (x ∷ xs) a = elim (Bool-cases (x == t)) [
  | inl hit ↦ rw hit a.1
  | inr miss ↦ rw miss (a.0, All-remove P t xs a.1)
]

All-is_empty : (P : ℕ → Type 0) (xs : List ℕ) → is_empty xs ≡ true → All P xs
All-is_empty P [] e = tt
All-is_empty P (x ∷ xs) e = cc

spec-Excludes : (h : Held) (c : Call) → Allowed h c → Excludes h → Excludes (spec h c).0
unfolding spec
spec-Excludes h (write_locks t) a e = elim (Bool-cases (h.owner == t)) [
  | inl own ↦
      rw own λ owned. subst (λ w. All (λ u. u ≡ w) h.readers) (ground arith) (e (ground arith))
  | inr other ↦ elim (Bool-cases ((h.owner == 0) && is_empty h.readers)) [
    | inl free_now ↦ rw (other, free_now) λ owned. All-is_empty _ h.readers (ground arith)
    | inr busy ↦ rw (other, busy) e
  ]
]
spec-Excludes h (write_unlocks t) a e = elim (Bool-cases (is_empty h.readers)) [
  | inl none_left ↦ rw none_left λ owned. All-is_empty _ h.readers none_left
  | inr some_left ↦ rw some_left e
]
spec-Excludes h (read_locks t) a e = elim (Bool-cases (h.owner == t)) [
  | inl own ↦ rw own λ owned. (ground arith, e owned)
  | inr other ↦ elim (Bool-cases (h.owner == 0)) [
    | inl nobody ↦ rw (other, nobody) λ owned. absurd (owned (ground arith))
    | inr busy ↦ rw (other, busy) e
  ]
]
spec-Excludes h (read_unlocks t) a e = λ owned. All-remove (λ u. u ≡ h.owner) t h.readers (e owned)

run-Excludes :
    (cs : List Call) (h : Held) → AllAllowed h cs → Excludes h → Excludes (Spec.run h cs).0
unfolding Spec.run
run-Excludes [] h a e = e
run-Excludes (c ∷ cs) h a e = run-Excludes cs (spec h c).0 a.1 (spec-Excludes h c a.0 e)

-- After any history of fewer than 2^16 calls, a lock word that names an owner counts only read
-- locks of that owner: no thread reads while another writes.
pub exclusion :
    (cs : List Call)
    → length cs < 0x1_0000
    → AllAllowed free cs
    → owner_of (Lock.run unlocked cs).0.lock_flag ≢ 0
    → let l = (Lock.run unlocked cs).0 in
      (readers : List ℕ) × (length readers ≡ read_count_of l.lock_flag)
      × (readers ≡ (Spec.run free cs).0.readers)
      × All (λ t. t ≡ owner_of l.lock_flag) readers
unfolding free
exclusion cs small a owned =
    let h = (Spec.run free cs).0 in
    let (os, r) = run-unlocked-Refines cs small a in
    let o : owner_of (Lock.run unlocked cs).0.lock_flag ≡ h.owner = omega (arith, r) in
    let e : Excludes h = run-Excludes cs free a (λ z. tt) in
    (
      h.readers,
      omega (arith, r),
      refl,
      subst (λ w. All (λ t. t ≡ w) h.readers) (sym o) (e (λ z. owned (o ∙ z))),
    )
