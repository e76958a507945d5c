-- ===== src/Tests/ThreadTests.antt =====
-- Tests of the lock and of the detector of deadlocks.
use mmo_server_cpp.Base.{
  ℕ, ◌≡◌, refl, ◌⊎◌, List, [], ◌∷◌, arith, length, All, lookup, insert, contains,
}
use mmo_server_cpp.Base.Int.{pos}
use mmo_server_cpp.Threads.Lock
use mmo_server_cpp.Threads.Lock.{
  Lock, Call, acquired, refused, released, write_locks, write_unlocks, read_locks, read_unlocks,
  unlocked, owner_of, read_count_of,
}
use mmo_server_cpp.Threads.Lock.Spec
use mmo_server_cpp.Threads.Lock.Spec.{free, spec, AllAllowed}
use mmo_server_cpp.Threads.Lock.Refine.{Refines, run-unlocked-Refines}
use mmo_server_cpp.Threads.Lock.Exclusion.{exclusion}
use mmo_server_cpp.Threads.Detector.{
  Detector, returns, throws, acquire, before_lock, before_unlock, request,
}
use mmo_server_cpp.Threads.Detector.Search.{Chain}
use mmo_server_cpp.Threads.Detector.Exact.{before_lock-exact}
use mmo_server_cpp.Threads.Detector.Nested.{nested_unlock}

-- Thread 7 writes, and reads below that; thread 9 is refused.
abbrev history : List Call
history = write_locks 7 ∷ write_locks 7 ∷ read_locks 9 ∷ read_locks 7 ∷ []

history_outcomes : (Lock.run unlocked history).1 ≡ acquired ∷ acquired ∷ refused ∷ acquired ∷ []
unfolding Lock.run Lock.call unlocked
history_outcomes = refl

history-AllAllowed : AllAllowed free history
unfolding spec free
history-AllAllowed = omega arith

run-unlocked-Refines_example :
    ((Lock.run unlocked history).1 ≡ (Spec.run free history).1)
    × Refines (Lock.run unlocked history).0 (Spec.run free history).0 4
run-unlocked-Refines_example = run-unlocked-Refines history (omega arith) history-AllAllowed

exclusion_example :
    (readers : List ℕ) × (length readers ≡ read_count_of (Lock.run unlocked history).0.lock_flag)
    × (readers ≡ (Spec.run free history).0.readers)
    × All (λ t. t ≡ owner_of (Lock.run unlocked history).0.lock_flag) readers
unfolding Lock.run Lock.call unlocked
exclusion_example = exclusion history (omega arith) history-AllAllowed (omega arith)

abbrev untouched : Detector
untouched = record { owner_count = []; wait_map = []; owner_map = [] }

nested_unlock_example :
    (e f g h : Detector) × (acquire untouched 1 10 ≡ returns e)
    × (acquire e 1 20 ≡ returns f)
    × (before_unlock f 1 20 ≡ returns g)
    × (before_unlock g 1 10 ≡ throws h)
unfolding lookup
nested_unlock_example = nested_unlock untouched 1 10 20 (omega arith) refl refl

-- Thread 1 owns lock 10 and asks for 20; thread 2 owns 20 and asks for 10.
abbrev crossed : Detector
crossed = record {
  owner_count = (1, pos 1) ∷ (2, pos 1) ∷ [];
  wait_map = (1, 20 ∷ []) ∷ [];
  owner_map = (10, 1) ∷ (20, 2) ∷ [];
}

crossed_throws : before_lock crossed 2 10 ≡ throws (request crossed 2 10)
unfolding before_lock lookup insert contains
crossed_throws = refl

before_lock-exact_example :
    (Chain (request crossed 2 10) 2 1 × (before_lock crossed 2 10 ≡ throws (request crossed 2 10)))
    ⊎ ((¬ Chain (request crossed 2 10) 2 1)
        × (before_lock crossed 2 10 ≡ returns (request crossed 2 10)))
unfolding lookup
before_lock-exact_example = before_lock-exact crossed 2 10 1 refl (omega arith)
