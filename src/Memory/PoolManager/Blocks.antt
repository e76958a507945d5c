-- ===== src/Memory/PoolManager/Blocks.antt =====
-- A pool never hands out a block that is in use, and counts its blocks.
use mmo_server_cpp.Base.{
  ℕ, suc, ◌+◌, ◌<◌, ◌≤◌, ◌≡◌, refl, ap, List, [], ◌∷◌, ◌==◌, length, arith, if◌then◌else◌,
}
use mmo_server_cpp.Base.Int.{pos, ◌+ℤ◌}
use mmo_server_cpp.Memory.PoolManager.{MemoryPool, new_pool, pop, push, pop_from, without}

-- How often a block stands in a list.
abbrev pub times : ℕ → List ℕ → ℕ
times b [] = 0
times b (x ∷ xs) = if x == b then suc (times b xs) else times b xs

pub record IsSound (p : MemoryPool) : Type 0 where
  pub once : (b : ℕ) → times b p.reserved + times b p.used ≤ 1
  pub known : (b : ℕ) → p.fresh ≤ b → times b p.reserved + times b p.used ≡ 0
  pub uses : p.use_count ≡ pos (length p.used)
  pub reserves : p.reserve_count ≡ pos (length p.reserved)

times-without :
    (b c : ℕ) (xs : List ℕ)
    → 0 < times b xs
    → times c xs ≡ (if b == c then suc (times c (without b xs)) else times c (without b xs))
times-without b c [] h = absurd (omega arith)
times-without b c (x ∷ xs) h = ground (arith, times-without b c xs)

length-without : (b : ℕ) (xs : List ℕ) → 0 < times b xs → length xs ≡ suc (length (without b xs))
length-without b [] h = absurd (omega arith)
length-without b (x ∷ xs) h = ground (arith, length-without b xs)

new_pool-IsSound : IsSound new_pool
unfolding new_pool
new_pool-IsSound = record {
  once = λ b. omega arith;
  known = λ b h. refl;
  uses = refl;
  reserves = refl;
}

pop_from-IsSound :
    (p : MemoryPool) (r : List ℕ)
    → p.reserved ≡ r
    → IsSound p
    → IsSound (pop_from p r).0 × (times (pop_from p r).1 p.used ≡ 0)
unfolding pop_from ◌+ℤ◌
pop_from-IsSound p [] e v = (
  record {
    once = λ b. let o = v.once b in let k = v.known b in grind arith;
    known = λ b h. let k = v.known b (omega arith) in ground arith;
    uses = ground (arith, v.uses);
    reserves = ground (arith, v.reserves);
  },
  let k = v.known p.fresh (omega arith) in omega arith,
)
pop_from-IsSound p (x ∷ xs) e v = (
  record {
    once = λ b. let o = v.once b in let t = ap (times b) e in ground arith;
    known = λ b h. let k = v.known b h in let t = ap (times b) e in ground arith;
    uses = ground (arith, v.uses);
    reserves = ground (arith, v.reserves);
  },
  let o = v.once x in let t = ap (times x) e in ground arith,
)

push-IsSound : (p : MemoryPool) (b : ℕ) → 0 < times b p.used → IsSound p → IsSound (push p b)
unfolding push ◌+ℤ◌
push-IsSound p b h v = record {
  once = λ c. let o = v.once c in let t = times-without b c p.used h in ground arith;
  known = λ c k. let o = v.known c k in let t = times-without b c p.used h in ground arith;
  uses = let t = length-without b p.used h in ground (arith, v.uses);
  reserves = ground (arith, v.reserves);
}

-- What the users of a pool do: they take a block, or give back one that is out.
pub data Reached : MemoryPool → Type 0 where
  started : Reached new_pool
  popped : {p : MemoryPool} → Reached p → Reached (pop p).0
  pushed : {p : MemoryPool} (b : ℕ) → Reached p → 0 < times b p.used → Reached (push p b)

Reached-IsSound : {p : MemoryPool} → Reached p → IsSound p
unfolding pop
Reached-IsSound started = new_pool-IsSound
Reached-IsSound (popped {p} r) = (pop_from-IsSound p p.reserved refl (Reached-IsSound r)).0
Reached-IsSound (pushed {p} b r h) = push-IsSound p b h (Reached-IsSound r)

-- In every pool that its users can reach, `Pop` returns a block that nobody uses, and the counters
-- are the numbers of blocks in use and in reserve.
pub pop_fresh :
    (p : MemoryPool)
    → Reached p
    → (times (pop p).1 p.used ≡ 0)
      × (p.use_count ≡ pos (length p.used))
      × (p.reserve_count ≡ pos (length p.reserved))
unfolding pop
pop_fresh p r =
    let v = Reached-IsSound r in ((pop_from-IsSound p p.reserved refl v).1, v.uses, v.reserves)
