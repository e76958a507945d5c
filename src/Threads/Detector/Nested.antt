-- ===== src/Threads/Detector/Nested.antt =====
-- Locks that nest: the detector keeps one count for a thread, and not one for each of its locks.
use mmo_server_cpp.Base.{
  ℕ, ◌≡◌, ◌≢◌, refl, ◌∙◌, ap, none, some, arith, lookup, insert, erase, lookup-insert, lookup-erase,
  ==_refl, List, ◌++◌, [], ◌∷◌,
}
use mmo_server_cpp.Base.Int.{pos, negsuc, ◌+ℤ◌}
use mmo_server_cpp.Threads.Detector.{
  Detector, returns, throws, acquire, before_lock, after_lock, before_unlock, remove_first,
  waits_for,
}

lookup-insert_self {ℓ} :
    {V : Type ℓ} (k : ℕ) (v : V) (m : List (ℕ × V)) → lookup k (insert k v m) ≡ some v
lookup-insert_self k v m = rw (lookup-insert k k v m, ==_refl k)

asked : Detector → ℕ → ℕ → List (ℕ × List ℕ)
asked d t lk = insert t (waits_for d t ++ (lk ∷ [])) d.wait_map

taken : Detector → ℕ → ℕ → Detector
unfolding asked
taken d t lk = record {
  owner_count = insert t (pos 1) d.owner_count;
  wait_map = insert t (remove_first lk (waits_for d t ++ (lk ∷ []))) (asked d t lk);
  owner_map = insert lk t d.owner_map;
}

-- A thread that takes a free lock comes to own it, and its count is set to 1.
pub acquire_free :
    (d : Detector) (t lk : ℕ)
    → lookup lk d.owner_map ≡ none
    → (e : Detector) × (acquire d t lk ≡ returns e)
      × (lookup t e.owner_count ≡ some (pos 1))
      × (e.owner_map ≡ insert lk t d.owner_map)
unfolding acquire before_lock after_lock taken
acquire_free d t lk free = (
  taken d t lk,
  rw (free, lookup-insert_self t (waits_for d t ++ (lk ∷ [])) d.wait_map, free),
  lookup-insert_self t (pos 1) d.owner_count,
  refl,
)

-- The owner gives a lock back while its count is `n`.
unlock-returns :
    (d : Detector) (t lk : ℕ)
    → lookup lk d.owner_map ≡ some t
    → lookup t d.owner_count ≡ some (pos 1)
    → (e : Detector) × (before_unlock d t lk ≡ returns e)
      × (lookup t e.owner_count ≡ some (pos 0))
      × (e.owner_map ≡ erase lk d.owner_map)
unfolding before_unlock ◌+ℤ◌
unlock-returns d t lk owned one = (
  record d { owner_count = insert t (pos 0) d.owner_count; owner_map = erase lk d.owner_map },
  rw (owned, ==_refl t, one),
  lookup-insert_self t (pos 0) d.owner_count,
  refl,
)

unlock-throws :
    (d : Detector) (t lk : ℕ)
    → lookup lk d.owner_map ≡ some t
    → lookup t d.owner_count ≡ some (pos 0)
    → (e : Detector) × (before_unlock d t lk ≡ throws e)
unfolding before_unlock ◌+ℤ◌
unlock-throws d t lk owned zero_left =
    (record d { owner_count = insert t (negsuc 0) d.owner_count }, rw (owned, ==_refl t, zero_left))

-- A thread that takes two free locks, one inside the other, and gives them back in the right order
-- is thrown out at the second unlock as "Invalid unlock".
pub nested_unlock :
    (d : Detector) (t a b : ℕ)
    → a ≢ b
    → lookup a d.owner_map ≡ none
    → lookup b d.owner_map ≡ none
    → (e f g h : Detector) × (acquire d t a ≡ returns e)
      × (acquire e t b ≡ returns f)
      × (before_unlock f t b ≡ returns g)
      × (before_unlock g t a ≡ throws h)
nested_unlock d t a b ne fa fb =
    let (e, ae, ce, oe) = acquire_free d t a fa in
    let fb' : lookup b e.owner_map ≡ none =
      ap (lookup b) oe ∙ ground (arith, lookup-insert a b t d.owner_map) in
    let (f, af, cf, of) = acquire_free e t b fb' in
    let ob : lookup b f.owner_map ≡ some t =
      ap (lookup b) of ∙ lookup-insert_self b t e.owner_map in
    let (g, ug, cg, og) = unlock-returns f t b ob cf in
    let oa : lookup a g.owner_map ≡ some t =
      ap (lookup a) (og ∙ ap (erase b) (of ∙ ap (insert b t) oe))
      ∙ ground (
        arith,
        lookup-erase b a (insert b t (insert a t d.owner_map)),
        lookup-insert b a t (insert a t d.owner_map),
        lookup-insert a a t d.owner_map,
      ) in
    let (h, uh) = unlock-throws g t a oa cg in (e, f, g, h, ae, af, ug, uh)
