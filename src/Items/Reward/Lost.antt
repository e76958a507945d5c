-- ===== src/Items/Reward/Lost.antt =====
-- How rewards are lost when several are given at once.
use mmo_server_cpp.Base.{
  ℕ, ◌+◌, ◌≡◌, inl, inr, refl, ap, List, [], ◌∷◌, ◌++◌, none, some, arith, All, sym, ◌∙◌,
  Option-cases, append-nil, subst,
}
use mmo_server_cpp.Items.Inventory.{key_of, get_empty_slot}
use mmo_server_cpp.Items.Reward.{
  Owner, save_player_reward, Job, rewards, inserts, adds, do_job, do_jobs,
}
use mmo_server_cpp.Items.Reward.Given.{
  IsEarly, IsLate, given, last_or, HasLost, settled, LosesOn, insert_row-HasLost, add_row-HasLost,
  save_player_reward-HasLost, key_of_slot,
}

early_run :
    (o : Owner) (slot n : ℕ) (p : Owner) (jobs : List Job)
    → get_empty_slot o.inventory ≡ some slot
    → p.inventory ≡ o.inventory
    → All IsEarly jobs
    → HasLost o slot n p
    → LosesOn o slot (given jobs + n) (do_jobs p jobs) (λ q. q.inventory ≡ o.inventory)
unfolding do_jobs do_job given
early_run o slot n p [] free same early h =
    let count : n ≡ 0 + n = omega arith in (p, refl, subst (λ m. HasLost o slot m p) count h, same)
early_run o slot n p (rewards reward ∷ jobs) free same early h =
    let (q, e, g, i) =
      save_player_reward-HasLost o slot n p reward (ap get_empty_slot same ∙ free) h in
    let q_is : save_player_reward p reward ≡ q = cc e in
    let (t, runs, l, u) = early_run o slot (1 + n) q jobs free (i ∙ same) early.1 g in
    let count : given jobs + (1 + n) ≡ 1 + given jobs + n = omega arith in
    (t, rw q_is runs, subst (λ m. HasLost o slot m t) count l, u)
early_run o slot n p (inserts none ∷ jobs) free same early h = absurd early.0
early_run o slot n p (inserts (some id) ∷ jobs) free same early h =
    let (q, e, g, i) = insert_row-HasLost o slot n p id p.saving refl h in
    let (t, runs, l, u) = early_run o slot n q jobs free (i ∙ same) early.1 g in
    (t, rw e runs, l, u)
early_run o slot n p (adds sheets ∷ jobs) free same early h = absurd early.0

late_run :
    (o : Owner) (slot n : ℕ) (p : Owner) (jobs : List Job)
    → key_of slot ≡ slot
    → All IsLate jobs
    → HasLost o slot n p
    → LosesOn o slot n (do_jobs p jobs) (λ q. Unit {0})
unfolding do_jobs do_job
late_run o slot n p [] fits late h = (p, refl, h, tt)
late_run o slot n p (rewards reward ∷ jobs) fits late h = absurd late.0
late_run o slot n p (inserts none ∷ jobs) fits late h = absurd late.0
late_run o slot n p (inserts (some id) ∷ jobs) fits late h =
    let (q, e, g, i) = insert_row-HasLost o slot n p id p.saving refl h in
    let (t, runs, l, u) = late_run o slot n q jobs fits late.1 g in (t, rw e runs, l, u)
late_run o slot n p (adds sheets ∷ jobs) fits late h =
    let (q, e, g, i) = add_row-HasLost o slot n p sheets p.adding fits late.0 refl h in
    let (t, runs, l, u) = late_run o slot n q jobs fits late.1 g in (t, rw e runs, l, u)

do_jobs-append :
    (p : Owner) (first second : List Job) {q : Owner}
    → do_jobs p first ≡ some q
    → do_jobs p (first ++ second) ≡ do_jobs q second
unfolding do_jobs
do_jobs-append p [] second e = cc
do_jobs-append p (job ∷ first) second {q} e = elim (Option-cases (do_job p job)) [
  | inl bad ↦ absurd (cc (rw bad at e))
  | inr (r, good) ↦ rw good (do_jobs-append r first second (rw good at e))
]

settled-HasLost : (o : Owner) (slot : ℕ) → HasLost o slot 0 (settled o)
unfolding settled last_or
settled-HasLost o slot = record {
  new = [];
  sent = [];
  saving_at = tt;
  adding_at = tt;
  stored = sym (append-nil o.rows);
  stored_at = tt;
  told = sym (append-nil o.s_add_item);
  told_at = tt;
  none_missing = refl;
  none_unstored = refl;
  kept = λ k. ground arith;
}

-- Rewards are given to an owner with an empty slot and no reward on its way, any number of them,
-- while their rows are inserted in any order but none is added; then rows are inserted and added in
-- any order. No query fails, every item has a sheet, and nothing else changes the inventory in
-- between. Then all of these rewards have the same slot, in their rows and in what is sent to the
-- client, none of them is left out, and the inventory keeps of those that were sent only the last.
pub do_jobs-in_a_row :
    (o : Owner) (slot : ℕ) (first second : List Job)
    → get_empty_slot o.inventory ≡ some slot
    → All IsEarly first
    → All IsLate second
    → (p : Owner) × (do_jobs (settled o) (first ++ second) ≡ some p)
      × HasLost o slot (given first) p
unfolding settled
do_jobs-in_a_row o slot first second free early late =
    let (q, runs, g, same) =
      early_run o slot 0 (settled o) first free refl early (settled-HasLost o slot) in
    let (p, ends, l, u) =
      late_run o slot (given first + 0) q second (key_of_slot o.inventory slot free) late g in
    let count : given first + 0 ≡ given first = omega arith in
    (
      p,
      do_jobs-append (settled o) first second runs ∙ ends,
      subst (λ m. HasLost o slot m p) count l,
    )
