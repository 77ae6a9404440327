-- ===== src/ThreadPool/Reached.antt =====
-- What holds of every world that a started pool reaches.
use learncc.Prelude.{
  ℕ, zero, suc, ◌+◌, ◌-◌, ◌≤◌, ◌≡◌, ◌⊎◌, inl, inr, refl, ap, sym, ◌∙◌, List, [], ◌∷◌, ◌++◌,
  append-nil, some, length, arith, count,
}
use learncc.ThreadPool.{Pool, start}
use learncc.ThreadPool.Steps.{
  World, Step, submit, fall_asleep, exit, begin, complete, wake, leave, destroy, notify, stir, join,
  look, awake, Reach, here, next, begin_with,
}
use learncc.ThreadPool.Consistent.{
  IsConsistent, IsFresh, start-IsConsistent, submit-IsConsistent, fall_asleep-IsConsistent,
  exit-IsConsistent,
}
use learncc.ThreadPool.Preserved.{
  begin-IsConsistent, complete-IsConsistent, stir-IsConsistent, leave-IsConsistent,
  destroy-IsConsistent,
}

Nat_cases : (n : ℕ) → (n ≡ 0) ⊎ (1 ≤ n)
Nat_cases zero = inl refl
Nat_cases (suc n) = inr (omega arith)

-- Whatever a thread, a caller or the destructor does next, the pool stays consistent.
pub Step-IsConsistent : {u w : World} → Step u w → IsConsistent u → IsConsistent w
Step-IsConsistent (submit w t p created r e) v = submit-IsConsistent w t p created v r e
Step-IsConsistent (fall_asleep w h e) v = fall_asleep-IsConsistent w v h e
Step-IsConsistent (exit w p h e) v = exit-IsConsistent w p v h e
Step-IsConsistent (begin w t p h e) v = begin-IsConsistent w t p v h e
Step-IsConsistent (complete w ts us t e) v = complete-IsConsistent w ts us t v e
Step-IsConsistent (wake w h) v =
    stir-IsConsistent w (w.awake + 1) (w.asleep - 1) w.joiner v (omega arith) (omega arith)
Step-IsConsistent (leave w seconds p h e) v = leave-IsConsistent w seconds p v h e
Step-IsConsistent (destroy w) v = destroy-IsConsistent w v
Step-IsConsistent (notify w h absent_yet) v =
    stir-IsConsistent w (w.awake + w.asleep) 0 (look w.pool.threads) v (omega arith) (omega arith)
Step-IsConsistent (stir w h) v = stir-IsConsistent w w.awake w.asleep awake v refl (omega arith)
Step-IsConsistent (join w h) v =
    stir-IsConsistent w w.awake w.asleep (look w.pool.threads) v refl (omega arith)

pub Reach-IsConsistent : {u w : World} → Reach u w → IsConsistent u → IsConsistent w
Reach-IsConsistent (here w) v = v
Reach-IsConsistent (next u v w s r) c = Reach-IsConsistent r (Step-IsConsistent s c)

-- From a start with at least one thread on, whatever the threads, the callers and the destructor do
-- and in any order: the counters agree with the queue and the threads, the queue does not exceed its
-- bound, no thread sleeps while a task waits, a running pool has at least the threads that it started
-- with and at most those that it may have, tasks begin in the order of their submission, and each that
-- began is running or done.
pub reached-IsConsistent :
    (generated n : ℕ) (p : Pool) {q : Pool} {w : World}
    → IsFresh p
    → 1 ≤ n
    → start generated n p ≡ some q
    → Reach (begin_with q) w
    → IsConsistent w
reached-IsConsistent generated n p f h e r =
    Reach-IsConsistent r (start-IsConsistent generated n p f h e)

-- When the last thread has ended, which is what the destructor waits for, every task that was ever
-- accepted has begun, in the order of submission, and each was done as often as it was accepted.
pub emptied-done :
    (generated n : ℕ) (p : Pool) {q : Pool} {w : World}
    → IsFresh p
    → 1 ≤ n
    → start generated n p ≡ some q
    → Reach (begin_with q) w
    → w.pool.threads ≡ 0
    → (w.begun ≡ w.accepted) × ((t : ℕ) → count t w.done ≡ count t w.accepted)
emptied-done generated n p {w = w} f h e r none_left =
    let v = reached-IsConsistent generated n p f h e r in
    let no_tasks : w.pool.tasks ≡ [] = nil_of w.pool.tasks (omega_tasks v) in
    let all_begun : w.begun ≡ w.accepted =
      sym (append-nil w.begun) ∙ (ap (λ l. w.begun ++ l) (sym no_tasks) ∙ v.order) in
    let no_busy : w.busy ≡ [] = nil_of w.busy (omega (arith, v.all)) in
    (
      all_begun,
      λ t.
          let idle : count t w.busy ≡ 0 = rw (no_busy) refl in
          let same : count t w.begun ≡ count t w.accepted = ap (count t) all_begun in
          omega (arith, v.ledger t),
    )
  where
    nil_of : (l : List ℕ) → length l ≡ 0 → l ≡ []
    nil_of [] k = refl
    nil_of (x ∷ xs) k = absurd (omega arith)

    omega_tasks : IsConsistent w → length w.pool.tasks ≡ 0
    omega_tasks v = elim (Nat_cases (length w.pool.tasks)) [
      | inl z ↦ z
      | inr k ↦ absurd (omega (arith, v.exact (inr k), v.enough, v.one))
    ]
