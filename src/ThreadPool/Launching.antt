-- ===== src/ThreadPool/Launching.antt =====
-- Which pools `start` can start.
use learncc.Prelude.{ℕ, zero, suc, ◌≤◌, ◌≡◌, ◌↔◌, refl, true, false, none, arith}
use learncc.ThreadPool.{Pool, launches, start}

launches-zero : (n : ℕ) → launches 0 n ≡ true
unfolding launches
launches-zero zero = refl
launches-zero (suc n) = ground (arith, launches-zero n)

launches-suc : (g n : ℕ) → launches (suc g) (suc n) ≡ false
unfolding launches
launches-suc g zero = ground arith
launches-suc g (suc n) = rw (launches-suc g n) refl

-- `start` goes through a null pointer exactly if it is to start a thread and the process has made a
-- `thread_m` before, since it looks its threads up from identifier 0 on.
pub start-none_iff :
    (generated n : ℕ) (p : Pool) → (start generated n p ≡ none) ↔ ((1 ≤ generated) × (1 ≤ n))
unfolding start launches
start-none_iff zero n p = rw (launches-zero n, start) (ground arith)
start-none_iff (suc g) zero p = ground arith
start-none_iff (suc g) (suc n) p = rw (launches-suc g n, start) (ground arith)
