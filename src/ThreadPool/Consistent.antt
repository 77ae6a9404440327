-- ===== src/ThreadPool/Consistent.antt =====
-- What holds of a pool of threads however its threads and callers interleave.
use learncc.Prelude.{
  ℕ, ◌+◌, ◌-◌, ◌≤◌, ◌≡◌, ◌⊎◌, inl, inr, refl, ap, sym, ◌∙◌, Bool, true, false, List, [], ◌∷◌, ◌++◌,
  append_assoc, some, length, length-append, max, arith, count,
}
use learncc.ThreadPool.{Pool, start, commit, turn, turn_with, exits, waits, runs}
use learncc.ThreadPool.Steps.{World, wake_joiner, one_if, begin_with}

-- The counters agree with the threads and the queue, no thread sleeps beside a task, there are enough
-- threads and not too many, and the tasks begin in the order of the queue.
pub record IsConsistent (w : World) : Type 0 where
  pub size : w.pool.task_size ≡ length w.pool.tasks
  pub room : length w.pool.tasks ≤ w.pool.task_maxsize
  pub all : w.pool.threads ≡ w.awake + w.asleep + length w.busy
  pub idle : w.pool.idle + length w.busy ≡ w.pool.cur
  pub most : w.pool.threads ≤ w.pool.cur
  pub exact : (w.pool.running ≡ true) ⊎ (1 ≤ length w.pool.tasks) → w.pool.cur ≡ w.pool.threads
  pub one : 1 ≤ w.pool.init_size
  pub enough : w.pool.init_size ≤ w.pool.cur
  pub limit : w.pool.cur ≤ max w.pool.init_size w.pool.thread_maxsize
  pub alert : 1 ≤ length w.pool.tasks → w.asleep ≡ 0
  pub order : w.begun ++ w.pool.tasks ≡ w.accepted
  pub ledger : (q : ℕ) → count q w.done + count q w.busy ≡ count q w.begun

-- A pool as it is configured, before it is started.
pub record IsFresh (p : Pool) : Type 0 where
  pub no_tasks : p.tasks ≡ []
  pub no_size : p.task_size ≡ 0
  pub no_idle : p.idle ≡ 0

pub start-IsConsistent :
    (generated n : ℕ) (p : Pool) {q : Pool}
    → IsFresh p
    → 1 ≤ n
    → start generated n p ≡ some q
    → IsConsistent (begin_with q)
unfolding start
start-IsConsistent generated n p {q} f h e =
    let none_yet : length q.tasks ≡ 0 = ground (arith, ap length f.no_tasks) in
    record {
      size = ground (arith, f.no_size);
      room = ground arith;
      all = omega arith;
      idle = ground (arith, f.no_idle);
      most = ground arith;
      exact = λ k. ground arith;
      one = ground arith;
      enough = ground arith;
      limit = ground arith;
      alert = λ k. refl;
      order = ground (arith, f.no_tasks);
      ledger = λ k. refl;
    }

pub submit-IsConsistent :
    (w : World) (t : ℕ) (p : Pool) (created : Bool)
    → IsConsistent w
    → w.pool.running ≡ true
    → commit t w.pool ≡ some (p, created)
    → IsConsistent (record w {
      pool = p;
      awake = w.awake + w.asleep + one_if created;
      asleep = 0;
      accepted = w.accepted ++ (t ∷ []);
    })
unfolding commit
submit-IsConsistent w t p created v r e =
    let longer = length-append w.pool.tasks (t ∷ []) in
    let same : w.pool.cur ≡ w.pool.threads = v.exact (inl r) in
    let queue : p.tasks ≡ w.pool.tasks ++ (t ∷ []) = ground arith in
    let size : length p.tasks ≡ length w.pool.tasks + 1 = rw (queue) (omega (arith, longer)) in
    record {
      size = ground (arith, v.size, size);
      room = ground (arith, size);
      all = ground (arith, v.all);
      idle = ground (arith, v.idle);
      most = ground (arith, same);
      exact = λ k. ground (arith, same);
      one = ground (arith, v.one);
      enough = ground (arith, v.enough);
      limit = ground (arith, v.limit);
      alert = λ k. refl;
      order =
          rw (queue)
            (sym (append_assoc w.begun w.pool.tasks (t ∷ [])) ∙ ap (λ l. l ++ (t ∷ [])) v.order);
      ledger = v.ledger;
    }

waits_lem : (p : Pool) (ts : List ℕ) → turn_with p ts ≡ waits → (length ts ≡ 0) × (p.running ≡ true)
unfolding turn_with
waits_lem p [] e = (refl, ground arith)
waits_lem p (t ∷ ts) e = absurd (ground arith)

exits_lem :
    (p : Pool) (ts : List ℕ) {q : Pool}
    → turn_with p ts ≡ exits q
    → (length ts ≡ 0) × (p.running ≡ false) × (q ≡ record p { threads = p.threads - 1 })
unfolding turn_with
exits_lem p [] e = (refl, ground arith, ground arith)
exits_lem p (t ∷ ts) e = absurd (ground arith)

pub runs_lem :
    (p : Pool) (ts : List ℕ) {t : ℕ} {q : Pool}
    → turn_with p ts ≡ runs t q
    → (ts ≡ t ∷ q.tasks)
      × (q ≡ record p { idle = p.idle - 1; tasks = q.tasks; task_size = p.task_size - 1 })
unfolding turn_with
runs_lem p [] e = absurd (ground arith)
runs_lem p (t ∷ ts) e = (ground arith, ground arith)

pub fall_asleep-IsConsistent :
    (w : World)
    → IsConsistent w
    → 1 ≤ w.awake
    → turn w.pool ≡ waits
    → IsConsistent (record w { awake = w.awake - 1; asleep = w.asleep + 1 })
unfolding turn
fall_asleep-IsConsistent w v h e = record {
  size = v.size;
  room = v.room;
  all = omega (arith, v.all);
  idle = v.idle;
  most = v.most;
  exact = v.exact;
  one = v.one;
  enough = v.enough;
  limit = v.limit;
  alert = λ k. absurd (omega (arith, (waits_lem w.pool w.pool.tasks e).0));
  order = v.order;
  ledger = v.ledger;
}

pub exit-IsConsistent :
    (w : World) (p : Pool)
    → IsConsistent w
    → 1 ≤ w.awake
    → turn w.pool ≡ exits p
    → IsConsistent (record w { pool = p; awake = w.awake - 1; joiner = wake_joiner w.joiner })
unfolding turn
exit-IsConsistent w p v h e =
    let (empty, stopped, shape) = exits_lem w.pool w.pool.tasks e in
    rw (shape) (record {
      size = v.size;
      room = v.room;
      all = omega (arith, v.all);
      idle = v.idle;
      most = omega (arith, v.most);
      exact = λ k. elim k [ inl r ↦ absurd (ground arith) | inr m ↦ absurd (omega arith) ];
      one = v.one;
      enough = v.enough;
      limit = v.limit;
      alert = v.alert;
      order = v.order;
      ledger = v.ledger;
    })
