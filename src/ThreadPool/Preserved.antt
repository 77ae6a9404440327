-- ===== src/ThreadPool/Preserved.antt =====
-- The steps of a thread that takes a task, ends it or leaves, and of the destructor.
use learncc.Prelude.{
  ℕ, ◌+◌, ◌-◌, ◌≤◌, ◌<◌, ◌≡◌, inl, inr, refl, ap, sym, ◌∙◌, List, [], ◌∷◌, ◌++◌, append_assoc, some,
  length, length-append, arith, count, count-append,
}
use learncc.ThreadPool.{Pool, turn, runs, expire, finish, stop}
use learncc.ThreadPool.Steps.{Joiner, World, woken}
use learncc.ThreadPool.Consistent.{IsConsistent, runs_lem}

-- A task was taken from the queue, and sleeping threads may have been woken.
taken-IsConsistent :
    (w : World) (t : ℕ) (ts : List ℕ) (awake asleep : ℕ)
    → IsConsistent w
    → 1 ≤ w.awake
    → w.pool.tasks ≡ t ∷ ts
    → awake + asleep + 1 ≡ w.awake + w.asleep
    → (1 ≤ length ts → asleep ≡ 0)
    → IsConsistent (record w {
      pool = record w.pool { idle = w.pool.idle - 1; tasks = ts; task_size = w.pool.task_size - 1 };
      awake = awake;
      asleep = asleep;
      busy = t ∷ w.busy;
      begun = w.begun ++ (t ∷ []);
    })
taken-IsConsistent w t ts awake asleep v h e same alert =
    let longer : length w.pool.tasks ≡ length ts + 1 = rw (e) (omega arith) in
    record {
      size = omega (arith, v.size, longer);
      room = omega (arith, v.room, longer);
      all = omega (arith, v.all);
      idle = omega (arith, v.idle, v.all, v.most);
      most = v.most;
      exact =
          λ k. elim k [ inl r ↦ v.exact (inl r) | inr m ↦ v.exact (inr (omega (arith, longer))) ];
      one = v.one;
      enough = v.enough;
      limit = v.limit;
      alert = alert;
      order = append_assoc w.begun (t ∷ []) ts ∙ (ap (λ l. w.begun ++ l) (sym e) ∙ v.order);
      ledger = λ q. ground (arith, v.ledger q, count-append q w.begun (t ∷ []));
    }

pub begin-IsConsistent :
    (w : World) (t : ℕ) (p : Pool)
    → IsConsistent w
    → 1 ≤ w.awake
    → turn w.pool ≡ runs t p
    → IsConsistent (
        woken p.tasks (record w {
          pool = p;
          awake = w.awake - 1;
          busy = t ∷ w.busy;
          begun = w.begun ++ (t ∷ []);
        }))
unfolding turn
begin-IsConsistent w t p v h e =
    let (queue, shape) = runs_lem w.pool w.pool.tasks e in
    rw (shape) (woken-IsConsistent p.tasks queue)
  where
    woken-IsConsistent :
        (ts : List ℕ)
        → w.pool.tasks ≡ t ∷ ts
        → IsConsistent (
            woken ts (record w {
              pool = record w.pool {
                idle = w.pool.idle - 1;
                tasks = ts;
                task_size = w.pool.task_size - 1;
              };
              awake = w.awake - 1;
              busy = t ∷ w.busy;
              begun = w.begun ++ (t ∷ []);
            }))
    woken-IsConsistent [] q =
        taken-IsConsistent w t [] (w.awake - 1) w.asleep v h q (omega arith)
          (λ k. absurd (omega arith))
    woken-IsConsistent (x ∷ xs) q =
        taken-IsConsistent w t (x ∷ xs) (w.awake - 1 + w.asleep) 0 v h q (omega arith) (λ k. refl)

pub complete-IsConsistent :
    (w : World) (ts us : List ℕ) (t : ℕ)
    → IsConsistent w
    → w.busy ≡ ts ++ (t ∷ us)
    → IsConsistent
        (record w { pool = finish w.pool; awake = w.awake + 1; busy = ts ++ us; done = t ∷ w.done })
unfolding finish
complete-IsConsistent w ts us t v e =
    let shorter : length w.busy ≡ length (ts ++ us) + 1 =
      rw (e) (omega (arith, length-append ts (t ∷ us), length-append ts us)) in
    record {
      size = v.size;
      room = v.room;
      all = omega (arith, v.all, shorter);
      idle = omega (arith, v.idle, shorter);
      most = v.most;
      exact = v.exact;
      one = v.one;
      enough = v.enough;
      limit = v.limit;
      alert = v.alert;
      order = v.order;
      ledger = λ q.
          let busy : count q w.busy ≡ count q (ts ++ (t ∷ us)) = ap (count q) e in
          ground (arith, v.ledger q, busy, count-append q ts (t ∷ us), count-append q ts us);
    }

-- A step that only wakes threads, or moves the destructor.
pub stir-IsConsistent :
    (w : World) (awake asleep : ℕ) (j : Joiner)
    → IsConsistent w
    → awake + asleep ≡ w.awake + w.asleep
    → asleep ≤ w.asleep
    → IsConsistent (record w { awake = awake; asleep = asleep; joiner = j })
stir-IsConsistent w awake asleep j v same fewer = record {
  size = v.size;
  room = v.room;
  all = omega (arith, v.all);
  idle = v.idle;
  most = v.most;
  exact = v.exact;
  one = v.one;
  enough = v.enough;
  limit = v.limit;
  alert = λ k. omega (arith, v.alert k);
  order = v.order;
  ledger = v.ledger;
}

pub leave-IsConsistent :
    (w : World) (seconds : ℕ) (p : Pool)
    → IsConsistent w
    → 1 ≤ w.awake
    → expire seconds w.pool ≡ some p
    → IsConsistent (record w { pool = p; awake = w.awake - 1 })
unfolding expire
leave-IsConsistent w seconds p v h e =
    let shape : p ≡ record w.pool {
      threads = w.pool.threads - 1;
      cur = w.pool.cur - 1;
      idle = w.pool.idle - 1;
    } =
      ground arith in
    let more : w.pool.init_size < w.pool.cur = ground arith in
    rw (shape) (record {
      size = v.size;
      room = v.room;
      all = omega (arith, v.all);
      idle = omega (arith, v.idle, v.most, v.all);
      most = omega (arith, v.most);
      exact = λ k. omega (arith, v.exact k);
      one = v.one;
      enough = omega arith;
      limit = omega (arith, v.limit);
      alert = v.alert;
      order = v.order;
      ledger = v.ledger;
    })

pub destroy-IsConsistent :
    (w : World) → IsConsistent w → IsConsistent (record w { pool = stop w.pool })
unfolding stop
destroy-IsConsistent w v = record {
  size = v.size;
  room = v.room;
  all = v.all;
  idle = v.idle;
  most = v.most;
  exact = λ k. elim k [ inl r ↦ absurd (ground arith) | inr m ↦ v.exact (inr m) ];
  one = v.one;
  enough = v.enough;
  limit = v.limit;
  alert = v.alert;
  order = v.order;
  ledger = v.ledger;
}
