-- ===== src/ThreadPool/Steps.antt =====
-- Threads that run `thread_func` beside callers of a pool. A step is what one of them does while it
-- holds the lock, or without it between two such parts.
use learncc.Prelude.{ℕ, zero, suc, ◌+◌, ◌-◌, ◌≤◌, ◌≡◌, Bool, true, false, List, [], ◌∷◌, ◌++◌, some}
use learncc.ThreadPool.{Pool, commit, turn, exits, waits, runs, expire, finish, stop}

-- The destructor has not the lock yet, sleeps on `exitCond_`, wants the lock again, or is through.
pub data Joiner : Type 0 where
  absent : Joiner
  asleep : Joiner
  awake : Joiner
  through : Joiner

-- `exitCond_.notify_all()`
abbrev pub wake_joiner : Joiner → Joiner
wake_joiner asleep = awake
wake_joiner absent = absent
wake_joiner awake = awake
wake_joiner through = through

-- The destructor's look at `threads_`, with the lock.
abbrev pub look : ℕ → Joiner
look zero = through
look (suc n) = asleep

-- `awake` threads want the lock, `asleep` ones wait for `not_empty_`, and `busy` holds the tasks that are
-- run; `joiner` is the destructor. The last three fields are history: what `commit` took, and what was begun and done.
pub record World : Type 0 where
  pub pool : Pool
  pub awake : ℕ
  pub asleep : ℕ
  pub busy : List ℕ
  pub joiner : Joiner
  pub accepted : List ℕ
  pub begun : List ℕ
  pub done : List ℕ

abbrev pub one_if : Bool → ℕ
one_if true = 1
one_if false = 0

-- `not_empty_.notify_all()` after a task was taken, if there are more.
abbrev pub woken : List ℕ → World → World
woken [] w = w
woken (t ∷ ts) w = record w { awake = w.awake + w.asleep; asleep = 0 }

-- A wait may end at any time, since it is timed or may end without a cause. Nothing is committed to a
-- pool once its destructor runs.
pub data Step : World → World → Type 0 where
  submit :
      (w : World) (t : ℕ) (p : Pool) (created : Bool)
      → w.pool.running ≡ true
      → commit t w.pool ≡ some (p, created)
      → Step w (record w {
        pool = p;
        awake = w.awake + w.asleep + one_if created;
        asleep = 0;
        accepted = w.accepted ++ (t ∷ []);
      })
  fall_asleep :
      (w : World)
      → 1 ≤ w.awake
      → turn w.pool ≡ waits
      → Step w (record w { awake = w.awake - 1; asleep = w.asleep + 1 })
  exit :
      (w : World) (p : Pool)
      → 1 ≤ w.awake
      → turn w.pool ≡ exits p
      → Step w (record w { pool = p; awake = w.awake - 1; joiner = wake_joiner w.joiner })
  begin :
      (w : World) (t : ℕ) (p : Pool)
      → 1 ≤ w.awake
      → turn w.pool ≡ runs t p
      → Step w (
          woken p.tasks (record w {
            pool = p;
            awake = w.awake - 1;
            busy = t ∷ w.busy;
            begun = w.begun ++ (t ∷ []);
          }))
  complete :
      (w : World) (ts us : List ℕ) (t : ℕ)
      → w.busy ≡ ts ++ (t ∷ us)
      → Step w (record w {
        pool = finish w.pool;
        awake = w.awake + 1;
        busy = ts ++ us;
        done = t ∷ w.done;
      })
  wake :
      (w : World) → 1 ≤ w.asleep → Step w (record w { awake = w.awake + 1; asleep = w.asleep - 1 })
  leave :
      (w : World) (seconds : ℕ) (p : Pool)
      → 1 ≤ w.awake
      → expire seconds w.pool ≡ some p
      → Step w (record w { pool = p; awake = w.awake - 1 })
  destroy : (w : World) → Step w (record w { pool = stop w.pool })
  notify :
      (w : World)
      → w.pool.running ≡ false
      → w.joiner ≡ absent
      → Step w (record w { awake = w.awake + w.asleep; asleep = 0; joiner = look w.pool.threads })
  stir : (w : World) → w.joiner ≡ asleep → Step w (record w { joiner = awake })
  join : (w : World) → w.joiner ≡ awake → Step w (record w { joiner = look w.pool.threads })

pub data Reach : World → World → Type 0 where
  here : (w : World) → Reach w w
  next : (u v w : World) → Step u v → Reach v w → Reach u w

-- A pool that was just started: its threads are about to enter the loop.
abbrev pub begin_with : Pool → World
begin_with p = record {
  pool = p;
  awake = p.threads;
  asleep = 0;
  busy = [];
  joiner = absent;
  accepted = [];
  begun = [];
  done = [];
}
