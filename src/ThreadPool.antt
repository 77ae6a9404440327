-- ===== src/ThreadPool.antt =====
-- inc/threadpool/thrdp.h: the pool of threads that run tasks from one queue. A task is a number, and
-- `threads_` is its size, since each thread erases the entry of its own identifier.
pub mod Steps
pub mod Consistent
pub mod Preserved
pub mod Reached
pub mod Launching
mod Tests
use learncc.Prelude.{
  zero, suc, ℕ, ◌+◌, ◌-◌, Bool, true, false, ◌&&◌, List, [], ◌∷◌, ◌++◌, Option, none, some, length,
  ltb, leb, if◌then◌else◌,
}

pub data Mode : Type 0 where
  fixed : Mode
  cached : Mode

unfoldable pub is_cached : Mode → Bool
is_cached fixed = false
is_cached cached = true

pub record Pool : Type 0 where
  pub mode : Mode
  pub running : Bool
  pub init_size : ℕ
  pub cur : ℕ
  pub idle : ℕ
  pub tasks : List ℕ
  pub task_size : ℕ
  pub task_maxsize : ℕ
  pub thread_maxsize : ℕ
  pub threads : ℕ

abbrev pub thread_max_idle_time : ℕ
thread_max_idle_time = 60

abbrev pub make : Pool
make = record {
  mode = fixed;
  running = false;
  init_size = 0;
  cur = 0;
  idle = 0;
  tasks = [];
  task_size = 0;
  task_maxsize = 2;
  thread_maxsize = 1024;
  threads = 0;
}

pub set_mode : Mode → Pool → Pool
set_mode mode p = if p.running then p else record p { mode = mode }

pub set_task_maxsize : ℕ → Pool → Pool
set_task_maxsize n p = if p.running then p else record p { task_maxsize = n }

pub set_thread_maxsize : ℕ → Pool → Pool
set_thread_maxsize n p =
    if p.running then p else if is_cached p.mode then record p { thread_maxsize = n } else p

-- The second loop of `start` calls `threads_[i]->start()` for each `i` below `n`, while the first one
-- filled the entries from `generated` on: an entry below it is null.
pub launches : ℕ → ℕ → Bool
launches generated zero = true
launches generated (suc i) = launches generated i && leb generated i

-- `start` of a pool without threads; `generated` is the value of `generate_id_`. `none` is the call
-- through a null pointer.
pub start : ℕ → ℕ → Pool → Option Pool
unfolding launches
start generated n p =
    if launches generated n
    then some (record p { running = true; init_size = n; cur = n; threads = n; idle = p.idle + n })
    else none

-- The task in the queue, and whether a thread was created; `none` is a queue that stays full for the
-- second that a call may wait.
pub commit : ℕ → Pool → Option (Pool × Bool)
commit t p =
    let queued = record p { tasks = p.tasks ++ (t ∷ []); task_size = p.task_size + 1 } in
    let grown = record queued { threads = p.threads + 1; cur = p.cur + 1; idle = p.idle + 1 } in
    let grows = is_cached p.mode && (ltb p.idle (p.task_size + 1) && ltb p.cur p.thread_maxsize) in
    if ltb (length p.tasks) p.task_maxsize
    then (if grows then some (grown, true) else some (queued, false))
    else none

-- What a thread does that holds the lock at the head of the inner loop of `thread_func`.
pub data Turn : Type 0 where
  exits : Pool → Turn
  waits : Turn
  runs : ℕ → Pool → Turn

pub turn_with : Pool → List ℕ → Turn
turn_with p [] = if p.running then waits else exits (record p { threads = p.threads - 1 })
turn_with p (t ∷ ts) =
    runs t (record p { idle = p.idle - 1; tasks = ts; task_size = p.task_size - 1 })

pub turn : Pool → Turn
unfolding turn_with
turn p = turn_with p p.tasks

-- A thread whose wait timed out and that ran nothing for `seconds`: it ends, or it goes round the loop.
pub expire : ℕ → Pool → Option Pool
expire seconds p =
    if is_cached p.mode && (leb thread_max_idle_time seconds && ltb p.init_size p.cur)
    then some (record p { threads = p.threads - 1; cur = p.cur - 1; idle = p.idle - 1 })
    else none

pub finish : Pool → Pool
finish p = record p { idle = p.idle + 1 }

-- The first line of the destructor.
pub stop : Pool → Pool
stop p = record p { running = false }
