-- ===== src/ThreadPool/Tests.antt =====
-- The theorems on the pool of threads at a pool with one thread.
use learncc.Prelude.{ℕ, ◌≡◌, refl, true, false, [], ◌∷◌, some, arith, count}
use learncc.ThreadPool.{
  Pool, make, is_cached, launches, start, commit, turn, turn_with, finish, stop,
}
use learncc.ThreadPool.Steps.{
  World, Step, submit, begin, complete, destroy, exit, Reach, here, next, begin_with,
}
use learncc.ThreadPool.Consistent.{IsConsistent, IsFresh}
use learncc.ThreadPool.Reached.{reached-IsConsistent, emptied-done}

make-IsFresh : IsFresh make
make-IsFresh = record { no_tasks = refl; no_size = refl; no_idle = refl }

abbrev started : Pool
started = record make { running = true; init_size = 1; cur = 1; threads = 1; idle = 1 }

make-started : start 0 1 make ≡ some started
unfolding start launches
make-started = refl

abbrev queued : World
queued = record (begin_with started) {
  pool = record started { tasks = 7 ∷ []; task_size = 1 };
  accepted = 7 ∷ [];
}

abbrev running : World
running = record queued {
  pool = record started { idle = 0 };
  awake = 0;
  busy = 7 ∷ [];
  begun = 7 ∷ [];
}

abbrev finished : World
finished = record running { pool = started; awake = 1; busy = []; done = 7 ∷ [] }

abbrev stopped : World
stopped = record finished { pool = record started { running = false } }

abbrev ended : World
ended = record stopped { pool = record started { running = false; threads = 0 }; awake = 0 }

-- One task is submitted, run and done, then the pool is destroyed and the thread ends.
reach_queued : Step (begin_with started) queued
unfolding commit is_cached
reach_queued = submit (begin_with started) 7 queued.pool false refl refl

reach_running : Step queued running
unfolding turn turn_with
reach_running = begin queued 7 running.pool (omega arith) refl

reach_finished : Step running finished
unfolding finish
reach_finished = complete running [] [] 7 refl

reach_stopped : Step finished stopped
unfolding stop
reach_stopped = destroy finished

reach_ended : Step stopped ended
unfolding turn turn_with
reach_ended = exit stopped ended.pool (omega arith) refl

run_stopped : (w : World) → Reach stopped w → Reach (begin_with started) w
run_stopped w r = next (begin_with started) queued w reach_queued (
    next queued running w reach_running
      (next running finished w reach_finished (next finished stopped w reach_stopped r)))

reached-IsConsistent_example : IsConsistent running
reached-IsConsistent_example =
    reached-IsConsistent 0 1 make make-IsFresh (omega arith) make-started (
      next (begin_with started) queued running reach_queued
        (next queued running running reach_running (here running)))

emptied-done_example :
    (ended.begun ≡ ended.accepted) × ((t : ℕ) → count t ended.done ≡ count t ended.accepted)
emptied-done_example =
    emptied-done 0 1 make make-IsFresh (omega arith) make-started
      (run_stopped ended (next stopped ended ended reach_ended (here ended))) refl
