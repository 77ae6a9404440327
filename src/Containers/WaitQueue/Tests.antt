-- ===== src/Containers/WaitQueue/Tests.antt =====
-- Runs of the queue under one lock.
use learncc.Prelude.{◌<◌, ◌≡◌, refl, true, false, List, [], ◌∷◌, length, arith}
use learncc.Containers.WaitQueue.{
  Queue, notify_one, push, wait_and_pop, Action, pushes, waits, resume, tries, try_pop, step, run,
}
use learncc.Containers.WaitQueue.Waiting.{run-sleeps}

abbrev new : Queue
new = record { data_ = []; asleep = 0; awake = 0 }

-- Two consumers sleep, one value comes, and a try to take it throws.
abbrev two_sleep : List Action
two_sleep = waits false ∷ waits false ∷ pushes 7 ∷ tries true ∷ []

two_sleep-run : run two_sleep new ≡ record { data_ = 7 ∷ []; asleep = 1; awake = 1 }
unfolding run step push notify_one wait_and_pop try_pop
two_sleep-run = refl

sleepers : 0 < (run two_sleep new).asleep
unfolding run step push notify_one wait_and_pop try_pop
sleepers = omega arith

values : 0 < length (run two_sleep new).data_
unfolding run step push notify_one wait_and_pop try_pop
values = omega arith

run-sleeps_example : 0 < (run two_sleep new).awake
run-sleeps_example = run-sleeps two_sleep new (refl, (refl, (tt, (tt, tt)))) refl sleepers values

-- The copy of the value throws in the consumer that was woken: the value stays, and the other consumer
-- sleeps on, with nobody on the way.
copy_throws :
    run (waits false ∷ waits false ∷ pushes 7 ∷ resume true ∷ []) new
    ≡ record { data_ = 7 ∷ []; asleep = 1; awake = 0 }
unfolding run step push notify_one wait_and_pop
copy_throws = refl
