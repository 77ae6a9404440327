-- ===== src/Containers/LinkedQueue/Tests.antt =====
-- Runs of the linked queue.
use learncc.Prelude.{ℕ, ◌≡◌, refl, true, false, List, [], ◌∷◌, ◌++◌, none}
use learncc.Containers.LinkedQueue.{
  Queue, Event, pushed, popped, found_empty, Outcome, went, empty, Action, push, store, link, move,
  notify_one, pop, get_tail, take, move_head, step, run, no_pusher, no_popper, drowsy,
}
use learncc.Containers.LinkedQueue.Chain.{Chain, Holds}
use learncc.Containers.LinkedQueue.Fifo.{Good}
use learncc.Containers.LinkedQueue.Fifo.Run.{run-fifo}
use learncc.Containers.LinkedQueue.Wakeup.{push_then_sleep, sleeps_with_value}

abbrev events : Outcome → List Event
events (went es q) = es
events o = []

abbrev put_in : ℕ → List Action
put_in v = push v ∷ store ∷ link ∷ move ∷ notify_one ∷ []

abbrev take_out : List Action
take_out = pop false ∷ get_tail ∷ take ∷ move_head ∷ []

two_in_order :
    events (run (put_in 5 ++ put_in 6 ++ take_out ++ take_out ++ pop false ∷ get_tail ∷ []) empty)
    ≡ pushed 5 ∷ pushed 6 ∷ popped 5 ∷ popped 6 ∷ found_empty ∷ []
unfolding run step empty
two_in_order = refl

-- A consumer waits, and has seen that the queue is empty.
abbrev waiter : Queue
waiter = record {
  head = 0;
  tail = 0;
  data_of = λ m. none;
  next_of = λ m. none;
  pusher = no_pusher;
  popper = drowsy;
  asleep = 0;
}

waiter-reached : run (pop true ∷ get_tail ∷ []) empty ≡ went [] waiter
unfolding run step empty
waiter-reached = refl

waiter-Holds : Holds waiter []
unfolding Chain
waiter-Holds = record { chain = refl; written = tt; known = tt }

run-fifo_example : Good [] (run (put_in 5 ++ take_out) empty)
run-fifo_example = run-fifo (put_in 5 ++ take_out)

sleeps_with_value_example :
    (q' : Queue) × (run (push_then_sleep 7) waiter ≡ went (pushed 7 ∷ []) q')
    × Holds q' (7 ∷ [])
    × (q'.pusher ≡ no_pusher)
    × (q'.popper ≡ no_popper)
    × (q'.asleep ≡ 1)
sleeps_with_value_example = sleeps_with_value 7 waiter waiter-Holds refl refl refl
