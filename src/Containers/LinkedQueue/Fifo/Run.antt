-- ===== src/Containers/LinkedQueue/Fifo/Run.antt =====
-- The linked queue hands out what it was given, in order.
use learncc.Prelude.{ℕ, ◌≡◌, refl, ◌∙◌, List, [], ◌∷◌, ◌++◌, some, arith}
use learncc.Containers.LinkedQueue.{
  Queue, Event, pushed, popped, found_empty, Outcome, blocked, fault, went, empty, Action, push,
  store, link, move, notify_one, pop, get_tail, wait, take, move_head, step, run, then_do, and_then,
}
use learncc.Containers.LinkedQueue.Chain.{Chain, Holds}
use learncc.Containers.LinkedQueue.Fifo.{fifo, Good}
use learncc.Containers.LinkedQueue.Fifo.Pushing.{
  lock_tail-Good, store_data-Good, link_node-Good, move_tail-Good, notify-Good,
}
use learncc.Containers.LinkedQueue.Fifo.Popping.{
  lock_head-Good, look-Good, sleep-Good, take_data-Good, advance-Good,
}

step-Good : (a : Action) (q : Queue) (vs : List ℕ) → Holds q vs → Good vs (step a q)
unfolding step
step-Good (push v) q vs h = lock_tail-Good q vs h.chain h.known v q.pusher
step-Good store q vs h = store_data-Good q vs h.chain h.known q.pusher
step-Good link q vs h = link_node-Good q vs h.chain h.known q.pusher h.written
step-Good move q vs h = move_tail-Good q vs h.chain h.known q.pusher h.written
step-Good notify_one q vs h = notify-Good q vs h.chain h.known q.pusher
step-Good (pop waits) q vs h = lock_head-Good q h.written waits vs q.popper h.chain
step-Good get_tail q vs h = look-Good q h.written q.pusher vs q.popper h.chain
step-Good wait q vs h = sleep-Good q h.written vs q.popper h.chain
step-Good take q vs h = take_data-Good q h.written vs q.popper h.chain h.known
step-Good move_head q vs h = advance-Good q h.written vs q.popper h.chain h.known

fifo-append :
    (es fs : List Event) (vs ws : List ℕ) → fifo es vs ≡ some ws → fifo (es ++ fs) vs ≡ fifo fs ws
unfolding fifo
fifo-append [] fs vs ws e = ground arith
fifo-append (pushed v ∷ es) fs vs ws e = fifo-append es fs (vs ++ (v ∷ [])) ws e
fifo-append (popped v ∷ es) fs [] ws e = ground arith
fifo-append (popped v ∷ es) fs (x ∷ vs) ws e = ground (arith, fifo-append es fs vs ws)
fifo-append (found_empty ∷ es) fs [] ws e = fifo-append es fs [] ws e
fifo-append (found_empty ∷ es) fs (x ∷ vs) ws e = ground arith

then_do-Good :
    (es : List Event) (vs ws : List ℕ) (o : Outcome)
    → fifo es vs ≡ some ws
    → Good ws o
    → Good vs (then_do es o)
then_do-Good es vs ws blocked e g = tt
then_do-Good es vs ws fault e g = g
then_do-Good es vs ws (went fs q) e (us, f, h) = (us, fifo-append es fs vs ws e ∙ f, h)

and_then-Good :
    (vs : List ℕ) (o : Outcome) (k : Queue → Outcome)
    → ((q : Queue) (ws : List ℕ) → Holds q ws → Good ws (k q))
    → Good vs o
    → Good vs (and_then o k)
and_then-Good vs blocked k each g = tt
and_then-Good vs fault k each g = g
and_then-Good vs (went es q) k each (ws, e, h) = then_do-Good es vs ws (k q) e (each q ws h)

pub run-Good :
    (as_done : List Action) (q : Queue) (vs : List ℕ) → Holds q vs → Good vs (run as_done q)
unfolding run fifo
run-Good [] q vs h = (vs, refl, h)
run-Good (a ∷ later) q vs h =
    and_then-Good vs (step a q) (run later) (run-Good later) (step-Good a q vs h)

empty-Holds : Holds empty []
unfolding empty Chain
empty-Holds = record { chain = refl; written = tt; known = tt }

-- Whatever threads do with a new queue, an action at a time, no null pointer is used, and what they learn
-- is what a queue of which everything happens at once would have told them; it holds what is left.
pub run-fifo : (actions : List Action) → Good [] (run actions empty)
run-fifo actions = run-Good actions empty [] empty-Holds
