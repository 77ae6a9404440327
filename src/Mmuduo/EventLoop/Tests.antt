-- ===== src/Mmuduo/EventLoop/Tests.antt =====
-- A run of a loop: another thread queues a functor while the loop waits.
use learncc.Prelude.{true, refl, [], ◌∷◌, arith}
use learncc.Mmuduo.EventLoop.Steps.{
  World, queue_other, wake_other, poll, here, next, entered, handling,
}
use learncc.Mmuduo.EventLoop.Wakeup.{IsSafe, reached-IsSafe}

abbrev pushed : World
pushed = record entered {
  loop = record entered.loop { pending = 9 ∷ [] };
  owed = 1;
  queued = 9 ∷ [];
}

abbrev woken : World
woken = record pushed { loop = record pushed.loop { counter = 1 }; owed = 0 }

abbrev polled : World
polled = record woken { phase = handling true }

reached-IsSafe_example : IsSafe polled
reached-IsSafe_example = reached-IsSafe (
    next entered pushed polled (queue_other entered 9) (
      next pushed woken polled (wake_other pushed (omega arith))
        (next woken polled polled (poll woken refl) (here polled))))
