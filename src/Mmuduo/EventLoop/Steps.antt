-- ===== src/Mmuduo/EventLoop/Steps.antt =====
-- The loop's thread beside others that call `queue_in_loop` and `quit`, one atomic part at a time.
use learncc.Prelude.{
  ℕ, ◌+◌, ◌-◌, ◌≤◌, ◌≡◌, Bool, true, false, List, [], ◌∷◌, ◌++◌, length, ltb, if◌then◌else◌,
}
use learncc.Mmuduo.EventLoop.{
  Loop, wakeup, handle_read, push, queue_in_loop, quit, begin_calls, swap_pending, end_calls,
}

-- Where the loop's thread is: in `poll`, among the handlers (`ready` tells whether the one of the
-- event descriptor is still to be called), ahead of the swap, with functors left to call, or gone.
pub data Phase : Type 0 where
  polling : Phase
  handling : (ready : Bool) → Phase
  swapping : Phase
  calling : List ℕ → Phase
  stopped : Phase

-- `owed` counts the other threads that are about to call `wakeup`. The last two fields are history:
-- the functors in the order in which they were queued, and those that were called.
pub record World : Type 0 where
  pub loop : Loop
  pub phase : Phase
  pub owed : ℕ
  pub queued : List ℕ
  pub called : List ℕ

-- Where handlers and functors run, which may queue others.
abbrev pub IsRunning : Phase → Type 0
IsRunning (handling ready) = Unit
IsRunning (calling fs) = Unit
IsRunning _ = ⊥

-- The test of `while (!quit_)`.
abbrev pub again : Loop → Phase
again l = if l.quitting then stopped else polling

pub data Step : World → World → Type 0 where
  queue_other :
      (w : World) (f : ℕ)
      → Step w (record w { loop = push f w.loop; owed = w.owed + 1; queued = w.queued ++ (f ∷ []) })
  quit_other :
      (w : World)
      → Step w (record w { loop = record w.loop { quitting = true }; owed = w.owed + 1 })
  wake_other :
      (w : World) → 1 ≤ w.owed → Step w (record w { loop = wakeup w.loop; owed = w.owed - 1 })
  queue_own :
      (w : World) (f : ℕ)
      → IsRunning w.phase
      → Step w (record w { loop = queue_in_loop true f w.loop; queued = w.queued ++ (f ∷ []) })
  quit_own : (w : World) → IsRunning w.phase → Step w (record w { loop = quit true w.loop })
  poll :
      (w : World)
      → w.phase ≡ polling
      → Step w (record w { phase = handling (ltb 0 w.loop.counter) })
  read_event :
      (w : World)
      → w.phase ≡ handling true
      → Step w (record w { loop = handle_read w.loop; phase = handling false })
  find_none :
      (w : World)
      → w.phase ≡ handling false
      → w.loop.pending ≡ []
      → Step w (record w { phase = again w.loop })
  find_some :
      (w : World)
      → w.phase ≡ handling false
      → 1 ≤ length w.loop.pending
      → Step w (record w { loop = begin_calls w.loop; phase = swapping })
  swap :
      (w : World)
      → w.phase ≡ swapping
      → Step w
          (record w { loop = (swap_pending w.loop).1; phase = calling (swap_pending w.loop).0 })
  call :
      (w : World) (f : ℕ) (fs : List ℕ)
      → w.phase ≡ calling (f ∷ fs)
      → Step w (record w { phase = calling fs; called = w.called ++ (f ∷ []) })
  end :
      (w : World)
      → w.phase ≡ calling []
      → Step w (record w { loop = end_calls w.loop; phase = again w.loop })

pub data Reach : World → World → Type 0 where
  here : (w : World) → Reach w w
  next : (u v w : World) → Step u v → Reach v w → Reach u w

-- A loop that was just made enters `loop`.
abbrev pub entered : World
entered = record {
  loop = record { looping = true; quitting = false; calling = false; counter = 0; pending = [] };
  phase = polling;
  owed = 0;
  queued = [];
  called = [];
}
