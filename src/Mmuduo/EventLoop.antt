-- ===== src/Mmuduo/EventLoop.antt =====
-- inc/mmuduo/event_loop.h and src/mmuduo/event_loop.cc: the functors that threads hand to a loop, and
-- the event descriptor that wakes it. A functor is a number.
pub mod Steps
pub mod Wakeup
mod Tests
use learncc.Prelude.{ℕ, ◌+◌, Bool, true, false, not, ◌||◌, List, [], ◌∷◌, ◌++◌, if◌then◌else◌}

-- `counter` is the value of the event descriptor `wakeup_`.
pub record Loop : Type 0 where
  pub looping : Bool
  pub quitting : Bool
  pub calling : Bool
  pub counter : ℕ
  pub pending : List ℕ

abbrev pub make : Loop
make = record { looping = false; quitting = false; calling = false; counter = 0; pending = [] }

-- The first two lines of `loop`.
pub start : Loop → Loop
start l = record l { looping = true; quitting = false }

-- `write` of the number 1 to the descriptor.
abbrev pub wakeup : Loop → Loop
wakeup l = record l { counter = l.counter + 1 }

-- `read` of the descriptor, which resets it.
abbrev pub handle_read : Loop → Loop
handle_read l = record l { counter = 0 }

-- The critical section of `queue_in_loop`, and what follows it; `own` tells whether the loop's thread
-- calls.
abbrev pub push : ℕ → Loop → Loop
push f l = record l { pending = l.pending ++ (f ∷ []) }

pub nudge : Bool → Loop → Loop
nudge own l = if not own || l.calling then wakeup l else l

pub queue_in_loop : Bool → ℕ → Loop → Loop
unfolding nudge
queue_in_loop own f l = nudge own (push f l)

-- The functors that run at once, and the loop.
pub run_in_loop : Bool → ℕ → Loop → List ℕ × Loop
unfolding queue_in_loop
run_in_loop own f l = if own then (f ∷ [], l) else ([], queue_in_loop own f l)

pub quit : Bool → Loop → Loop
quit own l = let asked = record l { quitting = true } in if own then asked else wakeup asked

-- The parts of `do_pending_functors`: the flag, the swap, and the flag again.
abbrev pub begin_calls : Loop → Loop
begin_calls l = record l { calling = true }

abbrev pub swap_pending : Loop → List ℕ × Loop
swap_pending l = (l.pending, record l { pending = [] })

abbrev pub end_calls : Loop → Loop
end_calls l = record l { calling = false }

-- What `do_pending_functors` runs if nothing comes between, and the loop.
pub do_pending_functors : Loop → List ℕ × Loop
do_pending_functors l = elim l.pending [
  | [] ↦ ([], l)
  | f ∷ fs ↦ (let (called, l') = swap_pending (begin_calls l) in (called, end_calls l'))
]
