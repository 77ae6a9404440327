-- ===== src/Containers/LinkedQueue/Fifo.antt =====
-- What the linked queue hands out, whatever the threads do: a queue of which everything happens at once.
pub mod Pushing
pub mod Popping
pub mod Run
use learncc.Prelude.{
  ℕ, zero, suc, ◌+◌, ◌-◌, ◌≤◌, ◌<◌, ◌≡◌, ◌≢◌, refl, sym, ap, subst, ◌∙◌, Bool, true, false, List,
  [], ◌∷◌, ◌++◌, Option, none, some, ◌==◌, if◌then◌else◌, put, arith, ◌⊎◌, inl, inr, append_assoc,
}
use learncc.Containers.LinkedQueue
use learncc.Containers.LinkedQueue.{
  Pusher, no_pusher, storing, linking, moving, notifying, Popper, no_popper, looking, drowsy,
  taking, advancing, Queue, Event, pushed, popped, found_empty, Outcome, blocked, fault, went,
  empty, lock_tail, store_data, link_node, move_tail, notify, lock_head, seen, look, sleep, taken,
  take_data, moved, advance, Action, push, store, link, move, notify_one, pop, get_tail, wait, take,
  move_head, step, run, then_do, and_then,
}
use learncc.Containers.LinkedQueue.Chain.{
  Chain, Chain-le, Chain-agree, Chain-snoc, start, Written, Known, Holds,
}

-- A queue of which everything happens at once; `none` if it does not do what the events say.
pub fifo : List Event → List ℕ → Option (List ℕ)
fifo [] vs = some vs
fifo (pushed v ∷ es) vs = fifo es (vs ++ (v ∷ []))
fifo (popped v ∷ es) [] = none
fifo (popped v ∷ es) (x ∷ vs) = let rest = fifo es vs in if x == v then rest else none
fifo (found_empty ∷ es) [] = fifo es []
fifo (found_empty ∷ es) (x ∷ vs) = none

-- No null pointer was used, and the events are those of a queue that held `vs` and holds what is left.
abbrev pub Good : List ℕ → Outcome → Type 0
Good vs blocked = Unit
Good vs fault = ⊥
Good vs (went es q) = (vs' : List ℕ) × (fifo es vs ≡ some vs') × Holds q vs'

pub one_value : (v : ℕ) (vs : List ℕ) → fifo (pushed v ∷ []) [] ≡ some vs → vs ≡ v ∷ []
unfolding fifo
one_value v vs e = ground arith
