-- ===== src/Containers/LinkedQueue.antt =====
-- `threadsafe_queue_l` of inc/public/ts_queue.h: a list of nodes with a lock at each end, and consumers that
-- wait. An action is what a thread does between two accesses that another thread may see. A node is
-- the number of its place in the list: the one after the last is made for the next value. The
-- `try_pop_head` that returns a pointer moves the head before it reads the data, both under the lock.
mod Tests
pub mod Chain
pub mod Fifo
pub mod Wakeup
use learncc.Prelude.{
  ℕ, zero, suc, ◌+◌, ◌-◌, ◌≡◌, Bool, true, false, List, [], ◌∷◌, ◌++◌, Option, none, some, ◌==◌,
  if◌then◌else◌, put,
}

-- The thread that holds `tail_mtx_` inside `push`, and what it does next.
pub data Pusher : Type 0 where
  no_pusher : Pusher
  storing : ℕ → Pusher
  linking : ℕ → Pusher
  moving : ℕ → Pusher
  notifying : Pusher

-- The thread that holds `head_mtx_` inside a pop, which waits for a value or does not. `drowsy` has seen
-- that there is none and is about to sleep.
pub data Popper : Type 0 where
  no_popper : Popper
  looking : Bool → Popper
  drowsy : Popper
  taking : Popper
  advancing : Popper

-- `data_` and `next_` of every node, and how many consumers sleep on `cond_`.
pub record Queue : Type 0 where
  pub head : ℕ
  pub tail : ℕ
  pub data_of : ℕ → Option ℕ
  pub next_of : ℕ → Option ℕ
  pub pusher : Pusher
  pub popper : Popper
  pub asleep : ℕ

-- What a caller learns: its value is in, it has a value, or there was none.
pub data Event : Type 0 where
  pushed : ℕ → Event
  popped : ℕ → Event
  found_empty : Event

-- An action cannot be done now, uses a null pointer, or is done.
pub data Outcome : Type 0 where
  blocked : Outcome
  fault : Outcome
  went : List Event → Queue → Outcome

pub empty : Queue
empty = record {
  head = 0;
  tail = 0;
  data_of = λ m. none;
  next_of = λ m. none;
  pusher = no_pusher;
  popper = no_popper;
  asleep = 0;
}

-- `push` with its new node, up to the lock.
abbrev lock_tail : ℕ → Pusher → Queue → Outcome
lock_tail v no_pusher q = went [] (record q {
  data_of = put q.data_of (q.tail + 1) none;
  next_of = put q.next_of (q.tail + 1) none;
  pusher = storing v;
})
lock_tail v p q = blocked

abbrev store_data : Pusher → Queue → Outcome
store_data (storing v) q =
    went [] (record q { data_of = put q.data_of q.tail (some v); pusher = linking v })
store_data p q = blocked

abbrev link_node : Pusher → Queue → Outcome
link_node (linking v) q =
    went [] (record q { next_of = put q.next_of q.tail (some (q.tail + 1)); pusher = moving v })
link_node p q = blocked

abbrev move_tail : Pusher → Queue → Outcome
move_tail (moving v) q = went (pushed v ∷ []) (record q { tail = q.tail + 1; pusher = notifying })
move_tail p q = blocked

-- `notify_one`, and the end of `push`.
abbrev notify : Pusher → Queue → Outcome
notify notifying q = went [] (record q { asleep = q.asleep - 1; pusher = no_pusher })
notify p q = blocked

abbrev lock_head : Bool → Popper → Queue → Outcome
lock_head waits no_popper q = went [] (record q { popper = looking waits })
lock_head waits p q = blocked

abbrev seen : Bool → Bool → Queue → Outcome
seen waits false q = went [] (record q { popper = taking })
seen true true q = went [] (record q { popper = drowsy })
seen false true q = went (found_empty ∷ []) (record q { popper = no_popper })

-- `get_tail` takes `tail_mtx_`; its answer is compared with `head_`.
abbrev look : Pusher → Popper → Queue → Outcome
look no_pusher (looking waits) q = seen waits (q.head == q.tail) q
look p h q = blocked

-- `wait` lets the lock go and sleeps at once.
abbrev sleep : Popper → Queue → Outcome
sleep drowsy q = went [] (record q { popper = no_popper; asleep = q.asleep + 1 })
sleep h q = blocked

abbrev taken : Option ℕ → Queue → Outcome
taken none q = fault
taken (some v) q =
    went (popped v ∷ []) (record q { data_of = put q.data_of q.head none; popper = advancing })

abbrev take_data : Popper → Queue → Outcome
take_data taking q = taken (q.data_of q.head) q
take_data h q = blocked

abbrev moved : Option ℕ → Queue → Outcome
moved none q = fault
moved (some n) q =
    went [] (record q { head = n; next_of = put q.next_of q.head none; popper = no_popper })

abbrev advance : Popper → Queue → Outcome
advance advancing q = moved (q.next_of q.head) q
advance h q = blocked

pub data Action : Type 0 where
  push : ℕ → Action
  store : Action
  link : Action
  move : Action
  notify_one : Action
  pop : Bool → Action
  get_tail : Action
  wait : Action
  take : Action
  move_head : Action

pub step : Action → Queue → Outcome
step (push v) q = lock_tail v q.pusher q
step store q = store_data q.pusher q
step link q = link_node q.pusher q
step move q = move_tail q.pusher q
step notify_one q = notify q.pusher q
step (pop waits) q = lock_head waits q.popper q
step get_tail q = look q.pusher q.popper q
step wait q = sleep q.popper q
step take q = take_data q.popper q
step move_head q = advance q.popper q

abbrev pub then_do : List Event → Outcome → Outcome
then_do es blocked = blocked
then_do es fault = fault
then_do es (went fs q) = went (es ++ fs) q

abbrev pub and_then : Outcome → (Queue → Outcome) → Outcome
and_then blocked k = blocked
and_then fault k = fault
and_then (went es q) k = then_do es (k q)

-- Actions of any threads, one after another.
pub run : List Action → Queue → Outcome
unfolding step
run [] q = went [] q
run (a ∷ later) q = and_then (step a q) (run later)
