-- ===== src/Containers/WaitQueue.antt =====
-- `threadsafe_queue` and `threadsafe_queue_ptr` of inc/public/ts_queue.h: a queue under one lock, and
-- consumers that wait. Every call is one critical section, but for `wait_and_pop`, which sleeps in it.
mod Tests
pub mod Waiting
use learncc.Prelude.{
  ℕ, zero, suc, ◌+◌, ◌-◌, ◌≤◌, ◌≡◌, Bool, true, false, List, [], ◌∷◌, ◌++◌, Option, none, some,
  ◌==◌, if◌then◌else◌,
}

-- `data_`, the consumers that sleep on `cond_`, and those that were woken and want the lock again.
pub record Queue : Type 0 where
  pub data_ : List ℕ
  pub asleep : ℕ
  pub awake : ℕ

pub empty : Queue → Bool
empty q = elim q.data_ [ [] ↦ true | v ∷ vs ↦ false ]

-- `notify_one` wakes a consumer, if one sleeps.
pub notify_one : Queue → Queue
notify_one q = if q.asleep == 0 then q else record q { asleep = q.asleep - 1; awake = q.awake + 1 }

pub push : ℕ → Queue → Queue
unfolding notify_one
push v q = notify_one (record q { data_ = q.data_ ++ (v ∷ []) })

-- The first value is copied out of the queue. If the copy throws, the value stays, and the caller is gone
-- with the exception.
abbrev pub copied : Bool → ℕ → List ℕ → Queue → Option ℕ × Queue
copied true v vs q = (none, q)
copied false v vs q = (some v, record q { data_ = vs })

abbrev take_first : Bool → List ℕ → Queue → Option ℕ × Queue
take_first fails [] q = (none, q)
take_first fails (v ∷ vs) q = copied fails v vs q

-- The first argument is whether the copy of the value throws, here and below.
pub try_pop : Bool → Queue → Option ℕ × Queue
try_pop fails q = take_first fails q.data_ q

abbrev first_or_sleep : Bool → List ℕ → Queue → Option ℕ × Queue
first_or_sleep fails [] q = (none, record q { asleep = q.asleep + 1 })
first_or_sleep fails (v ∷ vs) q = copied fails v vs q

-- `wait_and_pop` with the lock: a value, or sleep.
pub wait_and_pop : Bool → Queue → Option ℕ × Queue
wait_and_pop fails q = first_or_sleep fails q.data_ q

-- A call; `resume` is a woken consumer that has the lock again, and `wake` the end of a sleep without a
-- notification.
pub data Action : Type 0 where
  pushes : ℕ → Action
  tries : Bool → Action
  waits : Bool → Action
  resume : Bool → Action
  wake : Action

abbrev resumed : Bool → ℕ → Queue → Option ℕ × Queue
resumed fails zero q = (none, q)
resumed fails (suc n) q = wait_and_pop fails (record q { awake = n })

abbrev woken : ℕ → Queue → Queue
woken zero q = q
woken (suc n) q = record q { asleep = n; awake = q.awake + 1 }

pub step : Action → Queue → Option ℕ × Queue
unfolding push try_pop wait_and_pop
step (pushes v) q = (none, push v q)
step (tries fails) q = try_pop fails q
step (waits fails) q = wait_and_pop fails q
step (resume fails) q = resumed fails q.awake q
step wake q = (none, woken q.asleep q)

abbrev run_then : (Queue → Queue) → Option ℕ × Queue → Queue
run_then k (o, q) = k q

pub run : List Action → Queue → Queue
unfolding step
run [] q = q
run (a ∷ later) q = run_then (run later) (step a q)
