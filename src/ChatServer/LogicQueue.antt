-- ===== src/ChatServer/LogicQueue.antt =====
-- src/chat_server/logic_system.cc: the queue between the sessions and the thread that handles messages.
-- The thread holds the lock from one wait to the next, while it handles a message too.
pub mod Wakeup
mod Tests
use learncc.Prelude.{
  ℕ, zero, suc, ◌+◌, ◌-◌, ◌≤◌, ◌≡◌, Bool, true, false, ◌&&◌, not, List, [], ◌∷◌, ◌++◌, length, ◌==◌,
  if◌then◌else◌,
}

-- A message is its `_msg_id` and its data.
abbrev pub Node : Type 0
Node = ℕ × List ℕ

pub data Worker : Type 0 where
  running : Worker
  asleep : Worker
  ended : Worker

-- `msg_que_` and `b_stop_`; the thread; the calls of `notify_one` that posting threads still owe; and,
-- for the statements, the messages posted, taken off the queue and handed to a callback so far.
pub record System : Type 0 where
  pub queue : List Node
  pub stop : Bool
  pub worker : Worker
  pub owed : ℕ
  pub posted : List Node
  pub taken : List Node
  pub handled : List Node

abbrev pub make : System
make = record {
  queue = [];
  stop = false;
  worker = running;
  owed = 0;
  posted = [];
  taken = [];
  handled = [];
}

-- `post_msg`: the lock is given back before the notification.
pub post_msg : Node → System → System
post_msg m s =
    let queue = s.queue ++ (m ∷ []) in
    record s {
      queue = queue;
      posted = s.posted ++ (m ∷ []);
      owed = if length queue == 1 then s.owed + 1 else s.owed;
    }

abbrev pub wake : Worker → Worker
wake asleep = running
wake w = w

pub notify : System → System
notify s = record s { owed = s.owed - 1; worker = wake s.worker }

-- The destructor, up to the join.
pub shut : System → System
shut s = record s { stop = true; worker = wake s.worker }

-- One message: its callback is called if there is one for its identifier, and it is taken off.
pub handle : (ℕ → Bool) → Node → List Node → System → System
handle has m rest s = record s {
  queue = rest;
  taken = s.taken ++ (m ∷ []);
  handled = if has m.0 then s.handled ++ (m ∷ []) else s.handled;
}

-- The loop of a stopped system over the rest of the queue.
pub drain : (ℕ → Bool) → List Node → System → System
unfolding handle
drain has [] s = s
drain has (m ∷ ms) s = drain has ms (handle has m ms s)

abbrev first_or_sleep : (ℕ → Bool) → List Node → System → System
first_or_sleep has [] s = record s { worker = asleep }
first_or_sleep has (m ∷ ms) s = handle has m ms s

-- A round of `deal_msg`, up to a wait or to the end of the loop's body.
pub deal_msg : (ℕ → Bool) → System → System
unfolding drain handle
deal_msg has s =
    let drained = drain has s.queue s in
    if s.stop then record drained { worker = ended } else first_or_sleep has s.queue s

-- What can happen, in any order.
pub data Step (has : ℕ → Bool) : System → System → Type 0 where
  posts : (m : Node) (s : System) → Step has s (post_msg m s)
  notifies : (s : System) → 1 ≤ s.owed → Step has s (notify s)
  shuts : (s : System) → Step has s (shut s)
  deals : (s : System) → s.worker ≡ running → Step has s (deal_msg has s)

pub data Run (has : ℕ → Bool) : System → System → Type 0 where
  here : (s : System) → Run has s s
  next : (s s' s'' : System) → Step has s s' → Run has s' s'' → Run has s s''
