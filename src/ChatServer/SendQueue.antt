-- ===== src/ChatServer/SendQueue.antt =====
-- src/chat_server/csession.cc: the queue of messages to be sent. A message is in the queue until its
-- `async_write` has ended, and that of the front one is under way.
pub mod Order
mod Tests
use learncc.Prelude.{
  ℕ, zero, suc, ◌+◌, ◌-◌, ◌*◌, ◌^◌, ◌≤◌, ◌≡◌, Bool, true, false, List, [], ◌∷◌, ◌++◌, length, drop,
  ltb, if◌then◌else◌,
}
use learncc.ChatServer.MsgNode.{SendNode, node, refused, corrupt, send_node}

abbrev pub max_sendque : ℕ
max_sendque = 1000

-- `written` are the nodes given to `async_write` so far, `failed` is `b_close_`.
pub record Sender : Type 0 where
  pub queue : List (List ℕ)
  pub written : List (List ℕ)
  pub failed : Bool

abbrev pub make : Sender
make = record { queue = []; written = []; failed = false }

-- How `send` ends: it is full, the node is in the queue, the exception of the node leaves it, or memory
-- is overwritten.
pub data Sent : Type 0 where
  full : Sent
  queued : Sender → Sent
  thrown : Sent
  overwritten : Sent

-- Nothing else is being written if the queue was empty.
pub push : List ℕ → Sender → Sender
push bs s =
    let s' : Sender = record s { queue = s.queue ++ (bs ∷ []) } in
    if ltb 0 (length s.queue) then s' else record s' { written = s.written ++ (bs ∷ []) }

abbrev pub push_node : Sender → SendNode → Sent
push_node s (node bs) = queued (push bs s)
push_node s refused = thrown
push_node s corrupt = overwritten

pub send : ℕ → List ℕ → Sender → Sent
unfolding push
send id msg s = if ltb max_sendque (length s.queue) then full else push_node s (send_node id msg)

abbrev write_next : List (List ℕ) → Sender → Sender
write_next [] s = record s { queue = [] }
write_next (bs ∷ rest) s = record s { queue = bs ∷ rest; written = s.written ++ (bs ∷ []) }

-- `handle_write` without an error and with one.
pub handle_write : Sender → Sender
handle_write s = write_next (drop 1 s.queue) s

pub handle_write_error : Sender → Sender
handle_write_error s = record s { failed = true }

-- The session with the calls of `async_write` that have not ended and, for the statements, all nodes
-- that were put in the queue.
pub record World : Type 0 where
  pub sender : Sender
  pub outstanding : ℕ
  pub accepted : List (List ℕ)

abbrev pub begin : World
begin = record { sender = make; outstanding = 0; accepted = [] }

-- One call of `send`, or the end of a write that is under way.
pub data Step : World → World → Type 0 where
  accepts :
      (w : World) (id : ℕ) (msg bs : List ℕ) (s : Sender)
      → send_node id msg ≡ node bs
      → send id msg w.sender ≡ queued s
      → Step w (record {
        sender = s;
        outstanding = w.outstanding + (length s.written - length w.sender.written);
        accepted = w.accepted ++ (bs ∷ []);
      })
  ends :
      (w : World)
      → 1 ≤ w.outstanding
      → Step w (record w {
        sender = handle_write w.sender;
        outstanding =
            w.outstanding - 1 + (length (handle_write w.sender).written - length w.sender.written);
      })
  fails :
      (w : World)
      → 1 ≤ w.outstanding
      → Step w (record w { sender = handle_write_error w.sender; outstanding = w.outstanding - 1 })

pub data Run : World → World → Type 0 where
  here : (w : World) → Run w w
  next : (w w' w'' : World) → Step w w' → Run w' w'' → Run w w''
