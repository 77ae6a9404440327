-- ===== src/ChatServer/Session.antt =====
-- src/chat_server/csession.cc: reading of messages and the queue of those to be sent. What
-- `async_read_some` reads and how `async_write` ends are arguments.
pub mod Wire
pub mod RoundTrip
pub mod Bounds
mod Tests
use learncc.Prelude.{
  ℕ, zero, suc, ◌+◌, ◌-◌, ◌*◌, ◌^◌, Bool, true, false, ◌&&◌, not, List, [], ◌∷◌, ◌++◌, Option, none,
  some, length, take, drop, ltb, leb, ◌==◌, if◌then◌else◌, min,
}
use learncc.ChatServer.MsgNode.{
  short, is_negative, head_total_len, get_short, Memory, enough, bad_array, overrun, make_node,
  SendNode, node, refused, corrupt, send_node,
}

abbrev pub max_length : ℕ
max_length = 1024 * 2

-- What is being read: a head, or the body of a message with this identifier.
pub data Phase : Type 0 where
  head : Phase
  body : ℕ → Phase

-- How the session stands: `cleared` is taken out of the tables and no longer read, `closed` is closed
-- too, `stalled` is neither closed nor read, and `broken` has written past its memory.
pub data Status : Type 0 where
  open_ : Status
  cleared : Status
  closed : Status
  stalled : Status
  broken : Status

-- `want` and `got` are the length that `async_read_len` waits for and the bytes it has in `data_`;
-- `posted` are the messages handed to the logic system.
pub record Reader : Type 0 where
  pub phase : Phase
  pub want : ℕ
  pub got : List ℕ
  pub posted : List (ℕ × List ℕ)
  pub status : Status

-- `async_read_head` and `async_read_body`.
abbrev pub read_head : Reader → Reader
read_head r = record r { phase = head; want = head_total_len; got = [] }

abbrev read_body : ℕ → ℕ → Reader → Reader
read_body len id r = record r { phase = body id; want = len; got = [] }

abbrev pub start : Reader
start = record { phase = head; want = head_total_len; got = []; posted = []; status = open_ }

abbrev too_large : ℕ → Bool
too_large s = not (is_negative s) && ltb max_length s

-- The node for the body is made before it is read.
abbrev make_body : ℕ → ℕ → Reader → Memory → Reader
make_body len id r enough = read_body len id r
make_body len id r bad_array = record r { status = stalled }
make_body len id r overrun = record r { status = broken }

pub on_head : ℕ → ℕ → Reader → Reader
unfolding make_node
on_head id len r =
    if too_large id
    then record r { status = cleared }
    else (if too_large len
        then record r { status = cleared }
        else make_body len id r (make_node len))

-- The handler of a read, for all the bytes that were wanted. Fewer than four do not come here.
abbrev pub parse_head : List ℕ → Reader → Reader
parse_head (a ∷ b ∷ c ∷ d ∷ bs) r = on_head (get_short a b) (get_short c d) r
parse_head bs r = record r { status = closed }

abbrev complete : Phase → List ℕ → Reader → Reader
complete head bs r = parse_head bs r
complete (body id) bs r = read_head (record r { posted = r.posted ++ ((id, bs) ∷ []) })

-- One round of `async_read_len`.
pub on_read : List ℕ → Reader → Reader
unfolding on_head
on_read bs r =
    let got = r.got ++ bs in
    if leb r.want (length got) then complete r.phase got r else record r { got = got }

pub on_error : Reader → Reader
on_error r = record r { status = closed }

abbrev is_open : Status → Bool
is_open open_ = true
is_open s = false

-- Reads of a stream, of which each gives at most the number of bytes asked for and a number that the
-- network chooses.
pub feed : List ℕ → List ℕ → Reader → Reader
unfolding on_read
feed [] stream r = r
feed (n ∷ ns) stream r =
    let k = min n (r.want - length r.got) in
    let more = feed ns (drop k stream) (on_read (take k stream) r) in
    if is_open r.status then more else r
