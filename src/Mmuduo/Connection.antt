-- ===== src/Mmuduo/Connection.antt =====
-- inc/mmuduo/tcp_connection.h and src/mmuduo/tcp_connection.cc: a TCP connection in the thread of
-- its event loop. An operation returns the connection and, in order, what it asks of others: system
-- calls, callbacks, and functors handed to the event loop. Log lines are left out.
pub mod Stream
pub mod Stuck
pub mod Closing
mod Tests
use learncc.Prelude.{
  ℕ, ◌+◌, ◌*◌, Bool, true, false, not, ◌&&◌, ◌||◌, List, [], ◌∷◌, ◌++◌, drop, take, length, ltb,
  leb, ◌==◌, if◌then◌else◌, sub_size, add_size,
}
use learncc.Mmuduo.Buffer
use learncc.Mmuduo.Buffer.{Buffer, readable_bytes, Received, got, failed}
use learncc.Mmuduo.Channel.{none_event, enable_reading, enable_writing, disable_writing, is_writing}

-- `enum stateE`
pub data State : Type 0 where
  disconnected connecting connected disconnecting : State

-- `events` is the mask of `channel_`; a callback is known by whether it is set.
pub record Connection : Type 0 where
  pub state : State
  pub events : ℕ
  pub tied : Bool
  pub removed : Bool
  pub ibuf : Buffer
  pub obuf : Buffer
  pub high_watermark : ℕ
  pub has_write_complete : Bool
  pub has_high_watermark : Bool

pub data Effect : Type 0 where
  -- `write` took these bytes, and `shutdown` closed the sending side.
  wire : List ℕ → Effect
  shutdown_write : Effect
  -- The callbacks.
  conn_cb : State → Effect
  message_cb : Effect
  close_cb : Effect
  -- The functors, handed to `run_in_loop` or to `queue_in_loop`.
  run_send : List ℕ → Effect
  run_shutdown : Effect
  queue_write_complete : Effect
  queue_high_watermark : ℕ → Effect
  queue_force_close : Effect

abbrev pub Outcome : Type 0
Outcome = Connection × List Effect

-- What `write` returned.
pub data Errno : Type 0 where
  would_block pipe conn_reset other : Errno

pub data Sent : Type 0 where
  took : ℕ → Sent
  error : Errno → Sent

unfoldable pub make : Connection
unfolding Buffer.new
make = record {
  state = connecting;
  events = 0;
  tied = false;
  removed = false;
  ibuf = Buffer.new Buffer.initial_size;
  obuf = Buffer.new Buffer.initial_size;
  high_watermark = 64 * 1024 * 1024;
  has_write_complete = false;
  has_high_watermark = false;
}

abbrev pub is_connected : State → Bool
is_connected connected = true
is_connected _ = false

abbrev pub is_disconnecting : State → Bool
is_disconnecting disconnecting = true
is_disconnecting _ = false

abbrev pub is_disconnected : State → Bool
is_disconnected disconnected = true
is_disconnected _ = false

abbrev pub when : Bool → Effect → List Effect
when b e = if b then e ∷ [] else []

-- The tail of `send_inloop`: what is left goes to the output buffer, and writing is watched for.
pub queue_rest : Connection → List ℕ → Outcome
queue_rest c rest =
    let old = readable_bytes c.obuf in
    let total = add_size old (length rest) in
    (
      record c {
        obuf = Buffer.append c.obuf rest;
        events = if is_writing c.events then c.events else enable_writing c.events;
      },
      when (leb c.high_watermark total && ltb old c.high_watermark && c.has_high_watermark)
          (queue_high_watermark total),
    )

abbrev pub is_fault : Errno → Bool
is_fault pipe = true
is_fault conn_reset = true
is_fault _ = false

abbrev pub and_then : List Effect → Outcome → Outcome
and_then es (c, fs) = (c, es ++ fs)

abbrev queue_some : Connection → List ℕ → Outcome
queue_some c [] = (c, [])
queue_some c (x ∷ xs) = queue_rest c (x ∷ xs)

-- The direct write, and what is left of the bytes.
pub write_direct : Connection → List ℕ → Sent → Outcome
write_direct c bytes (took n) =
    and_then
      (wire (take n bytes)
        ∷ when (sub_size (length bytes) n == 0 && c.has_write_complete) queue_write_complete)
      (queue_some c (drop n bytes))
write_direct c bytes (error e) = if is_fault e then (c, []) else queue_some c bytes

-- `sys` is what `write` returns, if it is called.
pub send_inloop : Connection → List ℕ → Sent → Outcome
send_inloop c bytes sys =
    if is_disconnected c.state
    then (c, [])
    else if not (is_writing c.events) && readable_bytes c.obuf == 0
    then write_direct c bytes sys
    else queue_some c bytes

pub send : Bool → Connection → List ℕ → Sent → Outcome
send in_loop_thread c bytes sys =
    if is_connected c.state
    then (if in_loop_thread then send_inloop c bytes sys else (c, run_send bytes ∷ []))
    else (c, [])

unfoldable pub shutdown : Connection → Outcome
shutdown c =
    if is_connected c.state
    then (record c { state = disconnecting }, run_shutdown ∷ [])
    else (c, [])

pub shutdown_inloop : Connection → Outcome
shutdown_inloop c = (c, when (not (is_writing c.events)) shutdown_write)

pub force_close : Connection → Outcome
force_close c =
    if is_connected c.state || is_disconnecting c.state
    then (record c { state = disconnecting }, queue_force_close ∷ [])
    else (c, [])

unfoldable pub connect_established : Connection → Outcome
connect_established c = (
  record c { state = connected; tied = true; events = enable_reading c.events },
  conn_cb connected ∷ [],
)

pub connect_destroyed : Connection → Outcome
connect_destroyed c =
    if is_connected c.state
    then (
      record c { state = disconnected; events = none_event; removed = true },
      conn_cb disconnected ∷ [],
    )
    else (record c { removed = true }, [])

unfoldable pub handle_close : Connection → Outcome
handle_close c =
    (record c { state = disconnected; events = none_event }, conn_cb disconnected ∷ close_cb ∷ [])

pub force_close_inloop : Connection → Outcome
force_close_inloop c =
    if is_connected c.state || is_disconnecting c.state then handle_close c else (c, [])

-- `handle_error` only reads the error of the socket and logs it.
unfoldable pub handle_read : Connection → Received → Outcome
handle_read c (failed e) = (c, [])
handle_read c (got []) = handle_close c
handle_read c (got (x ∷ xs)) =
    (record c { ibuf = (Buffer.read_fd c.ibuf (got (x ∷ xs))).1 }, message_cb ∷ [])

-- The output buffer has been written out: writing is watched for no longer.
abbrev finish : Connection → Outcome
finish c =
    and_then (when c.has_write_complete queue_write_complete)
      (if is_disconnecting c.state then shutdown_inloop c else (c, []))

abbrev drained : Connection → ℕ → Outcome
drained c n =
    let o = Buffer.retrieve c.obuf n in
    if readable_bytes o == 0
    then finish (record c { obuf = o; events = disable_writing c.events })
    else (record c { obuf = o }, [])

-- `sys` is what `write` returns for the unread bytes of the output buffer.
pub handle_write : Connection → Sent → Outcome
unfolding shutdown_inloop
handle_write c sys =
    if is_writing c.events
    then elim sys [
      | error e ↦ (c, [])
      | took n ↦
          if n == 0
          then (c, [])
          else and_then
              (wire (take n (take (readable_bytes c.obuf) (drop c.obuf.read c.obuf.buf))) ∷ [])
              (drained c n)
    ]
    else (c, [])
