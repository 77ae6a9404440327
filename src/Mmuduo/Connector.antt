-- ===== src/Mmuduo/Connector.antt =====
-- inc/mmuduo/connector.h and src/mmuduo/connector.cc: an attempt to connect, until its socket is handed
-- over. A socket is its descriptor, and `none` is a call through a null pointer.
pub mod Handover
mod Tests
use learncc.Prelude.{ℕ, Bool, true, false, List, [], ◌∷◌, ◌++◌, Option, none, some, if◌then◌else◌}

pub data State : Type 0 where
  disconnected : State
  connecting : State
  connected : State

-- `channel` is the descriptor of the channel that `channel_` points to.
pub record Connector : Type 0 where
  pub wanted : Bool
  pub state : State
  pub channel : Option ℕ

-- The error number after `connect`.
pub data Errno : Type 0 where
  success : Errno
  in_progress : Errno
  intr : Errno
  is_conn : Errno
  again : Errno
  addr_in_use : Errno
  addr_not_avail : Errno
  conn_refused : Errno
  net_unreach : Errno
  other : Errno

pub data Effect : Type 0 where
  watch : ℕ → Effect
  unwatch : ℕ → Effect
  close : ℕ → Effect
  hand_over : ℕ → Effect
  queue_start : Effect
  queue_stop : Effect
  queue_reset : Effect

abbrev pub Outcome : Type 0
Outcome = Connector × List Effect

abbrev pub make : Connector
make = record { wanted = false; state = disconnected; channel = none }

-- `connecting(sockfd)`: a channel in place of the one before, watched for writing.
unfoldable pub begin_connecting : Connector → ℕ → Outcome
begin_connecting c fd = (record c { state = connecting; channel = some fd }, watch fd ∷ [])

pub data Verdict : Type 0 where
  goes_on : Verdict
  may_retry : Verdict
  fails : Verdict

-- The three groups of the `switch`.
unfoldable pub verdict : Errno → Verdict
verdict success = goes_on
verdict in_progress = goes_on
verdict intr = goes_on
verdict is_conn = goes_on
verdict again = may_retry
verdict addr_in_use = may_retry
verdict addr_not_avail = may_retry
verdict conn_refused = may_retry
verdict net_unreach = may_retry
verdict other = fails

-- `fd` is the socket that the call creates.
unfoldable pub connect : Connector → ℕ → Errno → Outcome
unfolding begin_connecting
connect c fd e = elim (verdict e) [
  | goes_on ↦ begin_connecting c fd
  | may_retry ↦ (c, [])
  | fails ↦ (c, close fd ∷ [])
]

unfoldable pub start_inloop : Connector → ℕ → Errno → Outcome
start_inloop c fd e = if c.wanted then connect c fd e else (c, [])

unfoldable pub start : Bool → Connector → ℕ → Errno → Outcome
start own c fd e =
    let asked = record c { wanted = true } in
    if own then start_inloop asked fd e else (asked, queue_start ∷ [])

unfoldable pub restart : Connector → ℕ → Errno → Outcome
restart c fd e = start_inloop (record c { state = disconnected; wanted = true }) fd e

unfoldable pub stop : Connector → Outcome
stop c = (record c { wanted = false }, queue_stop ∷ [])

-- The socket, and what is done; the channel itself is reset by a functor.
unfoldable pub remove_and_reset_channel : Connector → Option (ℕ × List Effect)
remove_and_reset_channel c = elim c.channel [
  | none ↦ none
  | some fd ↦ some (fd, unwatch fd ∷ queue_reset ∷ [])
]

unfoldable pub reset_channel : Connector → Connector
reset_channel c = record c { channel = none }

unfoldable pub stop_inloop : Connector → Option Outcome
unfolding remove_and_reset_channel
stop_inloop c = elim c.state [
  | connecting ↦ elim (remove_and_reset_channel c) [
    | none ↦ none
    | some (fd, es) ↦ some (record c { state = disconnected }, es)
  ]
  | _ ↦ some (c, [])
]

unfoldable pub handle_write : Connector → Option Outcome
unfolding remove_and_reset_channel
handle_write c = elim c.state [
  | connecting ↦ elim (remove_and_reset_channel c) [
    | none ↦ none
    | some (fd, es) ↦
        some (record c { state = connected }, es ++ (if c.wanted then hand_over fd ∷ [] else []))
  ]
  | _ ↦ some (c, [])
]

-- `get_socket_error` only reads and logs.
unfoldable pub handle_error : Connector → Option Outcome
unfolding remove_and_reset_channel
handle_error c = elim c.state [
  | connecting ↦ elim (remove_and_reset_channel c) [ none ↦ none | some (fd, es) ↦ some (c, es) ]
  | _ ↦ some (c, [])
]
