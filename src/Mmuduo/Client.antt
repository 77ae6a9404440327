-- ===== src/Mmuduo/Client.antt =====
-- src/mmuduo/tcp_client.cc: a connector and the connection that it leads to, in the thread of their loop. A turn
-- is one event, or one call by the user, and the functors after it. `none` is a call through a null
-- pointer.
mod Tests
pub mod Stages
pub mod Turns
use learncc.Prelude.{
  ℕ, ◌+◌, Bool, true, false, List, [], ◌∷◌, ◌++◌, Option, none, some, if◌then◌else◌,
}
use learncc.Mmuduo.Buffer.{Received}
use learncc.Mmuduo.Connection
use learncc.Mmuduo.Connection.{
  Connection, Sent, connect_established, handle_read, handle_close, shutdown, close_cb,
}
use learncc.Mmuduo.Connector
use learncc.Mmuduo.Connector.{Connector, Errno, hand_over, queue_reset}

-- `destroy` is `connect_destroyed` of a connection, and `reset` the functor of the connector.
pub data Functor : Type 0 where
  reset : Functor
  stop_connector : Functor
  destroy : Connection → Functor

-- `connection` has the descriptor too; `connect_` is `wanted`.
pub record Client : Type 0 where
  pub connector : Connector
  pub connection : Option (ℕ × Connection)
  pub wanted : Bool
  pub next_connid : ℕ
  pub functors : List Functor

pub make : Client
make = record {
  connector = Connector.make;
  connection = none;
  wanted = true;
  next_connid = 1;
  functors = [];
}

-- `fd` is the socket that the connector makes, and `e` what `connect` gives for it.
pub connect : Client → ℕ → Errno → Client
connect c fd e = record c { wanted = true; connector = (Connector.start true c.connector fd e).0 }

abbrev shut : Option (ℕ × Connection) → Option (ℕ × Connection)
shut none = none
shut (some (fd, k)) = some (fd, (shutdown k).0)

pub disconnect : Client → Client
disconnect c = record c { wanted = false; connection = shut c.connection }

pub stop : Client → Client
stop c = record c {
  wanted = false;
  connector = (Connector.stop c.connector).0;
  functors = c.functors ++ (stop_connector ∷ []);
}

pub new_connection : Client → ℕ → Client
new_connection c fd = record c {
  connection = some (fd, (connect_established Connection.make).0);
  next_connid = c.next_connid + 1;
}

-- The close callback of the connection `k`.
pub remove_connection : Client → Connection → ℕ → Errno → Client
remove_connection c k fd e =
    let removed = record c { connection = none; functors = c.functors ++ (destroy k ∷ []) } in
    if c.wanted
    then record removed { connector = (Connector.restart c.connector fd e).0 }
    else removed

-- What the connector asks for: the handing over, and the functor.
abbrev asked : Client → List Connector.Effect → Client
asked c [] = c
asked c (hand_over fd ∷ es) = asked (new_connection c fd) es
asked c (queue_reset ∷ es) = asked (record c { functors = c.functors ++ (reset ∷ []) }) es
asked c (_ ∷ es) = asked c es

abbrev of_connector : Client → Option Connector.Outcome → Option Client
of_connector c none = none
of_connector c (some (k, es)) = some (asked (record c { connector = k }) es)

-- Whether the connection called its close callback.
abbrev closes : List Connection.Effect → Bool
closes [] = false
closes (close_cb ∷ es) = true
closes (_ ∷ es) = closes es

-- The client when the connection `k` has called its close callback, or has not.
abbrev pub called_back : Bool → Client → ℕ → Connection → ℕ → Errno → Client
called_back true c fd k new e = remove_connection c k new e
called_back false c fd k new e = record c { connection = some (fd, k) }

abbrev pub read_by : Client → ℕ → Connection.Outcome → ℕ → Errno → Client
read_by c fd (k, es) new e = called_back (closes es) c fd k new e

abbrev read : Client → Option (ℕ × Connection) → Received → ℕ → Errno → Client
read c none r new e = c
read c (some (fd, k)) r new e = read_by c fd (handle_read k r) new e

-- A connection that was closed in the same report is watched for nothing, and writes nothing.
abbrev pub write : Client → Option (ℕ × Connection) → Sent → ℕ → Errno → Client
write c none sys new e = c
write c (some (fd, k)) sys new e = read_by c fd (Connection.handle_write k sys) new e

abbrev close : Client → Option (ℕ × Connection) → ℕ → Errno → Client
close c none new e = c
close c (some (fd, k)) new e = read_by c fd (handle_close k) new e

abbrev run_functor : Functor → Client → Option Client
run_functor reset c = some (record c { connector = Connector.reset_channel c.connector })
run_functor stop_connector c = of_connector c (Connector.stop_inloop c.connector)
run_functor (destroy k) c = some c

abbrev and_then : Option Client → (Client → Option Client) → Option Client
and_then none f = none
and_then (some c) f = f c

pub run_functors : List Functor → Client → Option Client
run_functors [] c = some c
run_functors (f ∷ fs) c = and_then (run_functor f c) (run_functors fs)

-- The functors that are there when the events have been handled.
pub flush : Client → Option Client
unfolding run_functors
flush c = run_functors c.functors (record c { functors = [] })

-- What the poller reports in a turn of the connector's channel, which it watches only while there is one, or
-- of the connection's, as the handlers that `handle_event_with_guard` calls for it, in its order; or the
-- call of the user. The number and the error are for a restart.
pub data Event : Type 0 where
  -- The connector: EPOLLOUT, EPOLLERR, or both.
  writable : Event
  broken : Event
  broken_writable : Event
  -- The connection: EPOLLIN, EPOLLOUT, both, or EPOLLHUP without EPOLLIN, with or without EPOLLOUT. Its
  -- error handler, for EPOLLERR, only logs.
  received : Received → ℕ → Errno → Event
  sendable : Sent → ℕ → Errno → Event
  received_sendable : Received → Sent → ℕ → Errno → Event
  hung_up : ℕ → Errno → Event
  hung_up_sendable : Sent → ℕ → Errno → Event
  disconnects : Event

abbrev if_watched : Option ℕ → Client → Option Client → Option Client
if_watched none c r = some c
if_watched (some fd) c r = r

pub handle : Event → Client → Option Client
handle writable c =
    if_watched c.connector.channel c (of_connector c (Connector.handle_write c.connector))
handle broken c =
    if_watched c.connector.channel c (of_connector c (Connector.handle_error c.connector))
handle broken_writable c = if_watched c.connector.channel c (
    and_then (of_connector c (Connector.handle_error c.connector))
      (λ c'. of_connector c' (Connector.handle_write c'.connector)))
handle (sendable sys new e) c = some (write c c.connection sys new e)
handle (received_sendable r sys new e) c =
    let c' = read c c.connection r new e in some (write c' c'.connection sys new e)
handle (hung_up new e) c = some (close c c.connection new e)
handle (hung_up_sendable sys new e) c =
    let c' = close c c.connection new e in some (write c' c'.connection sys new e)
handle (received r new e) c = some (read c c.connection r new e)
handle disconnects c = some (disconnect c)

pub turn : Event → Client → Option Client
unfolding flush handle
turn ev c = and_then (handle ev c) flush

pub run : List Event → Client → Option Client
unfolding turn
run [] c = some c
run (ev ∷ evs) c = and_then (turn ev c) (run evs)
