-- ===== src/Mmuduo/Client/Stages.antt =====
-- The client between two turns, and what a turn makes of it.
use learncc.Prelude.{ℕ, ◌+◌, ◌≡◌, refl, Bool, true, false, [], ◌∷◌, Option, none, some}
use learncc.Mmuduo.Buffer.{Received, got, failed}
use learncc.Mmuduo.Connection
use learncc.Mmuduo.Connection.{Connection, Sent, connect_established, handle_read, handle_close}
use learncc.Mmuduo.Connector
use learncc.Mmuduo.Connector.{
  Connector, State, disconnected, connecting, connected, Errno, success, in_progress, intr, is_conn,
  again, addr_in_use, addr_not_avail, conn_refused, net_unreach, other, Verdict, verdict, goes_on,
  may_retry, fails, start, restart, start_inloop, begin_connecting, remove_and_reset_channel,
  reset_channel,
}
use learncc.Mmuduo.Client.{
  Client, remove_connection, new_connection, disconnect, run_functors, flush, Event, writable,
  broken, broken_writable, received, sendable, received_sendable, hung_up, hung_up_sendable,
  called_back, read_by, write, disconnects, handle, turn,
}

-- Not begun, an attempt with or without its channel, a connection, or one that is closed.
pub data Stage : Type 0 where
  off : Stage
  attempt : Option ℕ → Stage
  up : ℕ → Connection → Stage
  down : Stage

-- The client between two turns; `w` is whether the connector is to connect.
unfoldable pub client : Bool → Stage → Bool → ℕ → Client
client w off want n = record {
  connector = record { wanted = w; state = disconnected; channel = none };
  connection = none;
  wanted = want;
  next_connid = n;
  functors = [];
}
client w (attempt ch) want n = record {
  connector = record { wanted = w; state = connecting; channel = ch };
  connection = none;
  wanted = want;
  next_connid = n;
  functors = [];
}
client w (up fd k) want n = record {
  connector = record { wanted = w; state = connected; channel = none };
  connection = some (fd, k);
  wanted = want;
  next_connid = n;
  functors = [];
}
client w down want n = record {
  connector = record { wanted = w; state = connected; channel = none };
  connection = none;
  wanted = want;
  next_connid = n;
  functors = [];
}

abbrev pub Fine : Option Client → Type 0
Fine o = (w : Bool) × (s : Stage) × (want : Bool) × (n : ℕ) × (o ≡ some (client w s want n))

-- What an attempt with the next socket comes to.
abbrev pub next_stage : Verdict → ℕ → Stage
next_stage goes_on new = attempt (some new)
next_stage v new = off

restarted :
    (w : Bool) (fd : ℕ) (k k' : Connection) (n new : ℕ) (e : Errno)
    → flush (remove_connection (client w (up fd k) true n) k' new e)
      ≡ some (client true (next_stage (verdict e) new) true n)
unfolding client flush run_functors remove_connection Connector.restart start_inloop
    Connector.connect begin_connecting verdict
restarted w fd k k' n new success = refl
restarted w fd k k' n new in_progress = refl
restarted w fd k k' n new intr = refl
restarted w fd k k' n new is_conn = refl
restarted w fd k k' n new again = refl
restarted w fd k k' n new addr_in_use = refl
restarted w fd k k' n new addr_not_avail = refl
restarted w fd k k' n new conn_refused = refl
restarted w fd k k' n new net_unreach = refl
restarted w fd k k' n new other = refl

removed :
    (w : Bool) (fd : ℕ) (k k' : Connection) (n new : ℕ) (e : Errno)
    → flush (remove_connection (client w (up fd k) false n) k' new e) ≡ some (client w down false n)
unfolding client flush run_functors remove_connection
removed w fd k k' n new e = refl

-- A connection that is closed by the peer, and is wanted.
pub turn-closed :
    (w : Bool) (fd : ℕ) (k : Connection) (n new : ℕ) (e : Errno)
    → turn (received (got []) new e) (client w (up fd k) true n)
      ≡ some (client true (next_stage (verdict e) new) true n)
unfolding turn handle handle_read handle_close client
turn-closed w fd k n new e = restarted w fd k (handle_close k).0 n new e

closed-Fine :
    (w : Bool) (fd : ℕ) (k : Connection) (want : Bool) (n new : ℕ) (e : Errno)
    → Fine (turn (received (got []) new e) (client w (up fd k) want n))
unfolding turn handle handle_read handle_close client
closed-Fine w fd k true n new e =
    (true, next_stage (verdict e) new, true, n, restarted w fd k (handle_close k).0 n new e)
closed-Fine w fd k false n new e = (w, down, false, n, removed w fd k (handle_close k).0 n new e)

received-Fine :
    (r : Received) (new : ℕ) (e : Errno) (w : Bool) (s : Stage) (want : Bool) (n : ℕ)
    → Fine (turn (received r new e) (client w s want n))
unfolding turn flush handle run_functors client handle_read
received-Fine r new e w off want n = (w, off, want, n, refl)
received-Fine r new e w (attempt ch) want n = (w, attempt ch, want, n, refl)
received-Fine r new e w down want n = (w, down, want, n, refl)
received-Fine (failed x) new e w (up fd k) want n = (w, up fd k, want, n, refl)
received-Fine (got []) new e w (up fd k) want n = closed-Fine w fd k want n new e
received-Fine (got (x ∷ xs)) new e w (up fd k) want n = (w, up fd _, want, n, refl)

again_up :
    (w : Bool) (fd : ℕ) (k k' : Connection) (want : Bool) (n : ℕ)
    → Fine (flush (record (client w (up fd k) want n) { connection = some (fd, k') }))
unfolding client flush run_functors
again_up w fd k k' want n = (w, up fd k', want, n, refl)

called_back-Fine :
    (b : Bool) (w : Bool) (fd : ℕ) (k k' : Connection) (want : Bool) (n new : ℕ) (e : Errno)
    → Fine (flush (called_back b (client w (up fd k) want n) fd k' new e))
called_back-Fine true w fd k k' true n new e =
    (true, next_stage (verdict e) new, true, n, restarted w fd k k' n new e)
called_back-Fine true w fd k k' false n new e = (w, down, false, n, removed w fd k k' n new e)
called_back-Fine false w fd k k' want n new e = again_up w fd k k' want n

read_by-Fine :
    (o : Connection.Outcome) (w : Bool) (fd : ℕ) (k : Connection) (want : Bool) (n new : ℕ)
    (e : Errno)
    → Fine (flush (read_by (client w (up fd k) want n) fd o new e))
read_by-Fine (k', es) w fd k want n new e = called_back-Fine _ w fd k k' want n new e

written-Fine :
    (sys : Sent) (w : Bool) (fd : ℕ) (k k' : Connection) (want : Bool) (n new : ℕ) (e : Errno)
    → let c = record (client w (up fd k) want n) { connection = some (fd, k') } in
      Fine (flush (write c (some (fd, k')) sys new e))
unfolding client
written-Fine sys w fd k k' want n new e =
    read_by-Fine (Connection.handle_write k' sys) w fd k' want n new e

-- The handler for writing after another one of the same report.
then_write-Fine :
    (b : Bool) (sys : Sent) (w : Bool) (fd : ℕ) (k k' : Connection) (want : Bool) (n new : ℕ)
    (e : Errno)
    → let c = called_back b (client w (up fd k) want n) fd k' new e in
      Fine (flush (write c c.connection sys new e))
unfolding remove_connection client
then_write-Fine true sys w fd k k' true n new e = called_back-Fine true w fd k k' true n new e
then_write-Fine true sys w fd k k' false n new e = called_back-Fine true w fd k k' false n new e
then_write-Fine false sys w fd k k' want n new e = written-Fine sys w fd k k' want n new e

both-Fine :
    (o : Connection.Outcome) (sys : Sent) (w : Bool) (fd : ℕ) (k : Connection) (want : Bool)
    (n new : ℕ) (e : Errno)
    → let c = read_by (client w (up fd k) want n) fd o new e in
      Fine (flush (write c c.connection sys new e))
both-Fine (k', es) sys w fd k want n new e = then_write-Fine _ sys w fd k k' want n new e

pub turn-Fine :
    (ev : Event) (w : Bool) (s : Stage) (want : Bool) (n : ℕ) → Fine (turn ev (client w s want n))
unfolding turn flush handle run_functors client disconnect new_connection Connector.handle_write
    Connector.handle_error remove_and_reset_channel reset_channel
turn-Fine (received r new e) w s want n = received-Fine r new e w s want n
turn-Fine writable w off want n = (w, off, want, n, refl)
turn-Fine writable w (attempt none) want n = (w, attempt none, want, n, refl)
turn-Fine writable true (attempt (some fd)) want n = (true, up fd _, want, n + 1, refl)
turn-Fine writable false (attempt (some fd)) want n = (false, down, want, n, refl)
turn-Fine writable w (up fd k) want n = (w, up fd k, want, n, refl)
turn-Fine writable w down want n = (w, down, want, n, refl)
turn-Fine broken w off want n = (w, off, want, n, refl)
turn-Fine broken w (attempt none) want n = (w, attempt none, want, n, refl)
turn-Fine broken w (attempt (some fd)) want n = (w, attempt none, want, n, refl)
turn-Fine broken w (up fd k) want n = (w, up fd k, want, n, refl)
turn-Fine broken w down want n = (w, down, want, n, refl)
turn-Fine broken_writable w off want n = (w, off, want, n, refl)
turn-Fine broken_writable w (attempt none) want n = (w, attempt none, want, n, refl)
turn-Fine broken_writable true (attempt (some fd)) want n = (true, up fd _, want, n + 1, refl)
turn-Fine broken_writable false (attempt (some fd)) want n = (false, down, want, n, refl)
turn-Fine broken_writable w (up fd k) want n = (w, up fd k, want, n, refl)
turn-Fine broken_writable w down want n = (w, down, want, n, refl)
turn-Fine (sendable sys new e) w off want n = (w, off, want, n, refl)
turn-Fine (sendable sys new e) w (attempt ch) want n = (w, attempt ch, want, n, refl)
turn-Fine (sendable sys new e) w (up fd k) want n =
    read_by-Fine (Connection.handle_write k sys) w fd k want n new e
turn-Fine (sendable sys new e) w down want n = (w, down, want, n, refl)
turn-Fine (received_sendable r sys new e) w off want n = (w, off, want, n, refl)
turn-Fine (received_sendable r sys new e) w (attempt ch) want n = (w, attempt ch, want, n, refl)
turn-Fine (received_sendable r sys new e) w (up fd k) want n =
    both-Fine (handle_read k r) sys w fd k want n new e
turn-Fine (received_sendable r sys new e) w down want n = (w, down, want, n, refl)
turn-Fine (hung_up new e) w off want n = (w, off, want, n, refl)
turn-Fine (hung_up new e) w (attempt ch) want n = (w, attempt ch, want, n, refl)
turn-Fine (hung_up new e) w (up fd k) want n = read_by-Fine (handle_close k) w fd k want n new e
turn-Fine (hung_up new e) w down want n = (w, down, want, n, refl)
turn-Fine (hung_up_sendable sys new e) w off want n = (w, off, want, n, refl)
turn-Fine (hung_up_sendable sys new e) w (attempt ch) want n = (w, attempt ch, want, n, refl)
turn-Fine (hung_up_sendable sys new e) w (up fd k) want n =
    both-Fine (handle_close k) sys w fd k want n new e
turn-Fine (hung_up_sendable sys new e) w down want n = (w, down, want, n, refl)
turn-Fine disconnects w off want n = (w, off, false, n, refl)
turn-Fine disconnects w (attempt ch) want n = (w, attempt ch, false, n, refl)
turn-Fine disconnects w (up fd k) want n = (w, up fd _, false, n, refl)
turn-Fine disconnects w down want n = (w, down, false, n, refl)
