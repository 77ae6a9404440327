-- ===== src/Mmuduo/Client/Turns.antt =====
-- A client that connects and is told to disconnect: its connector and its connection take turns.
use learncc.Prelude.{
  ℕ, ◌+◌, ◌≡◌, refl, sym, ap, subst, ◌∙◌, Bool, true, List, [], ◌∷◌, Option, none, some, arith,
}
use learncc.Mmuduo.Buffer.{got}
use learncc.Mmuduo.Connection
use learncc.Mmuduo.Connection.{Connection, Sent, connect_established, handle_read, handle_close}
use learncc.Mmuduo.Connector
use learncc.Mmuduo.Connector.{
  Connector, State, disconnected, connecting, connected, Errno, success, in_progress, intr, is_conn,
  again, addr_in_use, addr_not_avail, conn_refused, net_unreach, other, Verdict, verdict, goes_on,
  may_retry, fails, start, restart, start_inloop, begin_connecting, remove_and_reset_channel,
  reset_channel,
}
use learncc.Mmuduo.Client.{
  Client, make, connect, new_connection, run_functors, flush, Event, writable, received, handle,
  turn, run, and_then,
}
use learncc.Mmuduo.Client.Stages.{
  Stage, attempt, up, client, Fine, next_stage, turn-closed, turn-Fine,
}

and_then-Fine :
    (o : Option Client) (f : Client → Option Client)
    → ((w : Bool) (s : Stage) (want : Bool) (n : ℕ) → Fine (f (client w s want n)))
    → Fine o
    → Fine (and_then o f)
and_then-Fine none f each (w, s, want, n, e) = absurd (ground (arith, e))
and_then-Fine (some c) f each (w, s, want, n, e) =
    subst (λ o. Fine (and_then o f)) (sym e) (each w s want n)

run-Fine :
    (evs : List Event) (w : Bool) (s : Stage) (want : Bool) (n : ℕ)
    → Fine (run evs (client w s want n))
unfolding run
run-Fine [] w s want n = (w, s, want, n, refl)
run-Fine (ev ∷ evs) w s want n =
    and_then-Fine (turn ev (client w s want n)) (run evs) (run-Fine evs) (turn-Fine ev w s want n)

connect-make :
    (fd : ℕ) (e : Errno) → connect make fd e ≡ client true (next_stage (verdict e) fd) true 1
unfolding connect make client start start_inloop Connector.connect begin_connecting verdict
connect-make fd success = refl
connect-make fd in_progress = refl
connect-make fd intr = refl
connect-make fd is_conn = refl
connect-make fd again = refl
connect-make fd addr_in_use = refl
connect-make fd addr_not_avail = refl
connect-make fd conn_refused = refl
connect-make fd net_unreach = refl
connect-make fd other = refl

opened :
    (n new : ℕ)
    → run (writable ∷ []) (client true (attempt (some new)) true n)
      ≡ some (client true (up new (connect_established Connection.make).0) true (n + 1))
unfolding run turn flush handle run_functors client new_connection Connector.handle_write
    remove_and_reset_channel reset_channel
opened n new = refl

-- A new client that connects, whatever the channels of its connector and its connection report afterwards,
-- one report or call at a time, and however often its user disconnects it: no call goes through a null pointer, and between two turns the connector has no
-- channel while there is a connection.
pub run-connect : (evs : List Event) (fd : ℕ) (e : Errno) → Fine (run evs (connect make fd e))
run-connect evs fd e =
    subst (λ c. Fine (run evs c)) (sym (connect-make fd e))
      (run-Fine evs true (next_stage (verdict e) fd) true 1)

-- The connection of a client that is to stay connected is closed by the peer, the next socket can connect, and
-- becomes writable: the client has a connection again, that of this socket, with the next identifier.
pub run-reconnects :
    (w : Bool) (fd : ℕ) (k : Connection) (n new : ℕ) (e : Errno)
    → verdict e ≡ goes_on
    → run (received (got []) new e ∷ writable ∷ []) (client w (up fd k) true n)
      ≡ some (client true (up new (connect_established Connection.make).0) true (n + 1))
unfolding run
run-reconnects w fd k n new e h =
    ap (λ o. and_then o (run (writable ∷ []))) (turn-closed w fd k n new e)
    ∙ ap (λ v. run (writable ∷ []) (client true (next_stage v new) true n)) h
    ∙ opened n new
