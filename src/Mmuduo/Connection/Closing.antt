-- ===== src/Mmuduo/Connection/Closing.antt =====
-- How a connection ends.
use learncc.Prelude.{ℕ, ◌+◌, ◌≡◌, Bool, true, List, [], ◌∷◌, ◌++◌, arith}
use learncc.Mmuduo.Channel.{none_event}
use learncc.Mmuduo.Connection.{
  Connection, disconnected, Effect, conn_cb, close_cb, queue_force_close, Sent, send, shutdown,
  force_close, force_close_inloop, connect_destroyed, handle_close, is_connected,
}

-- The calls of the connection callback and of the close callback.
pub conn_cbs : List Effect → ℕ
conn_cbs [] = 0
conn_cbs (conn_cb s ∷ es) = conn_cbs es + 1
conn_cbs (_ ∷ es) = conn_cbs es

pub close_cbs : List Effect → ℕ
close_cbs [] = 0
close_cbs (close_cb ∷ es) = close_cbs es + 1
close_cbs (_ ∷ es) = close_cbs es

-- The connection watches for nothing, is off the poller and can send no more.
abbrev pub IsOver : Connection → Type 0
IsOver c = (c.state ≡ disconnected) × (c.events ≡ none_event) × (c.removed ≡ true)

-- However a live connection ends, it is over and its user hears of it once: by `force_close` with
-- the functors that follow (the close callback leads to `connect_destroyed`), or by
-- `connect_destroyed` alone.
pub closing_once :
    (c : Connection)
    → is_connected c.state ≡ true
    → let asked = force_close c in
      let closed = force_close_inloop asked.0 in
      let gone = connect_destroyed closed.0 in
      let dropped = connect_destroyed c in
      (asked.1 ≡ queue_force_close ∷ [])
      × (conn_cbs (closed.1 ++ gone.1) ≡ 1)
      × (close_cbs (closed.1 ++ gone.1) ≡ 1)
      × IsOver gone.0
      × (conn_cbs dropped.1 ≡ 1)
      × IsOver dropped.0
unfolding force_close force_close_inloop connect_destroyed handle_close conn_cbs close_cbs
closing_once c h = ground arith

-- After `shutdown`, and after the end, nothing is sent any more and nothing is closed twice.
pub ended_is_quiet :
    (c : Connection) (in_loop : Bool) (bytes : List ℕ) (sys : Sent)
    → let half = (shutdown c).0 in
      let closed = (handle_close c).0 in
      (send in_loop half bytes sys ≡ (half, []))
      × (send in_loop closed bytes sys ≡ (closed, []))
      × (shutdown half ≡ (half, []))
      × (force_close closed ≡ (closed, []))
      × (force_close_inloop closed ≡ (closed, []))
unfolding send shutdown force_close force_close_inloop handle_close
ended_is_quiet c in_loop bytes sys = ground arith
