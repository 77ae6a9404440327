-- ===== src/Mmuduo/Connector/Handover.antt =====
-- Where the socket of an attempt goes.
use learncc.Prelude.{ℕ, ◌≡◌, ◌⊎◌, refl, true, [], ◌∷◌, none, some, arith}
use learncc.Mmuduo.Connector.{
  disconnected, connecting, connected, Connector, Errno, watch, unwatch, close, hand_over,
  queue_reset, begin_connecting, verdict, goes_on, may_retry, fails, connect, start_inloop,
  remove_and_reset_channel, reset_channel, stop_inloop, handle_write, handle_error,
}

-- An attempt under way: its socket is watched by a channel.
abbrev pub IsConnecting : Connector → ℕ → Type 0
IsConnecting c fd = (c.state ≡ connecting) × (c.channel ≡ some fd)

-- A wanted attempt that became writable hands its socket over after it took it off the poller, and
-- then neither a write event nor an error nor a stop does anything more.
pub handle_write_once :
    (c : Connector) (fd : ℕ)
    → IsConnecting c fd
    → c.wanted ≡ true
    → let done = record c { state = connected } in
      (handle_write c ≡ some (done, unwatch fd ∷ queue_reset ∷ hand_over fd ∷ []))
      × (handle_write done ≡ some (done, []))
      × (handle_error done ≡ some (done, []))
      × (stop_inloop done ≡ some (done, []))
unfolding handle_write handle_error stop_inloop remove_and_reset_channel
handle_write_once c fd (s, h) w = (ground arith, refl, refl, refl)

-- A start of a wanted connector either watches the new socket in a channel, or closes it, or, after
-- an error at which a retry is meant, keeps no trace of it at all: it is never closed.
pub start_inloop-socket :
    (c : Connector) (fd : ℕ) (e : Errno)
    → c.wanted ≡ true
    → let (c', es) = start_inloop c fd e in
      ((verdict e ≡ goes_on) × IsConnecting c' fd × (es ≡ watch fd ∷ []))
      ⊎ (((verdict e ≡ fails) × (c' ≡ c) × (es ≡ close fd ∷ []))
          ⊎ ((verdict e ≡ may_retry) × (c' ≡ c) × (es ≡ [])))
unfolding start_inloop connect begin_connecting
start_inloop-socket c fd e w = ground arith

-- An error leaves the state as it is. Once the functor has reset the channel, a stop goes through the
-- null pointer.
pub handle_error_then_stop :
    (c : Connector) (fd : ℕ)
    → IsConnecting c fd
    → (handle_error c ≡ some (c, unwatch fd ∷ queue_reset ∷ []))
      × (stop_inloop (reset_channel c) ≡ none)
unfolding handle_error stop_inloop remove_and_reset_channel reset_channel
handle_error_then_stop c fd (s, h) = (ground arith, ground arith)

-- A stop and a new start that run ahead of the functor which the stop queued: the functor destroys
-- the channel of the new attempt, whose socket is still watched, and the next write event or stop goes
-- through the null pointer.
pub start_before_reset :
    (c : Connector) (fd new : ℕ) (e : Errno)
    → IsConnecting c fd
    → verdict e ≡ goes_on
    → let stopped = record c { state = disconnected } in
      let again = start_inloop (record stopped { wanted = true }) new e in
      (stop_inloop c ≡ some (stopped, unwatch fd ∷ queue_reset ∷ []))
      × (again.1 ≡ watch new ∷ [])
      × (handle_write (reset_channel again.0) ≡ none)
      × (stop_inloop (reset_channel again.0) ≡ none)
unfolding stop_inloop start_inloop connect begin_connecting handle_write remove_and_reset_channel
    reset_channel
start_before_reset c fd new e (s, h) v = (ground arith, ground arith, ground arith, ground arith)
