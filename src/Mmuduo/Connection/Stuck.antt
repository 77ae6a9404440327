-- ===== src/Mmuduo/Connection/Stuck.antt =====
-- `channel::is_writing` compares the whole mask, so that it fails while the channel is watched for
-- reading; what follows for the output buffer of an established connection.
use learncc.Prelude.{
  ℕ, ◌%◌, ◌≡◌, ◌⊎◌, inl, inr, refl, subst, sym, true, false, List, [], ◌∷◌, arith, drop,
}
use learncc.Mmuduo.Buffer.{Received, got, failed}
use learncc.Mmuduo.Channel.{is_writing, enable_reading}
use learncc.Mmuduo.Channel.Masks.{IsMask, enable_writing_eq}
use learncc.Mmuduo.Connection.{
  Connection, disconnected, Outcome, Sent, took, error, send, send_inloop, write_direct, queue_rest,
  shutdown, shutdown_inloop, force_close, force_close_inloop, connect_established,
  connect_destroyed, handle_close, handle_read, handle_write, shutdown_write, queue_some, make,
}

-- What can happen to a connection in the thread of its loop once it is established.
pub data Event : Type 0 where
  sends : List ℕ → Sent → Event
  readable : Received → Event
  writable : Sent → Event
  shuts shuts_inloop closes closes_inloop destroys : Event

pub step : Connection → Event → Connection
unfolding send shutdown shutdown_inloop
step c (sends bytes sys) = (send true c bytes sys).0
step c (readable r) = (handle_read c r).0
step c (writable sys) = (handle_write c sys).0
step c shuts = (shutdown c).0
step c shuts_inloop = (shutdown_inloop c).0
step c closes = (force_close c).0
step c closes_inloop = (force_close_inloop c).0
step c destroys = (connect_destroyed c).0

pub run : Connection → List Event → Connection
run c [] = c
run c (e ∷ es) = run (step c e) es

-- The mask has the two bits of reading, or the connection is over.
abbrev Held : Connection → Type 0
Held c = (IsMask c.events × (c.events % 4 ≡ 3)) ⊎ ((c.events ≡ 0) × (c.state ≡ disconnected))

queue_rest-events :
    (c : Connection) (rest : List ℕ)
    → IsMask c.events
    → c.events % 4 ≡ 3
    → IsMask (queue_rest c rest).0.events × ((queue_rest c rest).0.events % 4 ≡ 3)
unfolding queue_rest is_writing
queue_rest-events c rest m r = ground (arith, enable_writing_eq c.events m)

queue_some-events :
    (c : Connection) (rest : List ℕ)
    → IsMask c.events
    → c.events % 4 ≡ 3
    → IsMask (queue_some c rest).0.events × ((queue_some c rest).0.events % 4 ≡ 3)
queue_some-events c [] m r = (m, r)
queue_some-events c (x ∷ xs) m r = queue_rest-events c (x ∷ xs) m r

write_direct-events :
    (c : Connection) (bytes : List ℕ) (sys : Sent)
    → IsMask c.events
    → c.events % 4 ≡ 3
    → IsMask (write_direct c bytes sys).0.events × ((write_direct c bytes sys).0.events % 4 ≡ 3)
unfolding write_direct
write_direct-events c bytes (took n) m r = queue_some-events c (drop n bytes) m r
write_direct-events c bytes (error e) m r = ground (arith, queue_some-events c bytes m r)

sends-Held :
    (c : Connection) (bytes : List ℕ) (sys : Sent) → Held c → Held (send true c bytes sys).0
unfolding send send_inloop
sends-Held c bytes sys (inl h) =
    ground (arith, write_direct-events c bytes sys h.0 h.1, queue_some-events c bytes h.0 h.1)
sends-Held c bytes sys (inr h) = ground arith

not-writing : (c : Connection) → Held c → is_writing c.events ≡ false
unfolding is_writing
not-writing c h = ground arith

-- On such a connection `handle_write` does nothing.
handle_write-Held : (c : Connection) (sys : Sent) → Held c → handle_write c sys ≡ (c, [])
unfolding handle_write
handle_write-Held c sys h = rw (not-writing c h, handle_write)

readable-Held : (c : Connection) (r : Received) → Held c → Held (handle_read c r).0
unfolding handle_read handle_close
readable-Held c (failed e) h = h
readable-Held c (got []) h = inr (refl, refl)
readable-Held c (got (x ∷ xs)) (inl h) = inl h
readable-Held c (got (x ∷ xs)) (inr h) = inr h

step-Held : (c : Connection) (e : Event) → Held c → Held (step c e)
unfolding step
step-Held c (sends bytes sys) h = sends-Held c bytes sys h
step-Held c (readable r) h = readable-Held c r h
step-Held c (writable sys) h = subst (λ (o : Outcome). Held o.0) (sym (handle_write-Held c sys h)) h
step-Held c shuts h = unfold shutdown in ground arith
step-Held c shuts_inloop h = unfold shutdown_inloop in h
step-Held c closes h = unfold force_close in ground arith
step-Held c closes_inloop h = unfold force_close_inloop handle_close in ground arith
step-Held c destroys h = unfold connect_destroyed in ground arith

run-Held : (c : Connection) (es : List Event) → Held c → Held (run c es)
unfolding run
run-Held c [] h = h
run-Held c (e ∷ es) h = run-Held (step c e) es (step-Held c e h)

established-Held : Held (connect_established make).0
unfolding connect_established make enable_reading
established-Held = inl (omega arith, refl)

-- After any history of an established connection `handle_write` does nothing, so that bytes left in
-- the output buffer are never written, and `shutdown_inloop` closes the sending side at once,
-- whatever the output buffer still holds.
pub run-established_stuck :
    (es : List Event) (sys : Sent)
    → let c = run (connect_established make).0 es in
      (handle_write c sys ≡ (c, [])) × (shutdown_inloop c ≡ (c, shutdown_write ∷ []))
unfolding shutdown_inloop
run-established_stuck es sys = (
  handle_write-Held _ sys (run-Held _ es established-Held),
  rw (not-writing (run (connect_established make).0 es) (run-Held _ es established-Held)),
)
