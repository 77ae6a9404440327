-- ===== src/Mmuduo/Connection/Tests.antt =====
-- Runs of a connection, and the theorems at concrete ones.
use learncc.Prelude.{◌≡◌, refl, true, false, List, [], ◌∷◌, ◌++◌, arith, replicate}
use learncc.Mmuduo.Buffer.{Buffer}
use learncc.Mmuduo.Buffer.Laws.{IsValid, contents}
use learncc.Mmuduo.Connection.{
  Connection, connected, took, error, would_block, make, send_inloop, handle_write, shutdown_inloop,
  connect_established, shutdown_write,
}
use learncc.Mmuduo.Connection.Stream.{wired, send_inloop-Keeps}
use learncc.Mmuduo.Connection.Stuck.{Event, sends, run, run-established_stuck}

abbrev empty_buffer : Buffer
empty_buffer = record { buf = replicate 16 0; read = 8; write = 8 }

-- A connection that is watched for reading, with nothing to send.
abbrev open_conn : Connection
open_conn = record {
  state = connected;
  events = 3;
  tied = true;
  removed = false;
  ibuf = empty_buffer;
  obuf = empty_buffer;
  high_watermark = 64;
  has_write_complete = true;
  has_high_watermark = false;
}

-- One with two unread bytes in its output buffer, watched for writing alone.
abbrev writing_conn : Connection
writing_conn = record open_conn {
  events = 4;
  obuf = record { buf = 0 ∷ 0 ∷ 0 ∷ 0 ∷ 0 ∷ 0 ∷ 0 ∷ 0 ∷ 5 ∷ 6 ∷ []; read = 8; write = 10 };
}

empty-IsValid : IsValid empty_buffer
empty-IsValid = omega arith

writing-IsValid : IsValid writing_conn.obuf
writing-IsValid = omega arith

-- The socket takes two of three bytes.
send_inloop-Keeps_example :
    (wired (send_inloop open_conn (1 ∷ 2 ∷ 3 ∷ []) (took 2)).1
        ++ contents (send_inloop open_conn (1 ∷ 2 ∷ 3 ∷ []) (took 2)).0.obuf
      ≡ 1 ∷ 2 ∷ 3 ∷ [])
    × IsValid (send_inloop open_conn (1 ∷ 2 ∷ 3 ∷ []) (took 2)).0.obuf
send_inloop-Keeps_example =
    send_inloop-Keeps open_conn (1 ∷ 2 ∷ 3 ∷ []) (took 2) empty-IsValid refl (omega arith)
      (omega arith)

-- The socket has no room for the first bytes sent.
abbrev blocked : List Event
blocked = sends (1 ∷ 2 ∷ []) (error would_block) ∷ []

run-established_stuck_example :
    let c = run (connect_established make).0 blocked in
    (handle_write c (took 2) ≡ (c, [])) × (shutdown_inloop c ≡ (c, shutdown_write ∷ []))
run-established_stuck_example = run-established_stuck blocked (took 2)
