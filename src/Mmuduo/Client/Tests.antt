-- ===== src/Mmuduo/Client/Tests.antt =====
-- The theorems on the client with three sockets.
use learncc.Prelude.{◌≡◌, refl, true, List, [], ◌∷◌, some}
use learncc.Mmuduo.Buffer.{got}
use learncc.Mmuduo.Connection
use learncc.Mmuduo.Connection.{took, connect_established}
use learncc.Mmuduo.Connector.{in_progress, verdict}
use learncc.Mmuduo.Client.{
  Event, writable, broken_writable, sendable, received, disconnects, make, connect, run,
}
use learncc.Mmuduo.Client.Stages.{up, client, Fine}
use learncc.Mmuduo.Client.Turns.{run-connect, run-reconnects}

-- A connection that is closed, another one that breaks off, and the end.
abbrev story : List Event
story =
    writable
    ∷ received (got []) 5 in_progress
    ∷ broken_writable
    ∷ sendable (took 3) 6 in_progress
    ∷ disconnects
    ∷ writable
    ∷ []

run-connect_example : Fine (run story (connect make 4 in_progress))
run-connect_example = run-connect story 4 in_progress

run-reconnects_example :
    run
      (received (got []) 5 in_progress ∷ writable ∷ [])
      (client true (up 4 Connection.make) true 2)
    ≡ some (client true (up 5 (connect_established Connection.make).0) true 3)
unfolding verdict
run-reconnects_example = run-reconnects true 4 Connection.make 2 5 in_progress refl
