-- ===== src/ChatServer/Session/Tests.antt =====
-- The theorems on sessions at small messages.
use learncc.Prelude.{◌≡◌, refl, [], ◌∷◌, arith}
use learncc.ChatServer.MsgNode.{node, send_node, make_node}
use learncc.ChatServer.Session.{start, feed}
use learncc.ChatServer.Session.Wire.{wire}
use learncc.ChatServer.Session.RoundTrip.{feed-wire}

send_node_test : send_node 1005 (7 ∷ 8 ∷ []) ≡ node (3 ∷ 237 ∷ 0 ∷ 2 ∷ 7 ∷ 8 ∷ [])
unfolding send_node make_node
send_node_test = refl

feed-wire_example :
    (feed (3 ∷ 9 ∷ 1 ∷ 1 ∷ 9 ∷ 9 ∷ 9 ∷ []) (wire ((1005, (7 ∷ 8 ∷ [])) ∷ [])) start).posted
    ≡ (1005, (7 ∷ 8 ∷ [])) ∷ []
unfolding wire send_node make_node
feed-wire_example =
    feed-wire (3 ∷ 9 ∷ 1 ∷ 1 ∷ 9 ∷ 9 ∷ 9 ∷ []) ((1005, (7 ∷ 8 ∷ [])) ∷ [])
      (record { known = omega arith; short_enough = omega arith }, tt)
      (
        omega arith,
        (
          omega arith,
          (omega arith, (omega arith, (omega arith, (omega arith, (omega arith, tt))))),
        ),
      )
      (omega arith)
