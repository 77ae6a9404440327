-- ===== src/ChatServer/SendQueue/Tests.antt =====
-- A message is sent, and another one while the first is written.
use learncc.Prelude.{ℕ, ◌≡◌, refl, false, List, [], ◌∷◌}
use learncc.ChatServer.MsgNode.{node, send_node, make_node}
use learncc.ChatServer.SendQueue.{push, send, handle_write, World, begin, accepts, Run, here, next}
use learncc.ChatServer.SendQueue.Order.{IsInOrder, reached-IsInOrder}

abbrev one : List ℕ
one = 3 ∷ 238 ∷ 0 ∷ 1 ∷ 7 ∷ []

abbrev two : List ℕ
two = 3 ∷ 238 ∷ 0 ∷ 1 ∷ 8 ∷ []

one_lem : send_node 1006 (7 ∷ []) ≡ node one
unfolding send_node make_node
one_lem = refl

two_lem : send_node 1006 (8 ∷ []) ≡ node two
unfolding send_node make_node
two_lem = refl

abbrev both : World
both = record {
  sender = record { queue = one ∷ (two ∷ []); written = one ∷ []; failed = false };
  outstanding = 1;
  accepted = one ∷ (two ∷ []);
}

both-Run : Run begin both
unfolding push send send_node make_node
both-Run =
    next begin _ both (accepts begin 1006 (7 ∷ []) one _ one_lem refl)
      (next _ both both (accepts _ 1006 (8 ∷ []) two _ two_lem refl) (here both))

reached-IsInOrder_example : IsInOrder both
reached-IsInOrder_example = reached-IsInOrder both-Run

handle_write_test : (handle_write both.sender).written ≡ one ∷ (two ∷ [])
unfolding handle_write
handle_write_test = refl
