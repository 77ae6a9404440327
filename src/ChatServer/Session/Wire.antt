-- ===== src/ChatServer/Session/Wire.antt =====
-- The bytes of messages on a connection, and the answer to their heads.
use learncc.Prelude.{
  ℕ, ◌+◌, ◌/◌, ◌%◌, ◌^◌, ◌≤◌, ◌≡◌, refl, ap, false, List, [], ◌∷◌, ◌++◌, length, take, ltb, leb,
  arith,
}
use learncc.ChatServer.MsgNode.{
  short, head_total_len, put_short, get_short, make_node, SendNode, node, refused, corrupt,
  send_node,
}
use learncc.ChatServer.Session.{body, Reader, max_length, on_head}

-- A message that a session reads: its identifier and its length are not refused.
pub record IsSendable (m : ℕ × List ℕ) : Type 0 where
  pub known : m.0 ≤ max_length
  pub short_enough : length m.1 ≤ max_length

abbrev pub node_bytes : SendNode → List ℕ
node_bytes (node bs) = bs
node_bytes refused = []
node_bytes corrupt = []

-- The bytes that the nodes of some messages put on the connection.
unfoldable pub wire : List (ℕ × List ℕ) → List ℕ
wire [] = []
wire (m ∷ ms) = node_bytes (send_node m.0 m.1) ++ wire ms

take_all : {A : Type 0} (xs : List A) → take (length xs) xs ≡ xs
take_all [] = refl
take_all (x ∷ xs) = ap (λ ys. x ∷ ys) (take_all xs)

send_node-frame :
    (id : ℕ) (msg : List ℕ)
    → IsSendable (id, msg)
    → send_node id msg ≡ node (put_short id ++ (put_short (length msg) ++ msg))
unfolding send_node make_node
send_node-frame id msg v =
    let len : short (length msg) ≡ length msg = ground (arith, v.short_enough) in
    let total : short (length msg + head_total_len) ≡ length msg + head_total_len =
      ground (arith, v.short_enough) in
    let plus : leb (2 ^ 15) (length msg + head_total_len) ≡ false =
      ground (arith, v.short_enough) in
    let plus' : leb (2 ^ 15) (length msg) ≡ false = ground (arith, v.short_enough) in
    rw (len, total, plus, plus', take_all msg) refl

pub on_head_lem :
    (id : ℕ) (msg : List ℕ) (r : Reader)
    → IsSendable (id, msg)
    → on_head (get_short (id / 256) (id % 256)) (get_short (length msg / 256) (length msg % 256)) r
      ≡ record r { phase = body id; want = length msg; got = [] }
unfolding on_head make_node
on_head_lem id msg r v =
    let same : get_short (id / 256) (id % 256) ≡ id = omega arith in
    let same' : get_short (length msg / 256) (length msg % 256) ≡ length msg = omega arith in
    let fine : ltb max_length id ≡ false = ground (arith, v.known) in
    let fine' : ltb max_length (length msg) ≡ false = ground (arith, v.short_enough) in
    let plus : leb (2 ^ 15) id ≡ false = ground (arith, v.known) in
    let plus' : leb (2 ^ 15) (length msg) ≡ false = ground (arith, v.short_enough) in
    rw (same, same', fine, fine', plus, plus') refl

pub wire_cons :
    (m : ℕ × List ℕ) (ms : List (ℕ × List ℕ))
    → IsSendable m
    → wire (m ∷ ms) ≡ put_short m.0 ++ (put_short (length m.1) ++ (m.1 ++ wire ms))
unfolding wire
wire_cons (id, msg) ms v = rw (send_node-frame id msg v) refl
