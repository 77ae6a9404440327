-- ===== src/ChatServer/MsgNode.antt =====
-- src/chat_server/msg_node.cc. A `short` is its 16 bits as a number below 2 ^ 16, negative from 2 ^ 15
-- on, and bytes are numbers.
use learncc.Prelude.{
  ℕ, ◌+◌, ◌-◌, ◌*◌, ◌/◌, ◌%◌, ◌^◌, Bool, List, [], ◌∷◌, ◌++◌, length, take, leb, ◌==◌,
  if◌then◌else◌,
}

abbrev pub short : ℕ → ℕ
short n = n % 2 ^ 16

abbrev pub is_negative : ℕ → Bool
is_negative s = leb (2 ^ 15) s

abbrev pub head_total_len : ℕ
head_total_len = 4

-- `host_to_network_short` and the copy into the node; `network_to_host_short` after the copy out of it.
abbrev pub put_short : ℕ → List ℕ
put_short s = s / 256 ∷ s % 256 ∷ []

abbrev pub get_short : ℕ → ℕ → ℕ
get_short hi lo = hi * 256 + lo

-- `new char[_total_len + 1]` and the zero behind the data: memory of a negative size is refused by an
-- exception, and with -1 the zero is written in front of the memory.
pub data Memory : Type 0 where
  enough : Memory
  bad_array : Memory
  overrun : Memory

unfoldable pub make_node : ℕ → Memory
make_node total =
    if is_negative total then (if total == 2 ^ 16 - 1 then overrun else bad_array) else enough

pub data SendNode : Type 0 where
  node : List ℕ → SendNode
  refused : SendNode
  corrupt : SendNode

-- The copy of `max_len` bytes, which is a huge number if it is negative.
abbrev fill_node : ℕ → ℕ → List ℕ → Memory → SendNode
fill_node max_len id msg enough =
    if is_negative max_len
    then corrupt
    else node (put_short id ++ (put_short max_len ++ take max_len msg))
fill_node max_len id msg bad_array = refused
fill_node max_len id msg overrun = corrupt

-- `send` gives the length of the message as a `short`.
unfoldable pub send_node : ℕ → List ℕ → SendNode
unfolding make_node
send_node id msg =
    let max_len = short (length msg) in
    fill_node max_len id msg (make_node (short (max_len + head_total_len)))
