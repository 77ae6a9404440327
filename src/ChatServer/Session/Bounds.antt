-- ===== src/ChatServer/Session/Bounds.antt =====
-- What a session reads stays inside its arrays, but for one head.
use learncc.Prelude.{
  ℕ, ◌-◌, ◌^◌, ◌≤◌, ◌<◌, ◌≡◌, ◌↔◌, ◌⊎◌, inl, inr, List, [], ◌∷◌, ◌++◌, length, leb, arith,
  Bool-cases, length-append, length-take, take, drop, min,
}
use learncc.ChatServer.MsgNode.{get_short, make_node}
use learncc.ChatServer.Session.{
  Phase, head, body, open_, cleared, stalled, broken, Reader, start, max_length, on_head,
  parse_head, complete, is_open, on_read, feed,
}

-- The bytes read so far fit `data_`, and so do those that are waited for.
pub record IsInside (r : Reader) : Type 0 where
  pub read : length r.got ≤ r.want
  pub room : r.want ≤ max_length

-- Whatever head arrives: the session goes on with a body only if neither number is above 2048 and the
-- length is not negative. A number above 2048 clears it; with a length below -1 it stalls, and with -1
-- memory is overwritten.
pub on_head_status :
    (id len : ℕ) (r : Reader)
    → r.status ≡ open_
    → len < 2 ^ 16
    → ((2 ^ 15 ≤ id) ⊎ (id ≤ max_length))
    → ((on_head id len r).status ≡ open_ ↔ (len ≤ max_length))
      × ((on_head id len r).status ≡ cleared ↔ ((max_length < len) × (len < 2 ^ 15)))
      × ((on_head id len r).status ≡ stalled ↔ ((2 ^ 15 ≤ len) × (len < 2 ^ 16 - 1)))
      × ((on_head id len r).status ≡ broken ↔ (len ≡ 2 ^ 16 - 1))
unfolding on_head make_node
on_head_status id len r o h k = ground arith

on_head-IsInside : (id len : ℕ) (r : Reader) → IsInside r → IsInside (on_head id len r)
unfolding on_head make_node
on_head-IsInside id len r v = record {
  read = ground (arith, v.read);
  room = ground (arith, v.room);
}

parse_head-IsInside : (bs : List ℕ) (r : Reader) → IsInside r → IsInside (parse_head bs r)
parse_head-IsInside [] r v = record { read = v.read; room = v.room }
parse_head-IsInside (a ∷ []) r v = record { read = v.read; room = v.room }
parse_head-IsInside (a ∷ b ∷ []) r v = record { read = v.read; room = v.room }
parse_head-IsInside (a ∷ b ∷ c ∷ []) r v = record { read = v.read; room = v.room }
parse_head-IsInside (a ∷ b ∷ c ∷ d ∷ bs) r v = on_head-IsInside (get_short a b) (get_short c d) r v

complete-IsInside : (p : Phase) (bs : List ℕ) (r : Reader) → IsInside r → IsInside (complete p bs r)
complete-IsInside head bs r v = parse_head-IsInside bs r v
complete-IsInside (body id) bs r v = record { read = omega arith; room = omega arith }

-- A read of no more bytes than were asked for leaves the session inside `data_`.
pub on_read-IsInside :
    (bs : List ℕ) (r : Reader)
    → IsInside r
    → length bs ≤ r.want - length r.got
    → IsInside (on_read bs r)
unfolding on_read
on_read-IsInside bs r v h = elim (Bool-cases (leb r.want (length (r.got ++ bs)))) [
  | inl full ↦ rw (full) (complete-IsInside r.phase (r.got ++ bs) r v)
  | inr part ↦
      rw (part) (record { read = ground (arith, v.read, length-append r.got bs); room = v.room })
]

feed_from-IsInside : (ns stream : List ℕ) (r : Reader) → IsInside r → IsInside (feed ns stream r)
unfolding feed
feed_from-IsInside [] stream r v = v
feed_from-IsInside (n ∷ ns) stream r v =
    let k = min n (r.want - length r.got) in
    let r' = on_read (take k stream) r in
    let v' = on_read-IsInside (take k stream) r v (ground (arith, length-take k stream)) in
    let rest = feed_from-IsInside ns (drop k stream) r' v' in
    elim (Bool-cases (is_open r.status)) [ inl more ↦ rw (more) rest | inr done ↦ rw (done) v ]

-- Whatever bytes arrive and in whatever pieces: the bytes read and those that are waited for always fit
-- the 2048 bytes of `data_`.
pub feed-IsInside : (ns stream : List ℕ) → IsInside (feed ns stream start)
feed-IsInside ns stream =
    feed_from-IsInside ns stream start (record { read = omega arith; room = omega arith })
