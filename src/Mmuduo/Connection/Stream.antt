-- ===== src/Mmuduo/Connection/Stream.antt =====
-- The bytes of a connection reach the wire in the order in which they were sent.
use learncc.Prelude.{
  ℕ, ◌+◌, ◌-◌, ◌≤◌, ◌<◌, ◌^◌, ◌≡◌, refl, ap, sym, ◌∙◌, Bool, true, false, not, ◌&&◌, List, [], ◌∷◌,
  ◌++◌, length, take, drop, arith, Bool-cases, inl, inr, append-nil, append_assoc, take-append-drop,
  length-drop, ◌==◌, sub_size,
}
use learncc.Mmuduo.Buffer
use learncc.Mmuduo.Buffer.{Buffer, readable_bytes}
use learncc.Mmuduo.Buffer.Laws.{IsValid, contents, contents-append, contents-retrieve}
use learncc.Mmuduo.Channel.{is_writing}
use learncc.Mmuduo.Connection.{
  Connection, Effect, wire, Outcome, Sent, took, error, is_fault, when, queue_rest, write_direct,
  send_inloop, handle_write, is_disconnected, shutdown_write, conn_cb, message_cb, close_cb,
  run_send, run_shutdown, queue_write_complete, queue_high_watermark, queue_force_close,
  shutdown_inloop, queue_some, drained,
}

-- The bytes that an operation put on the wire.
pub wired : List Effect → List ℕ
wired [] = []
wired (wire xs ∷ es) = xs ++ wired es
wired (_ ∷ es) = wired es

-- The result of `write` on `n` bytes, if the peer is there: a part of the bytes, or no room.
abbrev pub IsAlive : ℕ → Sent → Type 0
IsAlive n (took k) = k ≤ n
IsAlive n (error e) = is_fault e ≡ false

-- What an operation on `c` does to the stream when it is given `bytes`.
abbrev pub Keeps : Connection → List ℕ → Outcome → Type 0
Keeps c bytes (c', es) = (wired es ++ contents c'.obuf ≡ contents c.obuf ++ bytes) × IsValid c'.obuf

queue_rest-Keeps :
    (c : Connection) (rest : List ℕ)
    → IsValid c.obuf
    → c.obuf.write + length rest + 8 < 2 ^ 63
    → Keeps c rest (queue_rest c rest)
unfolding queue_rest wired
queue_rest-Keeps c rest v h = ground (arith, contents-append rest v h)

queue_some-Keeps :
    (c : Connection) (rest : List ℕ)
    → IsValid c.obuf
    → c.obuf.write + length rest + 8 < 2 ^ 63
    → Keeps c rest (queue_some c rest)
unfolding wired
queue_some-Keeps c [] v h = (sym (append-nil (contents c.obuf)), v)
queue_some-Keeps c (x ∷ xs) v h = queue_rest-Keeps c (x ∷ xs) v h

wired-append : (es fs : List Effect) → wired (es ++ fs) ≡ wired es ++ wired fs
unfolding wired
wired-append [] fs = refl
wired-append (wire xs ∷ es) fs =
    ap (λ l. xs ++ l) (wired-append es fs) ∙ sym (append_assoc xs (wired es) (wired fs))
wired-append (shutdown_write ∷ es) fs = wired-append es fs
wired-append (conn_cb s ∷ es) fs = wired-append es fs
wired-append (message_cb ∷ es) fs = wired-append es fs
wired-append (close_cb ∷ es) fs = wired-append es fs
wired-append (run_send xs ∷ es) fs = wired-append es fs
wired-append (run_shutdown ∷ es) fs = wired-append es fs
wired-append (queue_write_complete ∷ es) fs = wired-append es fs
wired-append (queue_high_watermark n ∷ es) fs = wired-append es fs
wired-append (queue_force_close ∷ es) fs = wired-append es fs

wired-when : (b : Bool) → wired (when b queue_write_complete) ≡ []
unfolding wired
wired-when true = refl
wired-when false = refl

contents_empty : (b : Buffer) → IsValid b → (readable_bytes b == 0) ≡ true → contents b ≡ []
contents_empty b v e = let z : b.write - b.read ≡ 0 = ground arith in rw z

and_right : (a : Bool) {b : Bool} → (a && b) ≡ true → b ≡ true
and_right true h = h
and_right false h = cc

write_direct-Keeps :
    (c : Connection) (bytes : List ℕ) (sys : Sent)
    → IsValid c.obuf
    → contents c.obuf ≡ []
    → IsAlive (length bytes) sys
    → c.obuf.write + length bytes + 8 < 2 ^ 63
    → Keeps c bytes (write_direct c bytes sys)
unfolding write_direct wired
write_direct-Keeps c bytes (took n) v e k h =
    let rest : Keeps c (drop n bytes) (queue_some c (drop n bytes)) =
      queue_some-Keeps c (drop n bytes) v (omega (arith, length-drop n bytes)) in
    let first : Bool = sub_size (length bytes) n == 0 && c.has_write_complete in
    (
      rw (wired-append (when first queue_write_complete), wired-when)
          (append_assoc (take n bytes) _ _
            ∙ (ap (λ l. take n bytes ++ l) (rest.0 ∙ ap (λ l. l ++ drop n bytes) e)
                ∙ (take-append-drop n bytes ∙ sym (ap (λ l. l ++ bytes) e)))),
      rest.1,
    )
write_direct-Keeps c bytes (error x) v e k h = rw (k, write_direct) (queue_some-Keeps c bytes v h)

-- As long as the peer is there, what `send_inloop` writes at once, followed by what it leaves in the
-- output buffer, is what the buffer held followed by the bytes sent: none is lost, doubled or
-- overtaken.
pub send_inloop-Keeps :
    (c : Connection) (bytes : List ℕ) (sys : Sent)
    → IsValid c.obuf
    → is_disconnected c.state ≡ false
    → IsAlive (length bytes) sys
    → c.obuf.write + length bytes + 8 < 2 ^ 63
    → (wired (send_inloop c bytes sys).1 ++ contents (send_inloop c bytes sys).0.obuf
        ≡ contents c.obuf ++ bytes)
      × IsValid (send_inloop c bytes sys).0.obuf
unfolding send_inloop
send_inloop-Keeps c bytes sys v s k h =
    elim (Bool-cases (not (is_writing c.events) && readable_bytes c.obuf == 0)) [
      | inl direct ↦
          rw (s, direct, send_inloop)
            (write_direct-Keeps c bytes sys v
              (contents_empty c.obuf v (and_right (not (is_writing c.events)) direct)) k h)
      | inr later ↦ rw (s, later, send_inloop) (queue_some-Keeps c bytes v h)
    ]

-- Draining only takes from the output buffer.
drained_lem :
    (c : Connection) (n : ℕ)
    → ((drained c n).0.obuf ≡ Buffer.retrieve c.obuf n) × (wired (drained c n).1 ≡ [])
unfolding wired shutdown_inloop
drained_lem c n = ground arith

-- `handle_write` takes what it writes off the front of the output buffer and keeps the rest.
pub handle_write-Keeps :
    (c : Connection) (sys : Sent)
    → IsValid c.obuf
    → IsAlive (length (contents c.obuf)) sys
    → (wired (handle_write c sys).1 ++ contents (handle_write c sys).0.obuf ≡ contents c.obuf)
      × IsValid (handle_write c sys).0.obuf
unfolding handle_write wired
handle_write-Keeps c (error x) v k = ground arith
handle_write-Keeps c (took n) v k = ground (
  arith,
  drained_lem c n,
  contents-retrieve n v,
  append-nil (take n (contents c.obuf)),
  take-append-drop n (contents c.obuf),
)
