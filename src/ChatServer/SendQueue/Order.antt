-- ===== src/ChatServer/SendQueue/Order.antt =====
-- The order of what is sent, and the length of the queue.
use learncc.Prelude.{
  ℕ, ◌+◌, ◌-◌, ◌≤◌, ◌≡◌, inl, inr, refl, ap, sym, subst, ◌∙◌, true, false, List, [], ◌∷◌, ◌++◌,
  length, drop, ltb, arith, min, append_assoc, append-nil, length-append, List-cases, Bool-cases,
}
use learncc.ChatServer.MsgNode.{node, send_node}
use learncc.ChatServer.SendQueue.{
  Sender, max_sendque, Sent, queued, push, send, handle_write, handle_write_error, World, begin,
  Step, accepts, ends, fails, Run, here, next,
}

-- All nodes but those that wait behind the front one were handed to `async_write`, in the order of the
-- calls of `send`; one write at most is under way, and none after an error; 1001 nodes wait at most.
pub record IsInOrder (w : World) : Type 0 where
  pub order : w.sender.written ++ drop 1 w.sender.queue ≡ w.accepted
  pub busy : w.sender.failed ≡ false → w.outstanding ≡ min (length w.sender.queue) 1
  pub stuck : w.sender.failed ≡ true → w.outstanding ≡ 0
  pub waiting : w.sender.failed ≡ true → 1 ≤ length w.sender.queue
  pub bounded : length w.sender.queue ≤ max_sendque + 1

push_empty :
    (bs : List ℕ) (s : Sender)
    → s.queue ≡ []
    → push bs s ≡ record { queue = bs ∷ []; written = s.written ++ (bs ∷ []); failed = s.failed }
unfolding push
push_empty bs s e = rw (e) refl

push_behind :
    (bs b : List ℕ) (rest : List (List ℕ)) (s : Sender)
    → s.queue ≡ b ∷ rest
    → push bs s ≡ record { queue = b ∷ (rest ++ (bs ∷ [])); written = s.written; failed = s.failed }
unfolding push
push_behind bs b rest s e =
    let more : ltb 0 (length (b ∷ rest)) ≡ true = ground arith in rw (e, more) refl

handle_write_last :
    (b : List ℕ) (s : Sender)
    → s.queue ≡ b ∷ []
    → handle_write s ≡ record { queue = []; written = s.written; failed = s.failed }
unfolding handle_write
handle_write_last b s e = rw (e) refl

handle_write_more :
    (b b' : List ℕ) (rest : List (List ℕ)) (s : Sender)
    → s.queue ≡ b ∷ (b' ∷ rest)
    → handle_write s
      ≡ record { queue = b' ∷ rest; written = s.written ++ (b' ∷ []); failed = s.failed }
unfolding handle_write
handle_write_more b b' rest s e = rw (e) refl

push-IsInOrder :
    (bs : List ℕ) (w : World)
    → IsInOrder w
    → length w.sender.queue ≤ max_sendque
    → IsInOrder (record {
      sender = push bs w.sender;
      outstanding = w.outstanding + (length (push bs w.sender).written - length w.sender.written);
      accepted = w.accepted ++ (bs ∷ []);
    })
push-IsInOrder bs w v h = elim (List-cases w.sender.queue) [
  | inl e ↦
      let all_written : w.sender.written ≡ w.accepted =
        sym (append-nil w.sender.written)
        ∙ ap (λ q. w.sender.written ++ drop 1 q) (sym e)
        ∙ v.order in
      let none_waits = ap length e in
      rw (push_empty bs w.sender e) (record {
        order = append-nil (w.sender.written ++ (bs ∷ [])) ∙ ap (λ xs. xs ++ (bs ∷ [])) all_written;
        busy = λ f. ground (arith, v.busy f, length-append w.sender.written (bs ∷ []));
        stuck = λ f. absurd (ground (arith, v.waiting f));
        waiting = λ f. omega arith;
        bounded = omega arith;
      })
  | inr (b, (rest, e)) ↦
      let some_wait = ap length e in
      rw (push_behind bs b rest w.sender e) (record {
        order =
            sym (append_assoc w.sender.written rest (bs ∷ []))
            ∙ ap (λ xs. xs ++ (bs ∷ [])) (ap (λ q. w.sender.written ++ drop 1 q) (sym e) ∙ v.order);
        busy = λ f. ground (arith, v.busy f);
        stuck = λ f. ground (arith, v.stuck f);
        waiting = λ f. omega arith;
        bounded = ground (arith, length-append rest (bs ∷ []));
      })
]

-- While a write is under way none has failed.
going : (w : World) → IsInOrder w → 1 ≤ w.outstanding → w.sender.failed ≡ false
going w v h = elim (Bool-cases w.sender.failed) [
  | inl f ↦ absurd (ground (arith, v.stuck f))
  | inr f ↦ f
]

handle_write-IsInOrder :
    (w : World)
    → IsInOrder w
    → 1 ≤ w.outstanding
    → IsInOrder (record w {
      sender = handle_write w.sender;
      outstanding =
          w.outstanding - 1 + (length (handle_write w.sender).written - length w.sender.written);
    })
handle_write-IsInOrder w v h = elim (List-cases w.sender.queue) [
  | inl e ↦ absurd (ground (arith, ap length e, v.busy (going w v h)))
  | inr (b, ([], e)) ↦
      let size = ap length e in
      let busy = v.busy (going w v h) in
      rw (handle_write_last b w.sender e) (record {
        order = ap (λ q. w.sender.written ++ drop 1 q) (sym e) ∙ v.order;
        busy = λ f. ground arith;
        stuck = λ f. absurd (ground (arith, v.stuck f));
        waiting = λ f. absurd (ground (arith, v.stuck f));
        bounded = omega arith;
      })
  | inr (b, (b' ∷ rest, e)) ↦
      let size = ap length e in
      let busy = v.busy (going w v h) in
      rw (handle_write_more b b' rest w.sender e) (record {
        order =
            append_assoc w.sender.written (b' ∷ []) rest
            ∙ ap (λ q. w.sender.written ++ drop 1 q) (sym e)
            ∙ v.order;
        busy = λ f. ground (arith, length-append w.sender.written (b' ∷ []));
        stuck = λ f. absurd (ground (arith, v.stuck f));
        waiting = λ f. omega arith;
        bounded = ground (arith, v.bounded);
      })
]

fail-IsInOrder :
    (w : World)
    → IsInOrder w
    → 1 ≤ w.outstanding
    → IsInOrder (record w { sender = handle_write_error w.sender; outstanding = w.outstanding - 1 })
unfolding handle_write_error
fail-IsInOrder w v h =
    let busy = v.busy (going w v h) in
    record {
      order = v.order;
      busy = λ f. absurd (ground arith);
      stuck = λ f. ground arith;
      waiting = λ f. ground arith;
      bounded = v.bounded;
    }

abbrev sender_of : Sender → Sent → Sender
sender_of s (queued s') = s'
sender_of s t = s

send-push :
    (s : Sender) (id : ℕ) (msg bs : List ℕ) (s' : Sender)
    → send_node id msg ≡ node bs
    → send id msg s ≡ queued s'
    → (length s.queue ≤ max_sendque) × (push bs s ≡ s')
unfolding send
send-push s id msg bs s' e h = elim (Bool-cases (ltb max_sendque (length s.queue))) [
  | inl long ↦ absurd (ground (arith, long))
  | inr room ↦
      let ran : send id msg s ≡ queued (push bs s) = rw (room, e) refl in
      (ground arith, ap (sender_of s) (sym ran ∙ h))
]

Step-IsInOrder : {w w' : World} → Step w w' → IsInOrder w → IsInOrder w'
Step-IsInOrder (accepts w id msg bs s e h) v =
    let (room, pushed) = send-push w.sender id msg bs s e h in
    subst
      (λ t. IsInOrder (record {
        sender = t;
        outstanding = w.outstanding + (length t.written - length w.sender.written);
        accepted = w.accepted ++ (bs ∷ []);
      }))
      pushed (push-IsInOrder bs w v room)
Step-IsInOrder (ends w h) v = handle_write-IsInOrder w v h
Step-IsInOrder (fails w h) v = fail-IsInOrder w v h

Run-IsInOrder : {w w' : World} → Run w w' → IsInOrder w → IsInOrder w'
Run-IsInOrder (here w) v = v
Run-IsInOrder (next w w' w'' s r) v = Run-IsInOrder r (Step-IsInOrder s v)

-- Whatever is sent, and however the writes end: the nodes are handed to the connection in the order of
-- the calls of `send`, each once, and one at a time; after a failed write no other one is begun; and at
-- most 1001 nodes are in the queue.
pub reached-IsInOrder : {w : World} → Run begin w → IsInOrder w
reached-IsInOrder r = Run-IsInOrder r (record {
  order = refl;
  busy = λ f. refl;
  stuck = λ f. refl;
  waiting = λ f. absurd (ground arith);
  bounded = omega arith;
})
