-- ===== src/ChatServer/LogicQueue/Wakeup.antt =====
-- No message is lost or handled out of order, and the thread does not sleep through one.
use learncc.Prelude.{
  ℕ, ◌≤◌, ◌≡◌, inl, inr, refl, ap, sym, subst, ◌∙◌, Bool, true, false, List, [], ◌∷◌, ◌++◌, length,
  ◌==◌, if◌then◌else◌, arith, append_assoc, append-nil, length-append, Bool-cases,
}
use learncc.ChatServer.LogicQueue.{
  Node, Worker, running, asleep, ended, System, make, post_msg, wake, notify, shut, handle, drain,
  first_or_sleep, deal_msg, Step, posts, notifies, shuts, deals, Run, here, next,
}

-- The messages that have a callback.
pub callable : (ℕ → Bool) → List Node → List Node
callable has [] = []
callable has (m ∷ ms) = let rest = callable has ms in if has m.0 then m ∷ rest else rest

abbrev sleeps : Worker → Bool
sleeps asleep = true
sleeps w = false

-- The messages taken off the queue and those in it are the messages posted, in their order; those that
-- have a callback, and no others, were handed to it, in this order; and while the thread sleeps the
-- system is not stopped, and a notification is owed if the queue is not empty.
pub record IsServed (has : ℕ → Bool) (s : System) : Type 0 where
  pub order : s.taken ++ s.queue ≡ s.posted
  pub called : s.handled ≡ callable has s.taken
  pub going : sleeps s.worker ≡ true → s.stop ≡ false
  pub owing : sleeps s.worker ≡ true → (if length s.queue == 0 then 0 else 1) ≤ s.owed

callable-append :
    (has : ℕ → Bool) (ms ns : List Node)
    → callable has (ms ++ ns) ≡ callable has ms ++ callable has ns
unfolding callable
callable-append has [] ns = refl
callable-append has (m ∷ ms) ns =
    let rest = callable-append has ms ns in
    elim (Bool-cases (has m.0)) [
      | inl hit ↦ rw (hit) (ap (λ xs. m ∷ xs) rest)
      | inr miss ↦ rw (miss) rest
    ]

post_msg-IsServed :
    (has : ℕ → Bool) (m : Node) (s : System) → IsServed has s → IsServed has (post_msg m s)
unfolding post_msg
post_msg-IsServed has m s v = record {
  order = sym (append_assoc s.taken s.queue (m ∷ [])) ∙ ap (λ xs. xs ++ (m ∷ [])) v.order;
  called = v.called;
  going = v.going;
  owing = λ z. ground (arith, v.owing z, length-append s.queue (m ∷ []));
}

wake-sleeps : (w : Worker) → sleeps (wake w) ≡ false
wake-sleeps running = refl
wake-sleeps asleep = refl
wake-sleeps ended = refl

notify-IsServed : (has : ℕ → Bool) (s : System) → IsServed has s → IsServed has (notify s)
unfolding notify
notify-IsServed has s v = record {
  order = v.order;
  called = v.called;
  going = λ z. absurd (ground (arith, wake-sleeps s.worker));
  owing = λ z. absurd (ground (arith, wake-sleeps s.worker));
}

shut-IsServed : (has : ℕ → Bool) (s : System) → IsServed has s → IsServed has (shut s)
unfolding shut
shut-IsServed has s v = record {
  order = v.order;
  called = v.called;
  going = λ z. absurd (ground (arith, wake-sleeps s.worker));
  owing = λ z. absurd (ground (arith, wake-sleeps s.worker));
}

-- While the queue is worked on nobody sleeps.
record IsWorking (has : ℕ → Bool) (s : System) : Type 0 where
  order : s.taken ++ s.queue ≡ s.posted
  called : s.handled ≡ callable has s.taken
  awake : sleeps s.worker ≡ false

called_more :
    (has : ℕ → Bool) (m : Node) (taken handled : List Node)
    → handled ≡ callable has taken
    → (if has m.0 then handled ++ (m ∷ []) else handled) ≡ callable has (taken ++ (m ∷ []))
unfolding callable
called_more has m taken handled e =
    let more = callable-append has taken (m ∷ []) in
    elim (Bool-cases (has m.0)) [
      | inl hit ↦
          let one : callable has (m ∷ []) ≡ m ∷ [] = rw (hit) refl in
          rw (hit)
            (ap (λ xs. xs ++ (m ∷ [])) e ∙ ap (λ xs. callable has taken ++ xs) (sym one) ∙ sym more)
      | inr miss ↦
          let nothing : callable has (m ∷ []) ≡ [] = rw (miss) refl in
          rw (miss) (
            e
            ∙ sym (append-nil (callable has taken))
            ∙ ap (λ xs. callable has taken ++ xs) (sym nothing)
            ∙ sym more)
    ]

handle-IsWorking :
    (has : ℕ → Bool) (m : Node) (ms : List Node) (s : System)
    → s.queue ≡ m ∷ ms
    → IsWorking has s
    → IsWorking has (handle has m ms s)
unfolding handle
handle-IsWorking has m ms s e v = record {
  order = append_assoc s.taken (m ∷ []) ms ∙ ap (λ q. s.taken ++ q) (sym e) ∙ v.order;
  called = called_more has m s.taken s.handled v.called;
  awake = v.awake;
}

drain-IsWorking :
    (has : ℕ → Bool) (ms : List Node) (s : System)
    → s.queue ≡ ms
    → IsWorking has s
    → IsWorking has (drain has ms s) × ((drain has ms s).queue ≡ [])
unfolding drain handle
drain-IsWorking has [] s e v = (v, e)
drain-IsWorking has (m ∷ ms) s e v =
    drain-IsWorking has ms (handle has m ms s) refl (handle-IsWorking has m ms s e v)

working-IsServed : (has : ℕ → Bool) (s : System) → IsWorking has s → IsServed has s
working-IsServed has s v = record {
  order = v.order;
  called = v.called;
  going = λ z. absurd (ground (arith, v.awake));
  owing = λ z. absurd (ground (arith, v.awake));
}

first_or_sleep-IsServed :
    (has : ℕ → Bool) (ms : List Node) (s : System)
    → s.queue ≡ ms
    → s.stop ≡ false
    → IsWorking has s
    → IsServed has (first_or_sleep has ms s)
first_or_sleep-IsServed has [] s e o v = record {
  order = v.order;
  called = v.called;
  going = λ z. o;
  owing = λ z. ground (arith, ap length e);
}
first_or_sleep-IsServed has (m ∷ ms) s e o v =
    working-IsServed has (handle has m ms s) (handle-IsWorking has m ms s e v)

deal_msg-IsServed :
    (has : ℕ → Bool) (s : System)
    → s.worker ≡ running
    → IsServed has s
    → IsServed has (deal_msg has s)
unfolding deal_msg
deal_msg-IsServed has s w v =
    let working : IsWorking has s = record {
      order = v.order;
      called = v.called;
      awake = ap sleeps w;
    } in
    let (drained, done) = drain-IsWorking has s.queue s refl working in
    let finished : System = record (drain has s.queue s) { worker = ended } in
    let after : Bool → System = λ b. if b then finished else first_or_sleep has s.queue s in
    elim (Bool-cases s.stop) [
      | inl stopped ↦
          subst (λ b. IsServed has (after b)) (sym stopped)
            (record {
              order = drained.order;
              called = drained.called;
              going = λ z. absurd (ground (arith, z));
              owing = λ z. absurd (ground (arith, z));
            })
      | inr open_ ↦
          subst (λ b. IsServed has (after b)) (sym open_)
            (first_or_sleep-IsServed has s.queue s refl open_ working)
    ]

Step-IsServed : {has : ℕ → Bool} {s s' : System} → Step has s s' → IsServed has s → IsServed has s'
Step-IsServed {has} (posts m s) v = post_msg-IsServed has m s v
Step-IsServed {has} (notifies s h) v = notify-IsServed has s v
Step-IsServed {has} (shuts s) v = shut-IsServed has s v
Step-IsServed {has} (deals s w) v = deal_msg-IsServed has s w v

Run-IsServed : {has : ℕ → Bool} {s s' : System} → Run has s s' → IsServed has s → IsServed has s'
Run-IsServed (here s) v = v
Run-IsServed (next s s' s'' t r) v = Run-IsServed r (Step-IsServed t v)

-- However posts, notifications, rounds of the thread and the stop are interleaved: messages are taken off
-- in the order in which they were posted, none is lost, those that have a callback are handed to it in
-- this order; and the thread never sleeps while a message waits, unless a notification is still owed.
pub reached-IsServed : {has : ℕ → Bool} {s : System} → Run has make s → IsServed has s
unfolding callable
reached-IsServed r =
    Run-IsServed r
      (record { order = refl; called = refl; going = λ z. refl; owing = λ z. omega arith })
