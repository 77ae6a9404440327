-- ===== src/Containers/LinkedQueue/Wakeup.antt =====
-- What the locks of the linked queue do not protect: a consumer between its look at the tail and its sleep.
use learncc.Prelude.{ℕ, ◌≡◌, refl, sym, subst, List, [], ◌∷◌}
use learncc.Containers.LinkedQueue.{
  Pusher, no_pusher, Popper, no_popper, drowsy, Queue, pushed, Outcome, went, Action, push, store,
  link, move, notify_one, wait, step, run,
}
use learncc.Containers.LinkedQueue.Chain.{Holds}
use learncc.Containers.LinkedQueue.Fifo.{Good, one_value}
use learncc.Containers.LinkedQueue.Fifo.Run.{run-Good}

-- A whole push, and then the sleep of a consumer that looked before.
abbrev pub push_then_sleep : ℕ → List Action
push_then_sleep v = push v ∷ store ∷ link ∷ move ∷ notify_one ∷ wait ∷ []

abbrev SleptWith : ℕ → Outcome → Type 0
SleptWith v o =
    (q' : Queue) × (o ≡ went (pushed v ∷ []) q')
    × (q'.pusher ≡ no_pusher)
    × (q'.popper ≡ no_popper)
    × (q'.asleep ≡ 1)

abbrev between : Queue → Pusher → Popper → ℕ → Queue
between q p h a = record q { pusher = p; popper = h; asleep = a }

slept_between :
    (v : ℕ) (q : Queue) → SleptWith v (run (push_then_sleep v) (between q no_pusher drowsy 0))
unfolding run step
slept_between v q = (_, refl, refl, refl, refl)

slept :
    (v : ℕ) (q : Queue)
    → q.pusher ≡ no_pusher
    → q.popper ≡ drowsy
    → q.asleep ≡ 0
    → SleptWith v (run (push_then_sleep v) q)
slept v q p h a =
    let after : Pusher → Popper → ℕ → Type 0 =
      λ p h a. SleptWith v (run (push_then_sleep v) (between q p h a)) in
    subst (λ p. after p q.popper q.asleep) (sym p)
      (subst (λ h. after no_pusher h q.asleep) (sym h)
        (subst (after no_pusher drowsy) (sym a) (slept_between v q)))

-- A consumer has seen that the queue is empty, and a whole push comes before it sleeps: then it sleeps,
-- nobody holds a lock or is in a call, and the value is there.
pub sleeps_with_value :
    (v : ℕ) (q : Queue)
    → Holds q []
    → q.pusher ≡ no_pusher
    → q.popper ≡ drowsy
    → q.asleep ≡ 0
    → (q' : Queue) × (run (push_then_sleep v) q ≡ went (pushed v ∷ []) q')
      × Holds q' (v ∷ [])
      × (q'.pusher ≡ no_pusher)
      × (q'.popper ≡ no_popper)
      × (q'.asleep ≡ 1)
sleeps_with_value v q holds p h a =
    let (q', e, p', h', a') = slept v q p h a in
    let (vs, f, later) = subst (Good []) e (run-Good (push_then_sleep v) q [] holds) in
    (q', e, subst (Holds q') (one_value v vs f) later, p', h', a')
