-- ===== src/Mmuduo/EventLoop/Wakeup.antt =====
-- No functor is lost or forgotten while the loop waits, and they are called in order.
use learncc.Prelude.{
  ℕ, ◌+◌, ◌≤◌, ◌≡◌, inl, inr, refl, ap, sym, subst, ◌∙◌, true, false, List, [], ◌∷◌, ◌++◌,
  append_assoc, append-nil, length, arith, Bool-cases,
}
use learncc.Mmuduo.EventLoop.{Loop, nudge, queue_in_loop, quit, end_calls}
use learncc.Mmuduo.EventLoop.Steps.{
  Phase, polling, handling, swapping, calling, stopped, World, IsRunning, again, Step, queue_other,
  quit_other, wake_other, queue_own, quit_own, poll, read_event, find_none, find_some, swap, call,
  end, Reach, here, next, entered,
}

-- The event descriptor is set, or a thread is about to set it.
abbrev pub IsHeard : World → Type 0
IsHeard w = 1 ≤ w.loop.counter + w.owed

-- What each phase of the loop's thread relies on.
abbrev pub IsCovered : Phase → World → Type 0
IsCovered polling w =
    (w.loop.calling ≡ false)
    × (1 ≤ length w.loop.pending → IsHeard w)
    × (w.loop.quitting ≡ true → IsHeard w)
IsCovered (handling ready) w = w.loop.calling ≡ false
IsCovered swapping w = w.loop.calling ≡ true
IsCovered (calling fs) w = (w.loop.calling ≡ true) × (1 ≤ length w.loop.pending → IsHeard w)
IsCovered stopped w = Unit

abbrev pub to_call : Phase → List ℕ
to_call (calling fs) = fs
to_call _ = []

pub record IsSafe (w : World) : Type 0 where
  pub covered : IsCovered w.phase w
  pub order : w.called ++ (to_call w.phase ++ w.loop.pending) ≡ w.queued

IsCovered-at : (w : World) {p : Phase} → IsSafe w → w.phase ≡ p → IsCovered p w
IsCovered-at w v e = subst (λ p. IsCovered p w) e v.covered

order_at :
    (w : World) {p : Phase}
    → IsSafe w
    → w.phase ≡ p
    → w.called ++ (to_call p ++ w.loop.pending) ≡ w.queued
order_at w v e = subst (λ p. w.called ++ (to_call p ++ w.loop.pending) ≡ w.queued) e v.order

heard-IsCovered :
    (p : Phase) (u w : World)
    → w.loop.calling ≡ u.loop.calling
    → IsHeard w
    → IsCovered p u
    → IsCovered p w
heard-IsCovered polling u w same h (c, _, _) = (same ∙ c, λ k. h, λ k. h)
heard-IsCovered (handling ready) u w same h c = same ∙ c
heard-IsCovered swapping u w same h c = same ∙ c
heard-IsCovered (calling fs) u w same h (c, _) = (same ∙ c, λ k. h)
heard-IsCovered stopped u w same h c = tt

-- Another functor at the end of the queue.
order-push :
    (called running pending queued : List ℕ) (f : ℕ)
    → called ++ (running ++ pending) ≡ queued
    → called ++ (running ++ (pending ++ (f ∷ []))) ≡ queued ++ (f ∷ [])
order-push called running pending queued f e =
    ap (λ l. called ++ l) (sym (append_assoc running pending (f ∷ [])))
    ∙ (sym (append_assoc called (running ++ pending) (f ∷ [])) ∙ ap (λ l. l ++ (f ∷ [])) e)

own-IsCovered :
    (p : Phase) (w : World) (f : ℕ)
    → IsRunning p
    → IsCovered p w
    → IsCovered p (record w { loop = queue_in_loop true f w.loop; queued = w.queued ++ (f ∷ []) })
unfolding queue_in_loop nudge
own-IsCovered polling w f r c = elim r [ ]
own-IsCovered swapping w f r c = elim r [ ]
own-IsCovered stopped w f r c = elim r [ ]
own-IsCovered (handling ready) w f r c = ground arith
own-IsCovered (calling fs) w f r (c, h) = ground arith

pending-queue_in_loop :
    (l : Loop) (f : ℕ) → (queue_in_loop true f l).pending ≡ l.pending ++ (f ∷ [])
unfolding queue_in_loop nudge
pending-queue_in_loop l f = ground arith

quit-IsCovered :
    (p : Phase) (w : World)
    → IsRunning p
    → IsCovered p w
    → IsCovered p (record w { loop = quit true w.loop })
unfolding quit
quit-IsCovered polling w r c = elim r [ ]
quit-IsCovered swapping w r c = elim r [ ]
quit-IsCovered stopped w r c = elim r [ ]
quit-IsCovered (handling ready) w r c = c
quit-IsCovered (calling fs) w r c = c

again-IsSafe :
    (w : World)
    → w.loop.calling ≡ false
    → (1 ≤ length w.loop.pending → IsHeard w)
    → w.called ++ w.loop.pending ≡ w.queued
    → IsSafe (record w { phase = again w.loop })
again-IsSafe w c h e = elim (Bool-cases w.loop.quitting) [
  | inl q ↦ rw (q) (record { covered = tt; order = e })
  | inr q ↦ rw (q) (record { covered = (c, h, λ k. absurd (ground arith)); order = e })
]

Step-IsSafe : {u w : World} → Step u w → IsSafe u → IsSafe w
unfolding quit
Step-IsSafe (queue_other w f) v = record {
  covered = heard-IsCovered w.phase w _ refl (omega arith) v.covered;
  order = order-push w.called (to_call w.phase) w.loop.pending w.queued f v.order;
}
Step-IsSafe (quit_other w) v = record {
  covered = heard-IsCovered w.phase w _ refl (omega arith) v.covered;
  order = v.order;
}
Step-IsSafe (wake_other w h) v = record {
  covered = heard-IsCovered w.phase w _ refl (omega arith) v.covered;
  order = v.order;
}
Step-IsSafe (queue_own w f r) v = record {
  covered = own-IsCovered w.phase w f r v.covered;
  order =
      ap (λ l. w.called ++ (to_call w.phase ++ l)) (pending-queue_in_loop w.loop f)
      ∙ order-push w.called (to_call w.phase) w.loop.pending w.queued f v.order;
}
Step-IsSafe (quit_own w r) v = record {
  covered = quit-IsCovered w.phase w r v.covered;
  order = v.order;
}
Step-IsSafe (poll w e) v = record { covered = (IsCovered-at w v e).0; order = order_at w v e }
Step-IsSafe (read_event w e) v = record { covered = IsCovered-at w v e; order = order_at w v e }
Step-IsSafe (find_none w e none_left) v =
    again-IsSafe w (IsCovered-at w v e) (λ k. absurd (omega (arith, ap length none_left)))
      (order_at w v e)
Step-IsSafe (find_some w e some_left) v = record { covered = refl; order = order_at w v e }
Step-IsSafe (swap w e) v = record {
  covered = (IsCovered-at w v e, λ k. absurd (omega arith));
  order = ap (λ l. w.called ++ l) (append-nil w.loop.pending) ∙ order_at w v e;
}
Step-IsSafe (call w f fs e) v = record {
  covered = IsCovered-at w v e;
  order = append_assoc w.called (f ∷ []) (fs ++ w.loop.pending) ∙ order_at w v e;
}
Step-IsSafe (end w e) v =
    again-IsSafe (record w { loop = end_calls w.loop }) refl (IsCovered-at w v e).1 (order_at w v e)

Reach-IsSafe : {u w : World} → Reach u w → IsSafe u → IsSafe w
Reach-IsSafe (here w) v = v
Reach-IsSafe (next u v w s r) c = Reach-IsSafe r (Step-IsSafe s c)

entered-IsSafe : IsSafe entered
entered-IsSafe = record {
  covered = (refl, λ k. absurd (omega arith), λ k. absurd (ground arith));
  order = refl;
}

-- However other threads, handlers and functors queue functors and ask the loop to quit: functors are
-- called in the order in which they were queued, each once, and while the loop waits in `poll` with a
-- functor queued or asked to quit, its event descriptor is set or a thread is about to set it.
pub reached-IsSafe : {w : World} → Reach entered w → IsSafe w
reached-IsSafe r = Reach-IsSafe r entered-IsSafe
