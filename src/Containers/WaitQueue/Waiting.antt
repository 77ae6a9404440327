-- ===== src/Containers/WaitQueue/Waiting.antt =====
-- No value stays with only sleepers: with one lock, a notification is never lost.
use learncc.Prelude.{
  ℕ, zero, suc, ◌+◌, ◌≤◌, ◌<◌, ◌≡◌, ◌⊎◌, Bool, true, false, Every, inl, inr, refl, List, [], ◌∷◌,
  Option, length, length-append, arith, ap,
}
use learncc.Containers.WaitQueue.{
  Queue, notify_one, push, take_first, try_pop, first_or_sleep, wait_and_pop, Action, pushes, tries,
  waits, resume, wake, resumed, woken, step, run_then, run,
}

-- If consumers sleep, as many are on their way as there are values.
abbrev pub Watched : Queue → Type 0
Watched q = (q.asleep ≡ 0) ⊎ (length q.data_ ≤ q.awake)

push-Watched : (v : ℕ) (q : Queue) → Watched q → Watched (push v q)
unfolding push notify_one
push-Watched v q w = ground (arith, length-append q.data_ (v ∷ []))

take_first-Watched :
    (fails : Bool) (vs : List ℕ) (q : Queue)
    → q.data_ ≡ vs
    → Watched q
    → Watched (take_first fails vs q).1
take_first-Watched fails [] q e w = w
take_first-Watched true (v ∷ vs) q e w = w
take_first-Watched false (v ∷ vs) q e w = ground (arith, ap length e)

-- A consumer with the lock, which was woken or has just come.
first_or_sleep-Watched :
    (vs : List ℕ) (q : Queue)
    → q.data_ ≡ vs
    → (q.asleep ≡ 0) ⊎ (length q.data_ ≤ q.awake + 1)
    → Watched (first_or_sleep false vs q).1
first_or_sleep-Watched [] q e w = inr (omega (arith, ap length e))
first_or_sleep-Watched (v ∷ vs) q e w = ground (arith, ap length e)

resumed-Watched : (n : ℕ) (q : Queue) → q.awake ≡ n → Watched q → Watched (resumed false n q).1
unfolding wait_and_pop
resumed-Watched zero q e w = w
resumed-Watched (suc n) q e w =
    first_or_sleep-Watched q.data_ (record q { awake = n }) refl (ground arith)

woken-Watched : (n : ℕ) (q : Queue) → q.asleep ≡ n → Watched q → Watched (woken n q)
woken-Watched zero q e w = w
woken-Watched (suc n) q e w = ground arith

-- A copy of a value that throws only in a call that does not wait.
abbrev pub IsCopied : Action → Type 0
IsCopied (waits fails) = fails ≡ false
IsCopied (resume fails) = fails ≡ false
IsCopied other = Unit

waits-Watched :
    (fails : Bool) (q : Queue) → fails ≡ false → Watched q → Watched (step (waits fails) q).1
unfolding step wait_and_pop
waits-Watched true q e w = absurd (ground arith)
waits-Watched false q e w = first_or_sleep-Watched q.data_ q refl (ground arith)

resume-Watched :
    (fails : Bool) (q : Queue) → fails ≡ false → Watched q → Watched (step (resume fails) q).1
unfolding step
resume-Watched true q e w = absurd (ground arith)
resume-Watched false q e w = resumed-Watched q.awake q refl w

step-Watched : (a : Action) (q : Queue) → IsCopied a → Watched q → Watched (step a q).1
unfolding step try_pop
step-Watched (pushes v) q c w = push-Watched v q w
step-Watched (tries fails) q c w = take_first-Watched fails q.data_ q refl w
step-Watched (waits fails) q c w = waits-Watched fails q c w
step-Watched (resume fails) q c w = resume-Watched fails q c w
step-Watched wake q c w = woken-Watched q.asleep q refl w

run_then_lem : (k : Queue → Queue) (r : Option ℕ × Queue) → run_then k r ≡ k r.1
run_then_lem k (o, q) = refl

pub run-Watched :
    (actions : List Action) (q : Queue)
    → Every IsCopied actions
    → Watched q
    → Watched (run actions q)
unfolding run
run-Watched [] q c w = w
run-Watched (a ∷ later) q (c, cs) w =
    rw (run_then_lem) (run-Watched later (step a q).1 cs (step-Watched a q c w))

-- Whatever callers do with a queue on which nobody sleeps yet, a call at a time, if no copy of a value
-- throws in a consumer that waits or was woken: if later a consumer sleeps and a value is there, a
-- consumer that was woken is on its way.
pub run-sleeps :
    (actions : List Action) (q : Queue)
    → Every IsCopied actions
    → q.asleep ≡ 0
    → 0 < (run actions q).asleep
    → 0 < length (run actions q).data_
    → 0 < (run actions q).awake
run-sleeps actions q copies none_yet sleeps value =
    elim (run-Watched actions q copies (inl none_yet)) [
      | inl nobody ↦ absurd (omega arith)
      | inr enough ↦ omega arith
    ]
