-- ===== src/Containers/CountedStack/Tests.antt =====
-- Runs of the counted stack.
use learncc.Prelude.{ℕ, ◌≤◌, ◌≡◌, refl, true, false, List, [], ◌∷◌, ◌⊎◌, some, count, arith}
use learncc.Containers.CountedStack.{
  Stack, Event, pushed, popped, found_empty, returned, Outcome, fault, went, empty, Action,
  call_pop, call_push, schedule, go, bring, step, run,
}
use learncc.Containers.CountedStack.Safety.{lifo, Good}
use learncc.Containers.CountedStack.Safety.Run.{run-lifo, all_freed}

abbrev events : Outcome → List Event
events (went es s) = es
events fault = []

-- A push; two threads count themselves in, one wins, and the other finds nothing.
abbrev race : List Action
race =
    call_push
    ∷ go
    ∷ call_pop
    ∷ call_pop
    ∷ schedule 1
    ∷ go
    ∷ schedule 1
    ∷ go
    ∷ go
    ∷ go
    ∷ go
    ∷ schedule 1
    ∷ go
    ∷ go
    ∷ go
    ∷ go
    ∷ []

race-events :
    events (run (λ n. 5) race empty) ≡ pushed 1 ∷ popped 1 ∷ returned 1 5 ∷ found_empty ∷ []
unfolding run step bring empty
race-events = refl

run-lifo_example : Good (λ n. 5) [] (run (λ n. 5) race empty)
run-lifo_example = run-lifo (λ n. 5) race

-- One push, with the node deleted by the pop after it.
abbrev in_and_out : List Action
in_and_out = call_push ∷ go ∷ call_pop ∷ go ∷ go ∷ go ∷ go ∷ []

abbrev stack_of : Outcome → Stack
stack_of fault = empty
stack_of (went es s) = s

in_and_out-run :
    run (λ n. 5) in_and_out empty
    ≡ went (events (run (λ n. 5) in_and_out empty)) (stack_of (run (λ n. 5) in_and_out empty))
unfolding run step empty
in_and_out-run = refl

nobody_left : (stack_of (run (λ n. 5) in_and_out empty)).threads ≡ []
unfolding run step empty
nobody_left = refl

one_made : 1 ≤ (stack_of (run (λ n. 5) in_and_out empty)).made
unfolding run step empty
one_made = omega arith

all_freed_example :
    let s = stack_of (run (λ n. 5) in_and_out empty) in
    let es = events (run (λ n. 5) in_and_out empty) in
    (ns : List ℕ) × (lifo (λ n. 5) es [] ≡ some ns)
    × (((s.freed 1 ≡ true) × (count 1 ns ≡ 0)) ⊎ ((s.freed 1 ≡ false) × (count 1 ns ≡ 1)))
all_freed_example =
    all_freed (λ n. 5) in_and_out (events (run (λ n. 5) in_and_out empty))
      (stack_of (run (λ n. 5) in_and_out empty)) 1 in_and_out-run nobody_left (omega arith) one_made
