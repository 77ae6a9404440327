-- ===== src/Containers/CountedStack/Safety.antt =====
-- What the stack promises: a stack of nodes of which everything happens at once, and no fault.
pub mod Turns
pub mod Run
use learncc.Prelude.{
  ℕ, zero, suc, ◌+◌, ◌≤◌, ◌<◌, ◌≡◌, ◌≢◌, refl, ◌∙◌, sym, ap, subst, Bool, true, false, ◌&&◌, List,
  [], ◌∷◌, ◌++◌, Option, none, some, ◌==◌, if◌then◌else◌, put, Every, count, arith, ◌⊎◌, inl, inr,
  Bool-cases,
}
use learncc.Containers.CountedStack.{
  Ptr, ptr, same, Thread, entering, holding, leaving, won, swapped, pushing, Stack, delete, Event,
  pushed, popped, found_empty, returned, Outcome, fault, went, count_in, exchange, leave, swap_data,
  add_count, link, alive, turn_of, turn, bring, Action, call_pop, call_push, schedule, go, step,
  empty, then_do, and_then, run,
}
use learncc.Containers.CountedStack.Counting.{
  one_if, holds, claims, total, total-bring, Every-bring,
}
use learncc.Containers.CountedStack.Owners.{
  Phase, unmade, owned, linked, pending, out, gone, Cell, Agrees, cell, Walk, Fits, Inv, used-alive,
}
use learncc.Containers.CountedStack.Pops.{Inv-count, Inv-reenter, Inv-lose, Inv-leave}
use learncc.Containers.CountedStack.Takes.{Inv-win, Inv-swap, Inv-add}
use learncc.Containers.CountedStack.Pushes.{Inv-link, Inv-relink, Inv-make}

-- A stack of nodes of which everything happens at once; `none` if it does not do what the events say.
pub lifo : (ℕ → ℕ) → List Event → List ℕ → Option (List ℕ)
lifo value [] ns = some ns
lifo value (pushed n ∷ es) ns = lifo value es (n ∷ ns)
lifo value (popped n ∷ es) [] = none
lifo value (popped n ∷ es) (m ∷ ns) = let rest = lifo value es ns in if m == n then rest else none
lifo value (found_empty ∷ es) [] = lifo value es []
lifo value (found_empty ∷ es) (m ∷ ns) = none
lifo value (returned n v ∷ es) ns =
    let rest = lifo value es ns in if v == value n then rest else none

-- No fault, and the events are those of a stack that had the nodes `ns` and has what is left.
abbrev pub Good : (ℕ → ℕ) → List ℕ → Outcome → Type 0
Good value ns fault = ⊥
Good value ns (went es s) = (ns' : List ℕ) × (lifo value es ns ≡ some ns') × Inv value s ns'
