-- ===== src/Containers/CountedStack/Safety/Run.antt =====
-- The counts of the stack do what they are for: whatever the threads do, no deleted node is used.
use learncc.Prelude.{
  ℕ, ◌+◌, ◌≤◌, ◌<◌, ◌≡◌, ◌≢◌, refl, ◌∙◌, sym, ap, subst, true, false, List, [], ◌∷◌, ◌++◌, some,
  count, arith, ◌⊎◌, inl,
}
use learncc.Containers.CountedStack.{
  entering, Stack, Event, pushed, popped, found_empty, returned, Outcome, fault, went, bring,
  Action, call_pop, call_push, schedule, go, step, empty, then_do, and_then, run,
}
use learncc.Containers.CountedStack.Counting.{holds, claims, total, total-bring, Every-bring}
use learncc.Containers.CountedStack.Owners.{
  Phase, unmade, owned, linked, pending, out, gone, Cell, Agrees, cell, Fits, Inv,
}
use learncc.Containers.CountedStack.Pushes.{Inv-make}
use learncc.Containers.CountedStack.Safety.{lifo, Good}
use learncc.Containers.CountedStack.Safety.Turns.{turn-Good}

module _ (value : ℕ → ℕ) (s : Stack) (ns : List ℕ) (i : Inv value s ns) where
  Inv-call : Inv value (record s { threads = entering s.head ∷ s.threads }) ns
  Inv-call = record {
    phase = i.phase;
    agrees = λ m.
        let before = cell s ns m in
        let after : cell (record s { threads = entering s.head ∷ s.threads }) ns m ≡ before =
          ground arith in
        subst (Agrees (i.phase m)) (sym after) (i.agrees m);
    walk = i.walk;
    fits = (tt, i.fits);
    unmade_after = i.unmade_after;
    made_until = i.made_until;
  }

  Inv-schedule : (k : ℕ) → Inv value (record s { threads = bring k s.threads }) ns
  Inv-schedule k = record {
    phase = i.phase;
    agrees = λ m.
        let before = cell s ns m in
        let after : cell (record s { threads = bring k s.threads }) ns m ≡ before =
          ground (arith, total-bring (holds m) k s.threads, total-bring (claims m) k s.threads) in
        subst (Agrees (i.phase m)) (sym after) (i.agrees m);
    walk = i.walk;
    fits = Every-bring (Fits value i.phase s.data_of) k s.threads i.fits;
    unmade_after = i.unmade_after;
    made_until = i.made_until;
  }

step-Good :
    (value : ℕ → ℕ) (a : Action) (s : Stack) (ns : List ℕ)
    → Inv value s ns
    → Good value ns (step value a s)
unfolding step lifo
step-Good value call_pop s ns i = (ns, refl, Inv-call value s ns i)
step-Good value call_push s ns i =
    (ns, refl, Inv-make value s s.threads ns (s.made + 1) s.head refl i)
step-Good value (schedule k) s ns i = (ns, refl, Inv-schedule value s ns i k)
step-Good value go s ns i = turn-Good value s.threads s ns i

lifo-append :
    (value : ℕ → ℕ) (es fs : List Event) (ns ms : List ℕ)
    → lifo value es ns ≡ some ms
    → lifo value (es ++ fs) ns ≡ lifo value fs ms
unfolding lifo
lifo-append value [] fs ns ms e = ground arith
lifo-append value (pushed n ∷ es) fs ns ms e = lifo-append value es fs (n ∷ ns) ms e
lifo-append value (popped n ∷ es) fs [] ms e = ground arith
lifo-append value (popped n ∷ es) fs (x ∷ ns) ms e = ground (arith, lifo-append value es fs ns ms)
lifo-append value (found_empty ∷ es) fs [] ms e = lifo-append value es fs [] ms e
lifo-append value (found_empty ∷ es) fs (x ∷ ns) ms e = ground arith
lifo-append value (returned n v ∷ es) fs ns ms e = ground (arith, lifo-append value es fs ns ms)

then_do-Good :
    (value : ℕ → ℕ) (es : List Event) (ns ms : List ℕ) (o : Outcome)
    → lifo value es ns ≡ some ms
    → Good value ms o
    → Good value ns (then_do es o)
then_do-Good value es ns ms fault e g = g
then_do-Good value es ns ms (went fs s) e (ls, f, i) = (ls, lifo-append value es fs ns ms e ∙ f, i)

and_then-Good :
    (value : ℕ → ℕ) (ns : List ℕ) (o : Outcome) (k : Stack → Outcome)
    → ((s : Stack) (ms : List ℕ) → Inv value s ms → Good value ms (k s))
    → Good value ns o
    → Good value ns (and_then o k)
and_then-Good value ns fault k each g = g
and_then-Good value ns (went es s) k each (ms, e, i) =
    then_do-Good value es ns ms (k s) e (each s ms i)

run-Good :
    (value : ℕ → ℕ) (actions : List Action) (s : Stack) (ns : List ℕ)
    → Inv value s ns
    → Good value ns (run value actions s)
unfolding run lifo
run-Good value [] s ns i = (ns, refl, i)
run-Good value (a ∷ later) s ns i =
    and_then-Good value ns (step value a s) (run value later) (run-Good value later)
      (step-Good value a s ns i)

empty-Inv : (value : ℕ → ℕ) → Inv value empty []
unfolding empty
empty-Inv value = record {
  phase = λ m. unmade;
  agrees = λ m. (refl, refl, refl, refl, refl, refl);
  walk = refl;
  fits = tt;
  unmade_after = λ m l. refl;
  made_until = λ m above l. absurd (omega arith);
}

-- Whatever threads push and pop on a new stack, in any order of their turns: no deleted node is used, none
-- is deleted twice, no pop throws, and the nodes come and go as in a stack of which everything happens
-- at once.
pub run-lifo : (value : ℕ → ℕ) (actions : List Action) → Good value [] (run value actions empty)
run-lifo value actions = run-Good value actions empty [] (empty-Inv value)

no_leak :
    (x : Phase) (c : Cell)
    → c.holders ≡ 0
    → c.owners ≡ 0
    → Agrees x c
    → x ≢ unmade
    → ((c.freed ≡ true) × (c.listed ≡ 0)) ⊎ ((c.freed ≡ false) × (c.listed ≡ 1))
no_leak unmade c h o a u = absurd (u refl)
no_leak owned c h o a u = ground arith
no_leak (linked e) c h o a u = ground arith
no_leak (pending e) c h o a u = ground arith
no_leak out c h o a u = ground arith
no_leak gone c h o a u = inl (a.2, a.3)

quiet :
    (value : ℕ → ℕ) (s : Stack) (ns : List ℕ) (m : ℕ)
    → Inv value s ns
    → s.threads ≡ []
    → 0 < m
    → m ≤ s.made
    → ((s.freed m ≡ true) × (count m ns ≡ 0)) ⊎ ((s.freed m ≡ false) × (count m ns ≡ 1))
quiet value s ns m i none_left above below =
    no_leak (i.phase m) (cell s ns m) (ap (total (holds m)) none_left)
      (ap (total (claims m)) none_left) (i.agrees m) (i.made_until m above below)

-- A run of pushes and pops on a new stack, in any order of their turns, after which no thread is in a
-- call any more: every node that was made is deleted and not in the stack that the events of the run
-- leave, or it is not deleted and once in that stack.
pub all_freed :
    (value : ℕ → ℕ) (actions : List Action) (es : List Event) (s : Stack) (m : ℕ)
    → run value actions empty ≡ went es s
    → s.threads ≡ []
    → 0 < m
    → m ≤ s.made
    → (ns : List ℕ) × (lifo value es [] ≡ some ns)
      × (((s.freed m ≡ true) × (count m ns ≡ 0)) ⊎ ((s.freed m ≡ false) × (count m ns ≡ 1)))
all_freed value actions es s m went_so none_left above below =
    let (ns, e, i) = subst (Good value []) went_so (run-lifo value actions) in
    (ns, e, quiet value s ns m i none_left above below)
