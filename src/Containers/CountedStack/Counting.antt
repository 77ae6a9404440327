-- ===== src/Containers/CountedStack/Counting.antt =====
-- How many threads use a node of the counted stack, and the schedule.
use learncc.Prelude.{
  ℕ, zero, suc, ◌+◌, ◌≡◌, refl, Bool, true, false, List, [], ◌∷◌, ◌==◌, Every, arith,
}
use learncc.Containers.CountedStack.{
  Thread, holding, leaving, won, swapped, pushing, bring, first_before,
}

abbrev pub one_if : Bool → ℕ
one_if true = 1
one_if false = 0

-- A thread that counted itself in and not out again, and one that alone has a node that is not in the
-- list.
abbrev pub holds : ℕ → Thread → ℕ
holds m (holding count n) = one_if (n == m)
holds m (leaving n old) = one_if (n == m)
holds m t = 0

abbrev pub claims : ℕ → Thread → ℕ
claims m (won count n) = one_if (n == m)
claims m (swapped count n) = one_if (n == m)
claims m (pushing n) = one_if (n == m)
claims m t = 0

abbrev pub total : (Thread → ℕ) → List Thread → ℕ
total f [] = 0
total f (t ∷ ts) = f t + total f ts

total-first_before :
    (f : Thread → ℕ) (t : Thread) (ts : List Thread)
    → total f (first_before t ts) ≡ f t + total f ts
total-first_before f t [] = refl
total-first_before f t (u ∷ us) = omega arith

pub total-bring : (f : Thread → ℕ) (k : ℕ) (ts : List Thread) → total f (bring k ts) ≡ total f ts
unfolding bring
total-bring f zero ts = refl
total-bring f (suc k) [] = refl
total-bring f (suc k) (t ∷ ts) =
    omega (arith, total-first_before f t (bring k ts), total-bring f k ts)

Every-first_before :
    (P : Thread → Type 0) (t : Thread) (ts : List Thread)
    → P t
    → Every P ts
    → Every P (first_before t ts)
Every-first_before P t [] h hs = (h, tt)
Every-first_before P t (u ∷ us) h (hu, hs) = (hu, (h, hs))

pub Every-bring :
    (P : Thread → Type 0) (k : ℕ) (ts : List Thread) → Every P ts → Every P (bring k ts)
unfolding bring
Every-bring P zero ts h = h
Every-bring P (suc k) [] h = tt
Every-bring P (suc k) (t ∷ ts) (h, hs) =
    Every-first_before P t (bring k ts) h (Every-bring P k ts hs)
