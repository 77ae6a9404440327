-- ===== src/Prelude/Maps.antt =====
-- A map from numbers as a function, and a change of it at one place or over a range.
use Prim.Native.Nat.{ℕ, zero, suc, ◌+◌}
use mathlib.Core.Path.{◌≡◌}
use mathlib.Core.Bool.{◌&&◌}
use native.Mathlib.Omega.{arith}
use learncc.Prelude.Tests.{ltb, leb, ◌==◌, if◌then◌else◌}

abbrev pub put {ℓ} : {A : Type ℓ} → (ℕ → A) → ℕ → A → ℕ → A
put f i a j = if i == j then a else f j

-- A loop that writes `a` at `i`, `i + 1` and so on, `n` times.
pub fill_from {ℓ} : {A : Type ℓ} → ℕ → ℕ → A → (ℕ → A) → ℕ → A
fill_from zero i a f = f
fill_from (suc n) i a f = fill_from n (i + 1) a (put f i a)

pub fill_from_lem {ℓ} :
    {A : Type ℓ} (n i : ℕ) (a : A) (f : ℕ → A) (j : ℕ)
    → fill_from n i a f j ≡ (if leb i j && ltb j (i + n) then a else f j)
unfolding fill_from
fill_from_lem zero i a f j = ground arith
fill_from_lem (suc n) i a f j = ground (arith, fill_from_lem n (i + 1) a (put f i a) j)
