-- ===== src/Prelude/Predicates.antt =====
-- A predicate at every element of a list, by recursion.
use Prim.Native.Nat.{ℕ, zero, suc}
use mathlib.Core.List.{List, [], ◌∷◌, ◌++◌}
use learncc.Prelude.Lists.{take, drop}

abbrev pub Every {ℓ κ} : {A : Type ℓ} → (A → Type κ) → List A → Type κ
Every P [] = Unit
Every P (x ∷ xs) = P x × Every P xs

module _ {ℓ κ} {A : Type ℓ} (P : A → Type κ) where
  pub Every-append : (xs ys : List A) → Every P xs → Every P ys → Every P (xs ++ ys)
  Every-append [] ys hx hy = hy
  Every-append (x ∷ xs) ys (h, hx) hy = (h, Every-append xs ys hx hy)

  pub Every-take : (n : ℕ) (xs : List A) → Every P xs → Every P (take n xs)
  Every-take zero xs h = tt
  Every-take (suc n) [] h = tt
  Every-take (suc n) (x ∷ xs) (h, t) = (h, Every-take n xs t)

  pub Every-drop : (n : ℕ) (xs : List A) → Every P xs → Every P (drop n xs)
  Every-drop zero xs h = h
  Every-drop (suc n) [] h = tt
  Every-drop (suc n) (x ∷ xs) (h, t) = Every-drop n xs t

pub Every-mono {ℓ κ μ} :
    {A : Type ℓ} {P : A → Type κ} {Q : A → Type μ} (xs : List A)
    → ((x : A) → P x → Q x)
    → Every P xs
    → Every Q xs
Every-mono [] f h = tt
Every-mono (x ∷ xs) f (h, t) = (f x h, Every-mono xs f t)
