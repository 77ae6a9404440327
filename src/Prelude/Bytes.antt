-- ===== src/Prelude/Bytes.antt =====
-- Copies into an array, and the part of an array between two indices.
use Prim.Native.Nat.{ℕ, zero, suc, ◌+◌, ◌+◌, ◌-◌, ◌≤◌}
use mathlib.Core.Path.{◌≡◌, refl, ap, subst}
use mathlib.Core.List.{List, [], ◌∷◌, ◌++◌}
use native.Mathlib.Omega.{arith}
use native.Mathlib.Nat.{zero-add}
use learncc.Prelude.Lists.{length, take, drop}

module _ {ℓ} {A : Type ℓ} where
  -- `std::copy(xs.begin(), xs.end(), buf.begin() + i)`; what lies past the end is not written.
  abbrev pub overwrite : ℕ → List A → List A → List A
  overwrite i xs [] = []
  overwrite zero [] (b ∷ bs) = b ∷ bs
  overwrite zero (x ∷ xs) (b ∷ bs) = x ∷ overwrite zero xs bs
  overwrite (suc i) xs (b ∷ bs) = b ∷ overwrite i xs bs

  -- `std::vector::resize(n)`, which fills with `a` and truncates.
  abbrev pub resize : ℕ → A → List A → List A
  resize zero a xs = []
  resize (suc n) a [] = a ∷ resize n a []
  resize (suc n) a (x ∷ xs) = x ∷ resize n a xs

  -- The elements at the indices from `i` up to `j`.
  abbrev pub slice : ℕ → ℕ → List A → List A
  slice i j xs = take (j - i) (drop i xs)

module _ {ℓ} {A : Type ℓ} where
  pub length-overwrite : (i : ℕ) (xs buf : List A) → length (overwrite i xs buf) ≡ length buf
  length-overwrite i xs [] = refl
  length-overwrite zero [] (b ∷ bs) = refl
  length-overwrite zero (x ∷ xs) (b ∷ bs) = ap suc (length-overwrite zero xs bs)
  length-overwrite (suc i) xs (b ∷ bs) = ap suc (length-overwrite i xs bs)

  pub length-resize : (n : ℕ) (a : A) (xs : List A) → length (resize n a xs) ≡ n
  length-resize zero a xs = refl
  length-resize (suc n) a [] = ap suc (length-resize n a [])
  length-resize (suc n) a (x ∷ xs) = ap suc (length-resize n a xs)

  pub take-resize :
      (k n : ℕ) (a : A) (xs : List A) → k ≤ n → k ≤ length xs → take k (resize n a xs) ≡ take k xs
  take-resize zero n a xs h g = refl
  take-resize (suc k) zero a xs h g = absurd (omega arith)
  take-resize (suc k) (suc n) a [] h g = absurd (omega arith)
  take-resize (suc k) (suc n) a (x ∷ xs) h g =
      ap (λ l. x ∷ l) (take-resize k n a xs (omega arith) (omega arith))

  take-overwrite :
      (xs buf : List A) → length xs ≤ length buf → take (length xs) (overwrite 0 xs buf) ≡ xs
  take-overwrite [] buf h = refl
  take-overwrite (x ∷ xs) [] h = absurd (omega arith)
  take-overwrite (x ∷ xs) (b ∷ bs) h = ap (λ l. x ∷ l) (take-overwrite xs bs (omega arith))

  -- Writing `xs` behind `k` elements extends these by `xs`.
  pub take-overwrite_extend :
      (i k n : ℕ) (xs buf : List A)
      → n ≡ k + length xs
      → i + n ≤ length buf
      → take n (drop i (overwrite (i + k) xs buf)) ≡ take k (drop i buf) ++ xs
  take-overwrite_extend zero zero n xs buf e h =
      let e' : n ≡ length xs = omega arith in
      rw (e', zero-add) (take-overwrite xs buf (omega arith))
  take-overwrite_extend zero (suc k) zero xs buf e h = absurd (omega arith)
  take-overwrite_extend zero (suc k) (suc n) xs [] e h = absurd (omega arith)
  take-overwrite_extend zero (suc k) (suc n) xs (b ∷ bs) e h =
      let p : zero + suc k ≡ suc (zero + k) = omega arith in
      rw p (ap (λ l. b ∷ l) (take-overwrite_extend zero k n xs bs (omega arith) (omega arith)))
  take-overwrite_extend (suc i) k n xs [] e h = absurd (omega arith)
  take-overwrite_extend (suc i) k n xs (b ∷ bs) e h =
      let p : suc i + k ≡ suc (i + k) = omega arith in
      rw p (take-overwrite_extend i k n xs bs e (omega arith))

  -- Writing at `i` puts the elements there.
  pub take-drop-overwrite :
      (i : ℕ) (xs buf : List A)
      → i + length xs ≤ length buf
      → take (length xs) (drop i (overwrite i xs buf)) ≡ xs
  take-drop-overwrite i xs buf h =
      let e : i + 0 ≡ i = omega arith in
      subst (λ k. take (length xs) (drop i (overwrite k xs buf)) ≡ xs) e
        (take-overwrite_extend i 0 (length xs) xs buf (omega arith) h)

  pub take-drop-resize :
      (i k n : ℕ) (a : A) (xs : List A)
      → i + k ≤ n
      → i + k ≤ length xs
      → take k (drop i (resize n a xs)) ≡ take k (drop i xs)
  take-drop-resize zero k n a xs h g = take-resize k n a xs (omega arith) (omega arith)
  take-drop-resize (suc i) k zero a xs h g = absurd (omega arith)
  take-drop-resize (suc i) k (suc n) a [] h g = absurd (omega arith)
  take-drop-resize (suc i) k (suc n) a (x ∷ xs) h g =
      take-drop-resize i k n a xs (omega arith) (omega arith)

  pub drop-drop : (i j : ℕ) (xs : List A) → drop i (drop j xs) ≡ drop (j + i) xs
  drop-drop i zero xs = rw zero-add
  drop-drop zero (suc j) [] = let e : suc j + 0 ≡ suc j = omega arith in rw e
  drop-drop (suc i) (suc j) [] = let e : suc j + suc i ≡ suc (j + suc i) = omega arith in rw e
  drop-drop i (suc j) (x ∷ xs) =
      let e : suc j + i ≡ suc (j + i) = omega arith in rw e (drop-drop i j xs)

  pub take-drop_comm : (i k : ℕ) (xs : List A) → take k (drop i xs) ≡ drop i (take (i + k) xs)
  take-drop_comm zero k xs = rw zero-add
  take-drop_comm (suc i) zero [] = let e : suc i + 0 ≡ suc i = omega arith in rw e
  take-drop_comm (suc i) (suc k) [] = let e : suc i + suc k ≡ suc (i + suc k) = omega arith in rw e
  take-drop_comm (suc i) k (x ∷ xs) =
      let e : suc i + k ≡ suc (i + k) = omega arith in rw e (take-drop_comm i k xs)

  pub take_all : (k : ℕ) (xs : List A) → length xs ≤ k → take k xs ≡ xs
  take_all zero [] h = refl
  take_all zero (x ∷ xs) h = absurd (omega arith)
  take_all (suc k) [] h = refl
  take_all (suc k) (x ∷ xs) h = ap (λ l. x ∷ l) (take_all k xs (omega arith))

  pub drop_all : (k : ℕ) (xs : List A) → length xs ≤ k → drop k xs ≡ []
  drop_all zero [] h = refl
  drop_all zero (x ∷ xs) h = absurd (omega arith)
  drop_all (suc k) [] h = refl
  drop_all (suc k) (x ∷ xs) h = drop_all k xs (omega arith)

  pub take-take : (k n : ℕ) (xs : List A) → k ≤ n → take k (take n xs) ≡ take k xs
  take-take zero n xs h = refl
  take-take (suc k) zero xs h = absurd (omega arith)
  take-take (suc k) (suc n) [] h = refl
  take-take (suc k) (suc n) (x ∷ xs) h = ap (λ l. x ∷ l) (take-take k n xs (omega arith))
