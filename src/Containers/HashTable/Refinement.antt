-- ===== src/Containers/HashTable/Refinement.antt =====
-- The table does what a map from keys to values does.
use learncc.Prelude.{
  ℕ, suc, ◌≤◌, ◌≡◌, refl, ap, List, [], ◌∷◌, Option, none, some, ◌==◌, if◌then◌else◌, put, arith,
}
use learncc.Containers.HashTable.{
  find_entry, value_for, add, erase, Table, make, index, find, insert, remove,
}

-- How many entries have a key.
pub copies : {A : Type 0} → ℕ → List (ℕ × A) → ℕ
copies k [] = 0
copies k (x ∷ xs) = let later = copies k xs in if x.0 == k then suc later else later

module _ {A : Type 0} where
  find_entry-add :
      (k : ℕ) (v : A) (j : ℕ) (xs : List (ℕ × A))
      → find_entry j (add k v xs) ≡ (if k == j then some v else find_entry j xs)
  unfolding find_entry add
  find_entry-add k v j [] = ground arith
  find_entry-add k v j (x ∷ xs) = ground (arith, find_entry-add k v j xs)

  copies-add :
      (k : ℕ) (v : A) (j : ℕ) (xs : List (ℕ × A))
      → copies j (add k v xs)
        ≡ (if k == j then (if copies j xs == 0 then 1 else copies j xs) else copies j xs)
  unfolding copies add
  copies-add k v j [] = ground arith
  copies-add k v j (x ∷ xs) = ground (arith, copies-add k v j xs)

  find_entry-none : (k : ℕ) (xs : List (ℕ × A)) → copies k xs ≡ 0 → find_entry k xs ≡ none
  unfolding find_entry copies
  find_entry-none k [] h = refl
  find_entry-none k (x ∷ xs) h = ground (arith, find_entry-none k xs)

  find_entry-erase :
      (k j : ℕ) (xs : List (ℕ × A))
      → copies k xs ≤ 1
      → find_entry j (erase k xs) ≡ (if k == j then none else find_entry j xs)
  unfolding find_entry erase copies
  find_entry-erase k j [] h = ground arith
  find_entry-erase k j (x ∷ xs) h = ground (arith, find_entry-erase k j xs, find_entry-none k xs)

  copies-erase : (k j : ℕ) (xs : List (ℕ × A)) → copies j (erase k xs) ≤ copies j xs
  unfolding copies erase
  copies-erase k j [] = omega arith
  copies-erase k j (x ∷ xs) = ground (arith, copies-erase k j xs)

-- What is done to a table.
pub data Change (A : Type 0) : Type 0 where
  inserts : ℕ → A → Change A
  removes : ℕ → Change A

unfoldable pub apply : {A : Type 0} → Change A → Table A → Table A
unfolding insert remove
apply (inserts k v) t = insert k v t
apply (removes k) t = remove k t

unfoldable pub apply_all : {A : Type 0} → List (Change A) → Table A → Table A
apply_all [] t = t
apply_all (c ∷ cs) t = apply_all cs (apply c t)

-- The same on a map.
unfoldable pub change : {A : Type 0} → Change A → (ℕ → Option A) → ℕ → Option A
change (inserts k v) m = put m k (some v)
change (removes k) m = put m k none

unfoldable pub change_all : {A : Type 0} → List (Change A) → (ℕ → Option A) → ℕ → Option A
change_all [] m = m
change_all (c ∷ cs) m = change_all cs (change c m)

-- The table holds the map, and no bucket has two entries with one key.
record Holds {A : Type 0} (t : Table A) (m : ℕ → Option A) : Type 0 where
  found : (k : ℕ) → find_entry k (t.buckets (index k t)) ≡ m k
  once : (i k : ℕ) → copies k (t.buckets i) ≤ 1

insert-Holds :
    {A : Type 0} (k : ℕ) (v : A) (t : Table A) (m : ℕ → Option A)
    → Holds t m
    → Holds (insert k v t) (put m k (some v))
unfolding insert
insert-Holds k v t m h = record {
  found = λ j. ground (arith, h.found j, h.found k, find_entry-add k v j (t.buckets (index k t)));
  once = λ i j.
      ground (arith, h.once i j, h.once (index k t) j, copies-add k v j (t.buckets (index k t)));
}

remove-Holds :
    {A : Type 0} (k : ℕ) (t : Table A) (m : ℕ → Option A)
    → Holds t m
    → Holds (remove k t) (put m k none)
unfolding remove
remove-Holds k t m h = record {
  found = λ j. ground (
    arith,
    h.found j,
    h.found k,
    find_entry-erase k j (t.buckets (index k t)) (h.once (index k t) k),
  );
  once = λ i j.
      ground (arith, h.once i j, h.once (index k t) j, copies-erase k j (t.buckets (index k t)));
}

apply_all-Holds :
    {A : Type 0} (cs : List (Change A)) (t : Table A) (m : ℕ → Option A)
    → Holds t m
    → Holds (apply_all cs t) (change_all cs m)
unfolding apply_all apply change_all change
apply_all-Holds [] t m h = h
apply_all-Holds (inserts k v ∷ cs) t m h =
    apply_all-Holds cs (insert k v t) (put m k (some v)) (insert-Holds k v t m h)
apply_all-Holds (removes k ∷ cs) t m h =
    apply_all-Holds cs (remove k t) (put m k none) (remove-Holds k t m h)

-- After any insertions and removals a search gives what it gives in a map to which the same was done:
-- the value last inserted and not removed since, else the default value; whatever the hash function is,
-- with one bucket at least.
pub find-apply_all :
    {A : Type 0} (cs : List (Change A)) (bucket_num : ℕ) (hasher : ℕ → ℕ) (k : ℕ) (d : A)
    → 1 ≤ bucket_num
    → find k d (apply_all cs (make bucket_num hasher))
      ≡ elim (change_all cs (λ j. none) k) [ none ↦ d | some v ↦ v ]
unfolding find value_for make find_entry copies
find-apply_all cs bucket_num hasher k d some_buckets =
    let empty : Holds (make bucket_num hasher) (λ j. none) = record {
      found = λ j. refl;
      once = λ i j. omega arith;
    } in
    ap (λ o. elim o [ none ↦ d | some v ↦ v ])
      ((apply_all-Holds cs (make bucket_num hasher) (λ j. none) empty).found k)
