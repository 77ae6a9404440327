-- ===== src/Containers/HashTable.antt =====
-- inc/public/ts_hash_tbl.h: a table of buckets. Each operation holds the lock of its bucket, so that
-- operations are one after the other; keys are numbers, and the hash function is an argument.
pub mod Refinement
mod Tests
use learncc.Prelude.{
  ℕ, zero, suc, ◌+◌, ◌%◌, ◌≤◌, ◌≡◌, Bool, true, false, List, [], ◌∷◌, ◌++◌, Option, none, some,
  ◌==◌, if◌then◌else◌, put,
}

-- `find_entry` and what it leads to: the value of the first entry with this key.
pub find_entry : {A : Type 0} → ℕ → List (ℕ × A) → Option A
find_entry k [] = none
find_entry k (x ∷ xs) = let later = find_entry k xs in if x.0 == k then some x.1 else later

abbrev or_default : {A : Type 0} → A → Option A → A
or_default d none = d
or_default d (some v) = v

pub value_for : {A : Type 0} → ℕ → A → List (ℕ × A) → A
unfolding find_entry
value_for k d xs = or_default d (find_entry k xs)

-- A key that is there gets the value, another one goes to the end.
pub add : {A : Type 0} → ℕ → A → List (ℕ × A) → List (ℕ × A)
add k v [] = (k, v) ∷ []
add k v (x ∷ xs) = let later = add k v xs in if x.0 == k then (k, v) ∷ xs else x ∷ later

-- `remove` of a bucket, which erases one entry.
pub erase : {A : Type 0} → ℕ → List (ℕ × A) → List (ℕ × A)
erase k [] = []
erase k (x ∷ xs) = let later = erase k xs in if x.0 == k then xs else x ∷ later

-- `buckets_` and `hasher_`.
pub record Table (A : Type 0) : Type 0 where
  pub bucket_num : ℕ
  pub hasher : ℕ → ℕ
  pub buckets : ℕ → List (ℕ × A)

pub make : {A : Type 0} → ℕ → (ℕ → ℕ) → Table A
make bucket_num hasher = record { bucket_num = bucket_num; hasher = hasher; buckets = λ i. [] }

abbrev pub index : {A : Type 0} → ℕ → Table A → ℕ
index k t = t.hasher k % t.bucket_num

pub find : {A : Type 0} → ℕ → A → Table A → A
unfolding value_for
find k d t = value_for k d (t.buckets (index k t))

pub insert : {A : Type 0} → ℕ → A → Table A → Table A
unfolding add
insert k v t = record t { buckets = put t.buckets (index k t) (add k v (t.buckets (index k t))) }

pub remove : {A : Type 0} → ℕ → Table A → Table A
unfolding erase
remove k t = record t { buckets = put t.buckets (index k t) (erase k (t.buckets (index k t))) }
