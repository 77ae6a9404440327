-- ===== src/MemoryPool/PageCache/Tiling.antt =====
-- Spans never overlap, every page of a span is mapped to it, and the lists hold what is free.
use learncc.Prelude.{
  ℕ, ◌+◌, ◌≤◌, ◌<◌, ◌^◌, ◌≡◌, ◌≢◌, ◌⊎◌, inl, inr, refl, ap, Bool, true, false, ◌&&◌, List, [], ◌∷◌,
  Option, none, some, ltb, leb, ◌==◌, if◌then◌else◌, arith, count, put, Bool-cases, Option-cases,
}
use learncc.MemoryPool.PageCache.{Cache, make, npages, unlink}

-- Shared by the states: no two spans overlap, and none reaches the end of the page numbers.
pub record IsApart (c : Cache) : Type 0 where
  pub apart : (i j : ℕ) → i < j → 1 ≤ c.size i → 1 ≤ c.size j → i + c.size i ≤ j
  pub bounded : (i : ℕ) → 1 ≤ c.size i → i + c.size i ≤ 2 ^ 52

-- A span is on the list of its length if it is not used, and on no other.
abbrev pub IsListed : Cache → ℕ → Type 0
IsListed c i =
    (k : ℕ) → count i (c.lists k) ≡ (if c.size i == k && (c.used i == 0 && ltb 0 k) then 1 else 0)

abbrev pub IsUnlisted : Cache → ℕ → Type 0
IsUnlisted c i = (k : ℕ) → count i (c.lists k) ≡ 0

-- How many pages of a span are mapped to it: all, or the first one of a span that is too long for the
-- lists.
abbrev pub extent : ℕ → ℕ
extent n = if leb npages n then 1 else n

-- The map from pages to spans is right at a page, and complete at a span.
abbrev pub IsOwned : Cache → ℕ → Type 0
IsOwned c p = (i : ℕ) → c.owner p ≡ some i → (i ≤ p) × (p < i + extent (c.size i))

abbrev pub IsCovered : Cache → ℕ → Type 0
IsCovered c i = (p : ℕ) → i ≤ p → p < i + extent (c.size i) → c.owner p ≡ some i

pub record IsTiled (c : Cache) : Type 0 where
  pub spans : IsApart c
  pub owned : (p : ℕ) → IsOwned c p
  pub covered : (i : ℕ) → IsCovered c i
  pub listed : (i : ℕ) → IsListed c i

-- The span at `s` was taken off its list and is not used yet, or no longer.
pub record IsHeld (c : Cache) (s : ℕ) : Type 0 where
  pub spans : IsApart c
  pub owned : (p : ℕ) → IsOwned c p
  pub covered : (i : ℕ) → IsCovered c i
  pub listed : (i : ℕ) → i ≢ s → IsListed c i
  pub unlisted : IsUnlisted c s
  pub there : 1 ≤ c.size s
  pub idle : c.used s ≡ 0

abbrev pub is_some : Option ℕ → Bool
is_some none = false
is_some (some i) = true

-- The same while the span grows: its pages need not be mapped to it.
pub record IsMerging (c : Cache) (s : ℕ) : Type 0 where
  pub spans : IsApart c
  pub owned : (p : ℕ) → (p < s) ⊎ (s + c.size s ≤ p) → IsOwned c p
  pub covered : (i : ℕ) → i ≢ s → IsCovered c i
  pub listed : (i : ℕ) → i ≢ s → IsListed c i
  pub unlisted : IsUnlisted c s
  pub there : 1 ≤ c.size s
  pub mapped : (p : ℕ) → s ≤ p → p < s + c.size s → is_some (c.owner p) ≡ true
  pub short : c.size s < npages
  pub idle : c.used s ≡ 0

pub IsHeld-IsMerging : (c : Cache) (s : ℕ) → IsHeld c s → c.size s < npages → IsMerging c s
IsHeld-IsMerging c s v h = record {
  spans = v.spans;
  owned = λ p o. v.owned p;
  covered = λ i n. v.covered i;
  listed = v.listed;
  unlisted = v.unlisted;
  there = v.there;
  mapped = λ p low high. ap is_some (v.covered s p low (ground arith));
  short = h;
  idle = v.idle;
}

pub count-unlink :
    (i j : ℕ) (xs : List ℕ) {ys : List ℕ}
    → unlink i xs ≡ some ys
    → count j ys + count j (i ∷ []) ≡ count j xs
unfolding unlink
count-unlink i j [] e = absurd (ground arith)
count-unlink i j (x ∷ xs) e = elim (Option-cases (unlink i xs)) [
  | inl gone ↦ ground arith
  | inr (ys, found) ↦ ground (arith, count-unlink i j xs found)
]

pub unlink-some : (i : ℕ) (xs : List ℕ) → 1 ≤ count i xs → (ys : List ℕ) × (unlink i xs ≡ some ys)
unfolding unlink
unlink-some i [] h = absurd (omega arith)
unlink-some i (x ∷ xs) h = elim (Bool-cases (x == i)) [
  | inl here ↦ (xs, rw (here, unlink) refl)
  | inr later ↦ let (ys, e) = unlink-some i xs (ground arith) in (x ∷ ys, ground (arith, e))
]

pub make-IsTiled : IsTiled make
make-IsTiled = record {
  spans = record {
    apart = λ i j h a b. absurd (omega arith);
    bounded = λ i a. absurd (omega arith);
  };
  owned = λ p i e. absurd (ground arith);
  covered = λ i p h k. absurd (omega arith);
  listed = λ i k. ground arith;
}

-- A caller uses the span, or stops to.
pub use-IsTiled :
    (c : Cache) (s n : ℕ) → IsHeld c s → 1 ≤ n → IsTiled (record c { used = put c.used s n })
use-IsTiled c s n v h = record {
  spans = record { apart = v.spans.apart; bounded = v.spans.bounded };
  owned = v.owned;
  covered = v.covered;
  listed = λ i k. elim (Bool-cases (s == i)) [
    | inl same ↦ ground (arith, v.unlisted k)
    | inr other ↦ ground (arith, v.listed i (λ e. ground arith) k)
  ];
}

pub free-IsHeld :
    (c : Cache) (s : ℕ)
    → IsTiled c
    → 1 ≤ c.used s
    → 1 ≤ c.size s
    → IsHeld (record c { used = put c.used s 0 }) s
free-IsHeld c s v h k = record {
  spans = record { apart = v.spans.apart; bounded = v.spans.bounded };
  owned = v.owned;
  covered = v.covered;
  listed = λ i n m. ground (arith, v.listed i m);
  unlisted = λ m. ground (arith, v.listed s m);
  there = k;
  idle = ground arith;
}
