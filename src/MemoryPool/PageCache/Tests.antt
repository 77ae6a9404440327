-- ===== src/MemoryPool/PageCache/Tests.antt =====
-- The theorems on the page cache at a grant of three pages from an empty one.
use learncc.Prelude.{ℕ, ◌+◌, ◌^◌, ◌≤◌, ◌≡◌, refl, some, arith}
use learncc.MemoryPool.PageCache.{
  Cache, make, first_list, split, find_with, find, grow, take_new, new_span, span, bad_alloc, again,
  set_used, merged, fault, release,
}
use learncc.MemoryPool.PageCache.Tiling.{IsTiled, IsHeld, is_some, make-IsTiled, use-IsTiled}
use learncc.MemoryPool.PageCache.Grant.{zeroed, IsFree}
use learncc.MemoryPool.PageCache.Release.{release_small}
use learncc.MemoryPool.PageCache.Runs.{
  here, next, take_span, new_span-IsHeld, IsHeld-new_span, reached-IsTiled, release_beside_new,
}

make-IsFree : (a n : ℕ) → a + n ≤ 2 ^ 52 → IsFree make a n
make-IsFree a n h = record {
  behind = λ i l x. absurd (omega arith);
  before = λ i l x. absurd (omega arith);
  below = h;
}

-- The last three of 128 pages from 1000 on are cut off.
abbrev granted : Cache
granted = elim (new_span zeroed 3 (some 1000) make) [
  | span i c ↦ c
  | bad_alloc ↦ make
  | again ↦ make
]

granted_lem : new_span zeroed 3 (some 1000) make ≡ span 1125 granted
unfolding new_span take_new find find_with first_list split grow
granted_lem = refl

granted-IsHeld : IsHeld granted 1125
granted-IsHeld =
    IsHeld-new_span zeroed make 3 1000 1125 granted (λ p. refl) make-IsTiled (omega arith)
      (make-IsFree 1000 128 (omega arith)) granted_lem

new_span-IsHeld_example :
    (i : ℕ) × ((c : Cache) × (new_span zeroed 3 (some 1000) make ≡ span i c)
      × IsHeld c i
      × (c.size i ≡ 3))
new_span-IsHeld_example =
    new_span-IsHeld zeroed make 3 1000 (λ p. refl) make-IsTiled (omega arith)
      (make-IsFree 1000 128 (omega arith))

reached-IsTiled_example : IsTiled (set_used 1125 1 granted)
reached-IsTiled_example =
    reached-IsTiled {raw = zeroed} (λ p. refl)
      (next make (set_used 1125 1 granted) (set_used 1125 1 granted)
        (take_span make 3 1000 1125 1 granted (omega arith) (omega arith)
          (make-IsFree 1000 128 (omega arith)) granted_lem)
        (here (set_used 1125 1 granted)))

abbrev in_use : Cache
in_use = set_used 1125 1 granted

release_small_example :
    (t : ℕ) × ((c : Cache) × (release 1125 (set_used 1125 0 in_use) ≡ merged t c)
      × IsTiled c
      × (t ≤ 1125)
      × (1125 + in_use.size 1125 ≤ t + c.size t)
      × (c.used t ≡ 0)
      × ((p : ℕ) → is_some (c.owner p) ≡ is_some (in_use.owner p)))
unfolding new_span take_new find find_with first_list split grow
release_small_example =
    release_small in_use 1125 (use-IsTiled granted 1125 1 granted-IsHeld (omega arith))
      (omega arith) (omega arith) (omega arith)

-- Then two pages are granted, right in front of the three.
abbrev granted_two : Cache
granted_two = elim (new_span zeroed 2 (some 5000) in_use) [
  | span i c ↦ c
  | bad_alloc ↦ make
  | again ↦ make
]

granted_two_lem : new_span zeroed 2 (some 5000) in_use ≡ span 1123 granted_two
unfolding new_span take_new find find_with first_list split grow
granted_two_lem = refl

in_use-IsFree : IsFree in_use 5000 128
unfolding new_span take_new find find_with first_list split grow
in_use-IsFree = record {
  behind = λ i l x. ground arith;
  before = λ i l x. absurd (ground arith);
  below = omega arith;
}

release_beside_new_example : release 1125 (set_used 1125 0 granted_two) ≡ fault
unfolding new_span take_new find find_with first_list split grow
release_beside_new_example =
    release_beside_new zeroed in_use 2 5000 1125 1123 granted_two (λ p. refl)
      (use-IsTiled granted 1125 1 granted-IsHeld (omega arith)) (omega arith) in_use-IsFree
      granted_two_lem (omega arith) (omega arith) (omega arith)
