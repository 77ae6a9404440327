-- ===== src/MemoryPool/PageCache/Release.antt =====
-- `release_to_pagecache` as a whole.
use learncc.Prelude.{
  ℕ, ◌+◌, ◌≤◌, ◌<◌, ◌≡◌, ◌≢◌, ◌⊎◌, inl, inr, ap, ◌∙◌, false, ◌&&◌, none, some, ltb, leb, ◌==◌,
  if◌then◌else◌, arith, put, fill_from_lem, Bool-cases,
}
use learncc.MemoryPool.PageCache.{Cache, npages, merged, settle, release, set_used}
use learncc.MemoryPool.PageCache.Tiling.{
  IsOwned, IsCovered, IsTiled, IsMerging, is_some, IsHeld-IsMerging, free-IsHeld,
}
use learncc.MemoryPool.PageCache.Merging.{merge_back_lem, merge_next_lem}

owner_settle :
    (c : Cache) (s p : ℕ)
    → (settle s c).owner p ≡ (if leb s p && ltb p (s + c.size s) then some s else c.owner p)
unfolding settle
owner_settle c s p = fill_from_lem (c.size s) s (some s) c.owner p

not_inside : (s n p : ℕ) → (leb s p && ltb p (s + n)) ≡ false → (p < s) ⊎ (s + n ≤ p)
not_inside s n p e = elim (Bool-cases (ltb p s)) [
  | inl below ↦ inl (ground arith)
  | inr above ↦ inr (ground arith)
]

settle-IsOwned : (c : Cache) (s p : ℕ) → IsMerging c s → IsOwned (settle s c) p
unfolding settle
settle-IsOwned c s p v i e = elim (Bool-cases (leb s p && ltb p (s + c.size s))) [
  | inl inside ↦ ground (arith, fill_from_lem (c.size s) s (some s) c.owner p)
  | inr outside ↦
      v.owned p (not_inside s (c.size s) p outside) i
        (ground (arith, fill_from_lem (c.size s) s (some s) c.owner p))
]

settle-IsCovered : (c : Cache) (s i : ℕ) → IsMerging c s → IsCovered (settle s c) i
unfolding settle
settle-IsCovered c s i v p low high = elim (Bool-cases (s == i)) [
  | inl same ↦ ground (arith, fill_from_lem (c.size s) s (some s) c.owner p)
  | inr other ↦ ground (
    arith,
    fill_from_lem (c.size s) s (some s) c.owner p,
    v.covered i (λ e. ground arith) p low high,
    v.spans.apart i s,
    v.spans.apart s i,
    v.there,
  )
]

settle-IsTiled : (c : Cache) (s : ℕ) → IsMerging c s → IsTiled (settle s c)
unfolding settle
settle-IsTiled c s v = record {
  spans = record { apart = v.spans.apart; bounded = v.spans.bounded };
  owned = λ p. unfold settle in settle-IsOwned c s p v;
  covered = λ i. settle-IsCovered c s i v;
  listed = λ i k. elim (Bool-cases (s == i)) [
    | inl same ↦ ground (arith, v.unlisted k, v.there, v.idle)
    | inr other ↦ ground (arith, v.listed i (λ e. ground arith) k)
  ];
}

-- A page is mapped to some span after `settle` exactly if it was before.
settle_mapped :
    (c : Cache) (s p : ℕ) → IsMerging c s → is_some ((settle s c).owner p) ≡ is_some (c.owner p)
unfolding settle
settle_mapped c s p v = ground (arith, fill_from_lem (c.size s) s (some s) c.owner p, v.mapped p)

-- A span of at most 128 pages whose use has ended is given back without a fault: the two loops end.
-- The cache is well formed again, one free span covers its pages and those of the neighbours that were
-- merged into it, and the pages that are mapped to spans are the same as before.
pub release_small :
    (c : Cache) (s : ℕ)
    → IsTiled c
    → 1 ≤ c.used s
    → 1 ≤ c.size s
    → c.size s < npages
    → (t : ℕ) × ((c' : Cache) × (release s (set_used s 0 c) ≡ merged t c')
        × IsTiled c'
        × (t ≤ s)
        × (s + c.size s ≤ t + c'.size t)
        × (c'.used t ≡ 0)
        × ((p : ℕ) → is_some (c'.owner p) ≡ is_some (c.owner p)))
unfolding release settle
release_small c s v u h k =
    let start : Cache = set_used s 0 c in
    let growing = IsHeld-IsMerging start s (free-IsHeld c s v u h) k in
    let (t, (back, run, (valid, low, high, same), ends)) =
      merge_back_lem npages s start growing (omega arith) in
    let (both, run', (valid', low', high', same')) =
      merge_next_lem npages t back valid (omega (arith, valid.there)) in
    (
      t,
      (
        settle t both,
        rw (run, run') (ground arith),
        settle-IsTiled both t valid',
        low,
        omega arith,
        valid'.idle,
        λ p. settle_mapped both t p valid' ∙ ap (λ o. is_some (o p)) (same' ∙ same),
      ),
    )

-- A longer span goes back to the system, and nothing is left of it.
pub release_large :
    (c : Cache) (s : ℕ)
    → IsTiled c
    → 1 ≤ c.used s
    → npages ≤ c.size s
    → (c' : Cache) × (release s (set_used s 0 c) ≡ merged s c')
      × IsTiled c'
      × (c'.size s ≡ 0)
      × ((p : ℕ) → p ≢ s → c'.owner p ≡ c.owner p)
unfolding release
release_large c s v u h = (
  record c { owner = put c.owner s none; size = put c.size s 0; used = put c.used s 0 },
  ground arith,
  record {
    spans = record {
      apart = λ i j l x y. ground (arith, v.spans.apart i j);
      bounded = λ i x. ground (arith, v.spans.bounded i);
    };
    owned = λ p i e. ground (arith, v.owned p i, v.spans.apart s i, v.spans.apart i s);
    covered = λ i p low high. ground (arith, v.covered i p, v.spans.apart s i, v.spans.apart i s);
    listed = λ i k. ground (arith, v.listed i k);
  },
  ground arith,
  λ p n. ground arith,
)
