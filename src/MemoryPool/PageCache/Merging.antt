-- ===== src/MemoryPool/PageCache/Merging.antt =====
-- The loops of `release_to_pagecache`: they end, they never touch a span that is on no list, and they
-- leave one span that is as long as those it swallowed.
use learncc.Prelude.{
  ℕ, zero, suc, ◌+◌, ◌≤◌, ◌<◌, ◌≡◌, ◌≢◌, ◌⊎◌, inl, inr, refl, ap, sym, ◌∙◌, true, false, ◌&&◌, List,
  [], ◌∷◌, some, ltb, leb, ◌==◌, if◌then◌else◌, arith, count, put, Bool-cases, Option-cases,
  sub_size,
}
use learncc.MemoryPool.PageCache.{
  Cache, npages, unlink, stops, erase, without, absorb, merged, merge_back, merge_next,
}
use learncc.MemoryPool.PageCache.Tiling.{
  IsApart, IsListed, IsUnlisted, IsOwned, IsCovered, IsMerging, is_some, count-unlink, unlink-some,
}

-- `free` is off its list, of which `ys` is left, and `a` has taken `b` over.
abbrev pub swallowed : Cache → (a b free : ℕ) → List ℕ → Cache
swallowed c a b free ys = absorb a b (record c { lists = put c.lists (c.size free) ys })

-- Two spans that touch, `a` in front of `b`. One of them is on its list, the other is being released;
-- `a` takes `b` over.
module _ (c : Cache) (a b free kept : ℕ) (ys : List ℕ)
    (pair : ((free ≡ a) × (kept ≡ b)) ⊎ ((free ≡ b) × (kept ≡ a))) (v : IsMerging c kept)
    (touch : a + c.size a ≡ b) (there : 1 ≤ c.size free) (idle : c.used free ≡ 0)
    (fits : c.size a + c.size b < npages)
    (taken : unlink free (c.lists (c.size free)) ≡ some ys) where
  abbrev joined : Cache
  joined = swallowed c a b free ys

  some_a : 1 ≤ c.size a
  some_a = ground (arith, v.there)

  some_b : 1 ≤ c.size b
  some_b = ground (arith, v.there)

  both_idle : (c.used a ≡ 0) × (c.used b ≡ 0)
  both_idle = ground (arith, v.idle)

  joined-IsApart : IsApart joined
  joined-IsApart = record {
    apart = λ i j l x y. ground (
      arith,
      some_a,
      some_b,
      v.spans.apart i j,
      v.spans.apart b j,
      v.spans.apart i b,
      v.spans.apart i a,
    );
    bounded = λ i x. ground (arith, some_a, some_b, v.spans.bounded b, v.spans.bounded i);
  }

  outside :
      (p : ℕ) → (p < a) ⊎ (a + (c.size a + c.size b) ≤ p) → (p < kept) ⊎ (kept + c.size kept ≤ p)
  outside p (inl low) = inl (ground (arith, some_a))
  outside p (inr high) = inr (ground (arith, some_a))

  joined-IsOwned : (p : ℕ) → (p < a) ⊎ (a + (c.size a + c.size b) ≤ p) → IsOwned joined p
  joined-IsOwned p o i e =
      let (low, high) = v.owned p (outside p o) i e in ground (arith, some_a, some_b)

  joined-IsCovered : (i : ℕ) → i ≢ a → IsCovered joined i
  joined-IsCovered i n p low high = elim (Bool-cases (b == i)) [
    | inl gone ↦ absurd (ground arith)
    | inr other ↦ v.covered i (λ e. ground arith) p low (ground arith)
  ]

  on_list :
      (i k : ℕ)
      → count i (joined.lists k) + (if c.size free == k then count i (free ∷ []) else 0)
        ≡ count i (c.lists k)
  on_list i k = ground (arith, count-unlink free i (c.lists (c.size free)) taken)

  which : (x : ℕ) → (x ≡ a) ⊎ (x ≡ b) → (x ≡ free) ⊎ (x ≡ kept)
  which x o = ground (arith, pair, o)

  free-IsListed : IsListed c free
  free-IsListed k = v.listed free (λ e. ground arith) k

  off_lists : (x : ℕ) → (x ≡ a) ⊎ (x ≡ b) → (k : ℕ) → count x (joined.lists k) ≡ 0
  off_lists x o k = elim (which x o) [
    | inl at_free ↦ ground (arith, on_list x k, free-IsListed k)
    | inr at_kept ↦ ground (arith, on_list x k, v.unlisted k)
  ]

  joined-IsListed : (i : ℕ) → i ≢ a → IsListed joined i
  joined-IsListed i n k = elim (Bool-cases (b == i)) [
    | inl gone ↦ ground (arith, off_lists i (inr (ground arith)) k, some_a)
    | inr other ↦ ground (arith, on_list i k, v.listed i (λ e. ground arith) k)
  ]

  joined-IsUnlisted : IsUnlisted joined a
  joined-IsUnlisted k = off_lists a (inl refl) k

  joined_mapped : (p : ℕ) → a ≤ p → p < a + (c.size a + c.size b) → is_some (c.owner p) ≡ true
  joined_mapped p low high = elim (Bool-cases (leb free p && ltb p (free + c.size free))) [
    | inl at_free ↦ ap is_some (v.covered free (λ e. ground arith) p (ground arith) (ground arith))
    | inr at_kept ↦ v.mapped p (ground arith) (ground arith)
  ]

  pub joined-IsMerging : IsMerging (swallowed c a b free ys) a
  joined-IsMerging = record {
    spans = joined-IsApart;
    owned = λ p o.
        joined-IsOwned p (elim o [ inl low ↦ inl low | inr high ↦ inr (ground (arith, some_a)) ]);
    covered = joined-IsCovered;
    listed = joined-IsListed;
    unlisted = joined-IsUnlisted;
    there = ground (arith, some_a);
    mapped = λ p low high. joined_mapped p low (ground (arith, some_a));
    short = ground (arith, some_a);
    idle = ground (arith, both_idle);
  }

-- A neighbour that may be merged is on its list, so it is found there.
erase_found :
    (c : Cache) (s j : ℕ)
    → IsMerging c s
    → j ≢ s
    → 1 ≤ c.size j
    → stops j s c ≡ false
    → (ys : List ℕ) × (unlink j (c.lists (c.size j)) ≡ some ys)
      × (erase j c ≡ some (record c { lists = put c.lists (c.size j) ys }))
unfolding erase
erase_found c s j v n h e =
    let (ys, found) =
      unlink-some j (c.lists (c.size j)) (ground (arith, v.listed j n (c.size j))) in
    (ys, found, rw (found, erase, without) refl)

-- What a loop from `s` in `c` ends with: a span at `t` that covers what `s` covered.
abbrev pub Grown : Cache → ℕ → Cache → ℕ → Type 0
Grown c s c' t = IsMerging c' t × (t ≤ s) × (s + c.size s ≤ t + c'.size t) × (c'.owner ≡ c.owner)

-- Where the page in front of a span is owned, its owner ends there.
touches_back :
    (c : Cache) (s j : ℕ)
    → IsMerging c s
    → c.owner (sub_size s 1) ≡ some j
    → (j + c.size j ≡ s) × (j < s) × (1 ≤ c.size j)
touches_back c zero j v e =
    let (low, high) = v.owned (sub_size 0 1) (inr (omega (arith, v.short))) j e in
    absurd (ground (arith, v.spans.bounded j))
touches_back c (suc s) j v e =
    let before : sub_size (suc s) 1 ≡ s = ground (arith, v.spans.bounded (suc s), v.there) in
    let (low, high) = v.owned s (inl (omega arith)) j (ap c.owner (sym before) ∙ e) in
    (ground (arith, v.spans.apart j (suc s), v.there), omega arith, ground arith)

touches_next :
    (c : Cache) (s j : ℕ)
    → IsMerging c s
    → c.owner (s + c.size s) ≡ some j
    → (s + c.size s ≡ j) × (1 ≤ c.size j)
touches_next c s j v e =
    let (low, high) = v.owned (s + c.size s) (inr (omega arith)) j e in
    (ground (arith, v.spans.apart j s, v.spans.apart s j, v.there), ground arith)

pub merge_back_lem :
    (fuel s : ℕ) (c : Cache)
    → IsMerging c s
    → npages < fuel + c.size s
    → (t : ℕ) × ((c' : Cache) × (merge_back fuel s c ≡ merged t c')
        × Grown c s c' t
        × (s + c.size s ≡ t + c'.size t))
unfolding merge_back
merge_back_lem zero s c v h = absurd (omega (arith, v.short))
merge_back_lem (suc fuel) s c v h = elim (Option-cases (c.owner (sub_size s 1))) [
  | inl free_page ↦
      (s, (c, rw (free_page, merge_back) refl, (v, omega arith, omega arith, refl), refl))
  | inr (j, at) ↦ elim (Bool-cases (stops j s c)) [
    | inl stop ↦ (s, (c, rw (at, stop, merge_back) refl, (v, omega arith, omega arith, refl), refl))
    | inr goes_on ↦
        let (ends, below, there) = touches_back c s j v at in
        let (ys, found, erased) = erase_found c s j v (ground arith) there goes_on in
        let one = swallowed c j s j ys in
        let valid =
          joined-IsMerging c j s j s ys (inl (refl, refl)) v ends there (ground arith)
            (ground arith) found in
        let (t, (c', run, (v', low, high, same), end_same)) =
          merge_back_lem fuel j one valid (ground (arith, v.there)) in
        (
          t,
          (
            c',
            rw (at, goes_on, erased, merge_back) run,
            (v', omega arith, ground (arith, v.there), same),
            ground (arith, v.there),
          ),
        )
  ]
]

pub merge_next_lem :
    (fuel s : ℕ) (c : Cache)
    → IsMerging c s
    → npages < fuel + c.size s
    → (c' : Cache) × (merge_next fuel s c ≡ merged s c') × Grown c s c' s
unfolding merge_next
merge_next_lem zero s c v h = absurd (omega (arith, v.short))
merge_next_lem (suc fuel) s c v h = elim (Option-cases (c.owner (s + c.size s))) [
  | inl free_page ↦ (c, rw (free_page, merge_next) refl, (v, omega arith, omega arith, refl))
  | inr (j, at) ↦ elim (Bool-cases (stops j s c)) [
    | inl stop ↦ (c, rw (at, stop, merge_next) refl, (v, omega arith, omega arith, refl))
    | inr goes_on ↦
        let (ends, there) = touches_next c s j v at in
        let (ys, found, erased) = erase_found c s j v (ground (arith, v.there)) there goes_on in
        let valid =
          joined-IsMerging c s j j s ys (inr (refl, refl)) v ends there (ground arith)
            (ground arith) found in
        let (c', run, (v', low, high, same)) =
          merge_next_lem fuel s (swallowed c s j j ys) valid (ground arith) in
        (
          c',
          rw (at, goes_on, erased, merge_next) run,
          (v', omega arith, ground (arith, v.there), same),
        )
  ]
]
