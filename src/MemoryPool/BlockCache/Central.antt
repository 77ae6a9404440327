-- ===== src/MemoryPool/BlockCache/Central.antt =====
-- The central cache: no block is lost, and a span goes back only when all its blocks are free.
use learncc.Prelude.{
  ℕ, zero, suc, ◌+◌, ◌*◌, ◌≤◌, ◌≡◌, inl, inr, refl, false, List, [], ◌∷◌, ◌++◌, none, some, length,
  take, drop, arith, add_size, count, count-append, Bool-cases, Option-cases, length-take,
}
use learncc.MemoryPool.BlockCache.{
  Span, carve, new_blocks, page_size, fetch, is_nil, replace, fetch_first, fetch_range,
}

-- The free blocks of some spans.
pub free_blocks : List Span → List ℕ
free_blocks [] = []
free_blocks (s ∷ ss) = s.free ++ free_blocks ss

count-take-drop : (q n : ℕ) (xs : List ℕ) → count q (take n xs) + count q (drop n xs) ≡ count q xs
count-take-drop q zero xs = omega arith
count-take-drop q (suc n) [] = refl
count-take-drop q (suc n) (x ∷ xs) = ground (arith, count-take-drop q n xs)

free_blocks-append :
    (q : ℕ) (ss ts : List Span)
    → count q (free_blocks (ss ++ ts)) ≡ count q (free_blocks ss) + count q (free_blocks ts)
unfolding free_blocks
free_blocks-append q [] ts = omega arith
free_blocks-append q (s ∷ ss) ts = omega (
  arith,
  free_blocks-append q ss ts,
  count-append q s.free (free_blocks (ss ++ ts)),
  count-append q s.free (free_blocks ss),
)

free_blocks-replace :
    (q : ℕ) (s : Span) (ss : List Span)
    → count q (free_blocks (replace s ss)) ≡ count q s.free + count q (free_blocks ss)
unfolding free_blocks
free_blocks-replace q s ss = elim (Bool-cases (is_nil s.free)) [
  | inl used_up ↦
      rw (used_up) (omega (arith, free_blocks-append q ss (s ∷ []), count-append q s.free []))
  | inr more ↦ rw (more) (count-append q s.free (free_blocks ss))
]

fetch_first-count :
    (num q : ℕ) (ss : List Span) {got : List ℕ} {ss' : List Span}
    → fetch_first num ss ≡ some (got, ss')
    → count q got + count q (free_blocks ss') ≡ count q (free_blocks ss)
unfolding fetch_first fetch free_blocks
fetch_first-count num q [] e = absurd (ground arith)
fetch_first-count num q (s ∷ ss) e = elim (Bool-cases (is_nil s.free)) [
  | inl used_up ↦ elim (Option-cases (fetch_first num ss)) [
    | inl r ↦ absurd (ground arith)
    | inr ((bs, ts), r) ↦ ground (
      arith,
      fetch_first-count num q ss r,
      count-append q s.free (free_blocks ss),
      count-append q s.free (free_blocks ts),
    )
  ]
  | inr more ↦ ground (
    arith,
    more,
    free_blocks-replace q
        (record s { free = drop num s.free; used = add_size s.used (length (take num s.free)) }) ss,
    count-take-drop q num s.free,
    count-append q s.free (free_blocks ss),
  )
]

-- The blocks handed to a thread leave the spans; if no span had a free block they come from a new one.
pub fetch_range-count :
    (num bytes start pages q : ℕ) (ss : List Span)
    → let (got, ss') = fetch_range num bytes start pages ss in
      count q got + count q (free_blocks ss')
      ≡ count q (free_blocks ss)
        + (elim (fetch_first num ss) [ some r ↦ 0 | none ↦ count q (new_blocks bytes start pages) ])
unfolding fetch_range fetch
fetch_range-count num bytes start pages q ss = elim (Option-cases (fetch_first num ss)) [
  | inl r ↦
      rw (r, fetch_range)
        (omega (
          arith,
          free_blocks-replace q
              (record {
                start = start;
                pages = pages;
                free = drop num (new_blocks bytes start pages);
                used = add_size 0 (length (take num (new_blocks bytes start pages)));
              })
              ss,
          count-take-drop q num (new_blocks bytes start pages),
        ))
  | inr ((bs, ts), r) ↦ rw (r, fetch_range) (omega (arith, fetch_first-count num q ss r))
]

is_nil-length : (xs : List ℕ) → is_nil xs ≡ false → 1 ≤ length xs
is_nil-length [] e = absurd (ground arith)
is_nil-length (x ∷ xs) e = omega arith

carve-length : (fuel bytes cur stop : ℕ) → 1 ≤ length (carve fuel bytes cur stop)
unfolding carve
carve-length zero bytes cur stop = omega arith
carve-length (suc fuel) bytes cur stop = omega arith

new_blocks-length : (bytes start pages : ℕ) → 1 ≤ length (new_blocks bytes start pages)
unfolding new_blocks
new_blocks-length bytes start pages =
    carve-length (pages * page_size) bytes start (start + pages * page_size)

fetch_first-length :
    (num : ℕ) (ss : List Span) (got : List ℕ) (ss' : List Span)
    → 1 ≤ num
    → fetch_first num ss ≡ some (got, ss')
    → (1 ≤ length got) × (length got ≤ num)
unfolding fetch_first fetch
fetch_first-length num [] got ss' h e = absurd (ground arith)
fetch_first-length num (s ∷ ss) got ss' h e = elim (Bool-cases (is_nil s.free)) [
  | inl used_up ↦ elim (Option-cases (fetch_first num ss)) [
    | inl r ↦ absurd (ground arith)
    | inr ((bs, ts), r) ↦ ground (arith, fetch_first-length num ss bs ts h r)
  ]
  | inr more ↦ ground (arith, more, length-take num s.free, is_nil-length s.free)
]

-- A fetch hands out at least one block and at most as many as are asked for.
pub fetch_range-length :
    (num bytes start pages : ℕ) (ss : List Span)
    → 1 ≤ num
    → (1 ≤ length (fetch_range num bytes start pages ss).0)
      × (length (fetch_range num bytes start pages ss).0 ≤ num)
unfolding fetch_range fetch
fetch_range-length num bytes start pages ss h = elim (Option-cases (fetch_first num ss)) [
  | inl r ↦
      rw (r, fetch_range)
        (ground (
          arith,
          length-take num (new_blocks bytes start pages),
          new_blocks-length bytes start pages,
        ))
  | inr ((bs, ts), r) ↦ rw (r, fetch_range) (fetch_first-length num ss bs ts h r)
]
