-- ===== src/MemoryPool/BlockCache/Thread.antt =====
-- The free list of a thread: it never holds more than a fetch may bring, and loses no block.
use learncc.Prelude.{
  ℕ, suc, ◌+◌, ◌≤◌, ◌<◌, ◌^◌, ◌≡◌, inl, inr, refl, ap, sym, ◌∙◌, List, [], ◌∷◌, none, some, length,
  leb, ◌==◌, if◌then◌else◌, arith, min, sub_size, add_size, count, append-nil, Bool-cases,
  List-cases,
}
use learncc.MemoryPool.BlockCache.{
  FreeList, Span, Cache, push, push_range, keep_rest, slow_start, clear, new_blocks, fetch_first,
  fetch_range, store_rest, fetch_from_central, allocate_from, allocate, deallocate,
}
use learncc.MemoryPool.BlockCache.Central.{free_blocks, fetch_range-count, fetch_range-length}

-- `size_` counts the list, which is shorter than `max_size_`; that has not gone past what one fetch may
-- bring by more than one.
pub record IsShort (limit : ℕ) (f : FreeList) : Type 0 where
  pub counted : length f.list ≡ f.size
  pub below : f.size < f.max_size
  pub capped : f.max_size ≤ limit + 1

-- How often a block is free, in the list of the thread or in a span.
pub free_count : ℕ → Cache → ℕ
free_count q c = count q c.local.list + count q (free_blocks c.spans)

-- The blocks that a request brings in from the page cache.
abbrev fresh_for : ℕ → ℕ → ℕ → ℕ → ℕ → Cache → List ℕ → ℕ
fresh_for limit bytes start pages q c [] = elim (fetch_first (min limit c.local.max_size) c.spans) [
  | some r ↦ 0
  | none ↦ count q (new_blocks bytes start pages)
]
fresh_for limit bytes start pages q c (b ∷ bs) = 0

pub fresh_count : ℕ → ℕ → ℕ → ℕ → ℕ → Cache → ℕ
fresh_count limit bytes start pages q c = fresh_for limit bytes start pages q c c.local.list

keep_rest-list : (bs : List ℕ) (f : FreeList) → f.list ≡ [] → (keep_rest bs f).list ≡ bs
unfolding keep_rest push_range
keep_rest-list [] f e = e
keep_rest-list (b ∷ bs) f e = ground (arith, e, append-nil bs)

keep_rest-size :
    (bs : List ℕ) (f : FreeList)
    → f.size ≡ 0
    → length bs < 2 ^ 32
    → ((keep_rest bs f).size ≡ length bs) × ((keep_rest bs f).max_size ≡ f.max_size)
unfolding keep_rest push_range
keep_rest-size [] f e l = ground (arith, e)
keep_rest-size (b ∷ bs) f e l = ground (arith, e)

slow_start_lem :
    (num : ℕ) (f : FreeList)
    → ((slow_start num f).list ≡ f.list)
      × ((slow_start num f).size ≡ f.size)
      × ((slow_start num f).max_size ≡ (if num == f.max_size then num + 1 else f.max_size))
unfolding slow_start
slow_start_lem num f = ground arith

module _ (num limit : ℕ) (f : FreeList) (v : IsShort limit f) (e : f.list ≡ [])
    (n : num ≡ min limit f.max_size) (l : limit < 2 ^ 32) where
  stored-IsShort :
      (bs : List ℕ) → length bs + 1 ≤ num → IsShort limit (slow_start num (keep_rest bs f))
  stored-IsShort bs h =
      let none_left : f.size ≡ 0 = sym v.counted ∙ ap length e in
      let (listed, sized, capped) = slow_start_lem num (keep_rest bs f) in
      let (sized', capped') = keep_rest-size bs f none_left (ground (arith, n)) in
      record {
        counted = ap length (listed ∙ keep_rest-list bs f e) ∙ sym (sized ∙ sized');
        below = ground (arith, n);
        capped = ground (arith, n);
      }

  store_rest-IsShort :
      (ss : List Span) (got : List ℕ)
      → 1 ≤ length got
      → length got ≤ num
      → (b : ℕ) × ((c : Cache) × (store_rest num ss f got ≡ some (b, c))
          × IsShort limit c.local
          × ((q : ℕ) → count q (b ∷ []) + free_count q c ≡ count q got + count q (free_blocks ss)))
  unfolding free_count
  store_rest-IsShort ss [] h k = absurd (omega arith)
  store_rest-IsShort ss (b ∷ bs) h k =
      let f' = slow_start num (keep_rest bs f) in
      let kept : f'.list ≡ bs = (slow_start_lem num (keep_rest bs f)).0 ∙ keep_rest-list bs f e in
      (
        b,
        (
          record { local = f'; spans = ss },
          refl,
          stored-IsShort bs (omega arith),
          λ q. rw (kept) (ground arith),
        ),
      )

-- A request of a thread is served. The list stays short, and the blocks that are free afterwards and the
-- one that is handed out are those that were free before and those of a new span.
pub allocate-IsShort :
    (limit bytes start pages : ℕ) (c : Cache)
    → IsShort limit c.local
    → 1 ≤ limit
    → limit < 2 ^ 32
    → (b : ℕ) × ((c' : Cache) × (allocate limit bytes start pages c ≡ some (b, c'))
        × IsShort limit c'.local
        × ((q : ℕ)
            → count q (b ∷ []) + free_count q c'
              ≡ free_count q c + fresh_count limit bytes start pages q c))
unfolding allocate fetch_from_central free_count fresh_count
allocate-IsShort limit bytes start pages c v h l = elim (List-cases c.local.list) [
  | inl e ↦
      let num = min limit c.local.max_size in
      let (got, ss) = fetch_range num bytes start pages c.spans in
      let (some_block, few) = fetch_range-length num bytes start pages c.spans (ground arith) in
      let (b, (c', served, short, kept)) =
        store_rest-IsShort num limit c.local v e refl l ss got some_block few in
      (
        b,
        (
          c',
          ap (allocate_from limit bytes start pages c) e ∙ served,
          short,
          λ q. omega (
            arith,
            kept q,
            fetch_range-count num bytes start pages q c.spans,
            ap (count q) e,
            ap (fresh_for limit bytes start pages q c) e,
          ),
        ),
      )
  | inr (b, (bs, e)) ↦
      let c' : Cache = record c {
        local = record c.local { list = bs; size = sub_size c.local.size 1 };
      } in
      let long : c.local.size ≡ suc (length bs) = sym v.counted ∙ ap length e in
      (
        b,
        (
          c',
          ap (allocate_from limit bytes start pages c) e,
          record { counted = ground arith; below = ground arith; capped = v.capped },
          λ q. ground (arith, ap (count q) e, ap (fresh_for limit bytes start pages q c) e),
        ),
      )
]

-- A block that comes back leaves the list short.
pub deallocate-IsShort :
    (owner : ℕ → ℕ) (limit b : ℕ) (c : Cache)
    → IsShort limit c.local
    → limit < 2 ^ 32
    → IsShort limit (deallocate owner b c).0.local
unfolding deallocate push clear
deallocate-IsShort owner limit b c v l =
    elim (Bool-cases (leb c.local.max_size (add_size c.local.size 1))) [
      | inl long ↦
          rw (long, deallocate) (record { counted = refl; below = ground arith; capped = v.capped })
      | inr short ↦
          rw (short, deallocate)
            (record {
              counted = ground (arith, v.counted);
              below = ground arith;
              capped = v.capped;
            })
    ]
