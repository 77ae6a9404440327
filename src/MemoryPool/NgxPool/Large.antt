-- ===== src/MemoryPool/NgxPool/Large.antt =====
-- The account of the large requests: what `malloc` gave, what is held and what went back to `free`.
use learncc.Prelude.{
  ℕ, ◌+◌, ◌≡◌, ◌≢◌, inl, inr, refl, subst, Bool, true, List, [], ◌∷◌, ◌++◌, some, drop, leb, ◌==◌,
  if◌then◌else◌, arith, Option-cases, Bool-cases, count, count-append,
}
use learncc.MemoryPool.NgxPool.{
  Pool, large_size, first_fit, palloc_block, palloc_small, reuse_slot, palloc_large, palloc_with,
  drop_slot, pfree, live,
}

pub count-live : (q : ℕ) (xs : List ℕ) → q ≢ 0 → count q (live xs) ≡ count q xs
unfolding live
count-live q [] h = refl
count-live q (x ∷ xs) h = ground (arith, count-live q xs h)

palloc_block-large : (pool : Pool) (size m : ℕ) → (palloc_block pool size m).1.large ≡ pool.large
unfolding palloc_block
palloc_block-large pool size m = elim (Bool-cases (m == 0)) [
  | inl null ↦ rw (null, palloc_block)
  | inr there ↦ rw (there, palloc_block)
]

palloc_small-large :
    (pool : Pool) (size : ℕ) (align : Bool) (m : ℕ)
    → (palloc_small pool size align m).1.large ≡ pool.large
unfolding palloc_small
palloc_small-large pool size align m =
    elim (Option-cases (first_fit align size (drop pool.current pool.blocks))) [
      | inl full ↦ rw (full, palloc_small) (palloc_block-large pool size m)
      | inr (r, found) ↦ rw (found, palloc_small)
    ]

count-reuse_slot :
    (n p q : ℕ) (ls : List ℕ) {ls' : List ℕ}
    → q ≢ 0
    → reuse_slot n p ls ≡ some ls'
    → count q ls' ≡ count q ls + count q (p ∷ [])
unfolding reuse_slot
count-reuse_slot n p q [] h e = absurd (ground arith)
count-reuse_slot n p q (l ∷ ls) h e = elim (Option-cases (reuse_slot (n + 1) p ls)) [
  | inl full ↦ ground arith
  | inr (ls', found) ↦ ground (arith, count-reuse_slot (n + 1) p q ls h found)
]

-- The address is held, or it was given back and the request failed.
count-palloc_large :
    (pool : Pool) (p m q : ℕ)
    → q ≢ 0
    → let (a, pool', freed) = palloc_large pool p m in
      count q pool'.large + count q freed ≡ count q pool.large + count q (p ∷ [])
unfolding palloc_large
count-palloc_large pool p m q h = elim (Bool-cases (p == 0)) [
  | inl null ↦ rw (null, palloc_large) (ground arith)
  | inr there ↦ elim (Option-cases (reuse_slot 0 p pool.large)) [
    | inr (ls, found) ↦
        rw (there, found, palloc_large) (ground (arith, count-reuse_slot 0 p q pool.large h found))
    | inl full ↦ elim (Bool-cases ((palloc_small pool large_size true m).0 == 0)) [
      | inl refused ↦
          rw (there, full, refused, palloc_large)
            (ground (arith, palloc_small-large pool large_size true m))
      | inr served ↦
          rw (there, full, served, palloc_large)
            (ground (arith, palloc_small-large pool large_size true m))
    ]
  ]
]

count-drop_slot :
    (p q : ℕ) (ls : List ℕ)
    → q ≢ 0
    → count q (drop_slot p ls).0 + count q (drop_slot p ls).1 ≡ count q ls
unfolding drop_slot
count-drop_slot p q [] h = refl
count-drop_slot p q (l ∷ ls) h = ground (arith, count-drop_slot p q ls h)

-- Calls of a pool: `ngx_palloc` or `ngx_pnalloc`, with what `malloc` would return, and `ngx_pfree`.
pub data Request : Type 0 where
  ask : (align : Bool) → (size p m : ℕ) → Request
  give : ℕ → Request

pub perform : Request → Pool → Pool × List ℕ
perform (ask align size p m) pool =
    let (a, pool', freed) = palloc_with align pool size p m in (pool', freed)
perform (give p) pool = pfree pool p

-- The pool after the calls, and the addresses that they gave back.
pub perform_all : List Request → Pool → Pool × List ℕ
perform_all [] pool = (pool, [])
perform_all (r ∷ rs) pool =
    let (pool', freed) = perform r pool in
    let (pool'', freed') = perform_all rs pool' in (pool'', freed ++ freed')

-- The addresses that `malloc` gave for large requests; only they exceed the pool's bound.
pub obtained : ℕ → List Request → List ℕ
obtained max [] = []
obtained max (ask align size p m ∷ rs) =
    if leb size max then obtained max rs else p ∷ obtained max rs
obtained max (give p ∷ rs) = obtained max rs

small-max :
    (align : Bool) (size m : ℕ) (pool : Pool) → (palloc_small pool size align m).1.max ≡ pool.max
unfolding palloc_small palloc_block
small-max align size m pool =
    elim (Option-cases (first_fit align size (drop pool.current pool.blocks))) [
      | inr (r, found) ↦ rw (found, palloc_small)
      | inl full ↦ elim (Bool-cases (m == 0)) [
        | inl null ↦ rw (full, null, palloc_small, palloc_block)
        | inr there ↦ rw (full, there, palloc_small, palloc_block)
      ]
    ]

large-max : (p m : ℕ) (pool : Pool) → (palloc_large pool p m).1.max ≡ pool.max
unfolding palloc_large
large-max p m pool = elim (Bool-cases (p == 0)) [
  | inl null ↦ rw (null, palloc_large)
  | inr there ↦ elim (Option-cases (reuse_slot 0 p pool.large)) [
    | inr (ls, found) ↦ rw (there, found, palloc_large)
    | inl full ↦ elim (Bool-cases ((palloc_small pool large_size true m).0 == 0)) [
      | inl refused ↦ rw (there, full, refused, palloc_large) (small-max true large_size m pool)
      | inr served ↦ rw (there, full, served, palloc_large) (small-max true large_size m pool)
    ]
  ]
]

perform-max : (r : Request) (pool : Pool) → (perform r pool).0.max ≡ pool.max
unfolding perform palloc_with pfree
perform-max (ask align size p m) pool = elim (Bool-cases (leb size pool.max)) [
  | inl small ↦ rw (small, palloc_with) (small-max align size m pool)
  | inr large ↦ rw (large, palloc_with) (large-max p m pool)
]
perform-max (give p) pool = refl

count-perform :
    (r : Request) (pool : Pool) (q : ℕ)
    → q ≢ 0
    → count q (perform r pool).0.large + count q (perform r pool).1
      ≡ count q pool.large + count q (obtained pool.max (r ∷ []))
unfolding perform palloc_with pfree obtained
count-perform (ask align size p m) pool q h = elim (Bool-cases (leb size pool.max)) [
  | inl small ↦ rw (small, palloc_with) (ground (arith, palloc_small-large pool size align m))
  | inr large ↦ rw (large, palloc_with) (count-palloc_large pool p m q h)
]
count-perform (give p) pool q h = ground (arith, count-drop_slot p q pool.large h)

count-obtained :
    (max : ℕ) (r : Request) (rs : List Request) (q : ℕ)
    → count q (obtained max (r ∷ rs)) ≡ count q (obtained max (r ∷ [])) + count q (obtained max rs)
unfolding obtained
count-obtained max (ask align size p m) rs q = ground arith
count-obtained max (give p) rs q = omega arith

pub count-perform_all :
    (rs : List Request) (pool : Pool) (q : ℕ)
    → q ≢ 0
    → count q (perform_all rs pool).0.large + count q (perform_all rs pool).1
      ≡ count q pool.large + count q (obtained pool.max rs)
unfolding perform_all obtained
count-perform_all [] pool q h = omega arith
count-perform_all (r ∷ rs) pool q h =
    let (pool', freed) = perform r pool in
    let later =
      subst
        (λ max.
          count q (perform_all rs pool').0.large + count q (perform_all rs pool').1
          ≡ count q pool'.large + count q (obtained max rs))
        (perform-max r pool) (count-perform_all rs pool' q h) in
    ground (
      arith,
      count-perform r pool q h,
      later,
      count-obtained pool.max r rs q,
      count-append q freed (perform_all rs pool').1,
    )
