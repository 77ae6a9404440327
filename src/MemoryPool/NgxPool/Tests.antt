-- ===== src/MemoryPool/NgxPool/Tests.antt =====
-- The theorems on the pool at concrete pools.
use learncc.Prelude.{count, ◌+◌, ◌%◌, ◌≡◌, refl, true, false, [], ◌∷◌, ◌++◌, map, arith}
use learncc.MemoryPool.NgxPool.{Pool, palloc_small, destroy_pool}
use learncc.MemoryPool.NgxPool.Bounds.{IsValid, Served}
use learncc.MemoryPool.NgxPool.Small.{palloc_small-Served}
use learncc.MemoryPool.NgxPool.Large.{ask, give, perform_all, obtained}
use learncc.MemoryPool.NgxPool.Release.{destroy_pool-balance}

-- A pool of 128 bytes at 4096, as `ngx_create_pool` makes it.
abbrev new_pool : Pool
new_pool = record {
  blocks = record { start = 4096; last = 4160; end = 4224; failed = 0 } ∷ [];
  current = 0;
  max = 64;
  large = [];
  cleanup = [];
}

-- The pool in use, with two blocks and two large requests, one of them given back.
abbrev used_pool : Pool
used_pool = record new_pool {
  blocks =
      record { start = 4096; last = 4219; end = 4224; failed = 1 }
      ∷ record { start = 8192; last = 8250; end = 8320; failed = 0 }
      ∷ [];
  large = 20000 ∷ 0 ∷ [];
}

used_pool-IsValid : IsValid used_pool
used_pool-IsValid = record {
  sound = (
    record {
      placed = omega arith;
      inside = omega arith;
      within = omega arith;
      aligned = omega arith;
      fits = omega arith;
    },
    (
      record {
        placed = omega arith;
        inside = omega arith;
        within = omega arith;
        aligned = omega arith;
        fits = omega arith;
      },
      tt,
    ),
  );
  room = omega arith;
}

-- Cut from the second block, with padding.
palloc_small-Served_example :
    let (a, pool') = palloc_small used_pool 24 true 16384 in
    Served used_pool pool' 24 16384 a × IsValid pool' × (true ≡ true → a % 8 ≡ 0)
palloc_small-Served_example =
    palloc_small-Served used_pool 24 16384 true used_pool-IsValid (omega arith)
      (omega arith, omega arith)

-- A pool of 100 bytes, of which 97 are used.
abbrev odd_pool : Pool
odd_pool = record new_pool {
  blocks = record { start = 4096; last = 4193; end = 4196; failed = 0 } ∷ [];
}

-- Two large requests and a small one; one of the large ones is given back.
destroy_pool-balance_example :
    let rs =
      ask true 5000 20000 16384 ∷ ask true 8 0 0 ∷ ask false 6000 30000 0 ∷ give 20000 ∷ [] in
    let (pool', freed) = perform_all rs new_pool in
    count 20000 (freed ++ (destroy_pool pool').1)
    ≡ count 20000 (obtained 64 rs) + count 20000 (map (λ b. b.start) pool'.blocks)
destroy_pool-balance_example =
    destroy_pool-balance
      (ask true 5000 20000 16384 ∷ ask true 8 0 0 ∷ ask false 6000 30000 0 ∷ give 20000 ∷ [])
      new_pool 20000 (omega arith) refl
