-- ===== src/MemoryPool/NgxPool/Release.antt =====
-- `ngx_destroy_pool` and `ngx_reset_pool` after any calls.
use learncc.Prelude.{
  ℕ, ◌+◌, ◌≤◌, ◌≡◌, ◌≢◌, refl, List, [], ◌∷◌, ◌++◌, map, arith, Every, count, count-append,
  add_size,
}
use learncc.MemoryPool.NgxPool.{
  Block, Pool, data_size, header_size, reset_rest, reset_blocks, reset_pool, live, destroy_pool,
  first_size,
}
use learncc.MemoryPool.NgxPool.Bounds.{IsSound, IsValid}
use learncc.MemoryPool.NgxPool.Large.{count-live, Request, perform_all, obtained, count-perform_all}

-- Each address that `malloc` gave for a large request is given back to `free` as often as it was
-- given, by a call or when the pool is destroyed, and so is the start of each block, if the list of
-- large requests was empty at first.
pub destroy_pool-balance :
    (rs : List Request) (pool : Pool) (q : ℕ)
    → q ≢ 0
    → pool.large ≡ []
    → let (pool', freed) = perform_all rs pool in
      count q (freed ++ (destroy_pool pool').1)
      ≡ count q (obtained pool.max rs) + count q (map (λ b. b.start) pool'.blocks)
unfolding destroy_pool
destroy_pool-balance rs pool q h e =
    let (pool', freed) = perform_all rs pool in
    let starts = map (λ (b : Block). b.start) pool'.blocks in
    let held : count q pool.large ≡ 0 = rw (e) (omega arith) in
    omega (
      arith,
      held,
      count-perform_all rs pool q h,
      count-append q freed (live pool'.large ++ starts),
      count-append q (live pool'.large) starts,
      count-live q pool'.large h,
    )

-- A block with room for the head that a pool's first block has.
abbrev pub IsRoomy : Block → Type 0
IsRoomy b = b.start + header_size ≤ b.end

reset_rest-IsSound : (b : Block) → IsSound b → IsRoomy b → IsSound (reset_rest b)
reset_rest-IsSound b v r =
    let at : add_size b.start data_size ≡ b.start + data_size = ground (arith, v.fits) in
    record {
      placed = v.placed;
      inside = ground (arith, at);
      within = ground (arith, at);
      aligned = v.aligned;
      fits = v.fits;
    }

reset_rest-Every :
    (bs : List Block) → Every IsSound bs → Every IsRoomy bs → Every IsSound (map reset_rest bs)
reset_rest-Every [] v r = tt
reset_rest-Every (b ∷ bs) (s, v) (h, r) = (reset_rest-IsSound b s h, reset_rest-Every bs v r)

reset_blocks-IsSound :
    (bs : List Block) → Every IsSound bs → Every IsRoomy bs → Every IsSound (reset_blocks bs)
unfolding reset_blocks
reset_blocks-IsSound [] v r = tt
reset_blocks-IsSound (b ∷ bs) (s, v) (h, r) =
    let at : add_size b.start header_size ≡ b.start + header_size = ground (arith, s.fits) in
    (
      record {
        placed = s.placed;
        inside = ground (arith, at);
        within = ground (arith, at);
        aligned = s.aligned;
        fits = s.fits;
      },
      reset_rest-Every bs v r,
    )

first_size-reset_blocks : (bs : List Block) → first_size (reset_blocks bs) ≡ first_size bs
unfolding reset_blocks
first_size-reset_blocks [] = refl
first_size-reset_blocks (b ∷ bs) = refl

-- Where a block lies.
abbrev pub range : Block → ℕ × ℕ
range b = (b.start, b.end)

same_rest : (bs : List Block) → map range (map reset_rest bs) ≡ map range bs
same_rest [] = refl
same_rest (b ∷ bs) = rw (same_rest bs)

same : (bs : List Block) → map range (reset_blocks bs) ≡ map range bs
unfolding reset_blocks
same [] = refl
same (b ∷ bs) = rw (same_rest bs)

-- A reset pool is valid again and searches from its first block, no block was lost or moved, each
-- large address that was held is given back once, and none is held.
pub reset_pool-IsValid :
    (pool : Pool)
    → IsValid pool
    → Every IsRoomy pool.blocks
    → let (pool', freed) = reset_pool pool in
      IsValid pool'
      × (pool'.current ≡ 0)
      × (map range pool'.blocks ≡ map range pool.blocks)
      × ((q : ℕ) → q ≢ 0 → count q freed ≡ count q pool.large)
      × (pool'.large ≡ [])
unfolding reset_pool
reset_pool-IsValid pool v r = (
  record {
    sound = reset_blocks-IsSound pool.blocks v.sound r;
    room = omega (arith, v.room, first_size-reset_blocks pool.blocks);
  },
  refl,
  same pool.blocks,
  λ q h. count-live q pool.large h,
  refl,
)
