-- ===== src/MemoryPool/NgxPool.antt =====
-- inc/memory_pool/ngx_mempool.h and src/memory_pool/ngx_mempool.cc: a pool of blocks from which small
-- requests are cut, with large requests on a list of their own. Addresses are numbers, 0 is the null
-- pointer, and what `malloc` returns is an argument. Sizes are those of a 64-bit platform.
pub mod Bounds
pub mod Small
pub mod Large
pub mod Release
mod Tests
use Prim.Native.Nat.{bit_and}
use learncc.Prelude.{
  ℕ, zero, suc, ◌+◌, ◌-◌, ◌*◌, ◌%◌, ◌^◌, Bool, true, false, List, [], ◌∷◌, ◌++◌, Option, none, some,
  length, take, drop, map, ltb, leb, ◌==◌, if◌then◌else◌, add_size, sub_size,
}
use learncc.Prelude.Bits.{not_size}

-- `sizeof (ngx_pool_data_t)`, `sizeof (ngx_pool_t)` and `sizeof (ngx_pool_large_t)`.
abbrev pub data_size : ℕ
data_size = 32

abbrev pub header_size : ℕ
header_size = 64

abbrev pub large_size : ℕ
large_size = 16

abbrev pub max_alloc_from_pool : ℕ
max_alloc_from_pool = 4095

-- A block: its address, and `ngx_pool_data_t` without the link.
pub record Block : Type 0 where
  pub start : ℕ
  pub last : ℕ
  pub end : ℕ
  pub failed : ℕ

-- A registered clean-up: whether its handler is set, and the address that it is given.
pub record Cleanup : Type 0 where
  pub has_handler : Bool
  pub arg : ℕ

-- `blocks` follows the links from `pool_`, and `current` is a position in it. `large` holds the
-- `alloc` fields of the list of large requests.
pub record Pool : Type 0 where
  pub blocks : List Block
  pub current : ℕ
  pub max : ℕ
  pub large : List ℕ
  pub cleanup : List Cleanup

-- `ngx_align_ptr(p, NGX_ALIGNMENT)`
unfoldable pub align_ptr : ℕ → ℕ
align_ptr p = bit_and (add_size p 7) (not_size 7)

unfoldable pub create_pool : ℕ → ℕ → Option Pool
create_pool size p =
    if p == 0
    then none
    else let room = sub_size size header_size in
      some (record {
        blocks =
            record { start = p; last = add_size p header_size; end = add_size p size; failed = 0 }
            ∷ [];
        current = 0;
        max = if ltb room max_alloc_from_pool then room else max_alloc_from_pool;
        large = [];
        cleanup = [];
      })

-- The address at which a block would serve the request.
unfoldable pub candidate : Bool → Block → ℕ
unfolding align_ptr
candidate align b = if align then align_ptr b.last else b.last

-- The `do` loop of `ngx_palloc_small` over the blocks from `current` on: the first block in which
-- `(size_t) (end - m) >= size` serves the request.
pub first_fit : Bool → ℕ → List Block → Option (ℕ × List Block)
first_fit align size [] = none
first_fit align size (b ∷ bs) =
    let m = candidate align b in
    let rest = first_fit align size bs in
    if leb size (sub_size b.end m)
    then some (m, record b { last = add_size m size } ∷ bs)
    else elim rest [ none ↦ none | some (a, bs') ↦ some (a, b ∷ bs') ]

-- The loop at the end of `ngx_palloc_block`: every block from `current` on but the last one counts a
-- failure, and one that had more than four passes `current` on. `i` is the block's position.
pub count_failures : ℕ → ℕ → List Block → List Block × ℕ
count_failures i current [] = ([], current)
count_failures i current (b ∷ []) = (b ∷ [], current)
count_failures i current (b ∷ c ∷ bs) =
    let current' = if ltb 4 b.failed then i + 1 else current in
    let (bs', last_current) = count_failures (i + 1) current' (c ∷ bs) in
    (record b { failed = (b.failed + 1) % 2 ^ 32 } ∷ bs', last_current)

abbrev pub first_size : List Block → ℕ
first_size [] = 0
first_size (b ∷ bs) = sub_size b.end b.start

-- A result is the address and the pool; a null address is a failure.
unfoldable pub palloc_block : Pool → ℕ → ℕ → ℕ × Pool
unfolding count_failures align_ptr
palloc_block pool size m =
    if m == 0
    then (0, pool)
    else let psize = first_size pool.blocks in
      let a = align_ptr (add_size m data_size) in
      let fresh : Block = record {
        start = m;
        last = add_size a size;
        end = add_size m psize;
        failed = 0;
      } in
      let (counted, current) =
        count_failures pool.current pool.current (drop pool.current pool.blocks) in
      (
        a,
        record pool {
          blocks = take pool.current pool.blocks ++ (counted ++ (fresh ∷ []));
          current = current;
        },
      )

-- `m` is what `malloc` returns for a new block, if one is needed.
pub palloc_small : Pool → ℕ → Bool → ℕ → ℕ × Pool
palloc_small pool size align m = elim (first_fit align size (drop pool.current pool.blocks)) [
  | some (a, bs) ↦ (a, record pool { blocks = take pool.current pool.blocks ++ bs })
  | none ↦ palloc_block pool size m
]

-- The search for an entry whose `alloc` is null; `n` is the counter that stops it.
pub reuse_slot : ℕ → ℕ → List ℕ → Option (List ℕ)
reuse_slot n p [] = none
reuse_slot n p (l ∷ ls) =
    let rest = reuse_slot (n + 1) p ls in
    if l == 0
    then some (p ∷ ls)
    else if ltb 3 n
    then none
    else elim rest [ none ↦ none | some ls' ↦ some (l ∷ ls') ]

-- The result, the pool, and the addresses that were given back to `free`. `p` is what `malloc`
-- returns for the request, `m` for a new block.
pub palloc_large : Pool → ℕ → ℕ → ℕ × Pool × List ℕ
palloc_large pool p m = if p == 0 then (0, pool, []) else elim (reuse_slot 0 p pool.large) [
  | some large ↦ (p, record pool { large = large }, [])
  | none ↦
      let (header, pool') = palloc_small pool large_size true m in
      if header == 0 then (0, pool', p ∷ []) else (p, record pool' { large = p ∷ pool'.large }, [])
]

-- `ngx_palloc` aligns and `ngx_pnalloc` does not.
pub palloc_with : Bool → Pool → ℕ → ℕ → ℕ → ℕ × Pool × List ℕ
palloc_with align pool size p m =
    if leb size pool.max
    then (let (a, pool') = palloc_small pool size align m in (a, pool', []))
    else palloc_large pool p m

pub palloc : Pool → ℕ → ℕ → ℕ → ℕ × Pool × List ℕ
palloc = palloc_with true

pub pnalloc : Pool → ℕ → ℕ → ℕ → ℕ × Pool × List ℕ
pnalloc = palloc_with false

-- `memset` writes only the bytes of the request, which the model does not hold.
pub pcalloc : Pool → ℕ → ℕ → ℕ → ℕ × Pool × List ℕ
pcalloc = palloc

abbrev pub cleanup_size : ℕ
cleanup_size = 24

-- Two requests: the clean-up itself and, unless `size` is 0, the data of its handler, which is not set
-- yet.
pub cleanup_add : Pool → ℕ → ℕ → ℕ → ℕ → ℕ → ℕ × Pool × List ℕ
cleanup_add pool size p m p' m' =
    let (c, pool', freed) = palloc pool cleanup_size p m in
    if c == 0
    then (0, pool', freed)
    else if size == 0
    then (
      c,
      record pool' { cleanup = record { has_handler = false; arg = 0 } ∷ pool'.cleanup },
      freed,
    )
    else let (a, pool'', freed') = palloc pool' size p' m' in
      if a == 0 then (0, pool'', freed ++ freed') else (
        c,
        record pool'' { cleanup = record { has_handler = false; arg = a } ∷ pool''.cleanup },
        freed ++ freed',
      )

-- The entry of the first match is set to null.
pub drop_slot : ℕ → List ℕ → List ℕ × List ℕ
drop_slot p [] = ([], [])
drop_slot p (l ∷ ls) =
    if p == l then (0 ∷ ls, l ∷ []) else (let (ls', freed) = drop_slot p ls in (l ∷ ls', freed))

pub pfree : Pool → ℕ → Pool × List ℕ
pfree pool p = let (large, freed) = drop_slot p pool.large in (record pool { large = large }, freed)

pub live : List ℕ → List ℕ
live [] = []
live (l ∷ ls) = if l == 0 then live ls else l ∷ live ls

abbrev pub reset_rest : Block → Block
reset_rest b = record b { last = add_size b.start data_size; failed = 0 }

pub reset_blocks : List Block → List Block
reset_blocks [] = []
reset_blocks (b ∷ bs) =
    record b { last = add_size b.start header_size; failed = 0 } ∷ map reset_rest bs

pub reset_pool : Pool → Pool × List ℕ
reset_pool pool =
    (record pool { blocks = reset_blocks pool.blocks; current = 0; large = [] }, live pool.large)

pub handlers : List Cleanup → List ℕ
handlers [] = []
handlers (c ∷ cs) = if c.has_handler then c.arg ∷ handlers cs else handlers cs

-- The arguments that handlers are called with, and the addresses given back to `free`, in order.
pub destroy_pool : Pool → List ℕ × List ℕ
destroy_pool pool = (handlers pool.cleanup, live pool.large ++ map (λ b. b.start) pool.blocks)
