-- ===== src/MemoryPool/BlockCache/Tests.antt =====
-- The theorems on the block caches at small spans.
use learncc.Prelude.{◌+◌, ◌*◌, ◌%◌, ◌≡◌, ◌↔◌, refl, [], ◌∷◌, arith, Every}
use learncc.MemoryPool.BlockCache.{
  Span, Cache, carve, new_blocks, page_size, fetch, fetch_first, fetch_range, empty_list,
}
use learncc.MemoryPool.BlockCache.Carve.{EndsBefore, new_blocks-Every_iff}
use learncc.MemoryPool.BlockCache.Thread.{IsShort}

-- Three pages are cut into blocks of 4096 bytes.
new_blocks_test : new_blocks 4096 8192 3 ≡ 8192 ∷ 12288 ∷ 16384 ∷ []
unfolding new_blocks carve
new_blocks_test = refl

-- `move_page 144` is 15 pages.
new_blocks-Every_iff_example :
    Every (EndsBefore 144 (4096 + 15 * page_size)) (new_blocks 144 4096 15)
    ↔ (15 * page_size % 144 ≡ 0)
new_blocks-Every_iff_example = new_blocks-Every_iff 144 4096 15 (omega arith) (omega arith)

abbrev full : Span
full = record { start = 8192; pages = 1; free = []; used = 2 }

abbrev half : Span
half = record { start = 4096; pages = 1; free = 6144 ∷ []; used = 1 }

-- The span in front has nothing left, the next has one block and goes to the end.
fetch_range_test :
    fetch_range 2 2048 0 1 (full ∷ half ∷ [])
    ≡ (6144 ∷ [], full ∷ record half { free = []; used = 2 } ∷ [])
unfolding fetch_range fetch_first fetch
fetch_range_test = refl

abbrev fresh : Cache
fresh = record { local = empty_list; spans = half ∷ [] }

fresh-IsShort : IsShort 2 empty_list
fresh-IsShort = record { counted = refl; below = omega arith; capped = omega arith }
