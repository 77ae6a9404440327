-- ===== src/MemoryPool/BlockCache.antt =====
-- src/memory_pool/thread_cache.cc and central_cache.cc, for one block size: a thread's free list, and the
-- spans of the central cache that are cut into blocks. A block is its address. The list that runs
-- through the blocks is a list of addresses, and the pages of a new span are an argument.
pub mod Carve
pub mod Central
pub mod Thread
pub mod Release
mod Tests
use learncc.Prelude.{
  ℕ, zero, suc, ◌+◌, ◌-◌, ◌*◌, ◌^◌, Bool, true, false, List, [], ◌∷◌, ◌++◌, Option, none, some,
  length, take, drop, ltb, leb, ◌==◌, if◌then◌else◌, sub_size, add_size, min,
}

-- `free_list`; `size_` is kept beside the list.
pub record FreeList : Type 0 where
  pub list : List ℕ
  pub size : ℕ
  pub max_size : ℕ

abbrev pub empty_list : FreeList
empty_list = record { list = []; size = 0; max_size = 1 }

pub push : ℕ → FreeList → FreeList
push b f = record f { list = b ∷ f.list; size = add_size f.size 1 }

pub push_range : List ℕ → ℕ → FreeList → FreeList
push_range bs n f = record f { list = bs ++ f.list; size = add_size f.size n }

pub clear : FreeList → List ℕ × FreeList
clear f = (f.list, record f { list = []; size = 0 })

-- A span of the central cache, named by its first address.
pub record Span : Type 0 where
  pub start : ℕ
  pub pages : ℕ
  pub free : List ℕ
  pub used : ℕ

-- The blocks that the loop of `get_one_span` strings together: the one at `cur`, and those behind it
-- that start in front of `stop`.
pub carve : ℕ → ℕ → ℕ → ℕ → List ℕ
carve zero bytes cur stop = cur ∷ []
carve (suc fuel) bytes cur stop =
    let rest = carve fuel bytes (cur + bytes) stop in
    cur ∷ (if ltb (cur + bytes) stop then rest else [])

abbrev pub page_size : ℕ
page_size = 2 ^ 12

pub new_blocks : ℕ → ℕ → ℕ → List ℕ
unfolding carve
new_blocks bytes start pages = carve (pages * page_size) bytes start (start + pages * page_size)

-- The blocks that leave a span, and the span.
pub fetch : ℕ → Span → List ℕ × Span
fetch num s =
    let got = take num s.free in
    (got, record s { free = drop num s.free; used = add_size s.used (length got) })

abbrev is_nil : List ℕ → Bool
is_nil [] = true
is_nil (x ∷ xs) = false

-- A span with no block left goes to the end of the list.
abbrev replace : Span → List Span → List Span
replace s ss = if is_nil s.free then ss ++ (s ∷ []) else s ∷ ss

-- The first span with a free block serves; `none` if there is none.
pub fetch_first : ℕ → List Span → Option (List ℕ × List Span)
unfolding fetch
fetch_first num [] = none
fetch_first num (s ∷ ss) =
    let later = fetch_first num ss in
    let (got, s') = fetch num s in
    if is_nil s.free
    then elim later [ none ↦ none | some (bs, ss') ↦ some (bs, s ∷ ss') ]
    else some (got, replace s' ss)

-- `fetch_range_block`; `start` and `pages` are those of a new span, if one is needed.
pub fetch_range : ℕ → ℕ → ℕ → ℕ → List Span → List ℕ × List Span
unfolding new_blocks fetch_first fetch
fetch_range num bytes start pages ss = elim (fetch_first num ss) [
  | some r ↦ r
  | none ↦
      let fresh : Span = record {
        start = start;
        pages = pages;
        free = new_blocks bytes start pages;
        used = 0;
      } in
      let (got, s) = fetch num fresh in (got, replace s ss)
]

-- One round of `release_to_spans`: the span `owner` of the block takes it, and leaves the list,
-- with its own list dropped, if no block of it is used any more.
pub release_one : ℕ → ℕ → List Span → List Span × List Span
release_one owner b [] = ([], [])
release_one owner b (s ∷ ss) =
    let used = sub_size s.used 1 in
    let (ss', gone) = release_one owner b ss in
    if s.start == owner
    then (if used == 0
        then (ss, record s { free = []; used = 0 } ∷ [])
        else (record s { free = b ∷ s.free; used = used } ∷ ss, []))
    else (s ∷ ss', gone)

-- The spans, and those that are handed to the page cache.
pub release_to_spans : (ℕ → ℕ) → List ℕ → List Span → List Span × List Span
unfolding release_one
release_to_spans owner [] ss = (ss, [])
release_to_spans owner (b ∷ bs) ss =
    let (ss', gone) = release_one (owner b) b ss in
    let (ss'', gone') = release_to_spans owner bs ss' in (ss'', gone ++ gone')

-- A thread's list of one size with the spans behind it.
pub record Cache : Type 0 where
  pub local : FreeList
  pub spans : List Span

pub keep_rest : List ℕ → FreeList → FreeList
unfolding push_range
keep_rest bs f = if ltb 1 (length bs + 1) then push_range bs (length bs) f else f

pub slow_start : ℕ → FreeList → FreeList
slow_start num f = if num == f.max_size then record f { max_size = num + 1 } else f

-- `fetch_from_centralcache`; `limit` is `move_num` of the size. An empty answer is a call through null.
abbrev store_rest : ℕ → List Span → FreeList → List ℕ → Option (ℕ × Cache)
store_rest num ss f [] = none
store_rest num ss f (b ∷ bs) =
    some (b, record { local = slow_start num (keep_rest bs f); spans = ss })

pub fetch_from_central : ℕ → ℕ → ℕ → ℕ → Cache → Option (ℕ × Cache)
unfolding fetch_range keep_rest slow_start
fetch_from_central limit bytes start pages c =
    let num = min limit c.local.max_size in
    let (got, ss) = fetch_range num bytes start pages c.spans in store_rest num ss c.local got

abbrev allocate_from : ℕ → ℕ → ℕ → ℕ → Cache → List ℕ → Option (ℕ × Cache)
allocate_from limit bytes start pages c [] = fetch_from_central limit bytes start pages c
allocate_from limit bytes start pages c (b ∷ bs) =
    some (b, record c { local = record c.local { list = bs; size = sub_size c.local.size 1 } })

pub allocate : ℕ → ℕ → ℕ → ℕ → Cache → Option (ℕ × Cache)
unfolding fetch_from_central
allocate limit bytes start pages c = allocate_from limit bytes start pages c c.local.list

-- The cache, and the spans that are handed to the page cache.
pub deallocate : (ℕ → ℕ) → ℕ → Cache → Cache × List Span
unfolding push clear release_to_spans
deallocate owner b c =
    let f = push b c.local in
    let (bs, f') = clear f in
    let (ss, gone) = release_to_spans owner bs c.spans in
    if leb f.max_size f.size
    then (record { local = f'; spans = ss }, gone)
    else (record c { local = f }, [])
