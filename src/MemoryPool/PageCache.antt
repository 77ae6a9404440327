-- ===== src/MemoryPool/PageCache.antt =====
-- src/memory_pool/page_cache.cc: runs of pages ("spans") that are handed out, split, merged and kept in
-- lists by their length. Pages are numbers (an address shifted by `PAGE_SHIFT`). A span is named by its
-- `page_id_`, which no operation changes while the span exists.
pub mod Tiling
pub mod Merging
pub mod Release
pub mod Grant
pub mod Runs
mod Tests
use learncc.Prelude.{
  ℕ, zero, suc, ◌+◌, ◌-◌, ◌*◌, ◌^◌, Bool, true, false, ◌||◌, List, [], ◌∷◌, Option, none, some, ltb,
  leb, ◌==◌, if◌then◌else◌, sub_size, put, fill_from,
}

abbrev pub npages : ℕ
npages = 129

-- `owner` is `pageid_span_map_`, and `size`, `used` and `block_size` are the fields of the span that
-- starts at a page; a size of 0 is no span. `lists` is `page_list_`.
pub record Cache : Type 0 where
  pub owner : ℕ → Option ℕ
  pub size : ℕ → ℕ
  pub used : ℕ → ℕ
  pub block_size : ℕ → ℕ
  pub lists : ℕ → List ℕ

abbrev pub make : Cache
make = record {
  owner = λ p. none;
  size = λ p. 0;
  used = λ p. 0;
  block_size = λ p. 0;
  lists = λ k. [];
}

-- `span_list::erase`; `none` is the write through the null links of a span that is on no list.
pub unlink : ℕ → List ℕ → Option (List ℕ)
unlink i [] = none
unlink i (x ∷ xs) =
    let rest = unlink i xs in
    if x == i then some xs else elim rest [ none ↦ none | some ys ↦ some (x ∷ ys) ]

-- The loop over longer lists: `rounds` of them from `k` on.
pub first_list : ℕ → ℕ → Cache → Option ℕ
first_list zero k c = none
first_list (suc rounds) k c = elim (c.lists k) [
  | [] ↦ first_list rounds (k + 1) c
  | i ∷ is ↦ some k
]

-- Cuts `pages` pages off the end of the first span `i` of list `k`. Here and below, `raw` is what a new
-- span at a page has as `used_count_`, which its constructor does not set.
pub split : (ℕ → ℕ) → ℕ → ℕ → ℕ → List ℕ → Cache → ℕ × Cache
split raw pages k i is c =
    let rest = c.size i - pages in
    let cut = i + c.size i - pages in
    let popped = put c.lists k is in
    (
      cut,
      record c {
        owner = fill_from pages cut (some cut) c.owner;
        size = put (put c.size i rest) cut pages;
        used = put c.used cut (raw cut);
        lists = put popped rest (i ∷ popped rest);
      },
    )

abbrev split_first : (ℕ → ℕ) → ℕ → ℕ → Cache → List ℕ → Option (ℕ × Cache)
split_first raw pages k c [] = none
split_first raw pages k c (i ∷ is) = some (split raw pages k i is c)

abbrev from_longer : (ℕ → ℕ) → ℕ → Cache → Option ℕ → Option (ℕ × Cache)
from_longer raw pages c none = none
from_longer raw pages c (some k) = split_first raw pages k c (c.lists k)

-- The part of `new_span_` in front of the call of the system.
pub find_with : (ℕ → ℕ) → ℕ → Cache → List ℕ → Option (ℕ × Cache)
unfolding first_list
find_with raw pages c (i ∷ is) = some (i, record c { lists = put c.lists pages is })
find_with raw pages c [] = from_longer raw pages c (first_list (npages - (pages + 1)) (pages + 1) c)

pub find : (ℕ → ℕ) → ℕ → Cache → Option (ℕ × Cache)
unfolding find_with
find raw pages c = find_with raw pages c (c.lists pages)

-- A new span of `NPAGES - 1` pages at page `a`.
pub grow : (ℕ → ℕ) → ℕ → Cache → Cache
grow raw a c = record c {
  owner = fill_from (npages - 1) a (some a) c.owner;
  size = put c.size a (npages - 1);
  used = put c.used a (raw a);
  lists = put c.lists (npages - 1) (a ∷ c.lists (npages - 1));
}

-- What `new_span` ends with: a span, the exception of `sys_alloc`, or a second recursive call.
pub data Outcome : Type 0 where
  span : ℕ → Cache → Outcome
  bad_alloc : Outcome
  again : Outcome

-- `sys` is the page that the system gives, if it gives one.
pub take_new : (ℕ → ℕ) → ℕ → Option ℕ → Cache → Outcome
unfolding find grow
take_new raw pages sys c = elim (find raw pages c) [
  | some (i, c') ↦ span i c'
  | none ↦ elim sys [
    | none ↦ bad_alloc
    | some a ↦ elim (find raw pages (grow raw a c)) [ some (i, c') ↦ span i c' | none ↦ again ]
  ]
]

abbrev set_block_size : Outcome → Outcome
set_block_size (span i c) =
    span i (record c { block_size = put c.block_size i (c.size i * 2 ^ 12) })
set_block_size o = o

pub large_span : (ℕ → ℕ) → ℕ → Option ℕ → Cache → Outcome
large_span raw pages none c = bad_alloc
large_span raw pages (some a) c = span a (record c {
  owner = put c.owner a (some a);
  size = put c.size a pages;
  used = put c.used a (raw a);
  block_size = put c.block_size a (pages * 2 ^ 12);
})

pub new_span : (ℕ → ℕ) → ℕ → Option ℕ → Cache → Outcome
unfolding take_new large_span
new_span raw pages sys c =
    if leb npages pages
    then large_span raw pages sys c
    else set_block_size (take_new raw pages sys c)

-- Callers change `used_count_` themselves.
abbrev pub set_used : ℕ → ℕ → Cache → Cache
set_used i n c = record c { used = put c.used i n }

-- Whether the span at `j` may not be merged with that at `s`.
abbrev pub stops : ℕ → ℕ → Cache → Bool
stops j s c = ltb 0 (c.used j) || leb npages (c.size j + c.size s)

abbrev without : ℕ → Cache → Option (List ℕ) → Option Cache
without j c none = none
without j c (some is) = some (record c { lists = put c.lists (c.size j) is })

-- Takes `j` off its list.
pub erase : ℕ → Cache → Option Cache
unfolding unlink
erase j c = without j c (unlink j (c.lists (c.size j)))

abbrev absorb : ℕ → ℕ → Cache → Cache
absorb into s c = record c { size = put (put c.size into (c.size into + c.size s)) s 0 }

-- How a loop of `release_to_pagecache` ends: the span and the cache, a fault, or (never) out of fuel.
pub data Merge : Type 0 where
  merged : ℕ → Cache → Merge
  fault : Merge
  out_of_fuel : Merge

-- `page_id_ - 1` wraps around at page 0.
pub merge_back : ℕ → ℕ → Cache → Merge
unfolding erase
merge_back zero s c = out_of_fuel
merge_back (suc fuel) s c = elim (c.owner (sub_size s 1)) [
  | none ↦ merged s c
  | some j ↦ elim (stops j s c) [
    | true ↦ merged s c
    | false ↦ elim (erase j c) [ none ↦ fault | some c' ↦ merge_back fuel j (absorb j s c') ]
  ]
]

pub merge_next : ℕ → ℕ → Cache → Merge
unfolding erase
merge_next zero s c = out_of_fuel
merge_next (suc fuel) s c = elim (c.owner (s + c.size s)) [
  | none ↦ merged s c
  | some j ↦ elim (stops j s c) [
    | true ↦ merged s c
    | false ↦ elim (erase j c) [ none ↦ fault | some c' ↦ merge_next fuel s (absorb s j c') ]
  ]
]

-- The last lines: every page of the span is mapped to it, and it goes to the front of its list.
pub settle : ℕ → Cache → Cache
settle s c = record c {
  owner = fill_from (c.size s) s (some s) c.owner;
  lists = put c.lists (c.size s) (s ∷ c.lists (c.size s));
}

abbrev and_settle : Merge → Merge
and_settle (merged s c) = merged s (settle s c)
and_settle m = m

abbrev and_next : Merge → Merge
and_next (merged s c) = and_settle (merge_next npages s c)
and_next m = m

pub release : ℕ → Cache → Merge
unfolding merge_back merge_next settle
release s c =
    if leb npages (c.size s)
    then merged s (record c { owner = put c.owner s none; size = put c.size s 0 })
    else and_next (merge_back npages s c)

-- `block_to_span`, of a page; `none` is a failed assertion.
pub block_to_span : ℕ → Cache → Option ℕ
block_to_span p c = c.owner p
