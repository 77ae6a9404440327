-- ===== src/MemoryPool/SizeClass.antt =====
-- `class size_class` of inc/memory_pool/comm.h: which block size serves a request, which of the 240
-- free lists keeps it, and how many blocks and pages move at once. `none` is a failed `assert`.
pub mod Laws
pub mod Classes
mod Tests
use Prim.Native.Nat.{bit_and}
use learncc.Prelude.{
  ℕ, ◌+◌, ◌-◌, ◌*◌, ◌/◌, ◌^◌, Option, none, some, ltb, leb, ◌==◌, if◌then◌else◌, add_size, sub_size,
}
use learncc.Prelude.Bits.{not_size}

abbrev pub nlists : ℕ
nlists = 240

abbrev pub max_bytes : ℕ
max_bytes = 64 * 1024

abbrev pub page_shift : ℕ
page_shift = 12

-- `(size + align - 1) & ~(align - 1)`
unfoldable pub round_up_to : ℕ → ℕ → ℕ
round_up_to size align = bit_and (sub_size (add_size size align) 1) (not_size (align - 1))

unfoldable pub round_up : ℕ → Option ℕ
round_up size =
    if leb size max_bytes
    then (if leb size 128
        then some (round_up_to size 8)
        else if leb size 1024
        then some (round_up_to size 16)
        else if leb size (8 * 1024)
        then some (round_up_to size 128)
        else if leb size (64 * 1024)
        then some (round_up_to size 512)
        else some (2 ^ 64 - 1))
    else none

-- `((bytes + (1 << align_shift) - 1) >> align_shift) - 1`
unfoldable pub index_in : ℕ → ℕ → ℕ
index_in bytes shift = sub_size (sub_size (add_size bytes (2 ^ shift)) 1 / 2 ^ shift) 1

-- The sums of `group_tbl = { 16, 56, 56, 112 }` are written out.
unfoldable pub index : ℕ → Option ℕ
index bytes =
    if ltb bytes max_bytes
    then (if leb bytes 128
        then some (index_in bytes 3)
        else if leb bytes 1024
        then some (add_size (index_in (bytes - 128) 4) 16)
        else if leb bytes (8 * 1024)
        then some (add_size (add_size (index_in (bytes - 1024) 7) 56) 16)
        else if leb bytes (64 * 1024)
        then some (add_size (add_size (add_size (index_in (bytes - 8 * 1024) 9) 56) 56) 16)
        else some (2 ^ 64 - 1))
    else none

unfoldable pub move_num : ℕ → ℕ
move_num size =
    if size == 0
    then 0
    else let num = max_bytes / size in
      let at_least = if ltb num 2 then 2 else num in if ltb 512 at_least then 512 else at_least

unfoldable pub move_page : ℕ → ℕ
move_page size =
    let npage = move_num size * size / 2 ^ page_shift in if npage == 0 then 1 else npage
