-- ===== src/MemoryPool/SizeClass/Laws.antt =====
-- Rounding and indexing, class by class.
use learncc.Prelude.{
  ℕ, ◌+◌, ◌-◌, ◌*◌, ◌%◌, ◌≤◌, ◌<◌, ◌≡◌, ap, sym, ◌∙◌, ◌↔◌, ltb, if◌then◌else◌, some, arith,
}
use learncc.Prelude.Bits.{bit_and_8, bit_and_16, bit_and_128, bit_and_512}
use learncc.MemoryPool.SizeClass.{max_bytes, round_up_to, round_up, index_in, index, nlists}

-- A request is served by a block that holds it and stays within 64 KiB, aligned to 8 bytes; above
-- 128 bytes less than an eighth of the block is wasted.
pub round_up_bounds :
    (size : ℕ) {r : ℕ}
    → 0 < size
    → round_up size ≡ some r
    → (size ≤ r)
      × (r ≤ max_bytes)
      × (r % 8 ≡ 0)
      × (size ≤ 128 → r < size + 8)
      × (128 < size → 8 * (r - size) < r)
unfolding round_up round_up_to
round_up_bounds size h e = ground (
  arith,
  bit_and_8 (size + 7),
  bit_and_16 (size + 15),
  bit_and_128 (size + 127),
  bit_and_512 (size + 511),
)

-- The sizes of blocks: multiples of 8, 16, 128 or 512, by range.
pub record IsBlock (r : ℕ) : Type 0 where
  pub pos : 0 < r
  pub fits : r ≤ max_bytes
  pub by_8 : r % 8 ≡ 0
  pub by_16 : 128 < r → r % 16 ≡ 0
  pub by_128 : 1024 < r → r % 128 ≡ 0
  pub by_512 : 8 * 1024 < r → r % 512 ≡ 0

pub round_up-IsBlock : (size : ℕ) {r : ℕ} → 0 < size → round_up size ≡ some r → IsBlock r
unfolding round_up round_up_to
round_up-IsBlock size h e = ground (
  arith,
  bit_and_8 (size + 7),
  bit_and_16 (size + 15),
  bit_and_128 (size + 127),
  bit_and_512 (size + 511),
)

-- Rounding a block size changes nothing.
pub round_up_block : (r : ℕ) → IsBlock r → round_up r ≡ some r
unfolding round_up round_up_to
round_up_block r k =
    ground
      (arith, bit_and_8 (r + 7), bit_and_16 (r + 15), bit_and_128 (r + 127), bit_and_512 (r + 511))

-- The size of the blocks on list `i`.
pub block_size : ℕ → ℕ
block_size i =
    if ltb i 16
    then 8 * (i + 1)
    else if ltb i 72
    then 128 + 16 * (i - 15)
    else if ltb i 128
    then 1024 + 128 * (i - 71)
    else 8 * 1024 + 512 * (i - 127)

-- The list of a block size determines the size.
pub block_size-index : (r : ℕ) {i : ℕ} → IsBlock r → index r ≡ some i → block_size i ≡ r
unfolding index index_in block_size
block_size-index r k e = ground arith

-- Every block size below 64 KiB has one of the 240 lists.
pub index-lt-nlists : (bytes : ℕ) {i : ℕ} → 0 < bytes → index bytes ≡ some i → i < nlists
unfolding index index_in
index-lt-nlists bytes h e = ground arith

-- Two requests share a free list exactly when the same block size serves them, so that all blocks
-- of a list have one size.
pub index-round_up_iff :
    (a b : ℕ) {r s i j : ℕ}
    → 0 < a
    → 0 < b
    → round_up a ≡ some r
    → round_up b ≡ some s
    → index r ≡ some i
    → index s ≡ some j
    → (i ≡ j) ↔ (r ≡ s)
index-round_up_iff a b {r} {s} p q e f g h = (
  λ n.
      sym (block_size-index r (round_up-IsBlock a p e) g)
      ∙ (ap block_size n ∙ block_size-index s (round_up-IsBlock b q f) h),
  λ n. cc (ap index n),
)
