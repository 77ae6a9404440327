-- ===== src/MemoryPool/SizeClass/Classes.antt =====
-- How much moves between the caches, and the requests that `thread_cache::allocate` cannot serve.
use learncc.Prelude.{
  ℕ, zero, suc, ◌+◌, ◌-◌, ◌*◌, ◌≤◌, ◌<◌, ◌^◌, ◌≡◌, ◌↔◌, none, some, arith, ap, Option-cases, inl,
  inr, refl,
}
use native.Mathlib.Nat.{mul-le-mul_right}
use learncc.Prelude.Bits.{bit_and_8, bit_and_16, bit_and_128, bit_and_512}
use learncc.MemoryPool.SizeClass.{
  max_bytes, round_up_to, round_up, index_in, index, move_num, move_page, nlists,
}
use learncc.MemoryPool.SizeClass.Laws.{round_up-IsBlock, index-lt-nlists}

-- A transfer moves between 2 and 512 blocks.
pub move_num_bounds : (size : ℕ) → 0 < size → (2 ≤ move_num size) × (move_num size ≤ 512)
unfolding move_num
move_num_bounds size h = ground arith

move_num_le : (size : ℕ) → 0 < size → size ≤ max_bytes → move_num size * size ≤ 2 * max_bytes
unfolding move_num
move_num_le size h k = grind arith

-- The pages of a transfer hold at least one block, and the page cache has a list for their number.
pub move_page_bounds :
    (size : ℕ)
    → 0 < size
    → size ≤ max_bytes
    → (size ≤ move_page size * 4096) × (move_page size ≤ 32)
unfolding move_page
move_page_bounds size h k = ground (
  arith,
  move_num_bounds size h,
  move_num_le size h k,
  mul-le-mul_right size (move_num_bounds size h).0,
)

index_total : (bytes : ℕ) → bytes < max_bytes → (i : ℕ) × (index bytes ≡ some i)
unfolding index
index_total bytes h = elim (Option-cases (index bytes)) [
  | inl e ↦ absurd (ground arith)
  | inr found ↦ found
]

index_none : (bytes : ℕ) → max_bytes ≤ bytes → index bytes ≡ none
unfolding index
index_none bytes h = ground arith

index_zero : index 0 ≡ some (2 ^ 64 - 1)
unfolding index index_in
index_zero = refl

round_up_zero : {r : ℕ} → round_up 0 ≡ some r → r ≡ 0
unfolding round_up round_up_to
round_up_zero e = ground (arith, bit_and_8 7)

-- Above 65024 bytes the block has 64 KiB, and up to there less.
round_up_last : (size : ℕ) {r : ℕ} → round_up size ≡ some r → (r < max_bytes) ↔ (size ≤ 65024)
unfolding round_up round_up_to
round_up_last size e = ground (
  arith,
  bit_and_8 (size + 7),
  bit_and_16 (size + 15),
  bit_and_128 (size + 127),
  bit_and_512 (size + 511),
)

has_list-lt : (bytes i : ℕ) → index bytes ≡ some i → bytes < max_bytes
has_list-lt bytes i p = ground (arith, index_none bytes)

-- Of the requests that `round_up` accepts, those and only those of 1 to 65024 bytes get a list
-- whose index is in range: at 0 bytes the index wraps around, and above 65024 bytes the assertion
-- of `index` fails.
pub index-round_up_in_range_iff :
    (size : ℕ) {r : ℕ}
    → round_up size ≡ some r
    → ((i : ℕ) × (index r ≡ some i) × (i < nlists)) ↔ ((0 < size) × (size ≤ 65024))
index-round_up_in_range_iff zero {r} e = (
  λ found. absurd (ground (arith, index_zero, ap index (round_up_zero e), found.1, found.2)),
  λ h. absurd (omega arith),
)
index-round_up_in_range_iff (suc n) {r} e = (
  λ found. (omega arith, (round_up_last (suc n) e).0 (has_list-lt r found.0 found.1)),
  λ h.
      let (i, p) = index_total r ((round_up_last (suc n) e).1 h.1) in
      (i, p, index-lt-nlists r (round_up-IsBlock (suc n) (omega arith) e).pos p),
)
