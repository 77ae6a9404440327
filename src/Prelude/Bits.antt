-- ===== src/Prelude/Bits.antt =====
-- `x & ~(2^k - 1)` on 64-bit words clears the low bits of `x`.
use Prim.Native.Nat.{
  ℕ, zero, suc, ◌+◌, ◌-◌, ◌*◌, ◌/◌, ◌%◌, ◌^◌, ◌≤◌, ◌<◌, min, bit_and, digits, bit_and-bitwise,
}
use mathlib.Core.Path.{◌≡◌, refl, ap, sym, ◌∙◌}
use native.Mathlib.Nat.{pow-suc}
use native.Mathlib.Omega.{arith}

-- `~m` of a 64-bit word, and the mask by which the source rounds up to a multiple of `align`.
abbrev pub not_size : ℕ → ℕ
not_size m = 2 ^ 64 - 1 - m

-- `bit_and` is a walk over the binary digits of its first argument; `rounds` bounds the walk.
abbrev walk : ℕ → ℕ → ℕ → ℕ
walk x y rounds = digits (λ rest. zero) min rounds x y

-- Any two bounds that are large enough give the same walk.
walk-enough : (r s : ℕ) (x y : ℕ) → x ≤ r × (x ≤ s) → walk x y r ≡ walk x y s
walk-enough (suc r) (suc s) (suc x) y (h, k) =
    let half : suc x / 2 ≤ r = omega arith in
    let half' : suc x / 2 ≤ s = omega arith in
    ap (λ n. n * 2 + min (suc x % 2) (y % 2)) (walk-enough r s (suc x / 2) (y / 2) (half, half'))
walk-enough (suc r) (suc s) zero y h = refl
walk-enough (suc r) zero zero y h = refl
walk-enough zero (suc s) zero y h = refl
walk-enough zero zero zero y h = refl
walk-enough (suc r) zero (suc x) y h = absurd (omega arith)
walk-enough zero s (suc x) y h = absurd (omega arith)

bit_and_nothing : (y : ℕ) → bit_and 0 y ≡ 0
bit_and_nothing = bit_and-bitwise 0

-- The last digit of `bit_and`, and the digits before it.
bit_and_last : (x y : ℕ) → bit_and x y ≡ bit_and (x / 2) (y / 2) * 2 + min (x % 2) (y % 2)
bit_and_last zero y = omega (arith, bit_and_nothing (y / 2), bit_and_nothing y)
bit_and_last (suc x) y =
    let before : walk (suc x / 2) (y / 2) x ≡ bit_and (suc x / 2) (y / 2) =
      walk-enough x (suc x / 2) (suc x / 2) (y / 2) (omega arith)
      ∙ sym (bit_and-bitwise (suc x / 2) (y / 2)) in
    bit_and-bitwise (suc x) y ∙ ap (λ n. n * 2 + min (suc x % 2) (y % 2)) before

-- A mask of ones keeps every word that fits.
bit_and_ones : (n x m : ℕ) → m ≡ 2 ^ n - 1 → x ≤ m → bit_and x m ≡ x
bit_and_ones zero x m e h = let z : x ≡ 0 = omega arith in rw (z, bit_and_nothing)
bit_and_ones (suc n) x m e h =
    let p : 2 ^ suc n ≡ 2 * 2 ^ n = pow-suc 2 n ∙ omega arith in
    omega
      (arith, p, bit_and_last x m, bit_and_ones n (x / 2) (m / 2) (omega (arith, p)) (omega arith))

bit_and_double : (x m : ℕ) → bit_and x (2 * m) ≡ 2 * bit_and (x / 2) m
bit_and_double x m =
    let e : 2 * m / 2 ≡ m = omega arith in
    omega (arith, bit_and_last x (2 * m), ap (bit_and (x / 2)) e)

abbrev halve : ℕ → ℕ → ℕ
halve zero x = x
halve (suc k) x = halve k (x / 2)

abbrev double : ℕ → ℕ → ℕ
double zero m = m
double (suc k) m = 2 * double k m

-- A mask whose low `k` bits are clear.
bit_and-double : (k x m : ℕ) → bit_and x (double k m) ≡ double k (bit_and (halve k x) m)
bit_and-double zero x m = refl
bit_and-double (suc k) x m =
    bit_and_double x (double k m) ∙ ap (λ n. 2 * n) (bit_and-double k (x / 2) m)

-- Clearing the low `k` bits of a word.
bit_and_high :
    (k n x : ℕ) → halve k x ≤ 2 ^ n - 1 → bit_and x (double k (2 ^ n - 1)) ≡ double k (halve k x)
bit_and_high k n x h =
    bit_and-double k x (2 ^ n - 1) ∙ ap (double k) (bit_and_ones n (halve k x) _ refl h)

pub bit_and_8 : (x : ℕ) → x < 2 ^ 64 → bit_and x (not_size 7) ≡ x / 8 * 8
bit_and_8 x h = omega (arith, bit_and_high 3 61 x (omega arith))

pub bit_and_16 : (x : ℕ) → x < 2 ^ 64 → bit_and x (not_size 15) ≡ x / 16 * 16
bit_and_16 x h = omega (arith, bit_and_high 4 60 x (omega arith))

pub bit_and_128 : (x : ℕ) → x < 2 ^ 64 → bit_and x (not_size 127) ≡ x / 128 * 128
bit_and_128 x h = omega (arith, bit_and_high 7 57 x (omega arith))

pub bit_and_512 : (x : ℕ) → x < 2 ^ 64 → bit_and x (not_size 511) ≡ x / 512 * 512
bit_and_512 x h = omega (arith, bit_and_high 9 55 x (omega arith))

pub bit_and_4096 : (x : ℕ) → x < 2 ^ 64 → bit_and x (not_size 4095) ≡ x / 4096 * 4096
bit_and_4096 x h = omega (arith, bit_and_high 12 52 x (omega arith))
