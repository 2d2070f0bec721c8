-- ===== src/Base/Masks.antt =====
-- `&` and `|` with a run of ones, or with a shifted operand, as arithmetic.
use native.Mathlib.Nat.{pow-suc, one-le-pow, div-div-eq-div-mul, mul-div_cancel}
use mathlib.Core.Path.{◌≡◌, ◌∙◌, ap}
use native.Mathlib.Omega.{arith}
use Prim.Native.Nat.{ℕ, zero, suc, ◌+◌, ◌-◌, ◌*◌, ◌/◌, ◌%◌, ◌^◌, ◌<◌, bit_and, bit_or}
use fused_checkmate.Base.Digits.{bit_and_lowest, bit_or_lowest}
use mathlib.Core.Bool.{true, false}
use fused_checkmate.Base.Bits.{
  test_bit, not_bits, test_bit-bit_or, test_bit-bit_and, test_bit-not_bits, test_bit-two_pow,
  bit_and-zero, mod-two_pow_suc,
}

twice : (m k : ℕ) → m * 2 ^ suc k ≡ m * 2 ^ k * 2
twice m k = omega (arith, ap (λ (p : ℕ). m * p) (pow-suc 2 k))

half_shift : (a k : ℕ) → a / 2 / 2 ^ k ≡ a / 2 ^ suc k
half_shift a k = div-div-eq-div-mul a 2 (2 ^ k) ∙ ap (λ (p : ℕ). a / p) (omega (arith, pow-suc 2 k))

-- `a & (2 ^ k - 1)`
pub bit_and_low : (k a : ℕ) → bit_and a (2 ^ k - 1) ≡ a % 2 ^ k
bit_and_low zero a = omega (arith, bit_and-zero a)
bit_and_low (suc k) a =
    let half : (2 ^ suc k - 1) / 2 ≡ 2 ^ k - 1 =
      omega (arith, pow-suc 2 k, one-le-pow k 2 (omega arith)) in
    omega (
      arith,
      bit_and_lowest a (2 ^ suc k - 1),
      ap (bit_and (a / 2)) half,
      bit_and_low k (a / 2),
      mod-two_pow_suc k a,
      pow-suc 2 k,
      one-le-pow k 2 (omega arith),
    )

-- `a & (m << k)`
pub bit_and_scaled : (k a m : ℕ) → bit_and a (m * 2 ^ k) ≡ bit_and (a / 2 ^ k) m * 2 ^ k
bit_and_scaled zero a m =
    let one : m * 2 ^ 0 ≡ m = omega arith in
    let whole : a / 2 ^ 0 ≡ a = omega arith in
    ap (bit_and a) one ∙ omega (arith, ap (λ (t : ℕ). bit_and t m) whole)
bit_and_scaled (suc k) a m =
    let half : m * 2 ^ suc k / 2 ≡ m * 2 ^ k = omega (arith, twice m k) in
    omega (
      arith,
      bit_and_lowest a (m * 2 ^ suc k),
      twice m k,
      ap (bit_and (a / 2)) half,
      bit_and_scaled k (a / 2) m,
      ap (λ (t : ℕ). bit_and t m * 2 ^ k) (half_shift a k),
      twice (bit_and (a / 2 ^ suc k) m) k,
    )

-- `a | (m << k)`
pub bit_or_scaled : (k a m : ℕ) → bit_or a (m * 2 ^ k) ≡ bit_or (a / 2 ^ k) m * 2 ^ k + a % 2 ^ k
bit_or_scaled zero a m =
    let one : m * 2 ^ 0 ≡ m = omega arith in
    let whole : a / 2 ^ 0 ≡ a = omega arith in
    ap (bit_or a) one ∙ omega (arith, ap (λ (t : ℕ). bit_or t m) whole)
bit_or_scaled (suc k) a m =
    let half : m * 2 ^ suc k / 2 ≡ m * 2 ^ k = omega (arith, twice m k) in
    omega (
      arith,
      bit_or_lowest a (m * 2 ^ suc k),
      twice m k,
      ap (bit_or (a / 2)) half,
      bit_or_scaled k (a / 2) m,
      ap (λ (t : ℕ). bit_or t m * 2 ^ k) (half_shift a k),
      twice (bit_or (a / 2 ^ suc k) m) k,
      mod-two_pow_suc k a,
    )

-- A field of a word: `(a & (mask << k)) >> k`, the mask w ones.
pub field_lem : (w k a : ℕ) → bit_and a ((2 ^ w - 1) * 2 ^ k) / 2 ^ k ≡ a / 2 ^ k % 2 ^ w
field_lem w k a =
    ap (λ (t : ℕ). t / 2 ^ k) (bit_and_scaled k a (2 ^ w - 1))
    ∙ mul-div_cancel (bit_and (a / 2 ^ k) (2 ^ w - 1)) (one-le-pow k 2 (omega arith))
    ∙ bit_and_low w (a / 2 ^ k)

pub or_ones : (k a : ℕ) → a < 2 ^ k → bit_or a (2 ^ k - 1) ≡ 2 ^ k - 1
or_ones zero a h = let none_left : a ≡ 0 = omega arith in ap (λ (t : ℕ). bit_or t 0) none_left
or_ones (suc k) a h =
    let half : (2 ^ suc k - 1) / 2 ≡ 2 ^ k - 1 =
      omega (arith, pow-suc 2 k, one-le-pow k 2 (omega arith)) in
    omega (
      arith,
      bit_or_lowest a (2 ^ suc k - 1),
      ap (bit_or (a / 2)) half,
      or_ones k (a / 2) (omega (arith, pow-suc 2 k)),
      pow-suc 2 k,
      one-le-pow k 2 (omega arith),
    )

-- A bit that has been set, and one that has been cleared.
pub set_here : (x i : ℕ) → test_bit (bit_or x (2 ^ i)) i ≡ true
set_here x i = rw (test_bit-bit_or i x (2 ^ i), test_bit-two_pow i i) (ground arith)

pub clear_here : (x i : ℕ) → i < 32 → test_bit (bit_and x (not_bits 32 (2 ^ i))) i ≡ false
clear_here x i small =
    rw
      (
        test_bit-bit_and i x (not_bits 32 (2 ^ i)),
        test_bit-not_bits i 32 (2 ^ i) small,
        test_bit-two_pow i i,
      )
      (ground arith)
