-- ===== src/Base/Bits.antt =====
-- Single bits of a number, and the laws of `&`, `|`, `^` and `~` read off bit by bit.
use fused_checkmate.Base.Digits.{bit_and_lowest, bit_or_lowest, bit_xor_lowest}
use Prim.Native.Nat.{
  ℕ, zero, suc, ◌+◌, ◌-◌, ◌*◌, ◌/◌, ◌%◌, ◌^◌, ◌≤◌, ◌<◌, min, max, differ, bit_and, bit_or, bit_xor,
  bit_or-bitwise, bit_and-bitwise,
}
use mathlib.Core.Path.{◌≡◌, refl, ◌∙◌, ap}
use mathlib.Core.Bool.{Bool, false, ◌&&◌, ◌||◌, not, xor}
use native.Mathlib.Nat.{
  pow-suc, one-le-pow, div-add-mod, mod-lt, mod-eq_of_lt, mul-add-mod_self_left,
}
use native.Mathlib.Omega.{arith}
use fused_checkmate.Base.Tests.{◌==◌, ltb}

-- `(a & (1u << k)) != 0`
abbrev pub test_bit : ℕ → ℕ → Bool
test_bit a zero = a % 2 == 1
test_bit a (suc k) = test_bit (a / 2) k

pub zero_bits : (k : ℕ) → test_bit 0 k ≡ false
zero_bits zero = refl
zero_bits (suc k) = zero_bits k

-- `~a` on w bits
abbrev pub not_bits : ℕ → ℕ → ℕ
not_bits w a = 2 ^ w - 1 - a % 2 ^ w

min_digits : (x y : ℕ) → x < 2 → y < 2 → (min x y == 1) ≡ ((x == 1) && (y == 1))
min_digits x y hx hy = ground arith

max_digits : (x y : ℕ) → x < 2 → y < 2 → (max x y == 1) ≡ ((x == 1) || (y == 1))
max_digits x y hx hy = ground arith

differ_digits : (x y : ℕ) → x < 2 → y < 2 → (differ x y == 1) ≡ xor (x == 1) (y == 1)
unfolding xor
differ_digits zero zero hx hy = refl
differ_digits zero (suc zero) hx hy = refl
differ_digits zero (suc (suc y)) hx hy = absurd (omega arith)
differ_digits (suc zero) zero hx hy = refl
differ_digits (suc zero) (suc zero) hx hy = refl
differ_digits (suc zero) (suc (suc y)) hx hy = absurd (omega arith)
differ_digits (suc (suc x)) y hx hy = absurd (omega arith)

differ-lt : (x y : ℕ) → x < 2 → y < 2 → differ x y < 2
differ-lt zero y hx hy = hy
differ-lt (suc zero) zero hx hy = omega arith
differ-lt (suc zero) (suc y) hx hy = omega arith
differ-lt (suc (suc x)) y hx hy = absurd (omega arith)

bit_and_half : (a b : ℕ) → bit_and a b / 2 ≡ bit_and (a / 2) (b / 2)
bit_and_half a b = omega (arith, bit_and_lowest a b)

bit_or_half : (a b : ℕ) → bit_or a b / 2 ≡ bit_or (a / 2) (b / 2)
bit_or_half a b = omega (arith, bit_or_lowest a b)

bit_xor_half : (a b : ℕ) → bit_xor a b / 2 ≡ bit_xor (a / 2) (b / 2)
bit_xor_half a b =
    omega (arith, bit_xor_lowest a b, differ-lt (a % 2) (b % 2) (omega arith) (omega arith))

bit_and-zero_fuel : (a bound : ℕ) → a ≤ bound → bit_and a 0 ≡ 0
bit_and-zero_fuel zero bound room = refl
bit_and-zero_fuel (suc half) (suc bound) room =
    let halved = bit_and-zero_fuel (suc half / 2) bound (omega arith) in
    omega (arith, bit_and_lowest (suc half) 0, halved)
bit_and-zero_fuel (suc half) zero room = absurd (omega arith)

pub bit_and-zero : (a : ℕ) → bit_and a 0 ≡ 0
bit_and-zero a = bit_and-zero_fuel a a (omega arith)

bit_and-le_fuel : (n a b : ℕ) → b ≤ n → bit_and a b ≤ b
bit_and-le_fuel n a zero h = omega (arith, bit_and-zero a)
bit_and-le_fuel zero a (suc b) h = absurd (omega arith)
bit_and-le_fuel (suc n) a (suc b) h =
    omega (arith, bit_and_lowest a (suc b), bit_and-le_fuel n (a / 2) (suc b / 2) (omega arith))

pub test_bit-bit_and : (k a b : ℕ) → test_bit (bit_and a b) k ≡ (test_bit a k && test_bit b k)
test_bit-bit_and zero a b =
    let e : bit_and a b % 2 ≡ min (a % 2) (b % 2) = omega (arith, bit_and_lowest a b) in
    rw e (min_digits (a % 2) (b % 2) (omega arith) (omega arith))
test_bit-bit_and (suc k) a b = rw (bit_and_half a b) (test_bit-bit_and k (a / 2) (b / 2))

pub test_bit-bit_or : (k a b : ℕ) → test_bit (bit_or a b) k ≡ (test_bit a k || test_bit b k)
test_bit-bit_or zero a b =
    let e : bit_or a b % 2 ≡ max (a % 2) (b % 2) = omega (arith, bit_or_lowest a b) in
    rw e (max_digits (a % 2) (b % 2) (omega arith) (omega arith))
test_bit-bit_or (suc k) a b = rw (bit_or_half a b) (test_bit-bit_or k (a / 2) (b / 2))

pub test_bit-bit_xor : (k a b : ℕ) → test_bit (bit_xor a b) k ≡ xor (test_bit a k) (test_bit b k)
test_bit-bit_xor zero a b =
    let small = differ-lt (a % 2) (b % 2) (omega arith) (omega arith) in
    let e : bit_xor a b % 2 ≡ differ (a % 2) (b % 2) = omega (arith, bit_xor_lowest a b) in
    rw e (differ_digits (a % 2) (b % 2) (omega arith) (omega arith))
test_bit-bit_xor (suc k) a b = rw (bit_xor_half a b) (test_bit-bit_xor k (a / 2) (b / 2))

-- The low digit of a number splits off its remainder by a power of two.
pub mod-two_pow_suc : (w a : ℕ) → a % 2 ^ suc w ≡ 2 * (a / 2 % 2 ^ w) + a % 2
mod-two_pow_suc w a = rw (pow-suc 2 w) (
    let r = a / 2 % 2 ^ w in
    let q = a / 2 / 2 ^ w in
    let whole : a ≡ 2 ^ w * 2 * q + (2 * r + a % 2) = omega (arith, div-add-mod (a / 2) (2 ^ w)) in
    let small : 2 * r + a % 2 < 2 ^ w * 2 =
      omega (arith, mod-lt (a / 2) {m = 2 ^ w} (one-le-pow w 2 (omega arith))) in
    ap (λ n. n % (2 ^ w * 2)) whole
    ∙ mul-add-mod_self_left (2 ^ w * 2) q (2 * r + a % 2)
    ∙ mod-eq_of_lt small)

not_bits_half : (w a : ℕ) → not_bits (suc w) a / 2 ≡ not_bits w (a / 2)
not_bits_half w a = omega (
  arith,
  mod-two_pow_suc w a,
  pow-suc 2 w,
  one-le-pow w 2 (omega arith),
  mod-lt (a / 2) {m = 2 ^ w} (one-le-pow w 2 (omega arith)),
)

not_bits_even : (w a : ℕ) → not_bits (suc w) a % 2 ≡ 1 - a % 2
not_bits_even w a = omega (
  arith,
  mod-two_pow_suc w a,
  pow-suc 2 w,
  mod-lt (a / 2) {m = 2 ^ w} (one-le-pow w 2 (omega arith)),
)

flip_digit : (x : ℕ) → x < 2 → (1 - x == 1) ≡ not (x == 1)
flip_digit x h = ground arith

pub test_bit-not_bits : (k w a : ℕ) → k < w → test_bit (not_bits w a) k ≡ not (test_bit a k)
test_bit-not_bits k zero a h = absurd (omega arith)
test_bit-not_bits zero (suc w) a h = rw (not_bits_even w a) (flip_digit (a % 2) (omega arith))
test_bit-not_bits (suc k) (suc w) a h =
    rw (not_bits_half w a) (test_bit-not_bits k w (a / 2) (omega arith))

pub not_bits-lt : (w a : ℕ) → not_bits w a < 2 ^ w
not_bits-lt w a = omega (arith, one-le-pow w 2 (omega arith))

-- The bit of a truncated word.
pub test_bit-mod : (k w a : ℕ) → k < w → test_bit (a % 2 ^ w) k ≡ test_bit a k
test_bit-mod k zero a h = absurd (omega arith)
test_bit-mod zero (suc w) a h =
    let e : a % 2 ^ suc w % 2 ≡ a % 2 = omega (arith, mod-two_pow_suc w a) in rw e
test_bit-mod (suc k) (suc w) a h =
    let e : a % 2 ^ suc w / 2 ≡ a / 2 % 2 ^ w = omega (arith, mod-two_pow_suc w a) in
    rw e (test_bit-mod k w (a / 2) (omega arith))

-- Two words with the same bits are equal.
pub test_bit_ext :
    (w a b : ℕ) → a < 2 ^ w → b < 2 ^ w → ((k : ℕ) → k < w → test_bit a k ≡ test_bit b k) → a ≡ b
test_bit_ext zero a b ha hb h = omega arith
test_bit_ext (suc w) a b ha hb h =
    let halves : a / 2 ≡ b / 2 =
      test_bit_ext w (a / 2) (b / 2) (omega (arith, pow-suc 2 w)) (omega (arith, pow-suc 2 w))
        (λ k hk. h (suc k) (omega arith)) in
    ground (arith, halves, h 0 (omega arith))

pub bit_and-le : (a b : ℕ) → bit_and a b ≤ b
bit_and-le a b = bit_and-le_fuel b a b (omega arith)

zero-bit_and : (b : ℕ) → bit_and 0 b ≡ 0
zero-bit_and b = bit_and-bitwise 0 b

bit_and-le_left_fuel : (n a b : ℕ) → a ≤ n → bit_and a b ≤ a
bit_and-le_left_fuel n zero b h = omega (arith, zero-bit_and b)
bit_and-le_left_fuel zero (suc a) b h = absurd (omega arith)
bit_and-le_left_fuel (suc n) (suc a) b h =
    omega
      (arith, bit_and_lowest (suc a) b, bit_and-le_left_fuel n (suc a / 2) (b / 2) (omega arith))

pub bit_and-le_left : (a b : ℕ) → bit_and a b ≤ a
bit_and-le_left a b = bit_and-le_left_fuel a a b (omega arith)

pub bit_or-lt : (w a b : ℕ) → a < 2 ^ w → b < 2 ^ w → bit_or a b < 2 ^ w
bit_or-lt zero a b ha hb =
    let za : a ≡ 0 = omega arith in let zb : b ≡ 0 = omega arith in rw (za, zb) (omega arith)
bit_or-lt (suc w) a b ha hb = omega (
  arith,
  pow-suc 2 w,
  bit_or_half a b,
  bit_or-lt w (a / 2) (b / 2) (omega (arith, pow-suc 2 w)) (omega (arith, pow-suc 2 w)),
)

pub bit_xor-lt : (w a b : ℕ) → a < 2 ^ w → b < 2 ^ w → bit_xor a b < 2 ^ w
bit_xor-lt zero a b ha hb =
    let za : a ≡ 0 = omega arith in let zb : b ≡ 0 = omega arith in rw (za, zb) (omega arith)
bit_xor-lt (suc w) a b ha hb = omega (
  arith,
  pow-suc 2 w,
  bit_xor_half a b,
  bit_xor-lt w (a / 2) (b / 2) (omega (arith, pow-suc 2 w)) (omega (arith, pow-suc 2 w)),
)

ltb_double : (a b : ℕ) → b ≡ 2 * a → ltb 0 a ≡ ltb 0 b
ltb_double a b h = ground arith

-- A single set bit.
two_pow-half : (k : ℕ) → 2 ^ suc k / 2 ≡ 2 ^ k
two_pow-half k = omega (arith, pow-suc 2 k)

pub test_bit-two_pow : (k j : ℕ) → test_bit (2 ^ j) k ≡ (k == j)
test_bit-two_pow zero zero = refl
test_bit-two_pow zero (suc j) =
    let e : 2 ^ suc j % 2 ≡ 0 = omega (arith, pow-suc 2 j) in rw e (ground arith)
test_bit-two_pow (suc k) zero = zero_bits k ∙ ground arith
test_bit-two_pow (suc k) (suc j) = rw (two_pow-half j) (test_bit-two_pow k j ∙ ground arith)

bit_or-zero_fuel : (n a : ℕ) → a ≤ n → bit_or a 0 ≡ a
bit_or-zero_fuel n zero h = refl
bit_or-zero_fuel zero (suc a) h = absurd (omega arith)
bit_or-zero_fuel (suc n) (suc a) h =
    omega (arith, bit_or_lowest (suc a) 0, bit_or-zero_fuel n (suc a / 2) (omega arith))

pub bit_or-zero : (a : ℕ) → bit_or a 0 ≡ a
bit_or-zero a = bit_or-zero_fuel a a (omega arith)

pub zero-bit_or : (b : ℕ) → bit_or 0 b ≡ b
zero-bit_or b = bit_or-bitwise 0 b

-- Bytes or fields that do not overlap are joined by a sum.
pub bit_or_shift : (w x d : ℕ) → d < 2 ^ w → bit_or (x * 2 ^ w) d ≡ x * 2 ^ w + d
bit_or_shift zero x d h =
    let none_left : d ≡ 0 = omega arith in
    let whole : x * 2 ^ 0 ≡ x = omega arith in rw (none_left, whole, bit_or-zero) (omega arith)
bit_or_shift (suc w) x d h =
    let twice : x * 2 ^ suc w ≡ x * 2 ^ w * 2 =
      omega (arith, ap (λ (p : ℕ). x * p) (pow-suc 2 w)) in
    let half : x * 2 ^ suc w / 2 ≡ x * 2 ^ w = omega arith in
    let upper = bit_or_shift w x (d / 2) (omega (arith, pow-suc 2 w)) in
    omega (arith, bit_or_lowest (x * 2 ^ suc w) d, ap (λ (t : ℕ). bit_or t (d / 2)) half)

-- The C++ test `(a & (1u << k)) > 0`.
pub bit_and-two_pow : (k a : ℕ) → test_bit a k ≡ ltb 0 (bit_and a (2 ^ k))
bit_and-two_pow zero a =
    let e : bit_and a 1 ≡ a % 2 = omega (arith, bit_and_lowest a 1, bit_and-zero (a / 2)) in
    rw e (ground arith)
bit_and-two_pow (suc k) a =
    bit_and-two_pow k (a / 2)
    ∙ ltb_double (bit_and (a / 2) (2 ^ k)) (bit_and a (2 ^ suc k)) (
        omega
          (arith, bit_and_lowest a (2 ^ suc k), ap (bit_and (a / 2)) (two_pow-half k), pow-suc 2 k))
