-- ===== src/Utilities/Flags.antt =====
-- What setting one bit does to every bit of the word.
use native.Mathlib.Nat.{pow-suc, one-le-pow, pow-le-pow_right}
use fused_checkmate.Base.{
  ℕ, suc, ◌*◌, ◌^◌, ◌<◌, ◌≤◌, ◌≡◌, arith, Bool, true, false, ◌&&◌, bit_or, bit_and, not_bits,
  test_bit, test_bit-bit_or, test_bit-bit_and, test_bit-not_bits, test_bit-two_pow, bit_or-lt,
  bit_and-le_left, to_nat, ok, lt→ltb, ◌==◌, if◌then◌else◌, zero_bits,
}
use fused_checkmate.Utilities.{set_bit}

-- The new value of `setBit` where its assertion holds.
abbrev pub with_bit : ℕ → ℕ → Bool → ℕ
with_bit idx word value = bit_or (bit_and word (not_bits 32 (2 ^ idx))) (to_nat value * 2 ^ idx)

pub set_bit-ok :
    (word_size idx word : ℕ) (value : Bool)
    → idx < word_size * 8
    → set_bit word_size idx word value ≡ ok (with_bit idx word value)
unfolding set_bit
set_bit-ok word_size idx word value h = rw (lt→ltb _ _ h)

value_bits : (k idx : ℕ) (value : Bool) → test_bit (to_nat value * 2 ^ idx) k ≡ (value && k == idx)
value_bits k idx true = let e : 1 * 2 ^ idx ≡ 2 ^ idx = omega arith in rw e (test_bit-two_pow k idx)
value_bits k idx false = let e : 0 * 2 ^ idx ≡ 0 = omega arith in rw e (zero_bits k)

-- Each bit of the word with one bit set to a value.
pub test_bit-with_bit :
    (k idx word : ℕ) (value : Bool)
    → k < 32
    → test_bit (with_bit idx word value) k ≡ (if k == idx then value else test_bit word k)
test_bit-with_bit k idx word value h =
    rw
      (
        test_bit-bit_or,
        test_bit-bit_and,
        test_bit-not_bits k 32 (2 ^ idx) h,
        test_bit-two_pow,
        value_bits,
      )
      (ground arith)

pub with_bit-lt :
    (w idx word : ℕ) (value : Bool) → idx < w → word < 2 ^ w → with_bit idx word value < 2 ^ w
with_bit-lt w idx word value hi hw =
    bit_or-lt w _ _ (omega (arith, bit_and-le_left word (not_bits 32 (2 ^ idx))))
      (value_small value)
  where
    room : 2 ^ idx * 2 ≤ 2 ^ w
    room =
        omega
          (arith, pow-suc 2 idx, pow-le-pow_right {n = 2} (omega arith) {i = suc idx} {j = w} hi)

    value_small : (b : Bool) → to_nat b * 2 ^ idx < 2 ^ w
    value_small true = omega (arith, room, one-le-pow idx 2 (omega arith))
    value_small false = omega (arith, room, one-le-pow idx 2 (omega arith))

-- `setBit` succeeds on a bit of the target word; it gives that bit the value and leaves the 31 other
-- bits as they were.
pub test_bit-set_bit :
    (word_size idx word k : ℕ) (value : Bool)
    → idx < word_size * 8
    → k < 32
    → (new : ℕ) × (set_bit word_size idx word value ≡ ok new)
      × (test_bit new k ≡ (if k == idx then value else test_bit word k))
test_bit-set_bit word_size idx word k value h hk = (
  with_bit idx word value,
  set_bit-ok word_size idx word value h,
  test_bit-with_bit k idx word value hk,
)
