-- ===== src/Cache/PseudoRandom.antt =====
-- CacheReplacementPseudoRandom of mcu/CacheReplacementPolicies.hpp. The policy itself keeps nothing
-- but its mask; `lfsr` is the static 16-bit shift register, 0xBEEF at first.
use fused_checkmate.Base.{
  ℕ, ◌+◌, ◌-◌, ◌*◌, ◌/◌, ◌%◌, ◌^◌, ◌<◌, ◌≡◌, ◌≢◌, ap, arith, Bool, bit_and, bit_or, bit_xor,
  bit_and-le, zero-bit_or,
}
use fused_checkmate.Base.Masks.{bit_or_scaled}
use fused_checkmate.Cache.Policy.{CacheReplacementIf, IsReplacement}

abbrev pub initial_lfsr : ℕ
initial_lfsr = 0xbeef

-- `bit`, a uint16_t: the taps 16, 14, 13 and 11 meet in its lowest bit.
unfoldable pub feedback : ℕ → ℕ
feedback lfsr =
    bit_xor (bit_xor (bit_xor lfsr (lfsr / 2 ^ 2)) (lfsr / 2 ^ 3)) (lfsr / 2 ^ 5) % 2 ^ 16

-- The next value of `lfsr`, cut to 16 bits.
unfoldable pub shift : ℕ → ℕ
shift lfsr = bit_or (lfsr / 2) (feedback lfsr * 2 ^ 15) % 2 ^ 16

unfoldable pub hit : Unit {0} → ℕ → Bool → Unit {0}
hit p line_no is_write = p

-- `m_outputMask` is n_lines - 1.
unfoldable pub miss : ℕ → Unit {0} → Bool → ℕ → Unit {0} × ℕ × ℕ
miss n_lines p is_write lfsr = (p, shift lfsr, bit_and (shift lfsr) (n_lines - 1))

unfoldable pub pseudo_random_policy : ℕ → CacheReplacementIf (Unit {0})
pseudo_random_policy n_lines = record { hit = hit; miss = miss n_lines; reset = λ p. p }

-- Every victim is a line of the set, whatever the shift register holds.
pub pseudo_random-IsReplacement : (n : ℕ) → 0 < n → IsReplacement (pseudo_random_policy n) n
unfolding pseudo_random_policy miss
pseudo_random-IsReplacement n h = record {
  IsState = λ p. Unit {0};
  hit-IsState = λ p line_no is_write s small. tt;
  miss-IsState = λ p is_write lfsr s. tt;
  victim = λ p is_write lfsr s. omega (arith, bit_and-le (shift lfsr) (n - 1));
  reset-IsState = λ p s. tt;
}

shift_lem : (lfsr : ℕ) → lfsr < 2 ^ 16 → shift lfsr ≡ lfsr / 2 + feedback lfsr % 2 * 2 ^ 15
unfolding shift
shift_lem lfsr h =
    let high : lfsr / 2 / 2 ^ 15 ≡ 0 = omega arith in
    rw (bit_or_scaled 15 (lfsr / 2) (feedback lfsr), high, zero-bit_or) (omega arith)

-- The shift register never runs into zero, where it would stay: from a value of 16 bits that is not
-- zero it goes to such a value.
pub shift_lives : (lfsr : ℕ) → lfsr < 2 ^ 16 → lfsr ≢ 0 → (shift lfsr ≢ 0) × (shift lfsr < 2 ^ 16)
unfolding feedback
shift_lives lfsr h ne = (
  λ e.
      let small : lfsr ≡ 1 = omega (arith, shift_lem lfsr h, e) in
      omega (arith, shift_lem lfsr h, e, one small),
  omega (arith, shift_lem lfsr h),
)
  where
    one : lfsr ≡ 1 → feedback lfsr % 2 ≡ 1
    one e = ap (λ (v : ℕ). feedback v % 2) e
