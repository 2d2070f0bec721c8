-- ===== src/Msp430Cpu/Shifts.antt =====
-- The results of RRC, RRA, SWPB and SXT.
use native.Mathlib.Nat.{div-eq_of_lt, mod-eq_of_lt}
use fused_checkmate.Base.{
  Bool-cases, inl, inr, ℕ, ◌+◌, ◌*◌, ◌/◌, ◌%◌, ◌^◌, ◌<◌, ◌≡◌, sym, ◌∙◌, ap, Bool, true, false,
  arith, leb, bit_and, bit_or, bit_or_shift, zero-bit_or, test_bit, test_bit-mod, to_nat,
}
use fused_checkmate.Base.Int.{pos, ◌+ℤ◌}
use fused_checkmate.Base.Masks.{bit_and_low, bit_and_scaled, bit_or_scaled, or_ones}
use fused_checkmate.Msp430Cpu.Signed.{signed, half_range, test_bit_top}
use fused_checkmate.Msp430Cpu.Execute.{rrc_result, rra_result, swpb_result, sxt_result}

-- A bit above the value.
or_top : (k x : ℕ) → x < 2 ^ k → bit_or x (2 ^ k) ≡ x + 2 ^ k
or_top k x h =
    ap (bit_or x) (omega arith)
    ∙ bit_or_scaled k x 1
    ∙ omega (
      arith,
      ap (λ (t : ℕ). bit_or t 1 * 2 ^ k) (div-eq_of_lt h),
      mod-eq_of_lt h,
      ap (λ (t : ℕ). t * 2 ^ k) (zero-bit_or 1),
    )

-- The highest bit kept, over the value shifted by one.
keep_top :
    (k v : ℕ) → v / 2 < 2 ^ k → bit_or (bit_and v (2 ^ k)) (v / 2) ≡ v / 2 ^ k % 2 * 2 ^ k + v / 2
keep_top k v h =
    ap (λ (t : ℕ). bit_or t (v / 2))
      (ap (bit_and v) (omega arith)
        ∙ bit_and_scaled k v 1
        ∙ ap (λ (t : ℕ). t * 2 ^ k) (bit_and_low 1 (v / 2 ^ k)))
    ∙ bit_or_shift k (v / 2 ^ k % 2) (v / 2) h

-- RRC rotates through the carry: the new carry, which is the lowest bit of the value, and the result
-- hold the value and the old carry shifted by one.
pub rrc_rotates :
    (v : ℕ) (carry byte_not_word : Bool)
    → v < 2 * half_range byte_not_word
    → rrc_result v carry byte_not_word * 2 + to_nat (test_bit v 0)
      ≡ v + to_nat carry * (2 * half_range byte_not_word)
unfolding rrc_result
rrc_rotates v false bw h = low_bit v
  where
    low_bit : (v : ℕ) → v / 2 * 2 + to_nat (test_bit v 0) ≡ v + 0 * (2 * half_range bw)
    low_bit v = ground arith
rrc_rotates v true true h = ground (arith, or_top 7 (v / 2) (omega arith))
rrc_rotates v true false h = ground (arith, or_top 15 (v / 2) (omega arith))

pub rra_result-signed :
    (v : ℕ) (byte_not_word : Bool)
    → v < 2 * half_range byte_not_word
    → signed byte_not_word v
      ≡ signed byte_not_word (rra_result v byte_not_word)
        +ℤ signed byte_not_word (rra_result v byte_not_word)
        +ℤ pos (to_nat (test_bit v 0))
unfolding rra_result
rra_result-signed v true h = rw (keep_top 7 v (omega arith)) (ground arith)
rra_result-signed v false h = rw (keep_top 15 v (omega arith)) (ground arith)

-- SWPB exchanges the two bytes of a word.
pub swpb_lem : (hi lo : ℕ) → hi < 256 → lo < 256 → swpb_result (hi * 256 + lo) ≡ lo * 256 + hi
unfolding swpb_result
swpb_lem hi lo hh hl =
    rw (bit_and_low 8 (hi * 256 + lo), bit_and_scaled 8 (hi * 256 + lo) 255, bit_and_low 8)
      (bit_or_shift 8 ((hi * 256 + lo) % 256) _ (omega arith) ∙ omega arith)

sign_bit_lem : (v : ℕ) → test_bit v 7 ≡ leb 128 (v % 256)
sign_bit_lem v = sym (test_bit-mod 7 8 v (omega arith)) ∙ test_bit_top 7 (v % 256) (omega arith)

pub sxt_result-signed : (v : ℕ) → v < 2 ^ 16 → signed false (sxt_result v) ≡ signed true v
unfolding sxt_result
sxt_result-signed v h = elim (Bool-cases (test_bit v 7)) [
  | inl e ↦
      rw (e, bit_or_scaled 8 v 255, or_ones 8 (v / 256) (omega arith))
        (ground (arith, sign_bit_lem v, e))
  | inr e ↦ rw (e, bit_and_low 8 v) (ground (arith, sign_bit_lem v, e))
]

pub rra_result-lt :
    (v : ℕ) (byte_not_word : Bool)
    → v < 2 * half_range byte_not_word
    → rra_result v byte_not_word < 2 * half_range byte_not_word
unfolding rra_result
rra_result-lt v true h = rw (keep_top 7 v (omega arith)) (omega (arith, h))
rra_result-lt v false h = rw (keep_top 15 v (omega arith)) (omega (arith, h))

pub sxt_result-lt : (v : ℕ) → v < 2 ^ 16 → sxt_result v < 2 ^ 16
unfolding sxt_result
sxt_result-lt v h = elim (Bool-cases (test_bit v 7)) [
  | inl e ↦ rw (e, bit_or_scaled 8 v 255, or_ones 8 (v / 256) (omega arith)) (omega arith)
  | inr e ↦ rw (e, bit_and_low 8 v) (omega arith)
]
