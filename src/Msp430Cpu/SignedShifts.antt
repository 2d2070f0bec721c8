-- ===== src/Msp430Cpu/SignedShifts.antt =====
-- RRA and SXT on a register, as instructions: the register and the flags that they leave.
use fused_checkmate.Base.{
  ℕ, ◌-◌, ◌*◌, ◌%◌, ◌^◌, ◌<◌, ◌≡◌, ◌≢◌, refl, subst, sym, ◌∙◌, ap, Bool, true, false, not, arith,
  leb, lt→ltb, ok, test_bit, to_nat, ◌==◌,
}
use fused_checkmate.Base.Int.{pos, ◌+ℤ◌}
use fused_checkmate.Msp430Cpu.State.{Cpu, BusPort, bind_ok, set_flag, set_gpr, set_reg, ◌>>◌}
use fused_checkmate.Msp430Cpu.Flags.{is_negative, is_zero}
use fused_checkmate.Msp430Cpu.FlagBits.{flag, with_flag, set_flag_lem, flag-with_flag}
use fused_checkmate.Msp430Cpu.Signed.{signed, half_range, is_negative_lem}
use fused_checkmate.Msp430Cpu.Carry.{set_reg_self, set_reg_ne}
use fused_checkmate.Msp430Cpu.Operands.{Operand, writeback, writeback_to}
use fused_checkmate.Msp430Cpu.Execute.{shift_flags, single_op, rra, sxt, rra_result, sxt_result}
use fused_checkmate.Msp430Cpu.Shifts.{
  rra_result-signed, rra_result-lt, sxt_result-signed, sxt_result-lt,
}

-- A register as an operand, with the value that was loaded from it.
abbrev pub in_register : ℕ → ℕ → Bool → Operand
in_register i v bw = record { addr = i; val = v; in_mem = false; byte_not_word = bw }

-- What a shift leaves: the value in the register, the flags from it, and the carry; all other
-- registers and status bits and the rest of the CPU are as they were.
pub record Shifted {S : Type 0} (i : ℕ) (bw carry : Bool) (value : ℕ) (c after : Cpu S)
    : Type 0 where
  pub result : after.regs i ≡ value
  pub carry_flag : flag 0 after ≡ carry
  pub zero_flag : flag 1 after ≡ (value == 0)
  pub negative_flag : flag 2 after ≡ leb (half_range bw) value
  pub overflow_flag : flag 8 after ≡ false
  pub others : (k : ℕ) → k ≢ i → k ≢ 2 → after.regs k ≡ c.regs k
  pub status : (k : ℕ) → k < 32 → k ≢ 0 → k ≢ 1 → k ≢ 2 → k ≢ 8 → flag k after ≡ flag k c
  pub rest : after ≡ record c { regs = after.regs }

module _ {S : Type 0} (z n v cy : Bool) (c : Cpu S) where
  -- The flags, in the order of the shifts.
  abbrev flagged : Cpu S
  flagged = with_flag 1 z (with_flag 2 n (with_flag 8 v (with_flag 0 cy c)))

  flags_lem :
      (flag 0 flagged ≡ cy) × (flag 1 flagged ≡ z) × (flag 2 flagged ≡ n) × (flag 8 flagged ≡ v)
  flags_lem =
      let c₁ = with_flag 0 cy c in
      let c₂ = with_flag 8 v c₁ in
      let c₃ = with_flag 2 n c₂ in
      (
        flag-with_flag 0 1 z c₃ (omega arith)
            ∙ flag-with_flag 0 2 n c₂ (omega arith)
            ∙ flag-with_flag 0 8 v c₁ (omega arith)
            ∙ flag-with_flag 0 0 cy c (omega arith),
        flag-with_flag 1 1 z c₃ (omega arith),
        flag-with_flag 2 1 z c₃ (omega arith) ∙ flag-with_flag 2 2 n c₂ (omega arith),
        flag-with_flag 8 1 z c₃ (omega arith)
            ∙ flag-with_flag 8 2 n c₂ (omega arith)
            ∙ flag-with_flag 8 8 v c₁ (omega arith),
      )

  other_flags : (k : ℕ) → k < 32 → k ≢ 0 → k ≢ 1 → k ≢ 2 → k ≢ 8 → flag k flagged ≡ flag k c
  other_flags k k32 k0 k1 k2 k8 =
      let c₁ = with_flag 0 cy c in
      let c₂ = with_flag 8 v c₁ in
      let c₃ = with_flag 2 n c₂ in
      ground (
        arith,
        flag-with_flag k 1 z c₃ k32,
        flag-with_flag k 2 n c₂ k32,
        flag-with_flag k 8 v c₁ k32,
        flag-with_flag k 0 cy c k32,
        k0,
        k1,
        k2,
        k8,
      )

  flagged_regs : (k : ℕ) → k ≢ 2 → flagged.regs k ≡ c.regs k
  flagged_regs k h = ground (arith, h)

shift_flags_lem :
    {S : Type 0} (carry bw : Bool) (result : ℕ) (c : Cpu S)
    → shift_flags carry result bw c
      ≡ ok (tt, flagged (is_zero result bw) (is_negative result bw) false carry c)
unfolding shift_flags
shift_flags_lem carry bw result c =
    let c₁ = with_flag 0 carry c in
    let c₂ = with_flag 8 false c₁ in
    let c₃ = with_flag 2 (is_negative result bw) c₂ in
    bind_ok (set_flag 0 carry) _ c c₁ tt (set_flag_lem 0 carry c (omega arith))
    ∙ bind_ok (set_flag 8 false) _ c₁ c₂ tt (set_flag_lem 8 false c₁ (omega arith))
    ∙ bind_ok (set_flag 2 (is_negative result bw)) _ c₂ c₃ tt
        (set_flag_lem 2 (is_negative result bw) c₂ (omega arith))
    ∙ set_flag_lem 1 (is_zero result bw) c₃ (omega arith)

store_lem :
    {S : Type 0} ⦃port : BusPort S⦄ (i v : ℕ) (bw : Bool) (c : Cpu S)
    → i < 16
    → v < 2 * half_range bw
    → writeback (in_register i v bw) c ≡ ok (tt, record c { regs = set_reg c.regs i v })
unfolding writeback writeback_to set_gpr
store_lem i v true c h small =
    let low : v % 2 ^ 16 % 2 ^ 8 ≡ v = omega arith in rw (lt→ltb _ _ h, low) refl
store_lem i v false c h small =
    let low : v % 2 ^ 16 ≡ v = omega arith in rw (lt→ltb _ _ h, low) refl

zero_lem : (v : ℕ) (bw : Bool) → v < 2 * half_range bw → is_zero v bw ≡ (v == 0)
unfolding is_zero
zero_lem v true small = ground arith
zero_lem v false small = ground arith

negative_lem :
    (v : ℕ) (bw : Bool) → v < 2 * half_range bw → is_negative v bw ≡ leb (half_range bw) v
negative_lem v true small = is_negative_lem v true ∙ ground arith
negative_lem v false small = is_negative_lem v false ∙ ground arith

-- The flags and then the register.
shift_lem :
    {S : Type 0} ⦃port : BusPort S⦄ (i v : ℕ) (bw carry : Bool) (c : Cpu S)
    → i < 16
    → i ≢ 2
    → v < 2 * half_range bw
    → (after : Cpu S) × ((shift_flags carry v bw >> writeback (in_register i v bw)) c
        ≡ ok (tt, after))
      × Shifted i bw carry v c after
shift_lem {S} i v bw carry c h i2 small =
    let z = is_zero v bw in
    let n = is_negative v bw in
    let c' = flagged z n false carry c in
    let flags = flags_lem z n false carry c in
    let kept = set_reg_ne c'.regs i 2 v (λ e. i2 (sym e)) in
    (
      record c' { regs = set_reg c'.regs i v },
      bind_ok (shift_flags carry v bw) _ c c' tt (shift_flags_lem carry bw v c)
          ∙ store_lem i v bw c' h small,
      record {
        result = set_reg_self c'.regs i v;
        carry_flag = ap (λ x. test_bit x 0) kept ∙ flags.0;
        zero_flag = ap (λ x. test_bit x 1) kept ∙ flags.1 ∙ zero_lem v bw small;
        negative_flag = ap (λ x. test_bit x 2) kept ∙ flags.2 ∙ negative_lem v bw small;
        overflow_flag = ap (λ x. test_bit x 8) kept ∙ flags.3;
        others = λ k ki k2. set_reg_ne c'.regs i k v ki ∙ flagged_regs z n false carry c k k2;
        status = λ k k32 k0 k1 k2 k8.
            ap (λ x. test_bit x k) kept ∙ other_flags z n false carry c k k32 k0 k1 k2 k8;
        rest = refl;
      },
    )

-- RRA on a register other than SR halves the signed number of the operand, which is as wide as the
-- instruction, rounding down, and the carry flag that it sets is the remainder; the zero and negative flags are those of the result, the
-- overflow flag is cleared, and all else is as it was.
pub rra-signed :
    {S : Type 0} ⦃port : BusPort S⦄ (i v opcode : ℕ) (bw : Bool) (c : Cpu S)
    → i < 16
    → i ≢ 2
    → v < 2 * half_range bw
    → (after : Cpu S) × (half : ℕ) × (carry : Bool) × (single_op 2 opcode (in_register i v bw) c
        ≡ ok (tt, after))
      × Shifted i bw carry half c after
      × (signed bw v ≡ signed bw half +ℤ signed bw half +ℤ pos (to_nat carry))
unfolding single_op rra
rra-signed i v opcode bw c h i2 small =
    let half = rra_result v bw in
    let carry = test_bit v 0 in
    let (after, ran, shifted) = shift_lem i half bw carry c h i2 (rra_result-lt v bw small) in
    (after, half, carry, ran, shifted, rra_result-signed v bw small)

-- SXT on a register gives the word that stands for the same signed number as the operand's low byte; it goes to
-- that register if its number is even, and to the one below if it is odd. The carry flag is the
-- negation of the zero flag, which like the negative flag is that of the result, the overflow flag is
-- cleared, and all else is as it was, where the register that is written is not SR.
pub sxt-signed :
    {S : Type 0} ⦃port : BusPort S⦄ (i v opcode : ℕ) (bw : Bool) (c : Cpu S)
    → i < 16
    → i - i % 2 ≢ 2
    → v < 2 ^ 16
    → (after : Cpu S) × (word : ℕ) × (single_op 3 opcode (in_register i v bw) c ≡ ok (tt, after))
      × Shifted (i - i % 2) false (not (word == 0)) word c after
      × (signed false word ≡ signed true v)
unfolding single_op sxt
sxt-signed i v opcode bw c h i2 small =
    let word = sxt_result v in
    let fits = sxt_result-lt v small in
    let (after, ran, shifted) =
      shift_lem (i - i % 2) word false (not (is_zero word false)) c (omega arith) i2 fits in
    let shifted' =
      subst (λ b. Shifted (i - i % 2) false (not b) word c after) (zero_lem word false fits)
        shifted in
    (after, word, ran, shifted', sxt_result-signed v small)
