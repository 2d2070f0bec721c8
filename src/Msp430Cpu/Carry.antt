-- ===== src/Msp430Cpu/Carry.antt =====
-- Additions and subtractions to a register, and chains of them through the carry.
use mathlib.Core.Path.{ap₂}
use fused_checkmate.Base.{
  ℕ, ◌+◌, ◌*◌, ◌%◌, ◌^◌, ◌<◌, ◌≡◌, ◌≢◌, sym, ◌∙◌, ap, Bool, false, arith, leb, lt→ltb, ok, test_bit,
}
use fused_checkmate.Msp430Cpu.State.{Cpu, BusPort, bind_ok, set_gpr, set_reg, get_flag}
use fused_checkmate.Msp430Cpu.Flags.{is_negative, is_zero, is_carry, is_overflow}
use fused_checkmate.Msp430Cpu.FlagBits.{flag, with_flags, flags-with_flags}
use fused_checkmate.Msp430Cpu.Compare.{sum_flags_lem}
use fused_checkmate.Msp430Cpu.Operands.{Operand, writeback, writeback_to}
use fused_checkmate.Msp430Cpu.Execute.Double.{sum_result, sum_flags, add_back, double_op}

-- A word register as a destination, with the value that was loaded from it.
abbrev pub register_operand : ℕ → ℕ → Operand
register_operand i v = record { addr = i; val = v; in_mem = false; byte_not_word = false }

-- The CPU after a sum went to a register.
abbrev pub summed : {S : Type 0} → ℕ → ℕ → ℕ → Bool → Cpu S → Cpu S
summed i a b carry c =
    let c' =
      with_flags (is_zero (sum_result a b carry) false) (is_negative (sum_result a b carry) false)
        (is_overflow a b carry false) (is_carry a b carry false) c in
    record c' { regs = set_reg c'.regs i (sum_result a b carry % 2 ^ 16) }

module _ {S : Type 0} ⦃port : BusPort S⦄ where
  add_back_lem :
      (i v a b : ℕ) (carry : Bool) (c : Cpu S)
      → i < 16
      → add_back (register_operand i v) a b carry c ≡ ok (tt, summed i a b carry c)
  unfolding add_back writeback writeback_to set_gpr
  add_back_lem i v a b carry c h =
      bind_ok (sum_flags a b carry false) _ c _ tt (sum_flags_lem a b carry false c)
      ∙ rw (lt→ltb _ _ h)

pub set_reg_self : (regs : ℕ → ℕ) (i v : ℕ) → set_reg regs i v i ≡ v
set_reg_self regs i v = ground arith

pub set_reg_ne : (regs : ℕ → ℕ) (i j v : ℕ) → j ≢ i → set_reg regs i v j ≡ regs j
set_reg_ne regs i j v h = ground arith

module _ {S : Type 0} (i a b : ℕ) (carry : Bool) (c : Cpu S) where
  flagged : Cpu S
  flagged =
      with_flags (is_zero (sum_result a b carry) false) (is_negative (sum_result a b carry) false)
        (is_overflow a b carry false) (is_carry a b carry false) c

  summed_self : (summed i a b carry c).regs i ≡ sum_result a b carry % 2 ^ 16
  unfolding flagged
  summed_self = set_reg_self flagged.regs i (sum_result a b carry % 2 ^ 16)

  summed_ne : (k : ℕ) → k ≢ i → k ≢ 2 → (summed i a b carry c).regs k ≡ c.regs k
  unfolding flagged
  summed_ne k ki k2 =
      set_reg_ne flagged.regs i k (sum_result a b carry % 2 ^ 16) ki ∙ status c.regs _ _ _ _ k2
    where
      status :
          (regs : ℕ → ℕ) (x y z w : ℕ)
          → k ≢ 2
          → set_reg (set_reg (set_reg (set_reg regs 2 x) 2 y) 2 z) 2 w k ≡ regs k
      status regs x y z w h = ground arith

  -- The carry flag after a sum went to a register that is not SR.
  summed_carry : i ≢ 2 → flag 0 (summed i a b carry c) ≡ is_carry a b carry false
  unfolding flagged
  summed_carry h =
      ap (λ v. test_bit v 0)
        (set_reg_ne flagged.regs i 2 (sum_result a b carry % 2 ^ 16) (λ e. h (sym e)))
      ∙ (flags-with_flags (is_zero (sum_result a b carry) false)
          (is_negative (sum_result a b carry) false) (is_overflow a b carry false)
          (is_carry a b carry false) c).0

chain :
    (alo ahi blo bhi : ℕ)
    → alo < 2 ^ 16
    → ahi < 2 ^ 16
    → blo < 2 ^ 16
    → bhi < 2 ^ 16
    → sum_result ahi bhi (is_carry alo blo false false) % 2 ^ 16 * 2 ^ 16
        + sum_result alo blo false % 2 ^ 16
      ≡ (ahi * 2 ^ 16 + alo + (bhi * 2 ^ 16 + blo)) % 2 ^ 32
unfolding sum_result is_carry
chain alo ahi blo bhi ha ha' hb hb' = ground arith

chain_carry :
    (alo ahi blo bhi : ℕ)
    → alo < 2 ^ 16
    → ahi < 2 ^ 16
    → blo < 2 ^ 16
    → bhi < 2 ^ 16
    → is_carry ahi bhi (is_carry alo blo false false) false
      ≡ leb (2 ^ 32) (ahi * 2 ^ 16 + alo + (bhi * 2 ^ 16 + blo))
unfolding is_carry
chain_carry alo ahi blo bhi ha ha' hb hb' = ground arith

-- ADD of the low words and then ADDC of the high words, into two different registers other than SR,
-- leave the 32-bit sum modulo 2 ^ 32 in them, and in the carry flag whether it overflowed.
pub add_addc :
    {S : Type 0} ⦃port : BusPort S⦄ (i j blo bhi : ℕ) (src_lo src_hi : Operand) (c : Cpu S)
    → i < 16
    → j < 16
    → i ≢ j
    → i ≢ 2
    → j ≢ 2
    → src_lo.val < 2 ^ 16
    → src_hi.val < 2 ^ 16
    → blo < 2 ^ 16
    → bhi < 2 ^ 16
    → (c₁ : Cpu S) × (c₂ : Cpu S) × (double_op 5 src_lo (register_operand i blo) c ≡ ok (tt, c₁))
      × (double_op 6 src_hi (register_operand j bhi) c₁ ≡ ok (tt, c₂))
      × (c₂.regs j * 2 ^ 16 + c₂.regs i
          ≡ (src_hi.val * 2 ^ 16 + src_lo.val + (bhi * 2 ^ 16 + blo)) % 2 ^ 32)
      × (flag 0 c₂ ≡ leb (2 ^ 32) (src_hi.val * 2 ^ 16 + src_lo.val + (bhi * 2 ^ 16 + blo)))
unfolding double_op get_flag
add_addc {S} i j blo bhi src_lo src_hi c hi hj ij i2 j2 ha ha' hb hb' = (
  c₁,
  c₂,
  add_back_lem i blo src_lo.val blo false c hi,
  add_back_lem j bhi src_hi.val bhi (flag 0 c₁) c₁ hj,
  ap₂ (λ (x y : ℕ). x * 2 ^ 16 + y) high low ∙ chain src_lo.val src_hi.val blo bhi ha ha' hb hb',
  summed_carry j src_hi.val bhi (flag 0 c₁) c₁ j2
      ∙ ap (λ b. is_carry src_hi.val bhi b false) carried
      ∙ chain_carry src_lo.val src_hi.val blo bhi ha ha' hb hb',
)
  where
    c₁ : Cpu S
    c₁ = summed i src_lo.val blo false c

    c₂ : Cpu S
    c₂ = summed j src_hi.val bhi (flag 0 c₁) c₁

    carried : flag 0 c₁ ≡ is_carry src_lo.val blo false false
    carried = summed_carry i src_lo.val blo false c i2

    high : c₂.regs j ≡ sum_result src_hi.val bhi (is_carry src_lo.val blo false false) % 2 ^ 16
    high =
        summed_self j src_hi.val bhi (flag 0 c₁) c₁
        ∙ ap (λ b. sum_result src_hi.val bhi b % 2 ^ 16) carried

    low : c₂.regs i ≡ sum_result src_lo.val blo false % 2 ^ 16
    low = summed_ne j src_hi.val bhi (flag 0 c₁) c₁ i ij i2 ∙ summed_self i src_lo.val blo false c
