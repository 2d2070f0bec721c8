-- ===== src/Msp430Cpu/FlagBits.antt =====
-- The status register after flags are set, and the flags read back.
use fused_checkmate.Base.{ℕ, ◌<◌, ◌≡◌, ◌∙◌, Bool, arith, ◌==◌, if◌then◌else◌, test_bit, ok}
use fused_checkmate.Utilities.Flags.{with_bit, set_bit-ok, test_bit-with_bit}
use fused_checkmate.Msp430Cpu.State.{Cpu, sr_regnum, set_reg, set_flag}

-- The CPU with one status bit set to a value.
abbrev pub with_flag : {S : Type 0} → ℕ → Bool → Cpu S → Cpu S
with_flag bit value c = record c {
  regs = set_reg c.regs sr_regnum (with_bit bit (c.regs sr_regnum) value);
}

-- The status bit.
abbrev pub flag : {S : Type 0} → ℕ → Cpu S → Bool
flag bit c = test_bit (c.regs sr_regnum) bit

pub set_flag_lem :
    {S : Type 0} (bit : ℕ) (value : Bool) (c : Cpu S)
    → bit < 16
    → set_flag bit value c ≡ ok ((tt), with_flag bit value c)
unfolding set_flag
set_flag_lem bit value c h = rw (set_bit-ok 2 bit (c.regs sr_regnum) value h)

pub flag-with_flag :
    {S : Type 0} (k bit : ℕ) (value : Bool) (c : Cpu S)
    → k < 32
    → flag k (with_flag bit value c) ≡ (if k == bit then value else flag k c)
flag-with_flag k bit value c h = test_bit-with_bit k bit (c.regs sr_regnum) value h

-- The four arithmetic flags, in the order in which the instructions set them.
abbrev pub with_flags : {S : Type 0} → Bool → Bool → Bool → Bool → Cpu S → Cpu S
with_flags z n v cy c = with_flag 0 cy (with_flag 8 v (with_flag 2 n (with_flag 1 z c)))

pub flags-with_flags :
    {S : Type 0} (z n v cy : Bool) (c : Cpu S)
    → (flag 0 (with_flags z n v cy c) ≡ cy)
      × (flag 1 (with_flags z n v cy c) ≡ z)
      × (flag 2 (with_flags z n v cy c) ≡ n)
      × (flag 8 (with_flags z n v cy c) ≡ v)
flags-with_flags {S} z n v cy c = (
  flag-with_flag 0 0 cy c₃ (omega arith),
  flag-with_flag 1 0 cy c₃ (omega arith)
      ∙ flag-with_flag 1 8 v c₂ (omega arith)
      ∙ flag-with_flag 1 2 n c₁ (omega arith)
      ∙ flag-with_flag 1 1 z c (omega arith),
  flag-with_flag 2 0 cy c₃ (omega arith)
      ∙ flag-with_flag 2 8 v c₂ (omega arith)
      ∙ flag-with_flag 2 2 n c₁ (omega arith),
  flag-with_flag 8 0 cy c₃ (omega arith) ∙ flag-with_flag 8 8 v c₂ (omega arith),
)
  where
    c₁ : Cpu S
    c₁ = with_flag 1 z c

    c₂ : Cpu S
    c₂ = with_flag 2 n c₁

    c₃ : Cpu S
    c₃ = with_flag 8 v c₂
