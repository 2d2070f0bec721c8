-- ===== src/Mpy32/Tests.antt =====
-- Runs of the multiplier on its registers.
use fused_checkmate.Base.{ℕ, ◌*◌, ◌≡◌, refl, false, Result, ok, ◌>>=◌}
use fused_checkmate.RegisterFile.{
  RegisterFile, add_register, read, write, find, find_if, set_val, stored, clear_bit,
}
use fused_checkmate.Base.{◌/◌, ◌+◌, ◌^◌, ◌<◌, true, arith}
use fused_checkmate.Mpy32.Product.{operands, process-product}
use fused_checkmate.Mpy32.{
  process, create_regs, add_registers, process_powered, multiply, mpy_short, mac_short, read16,
  word, write_low, write_carry, clear_bits, sign_extend16, previous_short,
}

-- The registers after writes of operands and of the control register.
abbrev after : ℕ → ℕ → ℕ → ℕ → Result RegisterFile
unfolding create_regs add_registers add_register write find find_if set_val stored
after ofs op1 op2 ctrl = write ofs op1 false (create_regs 0x4c0 0x4ef) >>= λ r₁.
    write 0x8 op2 false r₁ >>= λ r₂. write 0x2c ctrl false r₂

-- 3 times 0xffff as unsigned numbers.
unsigned_product : ((after 0x0 3 0xffff 0x00 >>= process_powered) >>= read 0x26) ≡ ok 2
unfolding create_regs add_registers add_register write find find_if set_val stored process_powered
    multiply mpy_short clear_bits clear_bit read read16 word write_low write_carry
unsigned_product = refl

-- 3 times -1 as signed numbers.
signed_product : ((after 0x2 3 0xffff 0x10 >>= process_powered) >>= read 0x24) ≡ ok 0xfffd
unfolding create_regs add_registers add_register write find find_if set_val stored process_powered
    multiply mpy_short clear_bits clear_bit read read16 word write_low write_carry sign_extend16
signed_product = refl

-- The signed accumulation leaves the result as it was.
signed_accumulation : ((after 0x6 3 5 0x30 >>= process_powered) >>= read 0x24) ≡ ok 0
unfolding create_regs add_registers add_register write find find_if set_val stored process_powered
    multiply mac_short previous_short read read16
signed_accumulation = refl

abbrev zeros : ℕ → ℕ
zeros address = 0

-- The registers of the theorem are those of the constructor.
created : create_regs 0x4c0 0x4ef ≡ operands zeros 0 0 0 0 0 0 0 0
unfolding create_regs add_registers add_register
created = refl

-- After an earlier result with a carry.
product_example :
    (low' : ℕ) × (high' : ℕ) × (process true (operands zeros 0x9 1 0xffff 3 0x1111 0x2222 5 6)
      ≡ ok (operands zeros (0x9 / 2 * 2) 0 0xffff 3 low' high' low' high'))
    × (high' * 2 ^ 16 + low' ≡ 0xffff * 3)
    × (low' < 2 ^ 16)
    × (high' < 2 ^ 16)
product_example =
    process-product zeros 0x9 1 0xffff 3 0x1111 0x2222 5 6 (omega arith) refl (omega arith)
      (omega arith) (omega arith) (omega arith) (omega arith) (omega arith) (omega arith)
