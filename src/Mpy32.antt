-- ===== src/Mpy32.antt =====
-- mcu/msp430fr5xx/Mpy32.cpp: the hardware multiplier of the MSP430, over its registers. Registers are
-- written through the bus; a write of the second operand starts `process`. Logging and the delay are
-- left out. Register offsets and masks are the ones of the device's header.
pub mod Product
mod Tests
use fused_checkmate.Base.{
  ℕ, zero, suc, ◌+◌, ◌-◌, ◌*◌, ◌/◌, ◌%◌, ◌^◌, bit_and, bit_or, not_bits, test_bit, Bool, true,
  false, not, ◌&&◌, ◌||◌, List, [], ◌∷◌, ltb, ◌==◌, if◌then◌else◌, Result, ok, err, fatal, guard,
  ◌>>=◌, ◌>>◌,
}
use fused_checkmate.BusTarget.{BusTarget, Payload}
use fused_checkmate.BusTarget
use fused_checkmate.RegisterFile.{RegisterFile, AccessMode, add_register, read, write, clear_bit}
use fused_checkmate.RegisterFile
use fused_checkmate.RegisterFile.AccessMode.{read_write}

-- `OFS_MPY32CTL0`
abbrev ofs_ctl : ℕ
ofs_ctl = 0x2c

abbrev ofs_sumext : ℕ
ofs_sumext = 0x0e

-- The loop of the constructor, with n registers left.
unfoldable pub add_registers : ℕ → ℕ → RegisterFile → RegisterFile
add_registers zero i regs = regs
add_registers (suc n) i regs = add_registers n (i + 2) (add_register i 0 read_write 0xffffffff regs)

-- The registers of the constructor; the loop's index is a uint16_t.
unfoldable pub create_regs : ℕ → ℕ → RegisterFile
create_regs start_address end_address =
    add_registers (((end_address + 2 ^ 16 - start_address + 1) % 2 ^ 16 + 1) / 2) 0 []

-- `reset`
unfoldable pub reset : RegisterFile → RegisterFile
reset regs = RegisterFile.reset regs

-- The mode bits of the control register: MPYM.
unfoldable pub with_mode : ℕ → ℕ → ℕ
with_mode ctrl mode = bit_or (bit_and ctrl (not_bits 32 0x30)) mode

-- The mode of an operation with a first operand of 16 or of 32 bits.
unfoldable pub short_mode : ℕ → ℕ → ℕ
short_mode ctrl mode = bit_and (with_mode ctrl mode) (not_bits 32 0x40)

unfoldable pub long_mode : ℕ → ℕ → ℕ
long_mode ctrl mode = bit_or (with_mode ctrl mode) 0x40

-- The switch of `b_transport` on the address: what the control register becomes.
unfoldable pub select_mode : ℕ → ℕ → ℕ
select_mode addr ctrl =
    if addr == 0x0
    then short_mode ctrl 0x00
    else if addr == 0x2
    then short_mode ctrl 0x10
    else if addr == 0x4
    then short_mode ctrl 0x20
    else if addr == 0x6
    then short_mode ctrl 0x30
    else if addr == 0x10
    then long_mode ctrl 0x00
    else if addr == 0x14
    then long_mode ctrl 0x10
    else if addr == 0x18
    then long_mode ctrl 0x20
    else if addr == 0x1c
    then long_mode ctrl 0x30
    else if addr == 0x8
    then bit_and ctrl (not_bits 32 0x80)
    else if addr == 0x20
    then bit_or ctrl 0x80
    else ctrl

-- The addresses at which the switch writes the control register, and those at which it starts.
unfoldable pub selects : ℕ → Bool
selects addr =
    ltb addr 0x9 && addr % 2 == 0
    || addr == 0x10
    || addr == 0x14
    || addr == 0x18
    || addr == 0x1c
    || addr == 0x20

unfoldable pub starts : ℕ → Bool
starts addr = addr == 0x8 || addr == 0x22

-- `b_transport`, of a multiplier at `start_address`, and whether `m_mpyCompleteEvent` is notified.
unfoldable pub b_transport : ℕ → BusTarget → Payload → Result (BusTarget × Payload × Bool)
b_transport junk t trans = do
  ctrl ← read ofs_ctl t.regs
  guard (not (ltb 0 (bit_and (ctrl % 2 ^ 16) 4))) fatal
  regs ←
      (if selects trans.address
        then write ofs_ctl (select_mode trans.address (ctrl % 2 ^ 16)) false t.regs
        else ok t.regs)
  (t', done) ← BusTarget.b_transport 2 junk (record t { regs = regs }) trans
  ok (t', done, starts trans.address)

-- A register as a uint16_t.
unfoldable pub read16 : ℕ → RegisterFile → Result ℕ
read16 ofs regs = do v ← read ofs regs; ok (v % 2 ^ 16)

-- The 16-bit word k of a result.
unfoldable pub word : ℕ → ℕ → ℕ
word k res = res / 2 ^ (16 * k) % 2 ^ 16

-- A 32-bit operand of two registers.
unfoldable pub operand : ℕ → ℕ → RegisterFile → Result ℕ
operand low high regs = do l ← read16 low regs; h ← read16 high regs; ok (bit_or (h * 2 ^ 16) l)

-- `op & 0x80000000 ? op | 0xffffffff00000000 : op`
unfoldable pub sign_extend : ℕ → ℕ
sign_extend op = if test_bit op 31 then bit_or op 0xffffffff00000000 else op

-- `op & 0x8000 ? op | 0xffff0000 : op`
unfoldable pub sign_extend16 : ℕ → ℕ
sign_extend16 op = if test_bit op 15 then bit_or op 0xffff0000 else op

-- The writes of the low and of all four result registers.
unfoldable pub write_low : ℕ → RegisterFile → Result RegisterFile
write_low res regs = do
  regs₁ ← write 0x26 (word 1 res) false regs
  write 0x24 (word 0 res) false regs₁

unfoldable pub write_all : ℕ → RegisterFile → Result RegisterFile
write_all res regs = do
  regs₁ ← write 0x2a (word 3 res) false regs
  regs₂ ← write 0x28 (word 2 res) false regs₁
  write_low res regs₂

-- The writes of SUMEXT and of the carry bit.
unfoldable pub write_carry : ℕ → ℕ → Bool → RegisterFile → Result RegisterFile
write_carry ctrl sum_ext carry regs = do
  regs₁ ← write ofs_sumext sum_ext false regs
  write ofs_ctl (if carry then bit_or ctrl 1 else bit_and ctrl (not_bits 32 1)) false regs₁

-- The loop that clears the n lowest bits of a register, the highest first.
unfoldable pub clear_bits : ℕ → ℕ → RegisterFile → Result RegisterFile
clear_bits ofs zero regs = ok regs
clear_bits ofs (suc n) regs = clear_bit 2 ofs n false regs >>= clear_bits ofs n

-- The previous result of an accumulation: SUMEXT above RES3 to RES0.
unfoldable pub previous_long : RegisterFile → Result ℕ
previous_long regs = do
  c ← read ofs_sumext regs
  r3 ← read 0x2a regs
  r2 ← read 0x28 regs
  r1 ← read 0x26 regs
  r0 ← read 0x24 regs
  ok (bit_or (bit_or (bit_or (bit_or (c * 2 ^ 64) (r3 * 2 ^ 48)) (r2 * 2 ^ 32)) (r1 * 2 ^ 16)) r0)

unfoldable pub previous_short : RegisterFile → Result ℕ
previous_short regs = do
  c ← read ofs_sumext regs
  r1 ← read 0x26 regs
  r0 ← read 0x24 regs
  ok (bit_or (bit_or (c * 2 ^ 32) (r1 * 2 ^ 16)) r0)

-- The signs and carries of the 32-bit branches.
unfoldable pub mac_long : Bool → ℕ → RegisterFile → Result RegisterFile
mac_long true ctrl regs = do
  previous ← previous_long regs
  op1 ← operand 0x1c 0x1e regs
  op2 ← operand 0x20 0x22 regs
  let res = (sign_extend op1 * sign_extend op2 % 2 ^ 64 + previous) % 2 ^ 128
  regs₁ ← write_all res regs
  write_carry ctrl (if test_bit (word 3 res) 15 then 0xffff else 0)
      (ltb (res % 2 ^ 64) (previous % 2 ^ 64)) regs₁
mac_long false ctrl regs = do
  previous ← previous_long regs
  op1 ← operand 0x18 0x1a regs
  op2 ← operand 0x20 0x22 regs
  let res = (op1 * op2 % 2 ^ 64 + previous) % 2 ^ 128
  regs₁ ← write_all res regs
  write_carry ctrl (word 4 res) (ltb 0 (word 4 res)) regs₁

unfoldable pub mpy_long : Bool → ℕ → RegisterFile → Result RegisterFile
mpy_long signed ctrl regs = do
  regs₁ ← clear_bits 0x2a 16 regs
  regs₂ ← clear_bits 0x28 16 regs₁
  regs₃ ← clear_bits 0x26 16 regs₂
  cleared ← clear_bits 0x24 16 regs₃
  op1 ← operand (if signed then 0x14 else 0x10) (if signed then 0x16 else 0x12) cleared
  op2 ← operand 0x20 0x22 cleared
  let res = if signed then sign_extend op1 * sign_extend op2 % 2 ^ 64 else op1 * op2
  let negative = signed && test_bit (word 3 res) 15
  regs₄ ← write_all res cleared
  write_carry ctrl (if negative then 0xffff else 0) negative regs₄

-- The 16-bit branches. The signed accumulation computes its operands alone.
unfoldable pub mac_short : Bool → ℕ → RegisterFile → Result RegisterFile
mac_short true ctrl regs = do
  previous ← previous_short regs
  op1 ← read 0x6 regs
  op2 ← read 0x8 regs
  ok regs
mac_short false ctrl regs = do
  previous ← previous_short regs
  op1 ← read 0x4 regs
  op2 ← read 0x8 regs
  let res = (op1 * op2 + previous) % 2 ^ 64
  regs₁ ← write_low res regs
  write_carry ctrl (word 2 res) (ltb 0 (word 2 res)) regs₁

unfoldable pub mpy_short : Bool → ℕ → RegisterFile → Result RegisterFile
mpy_short signed ctrl regs = do
  regs₁ ← clear_bits 0x26 16 regs
  cleared ← clear_bits 0x24 16 regs₁
  op1 ← read (if signed then 0x2 else 0x0) cleared
  op2 ← read 0x8 cleared
  let res =
      if signed
      then sign_extend16 op1 * sign_extend16 op2 % 2 ^ 32
      else op1 % 2 ^ 16 * (op2 % 2 ^ 16)
  let negative = signed && test_bit (word 1 res) 15
  regs₂ ← write_low res cleared
  write_carry ctrl (if negative then 0xffff else 0) negative regs₂

-- The branch that the control register selects.
unfoldable pub multiply : ℕ → RegisterFile → Result RegisterFile
multiply ctrl regs =
    let accumulate = ltb 0 (bit_and ctrl 0x20) in
    let signed = ltb 0 (bit_and ctrl 0x10) in
    if ltb 0 (bit_and ctrl 0x40) || ltb 0 (bit_and ctrl 0x80)
    then if accumulate then mac_long signed ctrl regs else mpy_long signed ctrl regs
    else if accumulate
    then mac_short signed ctrl regs
    else mpy_short signed ctrl regs

-- `process` with the power on.
unfoldable pub process_powered : RegisterFile → Result RegisterFile
process_powered regs = do
  ctrl ← read16 ofs_ctl regs
  done ← multiply ctrl regs
  low ← read 0x24 done
  regs₁ ← write 0x0a low false done
  high ← read 0x26 regs₁
  write 0x0c high false regs₁

-- `process`
unfoldable pub process : Bool → RegisterFile → Result RegisterFile
process pwr_on regs = if pwr_on then process_powered regs else ok regs
