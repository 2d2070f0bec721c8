-- ===== src/FrctlA.antt =====
-- mcu/msp430fr5xx/Frctl_a.cpp and Frctl_a.hpp: the controller of the ferroelectric memory, which gives
-- its wait states. Events are left out; the bus accesses are those of BusTarget. Register offsets are
-- the ones of the device's header.
mod Tests
use fused_checkmate.Base.{
  ℕ, zero, suc, ◌+◌, ◌*◌, ◌/◌, ◌^◌, bit_and, Bool, false, List, [], ◌==◌, if◌then◌else◌, Result, ok,
  ◌>>=◌,
}
use fused_checkmate.RegisterFile.{RegisterFile, add_register, read, write}
use fused_checkmate.RegisterFile.AccessMode.{read_write}

abbrev pub ofs_frctl0 : ℕ
ofs_frctl0 = 0x0000

abbrev ofs_gcctl0 : ℕ
ofs_gcctl0 = 0x0004

abbrev frctl_a_size : ℕ
frctl_a_size = 0x0006 + 2

-- The registers, and the output.
pub record FrctlA : Type 0 where
  pub regs : RegisterFile
  pub wait_states : ℕ

-- The registers from i on, so many of them.
add_registers : ℕ → ℕ → RegisterFile → RegisterFile
add_registers i zero regs = regs
add_registers i (suc n) regs =
    let value = if i == ofs_frctl0 then 0x9600 else if i == ofs_gcctl0 then 0x0004 else 0 in
    add_registers (i + 2) n (add_register i value read_write 0xffffffff regs)

-- The register file of the constructor.
unfoldable pub create_regs : RegisterFile
unfolding add_registers
create_regs = add_registers 0 (frctl_a_size / 2) []

-- Zeros from i on, so many of them.
clear_registers : ℕ → ℕ → RegisterFile → Result RegisterFile
clear_registers i zero regs = ok regs
clear_registers i (suc n) regs = write i 0 false regs >>= λ regs'. clear_registers (i + 2) n regs'

-- `reset`
unfoldable pub reset : Bool → FrctlA → Result FrctlA
unfolding clear_registers
reset pwr_on f =
    let cleared =
      clear_registers 0 (frctl_a_size / 2) f.regs >>= λ regs. ok (record f { regs = regs }) in
    if pwr_on then cleared else ok f

-- `process`
unfoldable pub process : FrctlA → Result FrctlA
process f = do
  control ← read ofs_frctl0 f.regs
  ok (record f { wait_states = bit_and (control / 2 ^ 4) 0x000f })
