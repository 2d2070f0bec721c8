-- ===== src/PowerManagementModule.antt =====
-- mcu/msp430fr5xx/PowerManagementModule.cpp and PowerManagementModule.hpp: the supply supervisor of
-- the MSP430. Voltages are a parameter with their comparison, the thresholds are read from the
-- configuration. A pass of `process` replays the trace of the boot current between its reads of the
-- voltage and of the acknowledgement; the trace, which only the power model sees, the warning above
-- the greatest voltage, events and the delay are left out.
pub mod Supply
mod Tests
use fused_checkmate.Base.{
  ℕ, ◌+◌, ◌*◌, ◌/◌, ◌%◌, ◌^◌, bit_and, Bool, true, false, List, [], ◌∷◌, length, get_or, ◌==◌,
  if◌then◌else◌, Result, ok, err, fatal, ◌>>=◌,
}
use fused_checkmate.BusTarget.{Command, Payload}
use fused_checkmate.BusTarget.Command.{read_command, write_command, ignore_command}
use fused_checkmate.RegisterFile.{RegisterFile, add_register, read, write, read_byte, write_byte}
use fused_checkmate.RegisterFile
use fused_checkmate.RegisterFile.AccessMode.{read_write}

abbrev ofs_ctl0 : ℕ
ofs_ctl0 = 0x0000

abbrev ofs_ctl0_h : ℕ
ofs_ctl0_h = 0x0001

abbrev ofs_ctl1 : ℕ
ofs_ctl1 = 0x0002

abbrev ofs_ifg : ℕ
ofs_ifg = 0x000a

abbrev ofs_pm5ctl0 : ℕ
ofs_pm5ctl0 = 0x0010

abbrev pmm_pw : ℕ
pmm_pw = 0xa500

-- The registers, the variables and the two outputs.
pub record PowerManagementModule : Type 0 where
  pub regs : RegisterFile
  pub locked : Bool
  pub is_on : Bool
  pub power_on_reset_count : ℕ
  pub pwr_good : Bool
  pub irq : Bool

abbrev plain : ℕ → ℕ → RegisterFile → RegisterFile
plain address value regs = add_register address value read_write 0xffffffff regs

-- The register file of the constructor.
unfoldable pub create_regs : RegisterFile
create_regs =
    plain ofs_pm5ctl0 0x0001 (plain ofs_ifg 0 (plain ofs_ctl1 0x9600 (plain ofs_ctl0 0x9640 [])))

-- `reset`; the outputs are not written.
unfoldable pub reset : PowerManagementModule → PowerManagementModule
reset p = record p { regs = RegisterFile.reset p.regs; locked = true; is_on = false }

-- The constructor.
unfoldable pub create : PowerManagementModule
unfolding create_regs reset
create = reset (record {
  regs = create_regs;
  locked = true;
  is_on = false;
  power_on_reset_count = 0;
  pwr_good = false;
  irq = false;
})

module _ {V : Type 0} (less : V → V → Bool) (v_on v_off : V) where
  -- The supply of a module that is on, and of one that is off.
  unfoldable pub supply : V → PowerManagementModule → PowerManagementModule
  supply vcc p =
      let dropped = if less vcc v_off then record p { is_on = false; pwr_good = false } else p in
      let recovered =
        if less v_on vcc
        then record p {
          is_on = true;
          power_on_reset_count = (p.power_on_reset_count + 1) % 2 ^ 32;
          pwr_good = true;
          irq = true;
        }
        else p in
      if p.is_on then dropped else recovered

  -- A pass of `process`, with the voltage and the acknowledgement; of two writes to the request the
  -- last one counts.
  unfoldable pub process : V → Bool → PowerManagementModule → PowerManagementModule
  process vcc ira p = let p' = supply vcc p in record p' { irq = if ira then false else p'.irq }

-- A write of a word at the data pointer and the data length.
unfoldable pub on_write : ℕ → ℕ → ℕ → PowerManagementModule → Result PowerManagementModule
on_write addr len word p =
    let store = write addr word false p.regs >>= λ regs. ok (record p { regs = regs }) in
    let store_byte =
      write_byte 2 addr (word % 256) false p.regs >>= λ regs. ok (record p { regs = regs }) in
    let unlock = write addr 0 false p.regs >>= λ regs. ok (record p { regs = regs }) in
    if addr == ofs_ctl0
    then ok (record p { locked = bit_and word 0xff00 == pmm_pw })
    else if addr == ofs_ctl0_h
    then ok (record p { locked = word == pmm_pw })
    else if addr == ofs_pm5ctl0
    then (if word == 0 then unlock else ok p)
    else if len == 2
    then store
    else if len == 1
    then store_byte
    else ok p

-- A read; the word that is stored for a single byte goes past the buffer, which is left out.
unfoldable pub on_read : ℕ → List ℕ → PowerManagementModule → Result (List ℕ)
on_read addr bytes p =
    let word = read addr p.regs >>= λ v. ok (v % 256 ∷ v / 256 % 256 ∷ []) in
    let byte = read_byte 2 addr p.regs >>= λ v. ok (v ∷ []) in
    if length bytes == 2 then word else if length bytes == 1 then byte else ok bytes

module _ (junk : ℕ) where
  transact : Command → PowerManagementModule → Payload → Result (PowerManagementModule × Payload)
  unfolding on_write on_read
  transact write_command p trans =
      let word = get_or trans.bytes 0 junk + 256 * get_or trans.bytes 1 junk in
      on_write trans.address (length trans.bytes) word p >>= λ p'. ok (p', trans)
  transact read_command p trans =
      on_read trans.address trans.bytes p >>= λ got. ok (p, record trans { bytes = got })
  transact ignore_command p trans = err fatal

  -- `b_transport`; `junk` is a byte that stands behind the data.
  unfoldable pub b_transport :
      PowerManagementModule → Payload → Result (PowerManagementModule × Payload)
  unfolding transact
  b_transport p trans = transact trans.command p trans
