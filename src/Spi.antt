-- ===== src/Spi.antt =====
-- mcu/cortex-m0/Spi.cpp and Spi.hpp: the SPI master of the Cortex-M0. A call of `process` is one
-- round of its loop. Clocks, delays, events, warnings and logging are left out. Register offsets are
-- the ones of include/peripheral-defines.h.
pub mod Fifo
pub mod Targets
pub mod Exchange
mod Tests
use fused_checkmate.Base.{
  ℕ, zero, suc, ◌+◌, ◌-◌, ◌*◌, ◌/◌, ◌%◌, ◌^◌, bit_and, bit_or, Bool, true, false, not, ◌&&◌, ◌||◌,
  List, [], ◌∷◌, leb, ltb, ◌==◌, if◌then◌else◌, length, set, to_nat, Result, ok, fatal, guard,
  ◌>>=◌, ◌>>◌,
}
use fused_checkmate.Utilities.{unpack_bytes, htots}
use fused_checkmate.BusTarget.{BusTarget, Payload, Command}
use fused_checkmate.BusTarget.Command.{read_command, write_command, ignore_command}
use fused_checkmate.BusTarget
use fused_checkmate.RegisterFile.{RegisterFile, add_register, read, write}
use fused_checkmate.RegisterFile
use fused_checkmate.RegisterFile.AccessMode.{read_write}
use fused_checkmate.SpiDevice.{Transaction}
use fused_checkmate.Spi.Fifo.{at_most, level, put, get}

abbrev pub ofs_cr1 : ℕ
ofs_cr1 = 0x00

abbrev pub ofs_cr2 : ℕ
ofs_cr2 = 0x04

abbrev pub ofs_sr : ℕ
ofs_sr = 0x08

abbrev pub ofs_dr : ℕ
ofs_dr = 0x0c

-- The registers, FIFOs and signals; `response` is that of the transaction that `process` reuses.
pub record Spi : Type 0 where
  pub regs : RegisterFile
  pub enable : Bool
  pub set_irq : Bool
  pub irq : Bool
  pub tx_fifo : Fifo.Fifo
  pub rx_fifo : Fifo.Fifo
  pub response : ℕ

-- What stands behind `spiSocket`: so many targets, with state S.
pub record SpiPort (S : Type 0) : Type 0 where
  pub size : ℕ
  pub b_transport : ℕ → S → Transaction → S × Transaction

abbrev plain : ℕ → ℕ → RegisterFile → RegisterFile
plain address value regs = add_register address value read_write 0xffffffff regs

-- The register file of the constructor.
unfoldable pub create_regs : RegisterFile
create_regs = plain 0x18 0 (
    plain 0x14 0
      (plain 0x10 0x0007 (plain 0xc 0 (plain 0x8 0x0002 (plain 0x4 0x0700 (plain 0x0 0 []))))))

-- The constructor.
unfoldable pub create : Spi
create = record {
  regs = create_regs;
  enable = false;
  set_irq = false;
  irq = false;
  tx_fifo = Fifo.create;
  rx_fifo = Fifo.create;
  response = 0;
}

-- `reset`: the transmit FIFO twice, and the receive FIFO not.
unfoldable pub reset : Spi → Spi
reset s = record s {
  regs = RegisterFile.reset s.regs;
  enable = false;
  set_irq = false;
  tx_fifo = Fifo.reset (Fifo.reset s.tx_fifo);
}

-- The value of the status register.
unfoldable pub status : Bool → ℕ → Spi → ℕ
unfolding at_most level
status is_busy cr2 s =
    let threshold = if ltb 0 (bit_and cr2 0x1000) then 1 else 2 in
    let rxne = to_nat (at_most threshold s.rx_fifo.n_valid_bytes) in
    let txe = to_nat (at_most s.tx_fifo.n_valid_bytes 2) in
    let levels = bit_or (level s.tx_fifo * 2 ^ 11 % 2 ^ 32) (level s.rx_fifo * 2 ^ 9 % 2 ^ 32) in
    bit_or (bit_or (bit_or levels (txe * 2)) rxne) (to_nat is_busy * 2 ^ 7)

-- `updateStatusRegister`
unfoldable pub update_status_register : Bool → Spi → Result Spi
update_status_register is_busy s = do
  cr2 ← read ofs_cr2 s.regs
  regs ← write ofs_sr (status is_busy cr2 s) false s.regs
  ok (record s { regs = regs })

-- `checkImplemented`
unfoldable pub check_implemented : Spi → Result (Unit {0})
check_implemented s = do
  cr1 ← read ofs_cr1 s.regs
  guard (bit_and cr1 0x8000 == 0) fatal
  guard (bit_and cr1 0x2000 == 0) fatal
  guard (bit_and cr1 0x1000 == 0) fatal
  guard (bit_and cr1 0x0400 == 0) fatal

-- `updateStatusRegister` with the busy flag as it is.
unfoldable pub refresh_status : Spi → Result Spi
refresh_status s = do sr ← read ofs_sr s.regs; update_status_register (ltb 0 (bit_and sr 0x80)) s

-- The switch of a write on the word-aligned address.
unfoldable pub on_write : ℕ → ℕ → ℕ → Spi → Result Spi
on_write aligned len val s =
    if aligned == ofs_cr1
    then (let s' : Spi = record s { enable = ltb 0 (bit_and val 0x40) } in
        check_implemented s' >>= λ (_ : Unit {0}). ok s')
    else if aligned == ofs_cr2
    then (check_implemented s >>= λ (_ : Unit {0}). ok s)
    else if aligned == ofs_dr
    then (put (8 * len) val s.tx_fifo >>= λ (fifo, full).
        refresh_status (record s { tx_fifo = fifo }))
    else ok s

-- The switch of a read, with the bytes that the registers gave.
unfoldable pub on_read : ℕ → ℕ → List ℕ → Spi → Result (Spi × List ℕ)
on_read junk aligned bytes s =
    let two = get 16 s.rx_fifo >>= λ (v, fifo). unpack_bytes (htots junk v) 2 >>= λ got.
    refresh_status (record s { rx_fifo = fifo }) >>= λ s'. ok (s', got) in
    let one = get 8 s.rx_fifo >>= λ (v, fifo).
    refresh_status (record s { rx_fifo = fifo }) >>= λ s'. ok (s', set bytes 0 (v % 256)) in
    if aligned == ofs_dr then (if length bytes == 2 then two else one) else ok (s, bytes)

handle : ℕ → Command → ℕ → ℕ → ℕ → List ℕ → Spi → Result (Spi × List ℕ)
handle junk write_command aligned len val bytes s =
    on_write aligned len val s >>= λ s'. ok (s', bytes)
handle junk read_command aligned len val bytes s = on_read junk aligned bytes s
handle junk ignore_command aligned len val bytes s = ok (s, bytes)

-- `b_transport`, for a master at these addresses.
unfoldable pub b_transport : ℕ → ℕ → ℕ → Spi → Payload → Result (Spi × Payload)
unfolding handle
b_transport junk start_address end_address s trans = do
  (target, done) ←
      BusTarget.b_transport 4 junk
        (record { start_address = start_address; end_address = end_address; regs = s.regs }) trans
  let addr = trans.address
  val ← read addr target.regs
  let len = length done.bytes
  guard (not (ltb 2 len && addr - addr % 4 == ofs_dr)) fatal
  (s', bytes) ←
      handle junk trans.command (addr - addr % 4) len val done.bytes
        (record s { regs = target.regs })
  ok (s', record done { bytes = bytes })

-- `nbits`
unfoldable pub n_bits : ℕ → ℕ
n_bits cr2 = let nbits = bit_and cr2 0xf00 / 2 ^ 8 + 1 in if ltb nbits 4 then 8 else nbits

unfoldable pub n_bytes : ℕ → ℕ
n_bytes nbits = (nbits + 7) / 8

-- `readyToTransmit`
unfoldable pub ready_to_transmit : Bool → Spi → Result Bool
ready_to_transmit pwr_on s = do
  cr2 ← read ofs_cr2 s.regs
  ok (pwr_on && s.enable && at_most (n_bytes (n_bits cr2)) s.tx_fifo.n_valid_bytes)

-- The interrupt condition after a transaction.
unfoldable pub update_irq : ℕ → Spi → Result Spi
update_irq cr2 s = do
  sr ← read ofs_sr s.regs
  let rx_irq = ltb 0 (bit_and cr2 0x40) && ltb 0 (bit_and sr 1)
  let tx_irq = ltb 0 (bit_and cr2 0x80) && ltb 0 (bit_and sr 2)
  ok (record s { set_irq = if rx_irq || tx_irq then true else s.set_irq })

module _ {S : Type 0} ⦃port : SpiPort S⦄ where
  -- The loop over the targets, with so many left and the responses so far.
  unfoldable pub call_targets : ℕ → ℕ → ℕ → S → Transaction → Result (S × Transaction × ℕ)
  call_targets zero i responses st t = ok (st, t, responses)
  call_targets (suc left) i responses st t = do
    let (st', t') = port.b_transport i st t
    let count = if t'.is_response_ok then responses + 1 else responses
    guard (leb count 1) fatal
    call_targets left (i + 1) count st' (record t' { is_response_ok = false })

  -- A transaction with all targets.
  unfoldable pub exchange : Spi → S → Result (Spi × S)
  exchange s st = do
    s₁ ← update_status_register true s
    cr2 ← read ofs_cr2 s₁.regs
    let nbits = n_bits cr2
    (v, fifo) ← get nbits s₁.tx_fifo
    bytes ← unpack_bytes v (n_bytes nbits)
    (st', t, responses) ← call_targets port.size 0 0 st (record {
      bytes = bytes;
      n_data_bits = nbits;
      response = s₁.response;
      is_response_ok = false;
    })
    (rx, full) ← put nbits t.response s₁.rx_fifo
    s₂ ←
        update_status_register false
          (record s₁ { tx_fifo = fifo; rx_fifo = rx; response = t.response })
    s₃ ← update_irq cr2 s₂
    ok (s₃, st')

  -- `process`: one round of the loop, or the wait.
  unfoldable pub process : Bool → Spi → S → Result (Spi × S)
  process pwr_on s st = do
    ready ← ready_to_transmit pwr_on s
    if ready then exchange s st else ok (s, st)

-- `irqControl`; the master's exception is 25 after the first one of a peripheral.
unfoldable pub irq_control : ℕ → Spi → Spi
irq_control active_exception s = record s {
  irq = if s.set_irq && not s.irq then true else if active_exception == 41 then false else s.irq;
  set_irq = false;
}
