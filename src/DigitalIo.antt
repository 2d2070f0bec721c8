-- ===== src/DigitalIo.antt =====
-- mcu/msp430fr5xx/DigitalIo.cpp and DigitalIo.hpp: sixteen pins of the MSP430. Power-model reports,
-- warnings and events are left out. Register offsets are the ones of the device's header.
pub mod Edges
mod Tests
use fused_checkmate.Base.{
  ℕ, zero, suc, ◌+◌, ◌-◌, ◌*◌, ◌%◌, ◌^◌, ltb, bit_and, bit_or, not_bits, test_bit, Bool, true,
  false, not, ◌&&◌, ◌||◌, List, [], ◌∷◌, map, if◌then◌else◌, Result, ok, ◌>>=◌,
}
use fused_checkmate.RegisterFile.{RegisterFile, add_register, read, read_byte, set_bit, clear_bit}
use fused_checkmate.RegisterFile
use fused_checkmate.RegisterFile.AccessMode.{read_write}
use fused_checkmate.Gpio.{Logic, to_bool}
use fused_checkmate.Gpio.Logic.{low, high}

abbrev pub ofs_in : ℕ
ofs_in = 0x0000

abbrev ofs_out : ℕ
ofs_out = 0x0002

abbrev ofs_dir : ℕ
ofs_dir = 0x0004

abbrev ofs_ren : ℕ
ofs_ren = 0x0006

abbrev ofs_sel0 : ℕ
ofs_sel0 = 0x000a

abbrev ofs_sel1 : ℕ
ofs_sel1 = 0x000c

abbrev ofs_ies : ℕ
ofs_ies = 0x0018

abbrev ofs_ie : ℕ
ofs_ie = 0x001a

abbrev pub ofs_ifg : ℕ
ofs_ifg = 0x001c

-- `driven` holds what the pins were last written, `irq0` and `irq1` the two request signals.
pub record DigitalIo : Type 0 where
  pub regs : RegisterFile
  pub last_state : ℕ
  pub irq0 : Bool
  pub irq1 : Bool
  pub driven : List Logic

-- The registers from i on, so many of them.
add_registers : ℕ → ℕ → RegisterFile → RegisterFile
add_registers i zero regs = regs
add_registers i (suc n) regs = add_registers (i + 2) n (add_register i 0 read_write 0xffffffff regs)

-- The register file of the constructor, for a port with so many words.
unfoldable pub create_regs : ℕ → RegisterFile
unfolding add_registers
create_regs words = add_registers 0 words []

-- `reset`
unfoldable pub reset : DigitalIo → DigitalIo
reset d = record d { regs = RegisterFile.reset d.regs; last_state = 0 }

-- What `process` reads of the registers.
pub record Settings : Type 0 where
  pub dir : ℕ
  pub out : ℕ
  pub ren : ℕ
  pub irq_en : ℕ
  pub irq_edge : ℕ

unfoldable pub settings : RegisterFile → Result Settings
settings regs = do
  dir ← read ofs_dir regs
  out ← read ofs_out regs
  ren ← read ofs_ren regs
  sel0 ← read ofs_sel0 regs
  sel1 ← read_byte 2 ofs_sel1 regs
  ie ← read ofs_ie regs
  edge ← read ofs_ies regs
  ok (record {
    dir = dir % 2 ^ 16;
    out = out % 2 ^ 16;
    ren = ren % 2 ^ 16;
    irq_en = bit_and (bit_and (not_bits 32 sel0) (not_bits 32 sel1)) ie % 2 ^ 16;
    irq_edge = edge % 2 ^ 16;
  })

-- A rising edge of input i.
unfoldable pub rise : ℕ → Settings → DigitalIo → Result DigitalIo
rise i s d = do
  regs ← set_bit 2 ofs_in i true d.regs
  regs' ←
      (if test_bit s.irq_en i && not (test_bit s.irq_edge i)
        then set_bit 2 ofs_ifg i true regs
        else ok regs)
  ok (record d { regs = regs'; last_state = bit_or d.last_state (2 ^ i) })

-- A falling edge of input i.
unfoldable pub fall : ℕ → Settings → DigitalIo → Result DigitalIo
fall i s d = do
  regs ← clear_bit 2 ofs_in i true d.regs
  regs' ←
      (if test_bit s.irq_en i && test_bit s.irq_edge i
        then set_bit 2 ofs_ifg i true regs
        else ok regs)
  ok (record d { regs = regs'; last_state = bit_and d.last_state (not_bits 32 (2 ^ i)) })

-- Pin i as an input.
unfoldable pub sample : ℕ → Bool → Settings → DigitalIo → Result DigitalIo
sample i current s d =
    let rising = rise i s d in
    let falling = fall i s d in
    if current && not (test_bit d.last_state i)
    then rising
    else if not current && test_bit d.last_state i
    then falling
    else ok d

-- The two requests, from the flags.
unfoldable pub update_irq : DigitalIo → Result DigitalIo
update_irq d = do
  read_flags ← read ofs_ifg d.regs
  let flags = read_flags % 2 ^ 16
  ok (record d { irq0 = ltb 0 (bit_and flags 0x00ff); irq1 = ltb 0 (bit_and flags 0xff00) })

-- The loop over the pins from i on, with the values that they read and that they were driven to.
unfoldable pub scan_pins :
    ℕ → Settings → List Logic → List Logic → DigitalIo → Result (List Logic × DigitalIo)
scan_pins i s [] old d = ok ([], d)
scan_pins i s (pin ∷ pins) [] d = ok ([], d)
scan_pins i s (pin ∷ pins) (was ∷ old) d = do
  sampled ← (if test_bit s.dir i then ok d else sample i (to_bool pin) s d)
  d' ← update_irq sampled
  (driven, d'') ← scan_pins (i + 1) s pins old d'
  let now =
      if test_bit s.ren i || test_bit s.dir i then (if test_bit s.out i then high else low) else was
  ok (now ∷ driven, d'')

ground_pin : Logic → Logic
ground_pin pin = low

-- `process`, with the values that the pins read.
unfoldable pub process : Bool → List Logic → DigitalIo → Result DigitalIo
unfolding ground_pin
process pwr_on pins d = do
  s ← settings d.regs
  (driven, d') ← (if pwr_on then scan_pins 0 s pins d.driven d else ok (map ground_pin d.driven, d))
  ok (record d' { driven = driven })
