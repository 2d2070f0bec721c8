-- ===== src/Gpio.antt =====
-- mcu/cortex-m0/Gpio.hpp and mcu/cortex-m0/Gpio.cpp: the general-purpose pins of the Cortex-M0.
-- Power-model reports, printing and events are left out. Register offsets are the ones of
-- include/peripheral-defines.h.
pub mod Edges
mod Tests
use fused_checkmate.Base.{
  ℕ, zero, suc, ◌+◌, ◌^◌, test_bit, bit_and, bit_or, not_bits, Bool, true, false, not, ◌&&◌, List,
  [], ◌∷◌, map, ◌==◌, if◌then◌else◌, Result, ok, ◌>>=◌,
}
use fused_checkmate.RegisterFile.{RegisterFile, AccessMode, add_register, read, set_bit, clear_bit}
use fused_checkmate.RegisterFile
use fused_checkmate.RegisterFile.AccessMode.{read_only, read_write}

-- `sc_logic`
pub data Logic : Type 0 where
  low high unknown high_z : Logic

-- `is_01() ? to_bool() : false`
unfoldable pub to_bool : Logic → Bool
to_bool high = true
to_bool _ = false

abbrev ofs_data : ℕ
ofs_data = 0x0

abbrev ofs_dir : ℕ
ofs_dir = 0x400

abbrev ofs_ifg : ℕ
ofs_ifg = 0x404

abbrev ofs_ie : ℕ
ofs_ie = 0x410

-- `driven` holds what the pins were last written, and `irq` the interrupt request signal.
pub record Gpio : Type 0 where
  pub regs : RegisterFile
  pub last_state : ℕ
  pub set_irq : Bool
  pub irq : Bool
  pub driven : List Logic

-- The register file of the constructor.
unfoldable pub create_regs : RegisterFile
create_regs = add_register ofs_ifg 0 read_only 0xffffffff (
    add_register ofs_ie 0 read_write 0xffffffff (
      add_register ofs_dir 0 read_write 0xffffffff
        (add_register ofs_data 0 read_write 0xffffffff [])))

-- `reset`
unfoldable pub reset : Gpio → Gpio
reset g = record g { regs = RegisterFile.reset g.regs; last_state = 0; set_irq = false }

-- A rising edge of input i.
unfoldable pub rise : ℕ → Bool → Gpio → Result Gpio
rise i enabled g = do
  regs ← set_bit 4 ofs_data i true g.regs
  regs' ← (if enabled then set_bit 4 ofs_ifg i true regs else ok regs)
  ok (record g {
    regs = regs';
    last_state = bit_or g.last_state (2 ^ i);
    set_irq = if enabled then true else g.set_irq;
  })

-- A falling edge of input i.
unfoldable pub fall : ℕ → Gpio → Result Gpio
fall i g = do
  regs ← clear_bit 4 ofs_data i true g.regs
  ok (record g { regs = regs; last_state = bit_and g.last_state (not_bits 32 (2 ^ i)) })

-- Pin i as an input.
unfoldable pub sample : ℕ → Bool → Bool → Gpio → Result Gpio
sample i current enabled g =
    let rising = rise i enabled g in
    let falling = fall i g in
    if current && not (test_bit g.last_state i)
    then rising
    else if not current && test_bit g.last_state i
    then falling
    else ok g

-- The loop over the pins from i on, with the values that they read and that they were driven to.
unfoldable pub scan_pins :
    ℕ → ℕ → ℕ → ℕ → List Logic → List Logic → Gpio → Result (List Logic × Gpio)
scan_pins i dir level ie [] old g = ok ([], g)
scan_pins i dir level ie (pin ∷ pins) [] g = ok ([], g)
scan_pins i dir level ie (pin ∷ pins) (was ∷ old) g = do
  g' ← (if test_bit dir i then ok g else sample i (to_bool pin) (test_bit ie i) g)
  (driven, g'') ← scan_pins (i + 1) dir level ie pins old g'
  let now = if test_bit dir i then (if test_bit level i then high else low) else was
  ok (now ∷ driven, g'')

float : Logic → Logic
float pin = high_z

-- `process`, with the values that the pins read.
unfoldable pub process : Bool → List Logic → Gpio → Result Gpio
unfolding float
process pwr_on pins g = do
  dir ← read ofs_dir g.regs
  level ← read ofs_data g.regs
  ie ← read ofs_ie g.regs
  (driven, g') ←
      (if pwr_on then scan_pins 0 dir level ie pins g.driven g else ok (map float g.driven, g))
  ok (record g' { driven = driven })

-- `irqControl`; exception 16 is the first one of a peripheral, and the one of the pins. A negative
-- number of no exception stands for any other one.
unfoldable pub irq_control : Bool → ℕ → Gpio → Gpio
irq_control pwr_on active_exception g =
    if not pwr_on then record g { irq = false; set_irq = false } else record g {
      irq =
          if g.set_irq && not g.irq then true else if active_exception == 16 then false else g.irq;
      set_irq = false;
    }
