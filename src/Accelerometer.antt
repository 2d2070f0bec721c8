-- ===== src/Accelerometer.antt =====
-- sd/Accelerometer.hpp and sd/Accelerometer.cpp: a sensor behind an SPI bus. The samples of a
-- measurement, which the source scales from a trace of real numbers, are a parameter. Waits,
-- power-model reports, events and logging are left out.
pub mod Frames
pub mod Measure
mod Tests
use fused_checkmate.Base.{
  ℕ, zero, suc, ◌+◌, ◌-◌, ◌*◌, ◌/◌, ◌%◌, ◌^◌, bit_and, Bool, true, false, not, ◌&&◌, ◌||◌, List, [],
  ◌∷◌, ◌++◌, ltb, ◌==◌, if◌then◌else◌, length, drop, get_or, not_bits, Result, ok, fatal, guard,
  ◌>>=◌, ◌>>◌,
}
use fused_checkmate.RegisterFile.{
  RegisterFile, add_register, read, write, contains, set_bit_mask, clear_bit_mask,
}
use fused_checkmate.RegisterFile
use fused_checkmate.RegisterFile.AccessMode.{read_write}
use fused_checkmate.SpiDevice.{SpiDevice, enabled}
use fused_checkmate.SpiDevice

abbrev pub ctrl : ℕ
ctrl = 0x00

abbrev pub ctrl_fs : ℕ
ctrl_fs = 0x04

abbrev pub status : ℕ
status = 0x08

abbrev pub fifo_data : ℕ
fifo_data = 0x0c

abbrev pub fifo_thr : ℕ
fifo_thr = 0x10

abbrev pub fifo_capacity : ℕ
fifo_capacity = 1024

-- `SpiState::Mode`
pub data Mode : Type 0 where
  at_address data_read data_write : Mode

-- `MeasurementState`
pub data MeasurementState : Type 0 where
  sleep standby continuous_measurement single_measurement : MeasurementState

-- The device with its shift registers, the registers, the SPI state, the FIFO and the request.
pub record Accelerometer : Type 0 where
  pub device : SpiDevice
  pub regs : RegisterFile
  pub mode : Mode
  pub address : ℕ
  pub measurement_state : MeasurementState
  pub fifo : List ℕ
  pub set_irq : Bool
  pub irq : Bool

abbrev plain : ℕ → ℕ → RegisterFile → RegisterFile
plain address value regs = add_register address value read_write 0xffffffff regs

-- The register file of the constructor.
unfoldable pub create_regs : RegisterFile
create_regs = plain 0x10 0 (plain 0x0c 0 (plain 0x08 1 (plain 0x04 0 (plain 0x00 0 []))))

-- `reset`; the request is not withdrawn.
unfoldable pub reset : Accelerometer → Accelerometer
reset a = record a {
  regs = RegisterFile.reset a.regs;
  device = SpiDevice.reset a.device;
  mode = at_address;
  address = 0xffffffff;
  fifo = [];
  measurement_state = sleep;
}

unfoldable pub is_continuous : MeasurementState → Bool
is_continuous continuous_measurement = true
is_continuous _ = false

unfoldable pub is_single : MeasurementState → Bool
is_single single_measurement = true
is_single _ = false

-- A read: the byte that was read before leaves the FIFO, and the request may be withdrawn.
unfoldable pub on_read : Accelerometer → Result Accelerometer
unfolding is_continuous
on_read a = do
  let fifo = if a.address == fifo_data then drop 1 a.fifo else a.fifo
  threshold ← read fifo_thr a.regs
  control ← read ctrl a.regs
  let clears =
      is_continuous a.measurement_state && ltb (length fifo) (threshold * 4 % 2 ^ 32)
      || length fifo == 0
      || bit_and control 0x40 == 0
  ok (record a { fifo = fifo; set_irq = if a.irq && clears then false else a.set_irq })

-- A write.
unfoldable pub on_write : ℕ → Accelerometer → Result Accelerometer
unfolding reset
on_write payload a = do
  guard (contains a.address a.regs) fatal
  regs ← write a.address payload false a.regs
  let a' = record a { regs = regs }
  let a'' = if a.address == ctrl && ltb 0 (bit_and payload 0x4) then reset a' else a'
  ok (record a'' { mode = at_address })

-- The switch on the mode.
on_byte : Mode → ℕ → Accelerometer → Result Accelerometer
unfolding on_read on_write
on_byte at_address payload a = ok (record a {
  address = bit_and payload (not_bits 32 0x80);
  mode = if ltb 0 (bit_and payload 0x80) then data_read else data_write;
})
on_byte data_read payload a = on_read a
on_byte data_write payload a = on_write payload a

-- The response to the next transaction.
response : Mode → Accelerometer → Result ℕ
response data_read a = do
  guard (contains a.address a.regs) fatal
  if a.address == fifo_data then ok (get_or a.fifo 0 0) else read a.address a.regs
response _ a = ok 0

-- `spiInterface`
unfoldable pub spi_interface : Accelerometer → Result Accelerometer
unfolding on_byte response
spi_interface a =
    let active = on_byte a.mode a.device.slave_in a >>= λ a'.
    response a'.mode a' >>= λ v. ok (record a' { device = record a'.device { slave_out = v } }) in
    if enabled a.device then active else ok (record a { mode = at_address })

-- The cast of the mode bits.
unfoldable pub state_of : ℕ → MeasurementState
state_of zero = sleep
state_of (suc zero) = standby
state_of (suc (suc zero)) = continuous_measurement
state_of _ = single_measurement

is_sleep : MeasurementState → Bool
is_sleep sleep = true
is_sleep _ = false

is_standby : MeasurementState → Bool
is_standby standby = true
is_standby _ = false

-- The mode bits are set to standby.
unfoldable pub to_standby : RegisterFile → Result RegisterFile
to_standby regs = clear_bit_mask ctrl 3 false regs >>= λ regs'. set_bit_mask ctrl 1 false regs'

is_measuring : MeasurementState → Bool
is_measuring continuous_measurement = true
is_measuring single_measurement = true
is_measuring _ = false

-- `nextMeasurementState`, with the new state.
unfoldable pub next_measurement_state : Accelerometer → Result Accelerometer
unfolding state_of is_sleep is_standby is_measuring to_standby
next_measurement_state a = do
  control ← read ctrl a.regs
  let asked = state_of (bit_and control 3)
  let refused = is_sleep a.measurement_state && is_measuring asked
  regs ← (if refused then to_standby a.regs else ok a.regs)
  let setting = if refused then standby else asked
  regs' ←
      (if is_sleep a.measurement_state && is_standby setting
        then clear_bit_mask status 1 false regs
        else ok regs)
  ok (record a { regs = regs'; measurement_state = setting })

-- The bytes of a measurement: the header, and a sample of each axis that is enabled.
unfoldable pub frame : ℕ → ℕ → ℕ → ℕ → List ℕ
frame control x y z =
    bit_and control 0x38 / 2 ^ 3
    ∷ ((if ltb 0 (bit_and control 0x8) then x ∷ [] else [])
        ++ ((if ltb 0 (bit_and control 0x10) then y ∷ [] else [])
            ++ (if ltb 0 (bit_and control 0x20) then z ∷ [] else [])))

-- `popOldestframe`; where a frame ends too early the source pops an empty FIFO, which is undefined
-- and changes nothing here.
unfoldable pub pop_oldest_frame : List ℕ → List ℕ
pop_oldest_frame [] = []
pop_oldest_frame (header ∷ fifo) =
    let after_x = if ltb 0 (bit_and header 1) then drop 1 fifo else fifo in
    let after_y = if ltb 0 (bit_and header 2) then drop 1 after_x else after_x in
    if ltb 0 (bit_and header 4) then drop 1 after_y else after_y

-- The loop that pops old frames, with fuel.
unfoldable pub pop_loop : ℕ → List ℕ → List ℕ
pop_loop zero fifo = fifo
pop_loop (suc fuel) fifo =
    let rest = pop_loop fuel (pop_oldest_frame fifo) in
    if ltb fifo_capacity (length fifo) then rest else fifo

-- The rest of a pass of `measurementLoop` in a measuring state, after the wait for the sampling time,
-- with the samples of the three axes. Each round of the inner loop pops at least the header.
unfoldable pub take_sample : ℕ → ℕ → ℕ → Accelerometer → Result Accelerometer
take_sample x y z a = do
  control ← read ctrl a.regs
  let filled = a.fifo ++ frame control x y z
  let fifo = pop_loop (length filled) filled
  regs ← clear_bit_mask status 1 false a.regs
  threshold ← read fifo_thr regs
  let fifo_irq =
      is_continuous a.measurement_state && not (ltb (length fifo) (threshold * 4 % 2 ^ 32))
  let other_irq = not (is_continuous a.measurement_state) && ltb 0 (length fifo)
  let raises = ltb 0 (bit_and control 0x40) && (fifo_irq || other_irq)
  regs' ← (if is_single a.measurement_state then to_standby regs else ok regs)
  ok (record a { regs = regs'; fifo = fifo; set_irq = if raises then true else a.set_irq })

-- A pass up to the wait, and whether a sample is taken after it; the wait between two states is left
-- out, and transactions during it with it.
unfoldable pub start_pass : Accelerometer → Result (Accelerometer × Bool)
unfolding is_measuring
start_pass a = do
  a' ← next_measurement_state a
  let measures = is_measuring a'.measurement_state
  regs ← (if measures then set_bit_mask status 1 false a'.regs else ok a'.regs)
  ok (record a' { regs = regs }, measures)

-- `measurementLoop`: one pass, with the transactions during the sampling time.
unfoldable pub measurement_loop :
    (Accelerometer → Result Accelerometer) → ℕ → ℕ → ℕ → Accelerometer → Result Accelerometer
measurement_loop during x y z a = do
  (started, measures) ← start_pass a
  if measures then (during started >>= λ a'. take_sample x y z a') else ok started

-- `updateIrq`
unfoldable pub update_irq : Accelerometer → Accelerometer
update_irq a = record a { irq = a.set_irq }
