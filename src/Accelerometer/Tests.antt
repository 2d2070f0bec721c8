-- ===== src/Accelerometer/Tests.antt =====
-- A device whose FIFO is full when it takes another measurement.
use fused_checkmate.Base.{ℕ, zero, suc, ◌≡◌, refl, true, false, List, [], ◌∷◌, ◌++◌, replicate, ok}
use fused_checkmate.RegisterFile.{RegisterFile, Register, add_register, find, find_if, read}
use fused_checkmate.RegisterFile.AccessMode.{read_write}
use fused_checkmate.RegisterFile.Plain.{IsPlain}
use fused_checkmate.Gpio.Logic.{low}
use fused_checkmate.SpiDevice.ChipSelectPolarity.{active_low}
use fused_checkmate.Accelerometer.{Accelerometer, ctrl, status, fifo_thr, take_sample, frame}
use fused_checkmate.Accelerometer.Mode.{at_address}
use fused_checkmate.Accelerometer.MeasurementState.{continuous_measurement}
use fused_checkmate.Accelerometer.Frames.{Frame, AllWhole, Newest, flatten, new_frame}
use fused_checkmate.Accelerometer.Measure.{take_sample-Newest}

-- All axes, continuous.
abbrev some_regs : RegisterFile
some_regs =
    add_register 0x10 2 read_write 0xffffffff
      (add_register 0x08 0 read_write 0xffffffff (add_register 0x00 0x7a read_write 0xffffffff []))

abbrev old_frame : Frame
old_frame = record { header = 7; samples = 10 ∷ 20 ∷ 30 ∷ [] }

abbrev full : List Frame
full = replicate 256 old_frame

abbrev some_device : Accelerometer
some_device = record {
  device = record {
    chip_select = low;
    n_reset = true;
    polarity = active_low;
    slave_in = 0;
    slave_out = 0;
  };
  regs = some_regs;
  mode = at_address;
  address = 0xffffffff;
  measurement_state = continuous_measurement;
  fifo = flatten full;
  set_irq = false;
  irq = false;
}

abbrev register : ℕ → ℕ → Register
register addr val = record {
  addr = addr;
  val = val;
  reset_value = val;
  write_mask = 0xffffffff;
  access = read_write;
}

ctrl_there : IsPlain ctrl some_regs
unfolding add_register find find_if
ctrl_there = record { at = register 0 0x7a; found = refl; both = refl }

status_present : IsPlain status some_regs
unfolding add_register find find_if
status_present = record { at = register 8 0; found = refl; both = refl }

threshold_there : IsPlain fifo_thr some_regs
unfolding add_register find find_if
threshold_there = record { at = register 0x10 2; found = refl; both = refl }

all_old : (n : ℕ) → AllWhole (replicate n old_frame)
all_old zero = tt
all_old (suc n) = (refl, all_old n)

take_sample_example :
    (a' : Accelerometer) × (control : ℕ) × (take_sample 1 2 3 some_device ≡ ok a')
    × (read ctrl some_regs ≡ ok control)
    × Newest (full ++ (new_frame control 1 2 3 ∷ [])) a'.fifo
take_sample_example =
    take_sample-Newest 1 2 3 some_device full ctrl_there status_present threshold_there refl
      (all_old 256)

frame_axes : frame 0x2a 1 2 3 ≡ 5 ∷ 1 ∷ 3 ∷ []
unfolding frame
frame_axes = refl
