-- ===== src/DigitalIo/Tests.antt =====
-- A rising edge of a pin, alone and in a pass over all pins.
use fused_checkmate.Base.{ℕ, ◌≡◌, refl, arith, true, false, replicate, ok}
use fused_checkmate.RegisterFile.{Register, add_register, find, find_if, read}
use fused_checkmate.RegisterFile.AccessMode.{read_write}
use fused_checkmate.RegisterFile.Plain.{IsPlain}
use fused_checkmate.Gpio.Logic.{low}
use fused_checkmate.DigitalIo.{DigitalIo, Settings, create_regs, ofs_in, ofs_ifg}
use fused_checkmate.DigitalIo.Edges.{Outcome, sample-Outcome}

abbrev register : ℕ → Register
register addr = record {
  addr = addr;
  val = 0;
  reset_value = 0;
  write_mask = 0xffffffff;
  access = read_write;
}

abbrev some_port : DigitalIo
some_port = record {
  regs = create_regs 15;
  last_state = 0;
  irq0 = false;
  irq1 = false;
  driven = replicate 16 low;
}

abbrev some_settings : Settings
some_settings = record { dir = 0; out = 0; ren = 0; irq_en = 0x0200; irq_edge = 0 }

input_there : IsPlain ofs_in (create_regs 15)
unfolding create_regs add_register find find_if
input_there = record { at = register ofs_in; found = refl; both = refl }

flags_there : IsPlain ofs_ifg (create_regs 15)
unfolding create_regs add_register find find_if
flags_there = record { at = register ofs_ifg; found = refl; both = refl }

no_input : read ofs_in (create_regs 15) ≡ ok 0
unfolding create_regs add_register read find find_if
no_input = refl

rising_example : Outcome 9 true some_settings some_port
rising_example =
    sample-Outcome 9 true some_settings some_port 0 (omega arith) input_there flags_there no_input
      refl
