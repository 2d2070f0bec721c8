-- ===== src/Gpio/Tests.antt =====
-- A rising edge on an enabled input, and an output.
use fused_checkmate.Base.{ℕ, arith, ◌≡◌, refl, true, false, [], ◌∷◌, Result, ok, ◌>>=◌}
use fused_checkmate.RegisterFile.{
  add_register, read, write, find, find_if, set_val, stored, set_bit,
}
use fused_checkmate.Gpio.Edges.{registers, Sampled, sample-Sampled}
use fused_checkmate.Gpio.{Gpio, create_regs, process, scan_pins, sample, rise, to_bool, irq_control}
use fused_checkmate.Gpio.Logic.{low, high, high_z}

abbrev pins_on : Result Gpio
unfolding create_regs add_register write find find_if set_val stored
pins_on = write 0x410 1 false create_regs >>= λ r₁. write 0x400 2 false r₁ >>= λ r₂.
    write 0x0 2 false r₂ >>= λ r₃. ok (record {
      regs = r₃;
      last_state = 0;
      set_irq = false;
      irq = false;
      driven = high_z ∷ high_z ∷ [];
    })

edge :
    ((pins_on >>= process true (high ∷ low ∷ [])) >>= λ g. ok (irq_control true 0 g).irq) ≡ ok true
unfolding create_regs add_register write read find find_if set_val stored set_bit process scan_pins
    sample rise to_bool irq_control
edge = refl

output :
    ((pins_on >>= process true (high ∷ low ∷ [])) >>= λ g. ok g.driven) ≡ ok (high_z ∷ high ∷ [])
unfolding create_regs add_register write read find find_if set_val stored set_bit process scan_pins
    sample rise to_bool
output = refl

abbrev pins_low : Gpio
pins_low = record {
  regs = registers 0 0 8 0;
  last_state = 0;
  set_irq = false;
  irq = false;
  driven = [];
}

sample_example :
    (g' : Gpio) × (level' : ℕ) × (ifg' : ℕ) × (sample 3 true true pins_low ≡ ok g')
    × (g'.regs ≡ registers level' 0 8 ifg')
    × Sampled 3 true true pins_low g' 0 level' ifg'
sample_example = sample-Sampled 3 true true pins_low 0 0 8 0 (ground arith) refl

created : create_regs ≡ registers 0 0 0 0
unfolding create_regs add_register
created = refl
