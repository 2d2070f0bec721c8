-- ===== src/TimerA.antt =====
-- mcu/msp430fr5xx/TimerA.cpp and TimerA.hpp: a timer of the MSP430. The clock mux and divider are
-- seen by the signals that select them. A call of `process` is one edge of the timer's clock or of
-- the accepted request; when it is called next, which `stopped` decides, is up to the simulator.
-- Power-model reports, events and logging are left out. Register offsets and masks are the ones of
-- the device's header.
pub mod UpMode
mod Tests
use fused_checkmate.Base.{
  ℕ, zero, suc, ◌+◌, ◌-◌, ◌*◌, ◌/◌, ◌%◌, ◌^◌, bit_and, Bool, true, false, not, ◌&&◌, ◌||◌, List, [],
  ltb, ◌==◌, if◌then◌else◌, Result, ok, ◌>>=◌,
}
use fused_checkmate.BusTarget.{BusTarget, Payload, Command}
use fused_checkmate.BusTarget.Command.{read_command, write_command, ignore_command}
use fused_checkmate.BusTarget
use fused_checkmate.RegisterFile.{
  RegisterFile, AccessMode, add_register, read, write, set_bit, set_bit_mask, clear_bit_mask,
}
use fused_checkmate.RegisterFile
use fused_checkmate.RegisterFile.AccessMode.{read_only, read_write}

abbrev pub ofs_ctl : ℕ
ofs_ctl = 0x0

abbrev pub ofs_cctl0 : ℕ
ofs_cctl0 = 0x2

abbrev pub ofs_r : ℕ
ofs_r = 0x10

abbrev pub ofs_ccr0 : ℕ
ofs_ccr0 = 0x12

abbrev pub ofs_ex0 : ℕ
ofs_ex0 = 0x20

abbrev pub taifg : ℕ
taifg = 1

-- The registers, the count direction, and the signals irq, dmaTrigger, clkMuxSelect and
-- clkDivAmount.
pub record TimerA : Type 0 where
  pub regs : RegisterFile
  pub direction : Bool
  pub irq : Bool
  pub dma_trigger : Bool
  pub clk_mux_select : ℕ
  pub clk_div_amount : ℕ

abbrev plain : ℕ → RegisterFile → RegisterFile
plain address regs = add_register address 0 read_write 0xffffffff regs

-- The register file of the constructor.
unfoldable pub create_regs : RegisterFile
create_regs =
    let first =
      plain 0x16
        (plain 0x14 (plain 0x12 (plain 0x10 (plain 0x6 (plain 0x4 (plain 0x2 (plain 0x0 []))))))) in
    plain 0x20 (add_register 0x2e 0 read_only 0xffffffff first)

-- The constructor; `direction` is not initialised.
unfoldable pub create : Bool → TimerA
create direction = record {
  regs = create_regs;
  direction = direction;
  irq = false;
  dma_trigger = false;
  clk_mux_select = 0;
  clk_div_amount = 1;
}

-- `reset`
unfoldable pub reset : TimerA → TimerA
reset t = record t { regs = RegisterFile.reset t.regs }

-- The up mode.
unfoldable pub count_up : ℕ → RegisterFile → Result RegisterFile
count_up count regs = do
  limit ← read ofs_ccr0 regs
  let raised = set_bit 2 ofs_ctl 0 false regs >>= λ regs'. write ofs_r 0 false regs'
  if ltb count limit then write ofs_r (count + 1) false regs else raised

-- The continuous mode.
unfoldable pub count_continuous : ℕ → RegisterFile → Result RegisterFile
count_continuous count regs =
    if ltb count 0xffff
    then write ofs_r (count + 1) false regs
    else set_bit_mask ofs_ctl taifg false regs >>= λ regs'. write ofs_r 0 false regs'

-- The move of the up/down mode: the count, the registers and the direction.
unfoldable pub move_up_down : ℕ → Bool → RegisterFile → Result (ℕ × RegisterFile × Bool)
move_up_down count direction regs = do
  limit ← read ofs_ccr0 regs
  let up = write ofs_r (count + 1) false regs >>= λ regs'.
      ok (count + 1, regs', not (ltb (count + 1) limit))
  let down = write ofs_r (count - 1) false regs >>= λ regs'. ok (count - 1, regs', count - 1 == 0)
  if direction && ltb count limit
      then up
      else if ltb 0 count && not direction
      then down
      else ok (count, regs, direction)

-- The up/down mode.
unfoldable pub count_up_down : ℕ → Bool → RegisterFile → Result (RegisterFile × Bool)
count_up_down count direction regs = do
  (count', regs', direction') ← move_up_down count direction regs
  regs'' ← (if count' == 0 then set_bit_mask ofs_ctl taifg false regs' else ok regs')
  ok (regs'', direction')

-- The switch on the mode control bits.
unfoldable pub count_step : ℕ → ℕ → TimerA → Result TimerA
count_step (suc zero) count t = do regs ← count_up count t.regs; ok (record t { regs = regs })
count_step (suc (suc zero)) count t = do
  regs ← count_continuous count t.regs
  ok (record t { regs = regs })
count_step (suc (suc (suc zero))) count t = do
  (regs, direction) ← count_up_down count t.direction t.regs
  ok (record t { regs = regs; direction = direction })
count_step _ count t = ok t

-- TACLR: the control register and the direction are cleared.
unfoldable pub clear_state : TimerA → Result TimerA
clear_state t = do
  ctl ← read ofs_ctl t.regs
  regs ← (if ltb 0 (bit_and ctl 4) then write ofs_ctl 0 false t.regs else ok t.regs)
  ok (record t { regs = regs; direction = if ltb 0 (bit_and ctl 4) then true else t.direction })

-- The interrupt request.
unfoldable pub update_irq : Bool → Bool → TimerA → Result TimerA
update_irq ira enabled t = do
  ctl ← read ofs_ctl t.regs
  regs ← (if ira then clear_bit_mask ofs_ctl taifg false t.regs else ok t.regs)
  let irq = if ira then false else if enabled then ltb 0 (bit_and ctl taifg) else t.irq
  ok (record t { regs = regs; irq = irq })

-- The DMA trigger.
unfoldable pub update_dma : Bool → TimerA → Result TimerA
update_dma enabled t = do
  ctl ← read ofs_ctl t.regs
  let trigger = not enabled && ltb 0 (bit_and ctl taifg)
  regs ← (if trigger then clear_bit_mask ofs_ctl taifg false t.regs else ok t.regs)
  ok (record t { regs = regs; dma_trigger = trigger })

unfoldable pub is_irq_enabled : TimerA → Result Bool
is_irq_enabled t = do
  ctl ← read ofs_ctl t.regs
  cctl0 ← read ofs_cctl0 t.regs
  ok (ltb 0 (bit_and ctl 2) || ltb 0 (bit_and cctl0 0x10))

-- `process` with the power on.
unfoldable pub process_powered : Bool → TimerA → Result TimerA
process_powered ira t = do
  count ← read ofs_r t.regs
  ctl ← read ofs_ctl t.regs
  counted ← count_step (bit_and ctl 0x30 / 2 ^ 4) count t
  cleared ← clear_state counted
  enabled ← is_irq_enabled cleared
  requested ← update_irq ira enabled cleared
  update_dma enabled requested

-- `process`
unfoldable pub process : Bool → Bool → TimerA → Result TimerA
process pwr_on ira t = if pwr_on then process_powered ira t else ok t

-- `updateClkSource`: ACLK is input 0 of the mux and SMCLK, the default of the others, input 1.
unfoldable pub update_clk_source : TimerA → Result TimerA
update_clk_source t = do
  ctl ← read ofs_ctl t.regs
  ex0 ← read ofs_ex0 t.regs
  ok (record t {
    clk_mux_select = if bit_and ctl 0x300 == 0x100 then 0 else 1;
    clk_div_amount =
        2 ^ (bit_and ctl (0x11 * 2 ^ 6) / 2 ^ 6) % 2 ^ 32 * (1 + bit_and ex0 7) % 2 ^ 32;
  })

is_write : Command → Bool
is_write write_command = true
is_write _ = false

-- `b_transport`, for a timer at `start_address`, and whether `sourceChangeEvent` is notified.
unfoldable pub b_transport : ℕ → ℕ → TimerA → Payload → Result (TimerA × Payload × Bool)
unfolding is_write
b_transport junk start_address t trans = do
  (target, done) ←
      BusTarget.b_transport 2 junk
        (record {
          start_address = start_address;
          end_address = start_address + 0x2f;
          regs = t.regs;
        })
        trans
  ok (
    record t { regs = target.regs },
    done,
    is_write trans.command && (trans.address % 2 ^ 16 == ofs_ctl),
  )
