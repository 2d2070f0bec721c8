-- ===== src/Msp430Cpu/Tests.antt =====
-- Runs of the CPU's theorems on small states.
use fused_checkmate.Base.{
  ℕ, ◌-◌, ◌+◌, ◌*◌, ◌/◌, ◌%◌, ◌^◌, ◌≡◌, refl, Bool, true, false, not, arith, leb, ltb, ◌==◌, [],
  ◌∷◌, get_or, to_nat, ok,
}
use fused_checkmate.Base.Int.{pos, ◌+ℤ◌, ltbℤ}
use fused_checkmate.Msp430Cpu.State.{Cpu, BusPort}
use fused_checkmate.Msp430Cpu.Operands.{Operand}
use fused_checkmate.Msp430Cpu.Flags.{is_overflow}
use fused_checkmate.Msp430Cpu.FlagBits.{flag}
use fused_checkmate.Msp430Cpu.Signed.{signed, unsigned, half_range, in_range, is_overflow-in_range}
use fused_checkmate.Msp430Cpu.Execute.{
  do_jump, single_op, execute_conditional_jump, execute_single_op_instruction,
}
use fused_checkmate.Msp430Cpu.Execute.Double.{double_op}
use fused_checkmate.Msp430Cpu.Process.{enter_handler}
use fused_checkmate.Msp430Cpu.Compare.{compare_jump}
use fused_checkmate.Msp430Cpu.Carry.{register_operand, add_addc}
use fused_checkmate.Msp430Cpu.Jumps.{jump_target, jumped, holds, execute_conditional_jump_lem}
use fused_checkmate.Msp430Cpu.SignedShifts.{in_register, Shifted, rra-signed, sxt-signed}
use fused_checkmate.Bus.Memories.{System, cell_of, in_entry, is_covered}
use fused_checkmate.Bus.Memories.Sample.{sample_system, sample_port, sample-IsSystem, sample_memory}
use fused_checkmate.Msp430Cpu.Interrupts.{Entered, enter_handler-Entered, reti-enter_handler}

instance abbrev port : BusPort System
port = sample_port

-- A CPU with the given registers and memory.
abbrev cpu : (ℕ → ℕ) → System → Cpu System
cpu regs bus = record {
  regs = regs;
  run = true;
  sleeping = false;
  do_step = false;
  breakpoints = [];
  cycles = 0;
  accepted = 0;
  bus = bus;
}

-- PC 0x4400, SP 0x2400, SR with GIE and the carry; the other registers count up.
abbrev some_regs : ℕ → ℕ
some_regs i = get_or (0x4400 ∷ 0x2400 ∷ 0x0009 ∷ []) i (0x7ff0 + i)

abbrev some_cpu : Cpu System
some_cpu = cpu some_regs sample_system

abbrev negative_byte : Operand
negative_byte = record { addr = 5; val = 0x80; in_mem = false; byte_not_word = true }

compare_jump_example :
    (after : Cpu System) × (double_op 9 negative_byte (register_operand 6 0x7f) some_cpu
      ≡ ok (tt, after))
    × (do_jump 0 after ≡ ok (not (unsigned true 0x7f == unsigned true 0x80), after))
    × (do_jump 1 after ≡ ok (unsigned true 0x7f == unsigned true 0x80, after))
    × (do_jump 2 after ≡ ok (ltb (unsigned true 0x7f) (unsigned true 0x80), after))
    × (do_jump 3 after ≡ ok (not (ltb (unsigned true 0x7f) (unsigned true 0x80)), after))
    × (do_jump 5 after ≡ ok (not (ltbℤ (signed true 0x7f) (signed true 0x80)), after))
    × (do_jump 6 after ≡ ok (ltbℤ (signed true 0x7f) (signed true 0x80), after))
compare_jump_example = compare_jump negative_byte (register_operand 6 0x7f) some_cpu

enter_handler_example :
    (c' : Cpu System) × (enter_handler 5 some_cpu ≡ ok (tt, c'))
    × Entered sample_memory 5 some_cpu c'
unfolding cell_of in_entry is_covered
enter_handler_example =
    enter_handler-Entered sample_memory 5 some_cpu (omega arith) (omega arith) (omega arith) refl
      sample-IsSystem refl refl refl

handler_run :
    (c' : Cpu System) × (enter_handler 5 some_cpu ≡ ok (tt, c'))
    × Entered sample_memory 5 some_cpu c'
unfolding cell_of in_entry is_covered
handler_run =
    enter_handler-Entered sample_memory 5 some_cpu (omega arith) (omega arith) (omega arith) refl
      sample-IsSystem refl refl refl

-- What the CPU is when the handler starts.
abbrev entered_cpu : Cpu System
entered_cpu = handler_run.0

reti_example :
    (returned : Cpu System) × (execute_single_op_instruction 0x1300 entered_cpu ≡ ok (tt, returned))
    × (returned.regs 0 ≡ 0x4400)
    × (returned.regs 1 ≡ 0x2400)
    × (returned.regs 2 ≡ 0x0009)
    × ((i : ℕ) → returned.regs (i + 3) ≡ entered_cpu.regs (i + 3))
unfolding cell_of in_entry is_covered
reti_example =
    reti-enter_handler sample_memory 5 some_cpu entered_cpu entered_cpu (omega arith) (omega arith)
      (omega arith) refl sample-IsSystem refl refl refl (omega arith) refl (omega arith)
      handler_run.1 handler_run.2.bus_state refl refl refl

abbrev source_word : ℕ → Operand
source_word v = register_operand 7 v

add_addc_example :
    (c₁ : Cpu System) × (c₂ : Cpu System) × (double_op 5
        (source_word 0xffff)
        (register_operand 8 0x0002)
        some_cpu
      ≡ ok (tt, c₁))
    × (double_op 6 (source_word 0x1234) (register_operand 9 0x1111) c₁ ≡ ok (tt, c₂))
    × (c₂.regs 9 * 2 ^ 16 + c₂.regs 8
        ≡ (0x1234 * 2 ^ 16 + 0xffff + (0x1111 * 2 ^ 16 + 0x0002)) % 2 ^ 32)
    × (flag 0 c₂ ≡ leb (2 ^ 32) (0x1234 * 2 ^ 16 + 0xffff + (0x1111 * 2 ^ 16 + 0x0002)))
add_addc_example =
    add_addc 8 9 0x0002 0x1111 (source_word 0xffff) (source_word 0x1234) some_cpu (omega arith)
      (omega arith) (omega arith) (omega arith) (omega arith) (omega arith) (omega arith)
      (omega arith) (omega arith)

is_overflow_example :
    is_overflow 0x7fff 1 false false
    ≡ not (in_range (half_range false) (signed false 0x7fff +ℤ signed false 1 +ℤ pos 0))
is_overflow_example = is_overflow-in_range 0x7fff 1 false false

-- JMP two words back.
jump_example :
    (execute_conditional_jump 0x3ffe some_cpu
      ≡ ok (tt, jumped 0x3ffe (holds (0x3ffe / 2 ^ 10 % 8) some_cpu) some_cpu))
    × (jump_target 0x4400 0x3ffe % 2 ≡ 0)
jump_example = execute_conditional_jump_lem 0x3ffe some_cpu refl

-- JN is not taken, JC is.
jump_conditions : (holds (0x3010 / 2 ^ 10 % 8) some_cpu ≡ false) × (holds 3 some_cpu ≡ true)
jump_conditions = (refl, refl)

rra_example :
    (after : Cpu System) × (half : ℕ) × (carry : Bool) × (single_op 2 0x1105
        (in_register 5 0x8001 false)
        some_cpu
      ≡ ok (tt, after))
    × Shifted 5 false carry half some_cpu after
    × (signed false 0x8001 ≡ signed false half +ℤ signed false half +ℤ pos (to_nat carry))
rra_example =
    rra-signed 5 0x8001 0x1105 false some_cpu (omega arith) (λ e. absurd (omega (arith, e)))
      (omega arith)

-- The word goes to register 6.
sxt_example :
    (after : Cpu System) × (word : ℕ) × (single_op 3 0x1187 (in_register 7 0x1280 false) some_cpu
      ≡ ok (tt, after))
    × Shifted (7 - 7 % 2) false (not (word == 0)) word some_cpu after
    × (signed false word ≡ signed true 0x1280)
sxt_example =
    sxt-signed 7 0x1280 0x1187 false some_cpu (omega arith) (λ e. absurd (omega (arith, e)))
      (omega arith)
