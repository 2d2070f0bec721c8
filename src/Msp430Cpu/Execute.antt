-- ===== src/Msp430Cpu/Execute.antt =====
-- The three instruction formats: conditional jumps, one operand, two operands.
pub mod Double
use fused_checkmate.Base.{
  ℕ, ◌+◌, ◌-◌, ◌*◌, ◌/◌, ◌%◌, ◌^◌, bit_and, bit_or, Bool, true, false, not, xor, ◌&&◌, ◌==◌,
  if◌then◌else◌, test_bit, to_nat, assertion, fatal,
}
use fused_checkmate.Msp430Cpu.State.{
  M, BusPort, ◌>>=◌, ◌>>◌, pure, raise, check, when, sr_regnum, get_pc, set_pc, get_sp, set_sp,
  set_sr, get_carry_flag, get_zero_flag, get_negative_flag, get_overflow_flag, set_carry_flag,
  set_zero_flag, set_negative_flag, set_overflow_flag, wait_cycles, read16,
}
use fused_checkmate.Msp430Cpu.Flags.{is_negative, is_zero}
use fused_checkmate.Msp430Cpu.Operands.{Operand, get_source_operand, writeback, writeback_to}

-- Twice the signed ten-bit offset of a jump, as the uint32_t that is added to the PC.
unfoldable pub jump_offset : ℕ → ℕ
jump_offset opcode =
    let off = bit_and opcode 0x03ff in
    if test_bit off 9 then (off * 2 + 2 ^ 32 - 2 * 0x400) % 2 ^ 32 else off * 2

module _ {S : Type 0} where
  -- The switch over the condition.
  unfoldable pub do_jump : ℕ → M S Bool
  do_jump condition = do
    z ← get_zero_flag
    c ← get_carry_flag
    n ← get_negative_flag
    v ← get_overflow_flag
    pure (
        if condition == 0
        then not z
        else if condition == 1
        then z
        else if condition == 2
        then not c
        else if condition == 3
        then c
        else if condition == 4
        then n
        else if condition == 5
        then not (xor n v)
        else if condition == 6
        then xor n v
        else condition == 7)

  unfoldable pub execute_conditional_jump : ℕ → M S (Unit {0})
  execute_conditional_jump opcode = do
    jump ← do_jump (bit_and opcode 0x1c00 / 2 ^ 10)
    pc ← get_pc
    when jump (set_pc ((pc + jump_offset opcode) % 2 ^ 32))
    wait_cycles 1

  -- The flags that RRC, RRA and SXT set.
  unfoldable pub shift_flags : Bool → ℕ → Bool → M S (Unit {0})
  shift_flags carry result byte_not_word = do
    set_carry_flag carry
    set_overflow_flag false
    set_negative_flag (is_negative result byte_not_word)
    set_zero_flag (is_zero result byte_not_word)

-- The result of RRC.
unfoldable pub rrc_result : ℕ → Bool → Bool → ℕ
rrc_result val carry byte_not_word =
    if carry then bit_or (val / 2) (if byte_not_word then 2 ^ 7 else 2 ^ 15) else val / 2

-- The result of SWPB.
unfoldable pub swpb_result : ℕ → ℕ
swpb_result val = bit_or (bit_and val 0x00ff * 2 ^ 8) (bit_and val 0xff00 / 2 ^ 8)

-- The result of RRA.
unfoldable pub rra_result : ℕ → Bool → ℕ
rra_result val byte_not_word =
    if byte_not_word
    then bit_or (bit_and val (2 ^ 7)) (val / 2)
    else bit_or (bit_and val (2 ^ 15)) (val / 2)

-- The result of SXT.
unfoldable pub sxt_result : ℕ → ℕ
sxt_result val = if test_bit val 7 then bit_or val 0xff00 else bit_and val 0x00ff

module _ {S : Type 0} ⦃port : BusPort S⦄ where
  rrc : Operand → M S (Unit {0})
  rrc operand = do
    carry ← get_carry_flag
    let result = rrc_result operand.val carry operand.byte_not_word
    shift_flags (test_bit operand.val 0) result operand.byte_not_word
    writeback (record operand { val = result })

  swpb : Operand → M S (Unit {0})
  swpb operand = do
    check (not operand.byte_not_word)
    writeback (record operand { val = swpb_result operand.val })

  unfoldable pub rra : Operand → M S (Unit {0})
  rra operand = do
    let result = rra_result operand.val operand.byte_not_word
    shift_flags (test_bit operand.val 0) result operand.byte_not_word
    writeback (record operand { val = result })

  unfoldable pub sxt : Operand → M S (Unit {0})
  sxt operand = do
    let result = sxt_result operand.val
    shift_flags (not (is_zero result false)) result false
    writeback (record operand {
      addr = operand.addr - operand.addr % 2;
      val = result;
      byte_not_word = false;
    })

  -- PUSH
  unfoldable pub push : Operand → M S (Unit {0})
  push operand = do
    when (not operand.in_mem) (wait_cycles 1)
    sp ← get_sp
    set_sp ((sp + 2 ^ 32 - 2) % 2 ^ 32)
    sp' ← get_sp
    writeback (record operand { addr = sp'; in_mem = true; byte_not_word = false })

  -- CALL
  unfoldable pub call : ℕ → Operand → M S (Unit {0})
  call opcode operand = do
    sp ← get_sp
    set_sp ((sp + 2 ^ 32 - 2) % 2 ^ 32)
    sp' ← get_sp
    pc ← get_pc
    writeback_to sp' (pc % 2 ^ 16) true false
    set_pc operand.val
    when (not operand.in_mem) (wait_cycles 2)
    when operand.in_mem (wait_cycles 1)
    when (operand.in_mem && bit_and opcode 0x000f == sr_regnum) (wait_cycles 1)

  -- RETI
  unfoldable pub reti : M S (Unit {0})
  reti = do
    sp ← get_sp
    sr ← read16 sp
    set_sr sr
    sp₁ ← get_sp
    set_sp ((sp₁ + 2) % 2 ^ 32)
    sp₂ ← get_sp
    pc ← read16 sp₂
    set_pc pc
    sp₃ ← get_sp
    set_sp ((sp₃ + 2) % 2 ^ 32)
    wait_cycles 1

  -- The switch of `executeSingleOpInstruction`.
  unfoldable pub single_op : ℕ → ℕ → Operand → M S (Unit {0})
  unfolding rrc swpb rra sxt push call reti
  single_op idx opcode operand =
      if idx == 0
      then rrc operand
      else if idx == 1
      then swpb operand
      else if idx == 2
      then rra operand
      else if idx == 3
      then sxt operand
      else if idx == 4
      then push operand
      else if idx == 5
      then call opcode operand
      else if idx == 6
      then reti
      else raise fatal

  unfoldable pub execute_single_op_instruction : ℕ → M S (Unit {0})
  execute_single_op_instruction opcode = do
    operand ← get_source_operand opcode
    single_op (bit_and opcode 0x0380 / 2 ^ 7) opcode operand
