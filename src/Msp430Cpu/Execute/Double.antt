-- ===== src/Msp430Cpu/Execute/Double.antt =====
-- The two-operand instructions.
use fused_checkmate.Base.{
  ℕ, ◌+◌, ◌/◌, ◌%◌, ◌^◌, bit_and, bit_or, bit_xor, Bool, true, false, not, ◌&&◌, ◌==◌,
  if◌then◌else◌, not_bits, to_nat, fatal,
}
use fused_checkmate.Msp430Cpu.State.{
  M, BusPort, ◌>>=◌, ◌>>◌, raise, when, pc_regnum, get_carry_flag, get_zero_flag, set_carry_flag,
  set_zero_flag, set_negative_flag, set_overflow_flag, wait_cycles,
}
use fused_checkmate.Msp430Cpu.Flags.{is_negative, is_zero, is_carry, is_overflow}
use fused_checkmate.Msp430Cpu.Operands.{
  Operand, get_source_operand, get_destination_operand, writeback,
}

-- `src + dst + carry`, a uint32_t.
unfoldable pub sum_result : ℕ → ℕ → Bool → ℕ
sum_result src dst carry = (src + dst + to_nat carry) % 2 ^ 32

module _ {S : Type 0} where
  -- The flags of an addition `a + b + carry`.
  unfoldable pub sum_flags : ℕ → ℕ → Bool → Bool → M S (Unit {0})
  sum_flags a b carry byte_not_word = do
    let result = sum_result a b carry
    set_zero_flag (is_zero result byte_not_word)
    set_negative_flag (is_negative result byte_not_word)
    set_overflow_flag (is_overflow a b carry byte_not_word)
    set_carry_flag (is_carry a b carry byte_not_word)

  -- The flags of BIT and AND; XOR gives an overflow of its own.
  unfoldable pub logic_flags : ℕ → Bool → Bool → M S (Unit {0})
  logic_flags result overflow byte_not_word = do
    set_zero_flag (is_zero result byte_not_word)
    set_negative_flag (is_negative result byte_not_word)
    set_overflow_flag overflow
    z ← get_zero_flag
    set_carry_flag (not z)

-- `~src`, a uint32_t.
abbrev pub inverted : ℕ → ℕ
inverted src = not_bits 32 src

module _ {S : Type 0} ⦃port : BusPort S⦄ where
  -- ADD, ADDC, SUBC and SUB: the flags of `a + b + carry`, and the sum to the destination.
  unfoldable pub add_back : Operand → ℕ → ℕ → Bool → M S (Unit {0})
  add_back dst a b carry = do
    sum_flags a b carry dst.byte_not_word
    writeback (record dst { val = sum_result a b carry })

  -- BIT has the flags only, AND writes the result back.
  bit_test : Operand → Operand → M S (Unit {0})
  bit_test src dst = logic_flags (bit_and src.val dst.val) false src.byte_not_word

  and_back : Operand → Operand → M S (Unit {0})
  and_back src dst = do
    let result = bit_and dst.val src.val
    logic_flags result false src.byte_not_word
    writeback (record dst { val = result })

  xor_back : Operand → Operand → M S (Unit {0})
  xor_back src dst = do
    let result = bit_xor dst.val src.val
    logic_flags result
        (is_negative src.val src.byte_not_word && is_negative dst.val src.byte_not_word)
        src.byte_not_word
    writeback (record dst { val = result })

  -- The instructions 10 to 15 of the switch.
  logic_op : ℕ → Operand → Operand → M S (Unit {0})
  unfolding bit_test and_back xor_back
  logic_op idx src dst =
      if idx == 10
      then raise fatal
      else if idx == 11
      then bit_test src dst
      else if idx == 12
      then writeback (record dst { val = bit_and dst.val (inverted src.val) })
      else if idx == 13
      then writeback (record dst { val = bit_or dst.val src.val })
      else if idx == 14
      then xor_back src dst
      else and_back src dst

  -- The switch of `executeDoubleOpInstruction`.
  unfoldable pub double_op : ℕ → Operand → Operand → M S (Unit {0})
  unfolding logic_op
  double_op idx src dst = do
    carry ← get_carry_flag
    if idx == 4
        then writeback (record dst { val = src.val })
        else if idx == 5
        then add_back dst src.val dst.val false
        else if idx == 6
        then add_back dst src.val dst.val carry
        else if idx == 7
        then add_back dst dst.val (inverted src.val) carry
        else if idx == 8
        then add_back dst dst.val (inverted src.val) true
        else if idx == 9
        then sum_flags dst.val (inverted src.val) true src.byte_not_word
        else logic_op idx src dst

  unfoldable pub execute_double_op_instruction : ℕ → M S (Unit {0})
  execute_double_op_instruction opcode = do
    src ← get_source_operand opcode
    dst ← get_destination_operand opcode
    when (dst.addr == pc_regnum) (
        wait_cycles (
          if bit_and opcode 0x0030 / 2 ^ 4 == 3 && bit_and opcode 0x0f00 / 2 ^ 8 == pc_regnum
          then 1
          else 2))
    double_op (bit_and opcode 0xf000 / 2 ^ 12) src dst
