-- ===== src/Msp430Cpu/Operands.antt =====
-- The addressing modes: `getSourceOperand`, `getDestinationOperand`, `loadOperand`, `writeback`.
use fused_checkmate.Base.{
  ℕ, ◌+◌, ◌/◌, ◌%◌, ◌^◌, bit_and, Bool, false, not, ◌&&◌, ◌||◌, leb, ◌==◌, if◌then◌else◌, test_bit,
  fatal,
}
use fused_checkmate.Msp430Cpu.State.{
  M, BusPort, ◌>>=◌, ◌>>◌, pure, raise, pc_regnum, sp_regnum, sr_regnum, cg_regnum, get_gpr,
  set_gpr, get_pc, set_pc, read8, read16, write8, write16, fetch,
}

-- `operand_t`: a size_t address or register index, a uint32_t value.
pub record Operand : Type 0 where
  pub addr : ℕ
  pub val : ℕ
  pub in_mem : Bool
  pub byte_not_word : Bool

abbrev pub op_mov : ℕ
op_mov = 0x4000

unfoldable pub is_source_constant : ℕ → ℕ → Bool
is_source_constant as_mode reg_idx = reg_idx == 3 || (reg_idx == 2 && leb 2 as_mode)

-- Single-operand instructions have the register in the low bits.
abbrev pub source_reg : ℕ → ℕ
source_reg opcode =
    if bit_and opcode 0xf000 == 0x1000 then bit_and opcode 0x000f else bit_and opcode 0x0f00 / 2 ^ 8

module _ {S : Type 0} where
  unfoldable pub get_source_constant : ℕ → ℕ → M S ℕ
  get_source_constant as_mode reg_idx =
      if reg_idx == cg_regnum
      then pure (if as_mode == 3 then 0xffff else as_mode)
      else if reg_idx == sr_regnum
      then (if as_mode == 2 then pure 4 else if as_mode == 3 then pure 8 else raise fatal)
      else pure 0

module _ {S : Type 0} ⦃port : BusPort S⦄ where
  -- `writeback(addr, val, toMemory, byteNotWord)`; `val` is a uint16_t.
  unfoldable pub writeback_to : ℕ → ℕ → Bool → Bool → M S (Unit {0})
  writeback_to addr val to_memory byte_not_word =
      if to_memory
      then (if byte_not_word then write8 addr (val % 2 ^ 8) else write16 addr val)
      else (if byte_not_word then set_gpr addr (val % 2 ^ 8) else set_gpr addr val)

  -- `writeback(operand)`
  unfoldable pub writeback : Operand → M S (Unit {0})
  writeback o = writeback_to o.addr (o.val % 2 ^ 16) o.in_mem o.byte_not_word

  -- What `loadOperand` assigns to the operand's value.
  unfoldable pub load_val : Operand → M S ℕ
  load_val o =
      if o.in_mem
      then (if o.byte_not_word then read8 o.addr else read16 o.addr)
      else do v ← get_gpr o.addr; pure (if o.byte_not_word then v % 2 ^ 8 else v)

  unfoldable pub load_operand : Operand → M S Operand
  load_operand o = do v ← load_val o; pure (record o { val = v })

  -- Symbolic and indexed modes: the base register is read before the offset is fetched.
  offset_from : ℕ → M S ℕ
  offset_from reg = do base ← get_gpr reg; off ← fetch; pure (base + off)

  symbolic : M S ℕ
  symbolic = do base ← get_pc; off ← fetch; pure (base + off)

  -- The address of a destination in memory.
  destination_addr : ℕ → M S ℕ
  destination_addr reg =
      if reg == cg_regnum
      then raise fatal
      else if reg == pc_regnum
      then symbolic
      else if reg == sr_regnum
      then fetch
      else offset_from reg

  unfoldable pub get_destination_operand : ℕ → M S Operand
  unfolding destination_addr offset_from symbolic
  get_destination_operand opcode = do
    let dest = bit_and opcode 0x000f
    let ad = test_bit opcode 7
    addr ← if ad then destination_addr dest else pure dest
    let operand : Operand = record {
      addr = addr % 2 ^ 16;
      val = 0;
      in_mem = ad;
      byte_not_word = test_bit opcode 6;
    }
    if bit_and opcode 0xf000 == op_mov then pure operand else load_operand operand

  -- Mode 3: immediate, or indirect with autoincrement.
  autoincrement : ℕ → Bool → M S ℕ
  autoincrement reg byte_not_word =
      if reg == pc_regnum then (do pc ← get_pc; set_pc ((pc + 2) % 2 ^ 32); pure pc) else (do
        addr ← get_gpr reg
        old ← get_gpr reg
        set_gpr reg (
            if reg == sp_regnum || not byte_not_word
            then (old + 2) % 2 ^ 32
            else (old + 1) % 2 ^ 32)
        pure addr)

  -- The switch over the address mode: register or address, and whether it is memory.
  source_addr : ℕ → ℕ → Bool → M S ℕ
  unfolding autoincrement symbolic offset_from
  source_addr as_mode reg byte_not_word =
      if as_mode == 0
      then pure reg
      else if as_mode == 1
      then (if reg == pc_regnum
          then symbolic
          else if reg == sr_regnum
          then fetch
          else offset_from reg)
      else if as_mode == 2
      then get_gpr reg
      else autoincrement reg byte_not_word

  unfoldable pub get_source_operand : ℕ → M S Operand
  unfolding source_addr
  get_source_operand opcode =
      let as_mode = bit_and opcode 0x0030 / 2 ^ 4 in
      let byte_not_word = test_bit opcode 6 in
      let reg = source_reg opcode in
      if is_source_constant as_mode reg
      then (do
        v ← get_source_constant as_mode reg
        pure (record { addr = reg; val = v; in_mem = false; byte_not_word = byte_not_word }))
      else (do
        addr ← source_addr as_mode reg byte_not_word
        load_operand (record {
          addr = addr % 2 ^ 16;
          val = 0;
          in_mem = not (as_mode == 0);
          byte_not_word = byte_not_word;
        }))
