-- ===== src/Msp430Cpu/Process.antt =====
-- `reset`, `processInterrupt`, the debugger's register accesses and one round of `process`.
use fused_checkmate.Base.{
  ℕ, ◌+◌, ◌-◌, ◌*◌, ◌/◌, ◌%◌, ◌^◌, bit_and, Bool, true, false, not, ◌||◌, List, [], ◌∷◌, leb, ltb,
  ◌==◌, if◌then◌else◌, test_bit, Result, ok, err, fatal,
}
use fused_checkmate.Msp430Cpu.State.{
  M, Cpu, BusPort, ◌>>=◌, ◌>>◌, pure, raise, check, pc_regnum, sp_regnum, sr_regnum, cg_regnum,
  n_gpr, get_gpr, set_gpr, get_pc, set_pc, get_sr, set_sr, get_sp, set_sp, read16, write16, fetch,
}
use fused_checkmate.Msp430Cpu.Execute.{execute_single_op_instruction, execute_conditional_jump}
use fused_checkmate.Msp430Cpu.Execute.Double.{execute_double_op_instruction}

-- GIE, CPUOFF and SCG0 of the status register, as bit numbers.
abbrev pub gie : ℕ
gie = 3

abbrev pub cpu_off : ℕ
cpu_off = 4

abbrev pub scg0_mask : ℕ
scg0_mask = 2 ^ 6

unfoldable pub contains : ℕ → List ℕ → Bool
contains a [] = false
contains a (b ∷ bs) = b == a || contains a bs

unfoldable pub remove : ℕ → List ℕ → List ℕ
remove a [] = []
remove a (b ∷ bs) = if b == a then remove a bs else b ∷ remove a bs

module _ {S : Type 0} where
  -- `reset`
  unfoldable pub reset : Cpu S → Cpu S
  reset c = record c { regs = λ i. if i == sr_regnum then 0x0010 else 0 }

  -- `step`, `stall`, `unstall` and the breakpoint set, called by the debugger between rounds.
  unfoldable pub step_command : Cpu S → Cpu S
  step_command c = record c { do_step = true; run = true }

  unfoldable pub stall : Cpu S → Cpu S
  stall c = record c { run = false }

  unfoldable pub unstall : Cpu S → Cpu S
  unstall c = record c { run = true }

  unfoldable pub is_stalled : Cpu S → Bool
  is_stalled c = not c.run

  unfoldable pub insert_breakpoint : ℕ → Cpu S → Cpu S
  insert_breakpoint addr c = record c {
    breakpoints = if contains addr c.breakpoints then c.breakpoints else addr ∷ c.breakpoints;
  }

  unfoldable pub remove_breakpoint : ℕ → Cpu S → Cpu S
  remove_breakpoint addr c = record c { breakpoints = remove addr c.breakpoints }

  -- `dbg_writeReg`; the values are uint16_t.
  unfoldable pub dbg_write_reg : ℕ → ℕ → M S (Unit {0})
  dbg_write_reg addr val = do
    check (leb addr n_gpr)
    if addr == pc_regnum
        then set_pc val
        else if addr == sp_regnum
        then set_sp val
        else if addr == sr_regnum
        then set_sr val
        else if addr == cg_regnum
        then raise fatal
        else set_gpr addr val

  -- `dbg_readReg`
  unfoldable pub dbg_read_reg : ℕ → M S ℕ
  dbg_read_reg addr = do
    check (leb addr n_gpr)
    if addr == cg_regnum then pure 0 else do v ← get_gpr addr; pure (v % 2 ^ 16)

module _ {S : Type 0} ⦃port : BusPort S⦄ where
  -- The pulse on `ira`, two cycles long.
  unfoldable pub accept : M S (Unit {0})
  accept c = ok (tt, record c { cycles = c.cycles + 2; accepted = c.accepted + 1 })

  -- The reset vector.
  boot : M S (Unit {0})
  boot = do
    accept
    sr ← get_sr
    set_sr (bit_and sr scg0_mask)
    vector ← read16 0xfffe
    set_pc vector
    λ c. ok (tt, record c { sleeping = false })

  -- Any other vector: PC and SR are pushed.
  unfoldable pub enter_handler : ℕ → M S (Unit {0})
  enter_handler idx = do
    sp ← get_sp
    set_sp ((sp + 2 ^ 32 - 2) % 2 ^ 32)
    sp₁ ← get_sp
    pc ← get_pc
    write16 sp₁ (pc % 2 ^ 16)
    set_sp ((sp₁ + 2 ^ 32 - 2) % 2 ^ 32)
    sp₂ ← get_sp
    sr ← get_sr
    write16 sp₂ (sr % 2 ^ 16)
    accept
    set_sr (bit_and sr scg0_mask)
    vector ← read16 ((0xfffe + 2 ^ 16 - 2 * idx % 2 ^ 16) % 2 ^ 16)
    set_pc vector

  -- `processInterrupt`; `idx` is what `irqIdx` reads.
  unfoldable pub process_interrupt : ℕ → M S (Unit {0})
  unfolding boot
  process_interrupt idx =
      if idx == 0
      then boot
      else do sr ← get_sr; if test_bit sr gie || ltb idx 3 then enter_handler idx else pure tt

  -- Fetch and execute one instruction.
  unfoldable pub execute_one : M S (Unit {0})
  execute_one = do
    opcode ← fetch
    let format = bit_and opcode 0xe000 / 2 ^ 13
    if format == 0
        then execute_single_op_instruction opcode
        else if format == 1
        then execute_conditional_jump opcode
        else execute_double_op_instruction opcode

  -- The end of a single step.
  end_step : Cpu S → Cpu S
  end_step c = if c.do_step then record c { run = false; do_step = false } else c

  -- After interrupts and breakpoints: sleep for a cycle, or execute an instruction.
  run_or_sleep : Cpu S → Result (Cpu S)
  unfolding end_step
  run_or_sleep c =
      if test_bit (c.regs sr_regnum) cpu_off
      then ok (record c { sleeping = true; cycles = c.cycles + 1 })
      else elim (execute_one (record c { sleeping = false })) [
        | ok (_, c') ↦ ok (end_step c')
        | err e ↦ err e
      ]

  interrupts : Bool → ℕ → M S (Unit {0})
  interrupts irq idx = if irq then process_interrupt idx else pure tt

  -- One round of the loop of `process`, from the values of its input signals. A stalled CPU waits
  -- for the debugger; a CPU without power waits for it and is then reset.
  unfoldable pub round : Bool → Bool → ℕ → Cpu S → Result (Cpu S)
  unfolding contains run_or_sleep interrupts
  round pwr_on irq idx c =
      if c.run
      then (if pwr_on
          then elim (interrupts irq idx c) [
            | ok (_, c') ↦
                if contains (c'.regs pc_regnum) c'.breakpoints
                then ok (record c' { run = false })
                else run_or_sleep c'
            | err e ↦ err e
          ]
          else ok (reset (record c { sleeping = false })))
      else ok c
