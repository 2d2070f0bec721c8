-- ===== src/Msp430Cpu/Interrupts.antt =====
-- Interrupt entry and RETI, CALL and RET.
use native.Mathlib.Nat.{mod-eq_of_lt}
use fused_checkmate.Base.{
  ℕ, ◌+◌, ◌-◌, ◌*◌, ◌%◌, ◌^◌, ◌<◌, ◌≤◌, ◌≡◌, true, refl, sym, ◌∙◌, ap, subst, arith, Result, ok,
  bit_and,
}
use fused_checkmate.Msp430Cpu.State.{
  Cpu, BusPort, bind_ok, read16, write16, set_pc, set_pc_lem, get_gpr, wait_cycles, set_reg,
}
use fused_checkmate.Msp430Cpu.Operands.{
  get_source_operand, load_operand, load_val, is_source_constant,
}
use fused_checkmate.Msp430Cpu.Execute.{execute_single_op_instruction, single_op, reti}
use fused_checkmate.Msp430Cpu.Process.{accept, enter_handler, scg0_mask}
use fused_checkmate.BusTarget.Contract.{IsMemory}
use fused_checkmate.Msp430Cpu.Memory.{word_at, read16_lem, write16_lem}

set_reg_others :
    (regs : ℕ → ℕ) (i a b s p : ℕ)
    → set_reg (set_reg (set_reg (set_reg regs 1 a) 1 b) 2 s) 0 p (i + 3) ≡ regs (i + 3)
set_reg_others regs i a b s p = ground arith

ok_pair :
    {S : Type 0} {c d : Cpu S}
    → ◌≡◌ {A = Result (Unit {0} × Cpu S)} (ok (tt, c)) (ok (tt, d))
    → c ≡ d
ok_pair h = cc

-- The opcode of RETI.
abbrev reti_opcode : ℕ
reti_opcode = 0x1300

module _ {S : Type 0} ⦃port : BusPort S⦄ where
  execute_reti : (c : Cpu S) → execute_single_op_instruction reti_opcode c ≡ reti c
  unfolding execute_single_op_instruction get_source_operand is_source_constant load_operand
      load_val get_gpr single_op
  execute_reti c = refl

-- The address of an interrupt vector.
abbrev pub vector_addr : ℕ → ℕ
vector_addr idx = 0xfffe - 2 * idx

module _ {S : Type 0} ⦃port : BusPort S⦄ (mem : IsMemory port) where
  -- Words of states with the same cells.
  words :
      (s t : S) (a : ℕ)
      → ((x : ℕ) → mem.cell s x ≡ mem.cell t x)
      → word_at mem s a ≡ word_at mem t a
  words s t a same = omega (arith, same a, same (a + 1))

  -- What interrupt entry leaves: the old PC and SR on the stack, the vector in the PC.
  pub record Entered (idx : ℕ) (before after : Cpu S) : Type 0 where
    pub stack : after.regs 1 ≡ before.regs 1 - 4
    pub pushed_pc : word_at mem after.bus (before.regs 1 - 2) ≡ before.regs 0 % 2 ^ 16
    pub pushed_sr : word_at mem after.bus (before.regs 1 - 4) ≡ before.regs 2 % 2 ^ 16
    pub status : after.regs 2 ≡ bit_and (before.regs 2) scg0_mask
    pub counter : after.regs 0 ≡ word_at mem before.bus (vector_addr idx)
    pub others : (i : ℕ) → after.regs (i + 3) ≡ before.regs (i + 3)
    pub bus_state : mem.IsState after.bus

  -- Interrupt entry succeeds where memory stands behind the bus socket that serves the two words
  -- below the stack pointer and the vector above it, with an even vector: it pushes PC and SR, keeps only SCG0 of SR, and continues at the vector.
  pub enter_handler-Entered :
      (idx : ℕ) (c : Cpu S)
      → 2 * idx ≤ 0xfffe
      → 4 ≤ c.regs 1
      → c.regs 1 ≤ vector_addr idx
      → word_at mem c.bus (vector_addr idx) % 2 ≡ 0
      → mem.IsState c.bus
      → mem.covers (c.regs 1 - 2) 2 ≡ true
      → mem.covers (c.regs 1 - 4) 2 ≡ true
      → mem.covers (vector_addr idx) 2 ≡ true
      → (c' : Cpu S) × (enter_handler idx c ≡ ok (tt, c')) × Entered idx c c'
  unfolding enter_handler accept
  enter_handler-Entered idx c small room below even is on₁ on₂ on_vec =
      let sp₁ = (c.regs 1 + 2 ^ 32 - 2) % 2 ^ 32 in
      let sp₂ = (sp₁ + 2 ^ 32 - 2) % 2 ^ 32 in
      let vec = (0xfffe + 2 ^ 16 - 2 * idx % 2 ^ 16) % 2 ^ 16 in
      let at₁ : sp₁ ≡ c.regs 1 - 2 = omega arith in
      let at₂ : sp₂ ≡ c.regs 1 - 4 = omega arith in
      let at_vec : vec ≡ vector_addr idx = omega arith in
      let serves =
        λ (x y : ℕ) (e : x ≡ y) (h : mem.covers y 2 ≡ true). ap (λ (z : ℕ). mem.covers z 2) e ∙ h in
      let regs₁ = set_reg c.regs 1 sp₁ in
      let c₁ : Cpu S = record c { regs = regs₁ } in
      let (s₁, wrote₁, is₁, top₁, rest₁) =
        write16_lem mem sp₁ (c.regs 0 % 2 ^ 16) c₁ (omega arith) (omega arith) is
          (serves _ _ at₁ on₁) in
      let c₂ : Cpu S = record c₁ { bus = s₁ } in
      let regs₃ = set_reg regs₁ 1 sp₂ in
      let c₃ : Cpu S = record c₂ { regs = regs₃ } in
      let (s₂, wrote₂, is₂, top₂, rest₂) =
        write16_lem mem sp₂ (c.regs 2 % 2 ^ 16) c₃ (omega arith) (omega arith) is₁
          (serves _ _ at₂ on₂) in
      let c₄ : Cpu S = record c₃ { bus = s₂ } in
      let regs₅ = set_reg regs₃ 2 (bit_and (c.regs 2) scg0_mask) in
      let c₅ : Cpu S = record c₄ {
        regs = regs₅;
        cycles = c.cycles + 2;
        accepted = c.accepted + 1;
      } in
      let vector = word_at mem s₂ vec in
      let kept = λ (x : ℕ) (h : c.regs 1 ≤ x).
        rest₂ x (omega arith) (omega arith) ∙ rest₁ x (omega arith) (omega arith) in
      let same : vector ≡ word_at mem c.bus (vector_addr idx) =
        omega (arith, kept vec (omega arith), kept (vec + 1) (omega arith))
        ∙ ap (word_at mem c.bus) at_vec in
      let under : word_at mem s₂ sp₁ ≡ word_at mem s₁ sp₁ = omega (
        arith,
        rest₂ sp₁ (omega arith) (omega arith),
        rest₂ (sp₁ + 1) (omega arith) (omega arith),
      ) in
      let (s₃, read₃, is₃, same₃) =
        read16_lem mem vec c₅ (omega arith) is₂ (serves _ _ at_vec on_vec) in
      let word₃ = λ (x : ℕ). words s₃ s₂ x same₃ in
      let c₅' : Cpu S = record c₅ { bus = s₃ } in
      let c₆ : Cpu S = record c₅' { regs = set_reg regs₅ 0 vector } in
      (
        c₆,
        bind_ok (write16 sp₁ (c.regs 0 % 2 ^ 16)) _ c₁ c₂ tt wrote₁
            ∙ bind_ok (write16 sp₂ (c.regs 2 % 2 ^ 16)) _ c₃ c₄ tt wrote₂
            ∙ bind_ok (read16 vec) _ c₅ c₅' vector read₃
            ∙ set_pc_lem vector c₅' (ap (λ (v : ℕ). v % 2) same ∙ even),
        record {
          stack = at₂;
          pushed_pc = word₃ _ ∙ ap (word_at mem s₂) (sym at₁) ∙ under ∙ top₁;
          pushed_sr = word₃ _ ∙ ap (word_at mem s₂) (sym at₂) ∙ top₂;
          status = refl;
          counter = same;
          others = λ i. set_reg_others c.regs i sp₁ sp₂ _ vector;
          bus_state = is₃;
        },
      )

  -- What RETI does where the bus serves two words of stack that hold a status word and an even return address.
  reti_lem :
      (c : Cpu S)
      → c.regs 1 + 4 < 2 ^ 32
      → word_at mem c.bus (c.regs 1 + 2) % 2 ≡ 0
      → mem.IsState c.bus
      → mem.covers (c.regs 1) 2 ≡ true
      → mem.covers (c.regs 1 + 2) 2 ≡ true
      → (c' : Cpu S) × (reti c ≡ ok (tt, c'))
        × (c'.regs 0 ≡ word_at mem c.bus (c.regs 1 + 2))
        × (c'.regs 1 ≡ c.regs 1 + 4)
        × (c'.regs 2 ≡ word_at mem c.bus (c.regs 1))
        × ((i : ℕ) → c'.regs (i + 3) ≡ c.regs (i + 3))
  unfolding reti wait_cycles
  reti_lem c small even is on on₂ =
      let sp = c.regs 1 in
      let sr = word_at mem c.bus sp in
      let regs₁ = set_reg c.regs 2 sr in
      let sp₂ = (sp + 2) % 2 ^ 32 in
      let regs₂ = set_reg regs₁ 1 sp₂ in
      let at₂ : sp₂ ≡ sp + 2 = omega arith in
      let (s₁, read₁, is₁, same₁) = read16_lem mem sp c (omega arith) is on in
      let c₁ : Cpu S = record c { bus = s₁ } in
      let c₂ : Cpu S = record c₁ { regs = regs₂ } in
      let (s₂, read₂, is₂, same₂) =
        read16_lem mem sp₂ c₂ (omega arith) is₁ (ap (λ (z : ℕ). mem.covers z 2) at₂ ∙ on₂) in
      let c₂' : Cpu S = record c₂ { bus = s₂ } in
      let pc = word_at mem s₁ sp₂ in
      let regs₃ = set_reg regs₂ 0 pc in
      let c₃ : Cpu S = record c₂' { regs = regs₃ } in
      let same : pc ≡ word_at mem c.bus (sp + 2) =
        words s₁ c.bus sp₂ same₁ ∙ ap (word_at mem c.bus) at₂ in
      let even' : pc % 2 ≡ 0 = ap (λ (v : ℕ). v % 2) same ∙ even in
      let regs₄ = set_reg regs₃ 1 ((sp₂ + 2) % 2 ^ 32) in
      (
        record c₃ { regs = regs₄; cycles = c.cycles + 1 },
        bind_ok (read16 sp) _ c c₁ sr read₁
            ∙ bind_ok (read16 sp₂) _ c₂ c₂' pc read₂
            ∙ bind_ok (set_pc pc) _ c₂' c₃ tt (set_pc_lem pc c₂' even'),
        same,
        omega arith,
        refl,
        λ i. ground arith,
      )

  -- RETI at the end of a handler restores the PC, the status register and the stack pointer that
  -- interrupt entry found, where the PC was even, both registers had sixteen bits, memory stands
  -- behind the bus socket that serves the two words below the stack pointer and the vector above it,
  -- the vector was even, and the handler has left the stack pointer and the two pushed words as
  -- entry made them. Other registers are as the handler leaves them.
  pub reti-enter_handler :
      (idx : ℕ) (c entered handled : Cpu S)
      → 2 * idx ≤ 0xfffe
      → 4 ≤ c.regs 1
      → c.regs 1 ≤ vector_addr idx
      → word_at mem c.bus (vector_addr idx) % 2 ≡ 0
      → mem.IsState c.bus
      → mem.covers (c.regs 1 - 2) 2 ≡ true
      → mem.covers (c.regs 1 - 4) 2 ≡ true
      → mem.covers (vector_addr idx) 2 ≡ true
      → c.regs 0 < 2 ^ 16
      → c.regs 0 % 2 ≡ 0
      → c.regs 2 < 2 ^ 16
      → enter_handler idx c ≡ ok (tt, entered)
      → mem.IsState handled.bus
      → handled.regs 1 ≡ entered.regs 1
      → word_at mem handled.bus (c.regs 1 - 2) ≡ word_at mem entered.bus (c.regs 1 - 2)
      → word_at mem handled.bus (c.regs 1 - 4) ≡ word_at mem entered.bus (c.regs 1 - 4)
      → (returned : Cpu S) × (execute_single_op_instruction reti_opcode handled ≡ ok (tt, returned))
        × (returned.regs 0 ≡ c.regs 0)
        × (returned.regs 1 ≡ c.regs 1)
        × (returned.regs 2 ≡ c.regs 2)
        × ((i : ℕ) → returned.regs (i + 3) ≡ handled.regs (i + 3))
  reti-enter_handler idx c entered handled small room below even is on₁ on₂ on_vec pc_small pc_even
        sr_small ran is' sp pc sr =
      let (entered', ran', done') =
        enter_handler-Entered idx c small room below even is on₁ on₂ on_vec in
      let same : entered' ≡ entered = ok_pair (sym ran' ∙ ran) in
      let done : Entered idx c entered = subst (Entered idx c) same done' in
      let top : handled.regs 1 ≡ c.regs 1 - 4 = sp ∙ done.stack in
      let next : handled.regs 1 + 2 ≡ c.regs 1 - 2 = omega (arith, top) in
      let pc' : word_at mem handled.bus (handled.regs 1 + 2) ≡ c.regs 0 =
        ap (word_at mem handled.bus) next ∙ pc ∙ done.pushed_pc ∙ mod-eq_of_lt pc_small in
      let sr' : word_at mem handled.bus (handled.regs 1) ≡ c.regs 2 =
        ap (word_at mem handled.bus) top ∙ sr ∙ done.pushed_sr ∙ mod-eq_of_lt sr_small in
      let (returned, e, r0, r1, r2, others) =
        reti_lem handled (omega (arith, top)) (ap (λ (v : ℕ). v % 2) pc' ∙ pc_even) is'
          (ap (λ (z : ℕ). mem.covers z 2) top ∙ on₂) (ap (λ (z : ℕ). mem.covers z 2) next ∙ on₁) in
      (returned, execute_reti handled ∙ e, r0 ∙ pc', omega (arith, r1, top), r2 ∙ sr', others)
