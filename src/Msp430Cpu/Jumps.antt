-- ===== src/Msp430Cpu/Jumps.antt =====
-- Conditional jumps: where they go.
use fused_checkmate.Base.{
  ℕ, zero, suc, not, xor, ◌&&◌, ◌||◌, ◌<◌, ◌+◌, ◌-◌, ◌*◌, ◌/◌, ◌%◌, ◌^◌, ◌≡◌, refl, ◌∙◌, ap, Bool,
  true, false, arith, ltb, if◌then◌else◌, bit_and, ok,
}
use fused_checkmate.Base.Masks.{bit_and_low, field_lem}
use fused_checkmate.Msp430Cpu.Signed.{test_bit_top}
use fused_checkmate.Msp430Cpu.FlagBits.{flag}
use fused_checkmate.Msp430Cpu.State.{
  Cpu, M, bind_ok, set_pc, set_pc_lem, set_reg, get_pc, wait_cycles, get_flag, when, ◌>>=◌, ◌>>◌,
}
use fused_checkmate.Msp430Cpu.Execute.{jump_offset, do_jump, execute_conditional_jump}

-- The ten-bit offset counts words, and is negative from 512 on.
abbrev pub jump_target : ℕ → ℕ → ℕ
jump_target pc opcode =
    if ltb (opcode % 1024) 512
    then (pc + 2 * (opcode % 1024)) % 2 ^ 32
    else (pc + 2 ^ 32 - 2 * (1024 - opcode % 1024)) % 2 ^ 32

jump_offset_lem : (pc opcode : ℕ) → (pc + jump_offset opcode) % 2 ^ 32 ≡ jump_target pc opcode
unfolding jump_offset
jump_offset_lem pc opcode =
    rw (bit_and_low 10 opcode, test_bit_top 9 (opcode % 1024) (omega arith)) (ground arith)

-- The conditions: not zero, zero, no carry, carry, negative, greater or equal, less, and always;
-- the signed order is that the negative and overflow flags differ.
abbrev pub holds : {S : Type 0} → ℕ → Cpu S → Bool
holds zero c = not (flag 1 c)
holds (suc zero) c = flag 1 c
holds (suc (suc zero)) c = not (flag 0 c)
holds (suc (suc (suc zero))) c = flag 0 c
holds (suc (suc (suc (suc zero)))) c = flag 2 c
holds (suc (suc (suc (suc (suc zero))))) c =
    (flag 2 c && flag 8 c) || (not (flag 2 c) && not (flag 8 c))
holds (suc (suc (suc (suc (suc (suc zero)))))) c =
    (flag 2 c && not (flag 8 c)) || (not (flag 2 c) && flag 8 c)
holds (suc (suc (suc (suc (suc (suc (suc k))))))) c = true

condition_cases : {S : Type 0} (k : ℕ) (c : Cpu S) → k < 8 → do_jump k c ≡ ok (holds k c, c)
unfolding do_jump get_flag xor
condition_cases zero c small = refl
condition_cases (suc zero) c small = refl
condition_cases (suc (suc zero)) c small = refl
condition_cases (suc (suc (suc zero))) c small = refl
condition_cases (suc (suc (suc (suc zero)))) c small = refl
condition_cases (suc (suc (suc (suc (suc zero))))) c small = ap (λ b. ok (b, c)) (ground arith)
condition_cases (suc (suc (suc (suc (suc (suc zero)))))) c small =
    ap (λ b. ok (b, c)) (ground arith)
condition_cases (suc (suc (suc (suc (suc (suc (suc zero))))))) c small = refl
condition_cases (suc (suc (suc (suc (suc (suc (suc (suc k)))))))) c small = absurd (omega arith)

jump_target_even : (pc opcode : ℕ) → pc % 2 ≡ 0 → jump_target pc opcode % 2 ≡ 0
jump_target_even pc opcode h = ground arith

finish : {S : Type 0} → ℕ → Bool → M S (Unit {0})
finish opcode taken = do
  pc ← get_pc
  when taken (set_pc ((pc + jump_offset opcode) % 2 ^ 32))
  wait_cycles 1

-- The CPU after a jump of which it is known whether it is taken.
abbrev pub jumped : {S : Type 0} → ℕ → Bool → Cpu S → Cpu S
jumped opcode taken c = record c {
  regs = if taken then set_reg c.regs 0 (jump_target (c.regs 0) opcode) else c.regs;
  cycles = c.cycles + 1;
}

finish_lem :
    {S : Type 0} (opcode : ℕ) (taken : Bool) (c : Cpu S)
    → c.regs 0 % 2 ≡ 0
    → finish opcode taken c ≡ ok (tt, jumped opcode taken c)
unfolding finish wait_cycles
finish_lem opcode true c even =
    let there : (c.regs 0 + jump_offset opcode) % 2 ^ 32 ≡ jump_target (c.regs 0) opcode =
      jump_offset_lem (c.regs 0) opcode in
    let next = jump_target (c.regs 0) opcode in
    rw there (
      bind_ok (set_pc next) _ c (record c { regs = set_reg c.regs 0 next }) tt
        (set_pc_lem next c (jump_target_even (c.regs 0) opcode even)))
finish_lem opcode false c even = refl

-- A conditional jump from an even PC never faults. If the condition that bits 10 to 12 of the opcode
-- name holds in the flags, the PC becomes the even address twice the signed offset away from it;
-- if not, it stays. All else is as it was, but for one cycle more.
pub execute_conditional_jump_lem :
    {S : Type 0} (opcode : ℕ) (c : Cpu S)
    → c.regs 0 % 2 ≡ 0
    → (execute_conditional_jump opcode c ≡ ok (tt, jumped opcode (holds (opcode / 2 ^ 10 % 8) c) c))
      × (jump_target (c.regs 0) opcode % 2 ≡ 0)
unfolding execute_conditional_jump finish
execute_conditional_jump_lem opcode c even =
    let field : bit_and opcode 0x1c00 / 2 ^ 10 ≡ opcode / 2 ^ 10 % 8 = field_lem 3 10 opcode in
    let taken = holds (opcode / 2 ^ 10 % 8) c in
    let decided : do_jump (bit_and opcode 0x1c00 / 2 ^ 10) c ≡ ok (taken, c) =
      ap (λ k. do_jump k c) field ∙ condition_cases (opcode / 2 ^ 10 % 8) c (omega arith) in
    (
      bind_ok (do_jump (bit_and opcode 0x1c00 / 2 ^ 10)) (finish opcode) c c taken decided
          ∙ finish_lem opcode taken c even,
      jump_target_even (c.regs 0) opcode even,
    )
