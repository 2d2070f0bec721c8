-- ===== src/Nvic.antt =====
-- mcu/cortex-m0/Nvic.hpp and Nvic.cpp: the interrupt controller of the Cortex-M0.
-- The words are uint32_t. Notifications and the delay are left out; what a notification starts is a
-- call of `process` by the scheduler.
pub mod Priority
pub mod Process
mod Tests
use fused_checkmate.Base.{
  ℕ, zero, suc, ◌+◌, ◌-◌, ◌*◌, ◌/◌, ◌%◌, ◌^◌, bit_and, bit_or, not_bits, Bool, true, false, not,
  ◌&&◌, ◌||◌, Option, none, some, List, [], ◌∷◌, ltb, ◌==◌, if◌then◌else◌, test_bit, take, leb,
  length, guard, Result, ok, err, fatal, ◌>>=◌, ◌>>◌,
}
use fused_checkmate.Base.Int.{ℤ, pos, negsuc}
use fused_checkmate.Utilities.{pack_bytes, ttohl}
use fused_checkmate.RegisterFile.{RegisterFile, add_register, read, write, read_byte}
use fused_checkmate.RegisterFile
use fused_checkmate.RegisterFile.AccessMode.{read_write}
use fused_checkmate.BusTarget.{BusTarget, Payload, Command}
use fused_checkmate.BusTarget
use fused_checkmate.BusTarget.Command.{write_command}

-- The register offsets.
abbrev pub ofs_iser : ℕ
ofs_iser = 0x000

abbrev pub ofs_icer : ℕ
ofs_icer = 0x080

abbrev pub ofs_ispr : ℕ
ofs_ispr = 0x100

abbrev pub ofs_icpr : ℕ
ofs_icpr = 0x180

abbrev pub ofs_ipr0 : ℕ
ofs_ipr0 = 0x300

-- `NVIC_EXCEPT_ID_BASE`
abbrev pub except_id_base : ℕ
except_id_base = 16

-- The word size of the target.
abbrev pub word_size : ℕ
word_size = 4

-- What the input ports read.
pub record Inputs : Type 0 where
  pub irq : ℕ → Bool
  pub returning : ℤ
  pub active : ℤ
  pub pwr_on : Bool

pub record Nvic : Type 0 where
  pub target : BusTarget
  pub prev_irq : ℕ → Bool
  pub prev_active : ℤ
  pub sw_clear_pending : ℕ
  pub sw_set_pending : ℕ
  pub pending : ℤ

-- The priority registers, IPR0 and n - 1 after it.
add_priorities : ℕ → ℕ → RegisterFile → RegisterFile
add_priorities ofs zero regs = regs
add_priorities ofs (suc n) regs =
    add_priorities (ofs + 4) n (add_register ofs 0 read_write 0xc0c0c0c0 regs)

-- The registers that the constructor adds.
unfoldable pub create_regs : RegisterFile
unfolding add_priorities
create_regs =
    let iser = add_register ofs_iser 0 read_write 0xffffffff [] in
    let icer = add_register ofs_icer 0 read_write 0xffffffff iser in
    let ispr = add_register ofs_ispr 0 read_write 0 icer in
    let icpr = add_register ofs_icpr 0 read_write 0 ispr in add_priorities ofs_ipr0 8 icpr

-- `reset`; the power-on values of the members are the same.
unfoldable pub reset : Nvic → Nvic
reset n = record n {
  target = record n.target { regs = RegisterFile.reset n.target.regs };
  prev_irq = λ i. false;
  prev_active = negsuc 0;
  sw_clear_pending = 0;
  sw_set_pending = 0;
}

-- `writeOneToClear`
unfoldable pub write_one_to_clear : ℕ → ℕ → ℕ
write_one_to_clear clearbits oldval = bit_and oldval (not_bits 32 clearbits)

-- `writeOneToSet`
unfoldable pub write_one_to_set : ℕ → ℕ → ℕ
write_one_to_set setbits oldval = bit_or oldval setbits

-- ISER and ICER hold the same word; the one that was not written still holds the old one.
write_both : ℕ → Nvic → Result Nvic
write_both result n = do
  regs ← write ofs_iser result false n.target.regs
  regs' ← write ofs_icer result false regs
  ok (record n { target = record n.target { regs = regs' } })

-- The case of the switch for a write at an aligned address. A request of less than four bytes is read
-- past its end in the source, which is undefined, and ends the run here.
on_write : ℕ → List ℕ → Nvic → Result Nvic
unfolding write_both
on_write aligned bytes n =
    let set_enabled = read ofs_iser n.target.regs >>= λ iser.
    read ofs_icer n.target.regs >>= λ icer. write_both (write_one_to_set iser icer) n in
    let clear_enabled = read ofs_icer n.target.regs >>= λ icer.
    read ofs_iser n.target.regs >>= λ iser. write_both (write_one_to_clear icer iser) n in
    let requested =
      guard (leb 4 (length bytes)) fatal
      >> (pack_bytes (take 4 bytes) >>= λ packed. ok (ttohl word_size packed)) in
    if aligned == ofs_iser
    then set_enabled
    else if aligned == ofs_icer
    then clear_enabled
    else if aligned == ofs_ispr
    then (requested >>= λ v. ok (record n { sw_set_pending = v }))
    else if aligned == ofs_icpr
    then (requested >>= λ v. ok (record n { sw_clear_pending = v }))
    else ok n

-- The addresses that the switch names.
is_register : ℕ → Bool
is_register aligned =
    aligned == ofs_iser
    || aligned == ofs_icer
    || aligned == ofs_ispr
    || aligned == ofs_icpr
    || not (ltb aligned ofs_ipr0) && ltb aligned (ofs_ipr0 + 32)

is_write : Command → Bool
is_write write_command = true
is_write _ = false

-- `b_transport`
unfoldable pub b_transport : ℕ → Nvic → Payload → Result (Nvic × Payload)
unfolding on_write is_register is_write
b_transport junk n trans = do
  (target, done) ← BusTarget.b_transport word_size junk n.target trans
  let n' : Nvic = record n { target = target }
  let aligned = done.address - done.address % 4
  guard (is_register aligned) fatal
  n'' ← (if is_write done.command then on_write aligned done.bytes n' else ok n')
  ok (n'', done)

-- `x == i + NVIC_EXCEPT_ID_BASE`
unfoldable pub is_exception : ℤ → ℕ → Bool
is_exception (pos x) i = x == i + except_id_base
is_exception (negsuc x) i = false

unfoldable pub same_int : ℤ → ℤ → Bool
same_int (pos x) (pos y) = x == y
same_int (negsuc x) (negsuc y) = x == y
same_int _ _ = false

module _ (n : Nvic) (inputs : Inputs) where
  -- `setPend`: a rising edge, a request that is still there on return, or a software request.
  unfoldable pub set_pend : ℕ → Bool
  set_pend i =
      inputs.irq i && not (n.prev_irq i)
      || inputs.irq i && is_exception inputs.returning i
      || test_bit n.sw_set_pending i

  -- `clearPend`: a software request with the line low, or the handler starts.
  unfoldable pub clear_pend : ℕ → Bool
  clear_pend i =
      not (inputs.irq i) && test_bit n.sw_clear_pending i
      || is_exception inputs.active i && not (same_int inputs.active n.prev_active)

  -- The pending word after interrupt i; setting wins.
  unfoldable pub resolve : ℕ → ℕ → ℕ
  resolve i pending =
      if set_pend i
      then bit_or pending (2 ^ i)
      else if clear_pend i
      then bit_and pending (not_bits 32 (2 ^ i))
      else pending

-- The variables of the loop: `highestPriIrq` is `none` where the source has -1.
pub record Scan : Type 0 where
  pub word : ℕ
  pub highest_pri : ℕ
  pub highest_irq : Option ℕ

-- The priority check for interrupt i.
unfoldable pub check_priority : RegisterFile → ℕ → Scan → Result Scan
check_priority regs i s = do
  byte ← read_byte word_size (ofs_ipr0 + i) regs
  let prio = byte / 2 ^ 6
  let chosen = read ofs_iser regs >>= λ enabled. ok (
        if test_bit enabled i
        then record { word = s.word; highest_pri = prio; highest_irq = some i }
        else s) in
      if test_bit s.word i && ltb prio s.highest_pri then chosen else ok s

-- The first k passes of the loop.
unfoldable pub scan : Nvic → Inputs → ℕ → Scan → Result Scan
scan n inputs zero s = ok s
scan n inputs (suc k) s = do
  s' ← scan n inputs k s
  check_priority n.target.regs k (record s' { word = resolve n inputs k s'.word })

-- What `pending` is given.
unfoldable pub pending_id : Option ℕ → ℤ
pending_id none = negsuc 0
pending_id (some i) = pos (except_id_base + i)

-- `process`, for 32 interrupt lines.
unfoldable pub process : Nvic → Inputs → Result Nvic
process n inputs =
    let powered = read ofs_ispr n.target.regs >>= λ word.
    scan n inputs 32 (record { word = word; highest_pri = 4; highest_irq = none }) >>= λ s.
    write ofs_ispr s.word true n.target.regs >>= λ regs.
    write ofs_icpr s.word true regs >>= λ regs'. ok (record {
      target = record n.target { regs = regs' };
      prev_irq = inputs.irq;
      prev_active = inputs.active;
      sw_clear_pending = 0;
      sw_set_pending = 0;
      pending = pending_id s.highest_irq;
    }) in
    if inputs.pwr_on then powered else ok (record n { pending = pos 0 })
