-- ===== src/Msp430Cpu/State.antt =====
-- The state of Msp430Cpu, the monad of its methods, and its register and memory accesses.
-- Registers are uint32_t. `cycles` counts what `waitCycles` waits for; the delay of a bus access
-- and a stalled bus are time alone, and are left out. `accepted` counts the pulses on the `ira` output.
use fused_checkmate.Base.{
  ℕ, ◌+◌, ◌*◌, ◌/◌, ◌%◌, ◌^◌, Bool, true, false, List, [], ◌∷◌, ltb, ◌==◌, if◌then◌else◌, get_or,
  Result, ok, ◌≡◌, ap, err, assertion, Fault,
}
use fused_checkmate.Base
use fused_checkmate.Utilities.{pack_bytes, unpack_bytes, htots, ttohs}
use fused_checkmate.Utilities
pub use fused_checkmate.BusTarget.{BusPort}

pub record Cpu (S : Type 0) : Type 0 where
  pub regs : ℕ → ℕ
  pub run : Bool
  pub sleeping : Bool
  pub do_step : Bool
  pub breakpoints : List ℕ
  pub cycles : ℕ
  pub accepted : ℕ
  pub bus : S

-- A method: it returns a value and the new state, or the run ends.
abbrev pub M : Type 0 → Type 0 → Type 0
M S A = Cpu S → Result (A × Cpu S)

module _ {S : Type 0} where
  infixl 5 ◌>>=◌ ◌>>◌
  abbrev pub ◌>>=◌ : {A B : Type 0} → M S A → (A → M S B) → M S B
  ◌>>=◌ m f c = elim (m c) [ ok (a, c') ↦ f a c' | err e ↦ err e ]

  abbrev pub ◌>>◌ : {B : Type 0} → M S (Unit {0}) → M S B → M S B
  m >> k = m >>= λ _. k

  abbrev pub pure : {A : Type 0} → A → M S A
  pure a c = ok (a, c)

  abbrev pub raise : {A : Type 0} → Fault → M S A
  raise e c = err e

  abbrev pub lift : {A : Type 0} → Result A → M S A
  lift r c = elim r [ ok a ↦ ok (a, c) | err e ↦ err e ]

  abbrev pub check : Bool → M S (Unit {0})
  check b c = if b then ok (tt, c) else err assertion

  abbrev pub when : Bool → M S (Unit {0}) → M S (Unit {0})
  when b m c = if b then m c else ok (tt, c)

-- A method that succeeds hands its value and state to what follows.
pub bind_ok :
    {S A B : Type 0} (m : M S A) (f : A → M S B) (c c' : Cpu S) (a : A)
    → m c ≡ ok (a, c')
    → (m >>= f) c ≡ f a c'
bind_ok {S} {A} {B} m f c c' a h = ap (λ r. after f r) h
  where
    after : (A → M S B) → Result (A × Cpu S) → Result (B × Cpu S)
    after f r = elim r [ ok (a, c') ↦ f a c' | err e ↦ err e ]

-- The constants of Msp430Cpu.hpp.
abbrev pub pc_regnum : ℕ
pc_regnum = 0

abbrev pub sp_regnum : ℕ
sp_regnum = 1

abbrev pub sr_regnum : ℕ
sr_regnum = 2

abbrev pub cg_regnum : ℕ
cg_regnum = 3

abbrev pub n_gpr : ℕ
n_gpr = 16

-- `m_cpuRegs[i] = v`
abbrev pub set_reg : (ℕ → ℕ) → ℕ → ℕ → ℕ → ℕ
set_reg regs i v j = if j == i then v else regs j

module _ {S : Type 0} where
  unfoldable pub set_gpr : ℕ → ℕ → M S (Unit {0})
  set_gpr i v c =
      if ltb i n_gpr then ok (tt, record c { regs = set_reg c.regs i v }) else err assertion

  unfoldable pub get_gpr : ℕ → M S ℕ
  get_gpr i c = if ltb i n_gpr then ok (c.regs i, c) else err assertion

  abbrev pub get_pc : M S ℕ
  get_pc c = ok (c.regs pc_regnum, c)

  unfoldable pub set_pc : ℕ → M S (Unit {0})
  set_pc v c =
      if v % 2 == 0 then ok (tt, record c { regs = set_reg c.regs pc_regnum v }) else err assertion

  abbrev pub get_sr : M S ℕ
  get_sr c = ok (c.regs sr_regnum, c)

  abbrev pub set_sr : ℕ → M S (Unit {0})
  set_sr v c = ok (tt, record c { regs = set_reg c.regs sr_regnum v })

  abbrev pub get_sp : M S ℕ
  get_sp c = ok (c.regs sp_regnum, c)

  abbrev pub set_sp : ℕ → M S (Unit {0})
  set_sp v c = ok (tt, record c { regs = set_reg c.regs sp_regnum v })

  -- The status bits: carry 0, zero 1, negative 2, overflow 8.
  unfoldable pub get_flag : ℕ → M S Bool
  get_flag bit c = ok (Base.test_bit (c.regs sr_regnum) bit, c)

  unfoldable pub set_flag : ℕ → Bool → M S (Unit {0})
  set_flag bit value = do sr ← get_sr; sr' ← lift (Utilities.set_bit 2 bit sr value); set_sr sr'

  abbrev pub get_carry_flag : M S Bool
  get_carry_flag = get_flag 0

  abbrev pub set_carry_flag : Bool → M S (Unit {0})
  set_carry_flag = set_flag 0

  abbrev pub get_zero_flag : M S Bool
  get_zero_flag = get_flag 1

  abbrev pub set_zero_flag : Bool → M S (Unit {0})
  set_zero_flag = set_flag 1

  abbrev pub get_negative_flag : M S Bool
  get_negative_flag = get_flag 2

  abbrev pub set_negative_flag : Bool → M S (Unit {0})
  set_negative_flag = set_flag 2

  abbrev pub get_overflow_flag : M S Bool
  get_overflow_flag = get_flag 8

  abbrev pub set_overflow_flag : Bool → M S (Unit {0})
  set_overflow_flag = set_flag 8

  unfoldable pub wait_cycles : ℕ → M S (Unit {0})
  wait_cycles n c = ok (tt, record c { cycles = c.cycles + n })

pub set_pc_lem :
    {S : Type 0} (v : ℕ) (c : Cpu S)
    → v % 2 ≡ 0
    → set_pc v c ≡ ok (tt, record c { regs = set_reg c.regs 0 v })
unfolding set_pc
set_pc_lem v c h = rw h

-- Methods that reach the bus. An address parameter is a uint32_t.
module _ {S : Type 0} ⦃port : BusPort S⦄ where
  -- `readMem`
  unfoldable pub read_mem : ℕ → ℕ → M S (List ℕ)
  read_mem addr len c = elim (port.b_read c.bus (addr % 2 ^ 32) len) [
    | ok (bytes, bus') ↦ ok (bytes, record c { bus = bus' })
    | err e ↦ err e
  ]

  -- `writeMem`
  unfoldable pub write_mem : ℕ → List ℕ → M S (Unit {0})
  write_mem addr bytes c = elim (port.b_write c.bus (addr % 2 ^ 32) bytes) [
    | ok bus' ↦ ok (tt, record c { bus = bus' })
    | err e ↦ err e
  ]

  unfoldable pub read16 : ℕ → M S ℕ
  read16 addr = do
    bytes ← read_mem addr 2
    packed ← lift (pack_bytes (get_or bytes 0 0 ∷ get_or bytes 1 0 ∷ []))
    pure (ttohs packed % 2 ^ 16)

  unfoldable pub read8 : ℕ → M S ℕ
  read8 addr = do bytes ← read_mem addr 1; pure (get_or bytes 0 0)

  -- `htots` leaves its upper half open; only the two low bytes are unpacked.
  unfoldable pub write16 : ℕ → ℕ → M S (Unit {0})
  write16 addr val = do bytes ← lift (unpack_bytes (htots 0 val) 2); write_mem addr bytes

  unfoldable pub write8 : ℕ → ℕ → M S (Unit {0})
  write8 addr val = write_mem addr (val ∷ [])

  unfoldable pub fetch : M S ℕ
  fetch = do
    pc ← get_pc
    check (pc % 2 == 0)
    retval ← read16 pc
    pc' ← get_pc
    set_pc ((pc' + 2) % 2 ^ 32)
    pure retval
