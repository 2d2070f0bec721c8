-- ===== src/TimerA/UpMode.antt =====
-- The up mode with its interrupt enabled.
use fused_checkmate.Base.{
  ℕ, zero, suc, sym, ◌/◌, ◌%◌, ◌||◌, bit_and, bit_or, test_bit, bit_and-two_pow, bit_or-zero, ◌+◌,
  ◌-◌, ◌^◌, ◌<◌, ◌≤◌, ◌≡◌, refl, ap, ◌∙◌, arith, Bool, true, false, [], ◌∷◌, ltb, Result, ok, ◌>>=◌,
}
use fused_checkmate.Base.Masks.{field_lem}
use fused_checkmate.Base.Digits.{bit_or_lowest}
use fused_checkmate.RegisterFile.{
  RegisterFile, Register, read, write, set_bit, find, find_if, set_val, stored,
}
use fused_checkmate.RegisterFile.AccessMode.{read_only, read_write}
use fused_checkmate.RegisterFile.Bitwise.{stored_whole}
use fused_checkmate.TimerA.{
  TimerA, ofs_ctl, taifg, ofs_r, process, process_powered, count_step, count_up, clear_state,
  is_irq_enabled, update_irq, update_dma,
}

abbrev plain : ℕ → ℕ → Register
plain address v = record {
  addr = address;
  val = v;
  reset_value = 0;
  write_mask = 2 ^ 32 - 1;
  access = read_write;
}

-- The registers of the constructor, with these values in TA1CTL, TA1R and TA1CCR0 and any in the rest.
abbrev pub registers : (ℕ → ℕ) → ℕ → ℕ → ℕ → RegisterFile
registers rest ctl count limit =
    plain 0x0 ctl
    ∷ plain 0x2 (rest 0x2)
    ∷ plain 0x4 (rest 0x4)
    ∷ plain 0x6 (rest 0x6)
    ∷ plain 0x10 count
    ∷ plain 0x12 limit
    ∷ plain 0x14 (rest 0x14)
    ∷ plain 0x16 (rest 0x16)
    ∷ record {
      addr = 0x2e;
      val = rest 0x2e;
      reset_value = 0;
      write_mask = 2 ^ 32 - 1;
      access = read_only;
    }
    ∷ plain 0x20 (rest 0x20)
    ∷ []

-- A timer with these registers, and its request.
abbrev pub counting : TimerA → (ℕ → ℕ) → ℕ → ℕ → ℕ → Bool → TimerA
counting t rest ctl count limit irq = record t {
  regs = registers rest ctl count limit;
  irq = irq;
  dma_trigger = false;
}

-- The control register selects the up mode, TACLR and TAIFG are clear, and one of TAIE and the
-- enable bit of CCTL0 is set.
pub record IsUp (rest : ℕ → ℕ) (ctl : ℕ) : Type 0 where
  pub small : ctl < 2 ^ 16
  pub mode : ctl / 2 ^ 4 % 4 ≡ 1
  pub no_clear : ctl / 4 % 2 ≡ 0
  pub no_flag : ctl % 2 ≡ 0
  pub enabled : (test_bit ctl 1 || test_bit (rest 0x2) 4) ≡ true

write_count :
    (rest : ℕ → ℕ) (ctl count limit v : ℕ)
    → count < 2 ^ 32
    → v < 2 ^ 32
    → write ofs_r v false (registers rest ctl count limit) ≡ ok (registers rest ctl v limit)
unfolding write find find_if set_val
write_count rest ctl count limit v small small' =
    ap (λ (x : ℕ). ok (registers rest ctl x limit))
      (stored_whole (plain 0x10 count) v refl small' small)

flag_bit : (a : ℕ) → a % 2 ≡ 0 → bit_or a (2 ^ 0) ≡ a + 1
flag_bit a even =
    let half : bit_or (a / 2) (1 / 2) ≡ a / 2 = bit_or-zero (a / 2) in
    omega (arith, bit_or_lowest a 1, half, even)

raise_flag :
    (rest : ℕ → ℕ) (ctl count limit : ℕ)
    → ctl < 2 ^ 16
    → ctl % 2 ≡ 0
    → set_bit 2 ofs_ctl 0 false (registers rest ctl count limit)
      ≡ ok (registers rest (ctl + 1) count limit)
unfolding set_bit read write find find_if set_val
raise_flag rest ctl count limit small even =
    ap (λ (x : ℕ). ok (registers rest x count limit))
      (ap (λ v. stored (plain 0x0 ctl) v false) (flag_bit ctl even)
        ∙ stored_whole (plain 0x0 ctl) (ctl + 1) refl (omega arith) (omega arith))

count_below :
    (rest : ℕ → ℕ) (ctl count limit : ℕ)
    → count < limit
    → limit < 2 ^ 16
    → count_up count (registers rest ctl count limit) ≡ ok (registers rest ctl (count + 1) limit)
unfolding count_up read find find_if
count_below rest ctl count limit h small =
    let test : ltb count limit ≡ true = ground arith in
    rw test (write_count rest ctl count limit (count + 1) (omega arith) (omega arith))

count_top :
    (rest : ℕ → ℕ) (ctl limit : ℕ)
    → ctl < 2 ^ 16
    → ctl % 2 ≡ 0
    → limit < 2 ^ 16
    → count_up limit (registers rest ctl limit limit) ≡ ok (registers rest (ctl + 1) 0 limit)
unfolding count_up read find find_if
count_top rest ctl limit few even small =
    let test : ltb limit limit ≡ false = ground arith in
    rw (test, raise_flag rest ctl limit limit few even)
      (write_count rest (ctl + 1) limit limit 0 (omega arith) (omega arith))

-- What the steps of `process` read of the control register, with or without the flag.
record Reads (rest : ℕ → ℕ) (ctl : ℕ) (flag : Bool) : Type 0 where
  clear : ltb 0 (bit_and ctl 4) ≡ false
  enable : (ltb 0 (bit_and ctl 2) || ltb 0 (bit_and (rest 0x2) 0x10)) ≡ true
  raised : ltb 0 (bit_and ctl taifg) ≡ flag

enable_lem :
    (rest : ℕ → ℕ) (ctl : ℕ)
    → (test_bit ctl 1 || test_bit (rest 0x2) 4) ≡ true
    → (ltb 0 (bit_and ctl 2) || ltb 0 (bit_and (rest 0x2) 0x10)) ≡ true
enable_lem rest ctl on =
    ap (λ b. b || ltb 0 (bit_and (rest 0x2) 0x10)) (sym (bit_and-two_pow 1 ctl))
    ∙ ap (λ b. test_bit ctl 1 || b) (sym (bit_and-two_pow 4 (rest 0x2)))
    ∙ on

Reads-clear : (rest : ℕ → ℕ) (ctl : ℕ) → IsUp rest ctl → Reads rest ctl false
Reads-clear rest ctl up =
    let no_clear = up.no_clear in
    let no_flag = up.no_flag in
    record {
      clear = sym (bit_and-two_pow 2 ctl) ∙ ground (arith, no_clear);
      enable = enable_lem rest ctl up.enabled;
      raised = sym (bit_and-two_pow 0 ctl) ∙ ground (arith, no_flag);
    }

Reads-flag : (rest : ℕ → ℕ) (ctl : ℕ) → IsUp rest ctl → Reads rest (ctl + 1) true
Reads-flag rest ctl up =
    let no_clear = up.no_clear in
    let no_flag = up.no_flag in
    let half : (ctl + 1) / 2 ≡ ctl / 2 = omega (arith, no_flag) in
    let same : test_bit (ctl + 1) 1 ≡ test_bit ctl 1 = ap (λ h. test_bit h 0) half in
    record {
      clear = sym (bit_and-two_pow 2 (ctl + 1)) ∙ ground (arith, no_clear, no_flag);
      enable = enable_lem rest (ctl + 1) (ap (λ b. b || test_bit (rest 0x2) 4) same ∙ up.enabled);
      raised = sym (bit_and-two_pow 0 (ctl + 1)) ∙ ground (arith, no_flag);
    }

mode_lem : (rest : ℕ → ℕ) (ctl : ℕ) → IsUp rest ctl → bit_and ctl 0x30 / 2 ^ 4 ≡ 1
mode_lem rest ctl up = field_lem 2 4 ctl ∙ up.mode

module _ (t : TimerA) (rest : ℕ → ℕ) (ctl : ℕ) (up : IsUp rest ctl) where
  tick_below :
      (count limit : ℕ)
      → count < limit
      → limit < 2 ^ 16
      → process true false (counting t rest ctl count limit false)
        ≡ ok (counting t rest ctl (count + 1) limit false)
  unfolding process process_powered read count_step clear_state is_irq_enabled update_irq update_dma
      find find_if
  tick_below count limit h small =
      let r = Reads-clear rest ctl up in
      let clear = r.clear in
      let enable = r.enable in
      let raised = r.raised in
      rw (mode_lem rest ctl up, count_below rest ctl count limit h small, clear, enable, raised)
        refl

  tick_top :
      (limit : ℕ)
      → limit < 2 ^ 16
      → process true false (counting t rest ctl limit limit false)
        ≡ ok (counting t rest (ctl + 1) 0 limit true)
  unfolding process process_powered read count_step clear_state is_irq_enabled update_irq update_dma
      find find_if
  tick_top limit small =
      let r = Reads-flag rest ctl up in
      let clear = r.clear in
      let enable = r.enable in
      let raised = r.raised in
      rw
        (
          mode_lem rest ctl up,
          count_top rest ctl limit up.small up.no_flag small,
          clear,
          enable,
          raised,
        )
        refl

-- A number of clock edges, in which no request is accepted.
unfoldable pub edges : ℕ → TimerA → Result TimerA
edges zero t = ok t
edges (suc k) t = process true false t >>= edges k

module _ (t : TimerA) (rest : ℕ → ℕ) (ctl : ℕ) (up : IsUp rest ctl) where
  -- Counting does not reach the limit yet.
  edges_below :
      (count limit k : ℕ)
      → count + k ≤ limit
      → limit < 2 ^ 16
      → edges k (counting t rest ctl count limit false)
        ≡ ok (counting t rest ctl (count + k) limit false)
  unfolding edges
  edges_below count limit zero room small =
      ap (λ (x : ℕ). ok (counting t rest ctl x limit false)) (omega arith)
  edges_below count limit (suc k) room small =
      rw (tick_below t rest ctl up count limit (omega arith) small) (
        edges_below (count + 1) limit k (omega arith) small
        ∙ ap (λ (x : ℕ). ok (counting t rest ctl x limit false)) (omega arith))

  edges_top :
      (count limit k : ℕ)
      → count + k ≡ limit
      → limit < 2 ^ 16
      → edges (suc k) (counting t rest ctl count limit false)
        ≡ ok (counting t rest (ctl + 1) 0 limit true)
  unfolding edges
  edges_top count limit zero room small =
      let e : count ≡ limit = omega (arith, room) in rw (e, tick_top t rest ctl up limit small) refl
  edges_top count limit (suc k) room small =
      rw (tick_below t rest ctl up count limit (omega (arith, room)) small)
        (edges_top (count + 1) limit k (omega (arith, room)) small)

-- In up mode with its interrupt enabled and no request, TACLR or TAIFG pending, from a count not above
-- a 16-bit CCR0 and with any values in the other registers, the timer counts one up at each clock
-- edge, without a request, and at the edge after it has reached CCR0 requests the interrupt, sets
-- TAIFG and starts again from zero; the other bits and registers keep their values.
pub edges-counting :
    (t : TimerA) (rest : ℕ → ℕ) (ctl count limit k : ℕ)
    → IsUp rest ctl
    → count + k ≤ limit
    → limit < 2 ^ 16
    → (edges k (counting t rest ctl count limit false)
        ≡ ok (counting t rest ctl (count + k) limit false))
      × (edges (suc (limit - count)) (counting t rest ctl count limit false)
          ≡ ok (counting t rest (ctl + 1) 0 limit true))
edges-counting t rest ctl count limit k up room small = (
  edges_below t rest ctl up count limit k room small,
  edges_top t rest ctl up count limit (limit - count) (omega arith) small,
)
