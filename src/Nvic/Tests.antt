-- ===== src/Nvic/Tests.antt =====
-- Runs of the theorems on the controller after power-on.
use native.Mathlib.Nat.{zero-div}
use fused_checkmate.Base.{
  ℕ, ◌+◌, ◌*◌, ◌/◌, ◌^◌, ◌-◌, ◌%◌, ◌<◌, ◌≤◌, ◌⊎◌, ◌≡◌, test_bit, refl, ap, arith, true, false, ok,
  ◌==◌,
}
use fused_checkmate.RegisterFile.{
  AccessMode, Register, add_register, find, find_if, read, read_byte,
}
use fused_checkmate.Nvic.{
  Nvic, Inputs, create_regs, process, except_id_base, ofs_ispr, ofs_icpr, ofs_ipr0, word_size,
}
use fused_checkmate.Nvic.Priority.{IsPriority, pended}
use fused_checkmate.Nvic.Process.{is_on, process_lem}
use fused_checkmate.Base.Int.{pos, negsuc}

abbrev priorities : ℕ → Register
priorities q = record {
  addr = ofs_ipr0 + 4 * q;
  val = 0;
  reset_value = 0;
  write_mask = 0xc0c0c0c0;
  access = AccessMode.read_write;
}

found_priorities : (q : ℕ) → q < 8 → find (ofs_ipr0 + 4 * q) create_regs ≡ ok (priorities q)
unfolding find find_if create_regs add_register
found_priorities q h = ground arith

zero_byte : (k : ℕ) → 0 / k % 256 ≡ 0
zero_byte k = ap (λ (v : ℕ). v % 256) (zero-div k)

created_byte : (i : ℕ) → i < 32 → read_byte word_size (ofs_ipr0 + i) create_regs ≡ ok 0
unfolding read_byte
created_byte i h =
    let aligned : ofs_ipr0 + i - (ofs_ipr0 + i) % 4 ≡ ofs_ipr0 + 4 * (i / 4) = omega arith in
    rw (aligned, found_priorities (i / 4) (omega arith))
      (ap ok (zero_byte (256 ^ ((ofs_ipr0 + i) % 4))))

created : IsPriority create_regs (λ i. 0) 0
unfolding read find find_if create_regs add_register
created = record { byte = λ i h. (0, created_byte i h, refl); enable = refl }

abbrev controller : Nvic
controller = record {
  target = record { start_address = 0xe000e100; end_address = 0xe000e43c; regs = create_regs };
  prev_irq = λ i. false;
  prev_active = negsuc 0;
  sw_clear_pending = 0;
  sw_set_pending = 0;
  pending = negsuc 0;
}

-- Line 5 rises.
abbrev rising : Inputs
rising = record { irq = λ i. i == 5; returning = negsuc 0; active = negsuc 0; pwr_on = true }

abbrev masked_word : ℕ → Register
masked_word a = record {
  addr = a;
  val = 0;
  reset_value = 0;
  write_mask = 0;
  access = AccessMode.read_write;
}

found_pending : find ofs_ispr create_regs ≡ ok (masked_word ofs_ispr)
unfolding find find_if create_regs add_register
found_pending = refl

read_pending : read ofs_ispr create_regs ≡ ok 0
unfolding read find find_if create_regs add_register
read_pending = refl

found_clear : find ofs_icpr create_regs ≡ ok (masked_word ofs_icpr)
unfolding find find_if create_regs add_register
found_clear = refl

abbrev no_priority : ℕ → ℕ
no_priority i = 0

process_example :
    (n' : Nvic) × (word : ℕ) × (process controller rising ≡ ok n')
    × (read ofs_ispr n'.target.regs ≡ ok word)
    × (test_bit word 5 ≡ pended controller rising 5 (test_bit 0 5))
    × ((n'.pending ≡ negsuc 0) × (is_on word 0 5 ≡ false)
        ⊎ (b : ℕ) × (n'.pending ≡ pos (except_id_base + b))
          × (b < 32)
          × (is_on word 0 b ≡ true)
          × ((is_on word 0 5 ≡ false)
              ⊎ (no_priority b < no_priority 5)
              ⊎ (no_priority b ≡ no_priority 5) × (b ≤ 5)))
process_example =
    process_lem controller rising no_priority 0 0 5 (masked_word ofs_ispr) (masked_word ofs_icpr)
      refl created found_pending read_pending found_clear (omega arith)
