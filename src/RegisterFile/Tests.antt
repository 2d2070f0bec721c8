-- ===== src/RegisterFile/Tests.antt =====
-- Runs of the theorems on a register file of three registers.
use fused_checkmate.Base.{
  ℕ, ◌+◌, ◌*◌, ◌^◌, ◌-◌, ◌≡◌, ◌≢◌, refl, arith, Bool, true, false, ◌&&◌, ◌||◌, [], ◌∷◌, ◌==◌,
  if◌then◌else◌, Result, ok, err, assertion,
}
use fused_checkmate.Base
use fused_checkmate.RegisterFile.{
  RegisterFile, Register, AccessMode, find, write, reset, set_bit, clear_bit, write_buffer,
  read_buffer, set_val, find_if, stored, read,
}
use fused_checkmate.RegisterFile.Access.{reset-write}
use fused_checkmate.RegisterFile.Bitwise.{write_masked, set_bit_bits}
use fused_checkmate.RegisterFile.Buffers.{read_buffer-write_buffer, forced_byte}

abbrev plain : Register
plain = record {
  addr = 0;
  val = 0x1234;
  reset_value = 7;
  write_mask = 2 ^ 32 - 1;
  access = AccessMode.read_write;
}

abbrev masked : Register
masked = record {
  addr = 2;
  val = 0x00ff;
  reset_value = 0;
  write_mask = 0x0f0f;
  access = AccessMode.read_write;
}

abbrev status : Register
status = record {
  addr = 4;
  val = 5;
  reset_value = 5;
  write_mask = 2 ^ 32 - 1;
  access = AccessMode.read_only;
}

abbrev three : RegisterFile
three = plain ∷ masked ∷ status ∷ []

-- The file with another value in its second register.
abbrev with_second : ℕ → RegisterFile
with_second v = plain ∷ record masked { val = v } ∷ status ∷ []

written : write 2 0xa5a5 false three ≡ ok (with_second 0x05f5)
unfolding write find find_if set_val stored
written = refl

bit_set : set_bit 2 2 8 false three ≡ ok (with_second 0x01ff)
unfolding set_bit read write find find_if set_val stored
bit_set = refl

bit_cleared : clear_bit 2 2 1 false three ≡ ok (with_second 0x00fd)
unfolding clear_bit write find find_if set_val stored
bit_cleared = refl

write_example :
    (find 4 (with_second 0x05f5) ≡ find 4 three)
    × (r : Register) × (new : ℕ) × (find 2 three ≡ ok r)
    × (find 2 (with_second 0x05f5) ≡ ok (record r { val = new }))
    × (Base.test_bit new 8
        ≡ (if Base.test_bit r.write_mask 8 then Base.test_bit 0xa5a5 8 else Base.test_bit r.val 8))
write_example =
    write_masked 2 4 0xa5a5 8 three (with_second 0x05f5) (omega arith) (omega arith) written

set_example :
    (r : Register) × (new : ℕ) × (find 2 three ≡ ok r)
    × (find 2 (with_second 0x01ff) ≡ ok (record r { val = new }))
    × (Base.test_bit new 8 ≡ (
        if 8 == 8 && (false || Base.test_bit r.write_mask 8) then true else Base.test_bit r.val 8))
set_example = set_bit_bits 2 2 8 8 false three (with_second 0x01ff) (omega arith) bit_set

plain_there : find 0 three ≡ ok plain
unfolding find find_if
plain_there = refl

forced_write : write 2 0xa5a5 true three ≡ ok (with_second 0xa5a5)
unfolding write find find_if set_val stored
forced_write = refl

reset_example :
    (reset (with_second 0xa5a5) ≡ reset three)
    × (find 0 (reset (with_second 0xa5a5)) ≡ ok (record plain { val = 7 }))
    × (old : Register) × (new : ℕ) × (find 2 three ≡ ok old)
    × (find 2 (with_second 0xa5a5) ≡ ok (record old { val = new }))
    × (new ≡ 0xa5a5)
reset_example =
    reset-write 2 0xa5a5 0 true three (with_second 0xa5a5) plain forced_write plain_there

found_plain : find 0 three ≡ ok plain
unfolding find find_if
found_plain = refl

found_status : find 4 three ≡ ok status
unfolding find find_if
found_status = refl

buffer_example :
    (next : RegisterFile) × (write_buffer 2 false 0 (0xcd ∷ 0xab ∷ []) three ≡ ok next)
    × (read_buffer 2 0xffff0000 0 2 next ≡ ok (0xcd ∷ 0xab ∷ []))
buffer_example =
    read_buffer-write_buffer 0xffff0000 0 0xcd 0xab three plain refl (omega arith) (omega arith)
      found_plain refl refl (omega arith)

forced_example :
    (write_buffer 2 true 4 (0xcd ∷ []) three ≡ err assertion)
    × (write_buffer 2 true 4 (0xcd ∷ 0xab ∷ []) three ≡ ok (set_val 4 (0xab * 256 + 0xcd) three))
forced_example =
    forced_byte 4 0xcd 0xab three status refl (omega arith) (omega arith) found_status refl
