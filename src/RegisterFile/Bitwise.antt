-- ===== src/RegisterFile/Bitwise.antt =====
-- Writes, bit by bit.
use fused_checkmate.Base.{
  ℕ, ◌+◌, ◌*◌, ◌^◌, ◌<◌, ◌≤◌, ◌≡◌, ◌≢◌, refl, sym, ◌∙◌, ap, Bool, true, false, not, ◌||◌, ◌&&◌,
  Bool-cases, inl, inr, arith, ltb, lt→ltb, ◌==◌, ==_refl, if◌then◌else◌, bit_and, bit_or, not_bits,
  test_bit-bit_and, test_bit-bit_or, test_bit-not_bits, test_bit-two_pow, test_bit_ext,
  bit_and-le_left, bit_and-two_pow, Result, ok, assertion, guard, >>=-eq-ok, ◌>>=◌,
}
use fused_checkmate.Base
use fused_checkmate.Base.{test_bit_ext, bit_or-lt, bit_and-le_left, zero_bits, refl, ◌-◌, ◌≤◌}
use fused_checkmate.RegisterFile.{
  RegisterFile, Register, can_read, find, stored, write, read, set_bit, clear_bit, test_bit,
}
use fused_checkmate.RegisterFile.Access.{find-write, find-write_ne}

-- Each bit of the value that an unforced write stores.
stored_bit :
    (r : Register) (v k : ℕ)
    → k < 32
    → Base.test_bit (stored r v false) k
      ≡ (if Base.test_bit r.write_mask k then Base.test_bit v k else Base.test_bit r.val k)
unfolding stored
stored_bit r v k h =
    rw
      (
        test_bit-bit_or,
        test_bit-bit_and k r.val (not_bits 32 r.write_mask),
        test_bit-bit_and k v r.write_mask,
        test_bit-not_bits k 32 r.write_mask h,
      )
      (ground arith)

-- A register whose every bit can be written takes the value as it is.
pub stored_whole :
    (r : Register) (v : ℕ)
    → r.write_mask ≡ 2 ^ 32 - 1
    → v < 2 ^ 32
    → r.val < 2 ^ 32
    → stored r v false ≡ v
unfolding stored
stored_whole r v mask small old =
    test_bit_ext 32 _ v room small
      λ k h. stored_bit r v k h ∙ rw (mask, test_bit-not_bits k 32 0 h, zero_bits) refl
  where
    room : stored r v false < 2 ^ 32
    room =
        bit_or-lt 32 _ _ (omega (arith, bit_and-le_left r.val (not_bits 32 r.write_mask)))
          (omega (arith, bit_and-le_left v r.write_mask))

-- A successful unforced write changes exactly the bits in the register's write mask, to the bits
-- of the value written; the register keeps its mask, reset value and access mode, and the
-- registers at other addresses are as they were.
pub write_masked :
    (a b v k : ℕ) (regs next : RegisterFile)
    → a ≢ b
    → k < 32
    → write a v false regs ≡ ok next
    → (find b next ≡ find b regs)
      × (r : Register) × (new : ℕ) × (find a regs ≡ ok r)
      × (find a next ≡ ok (record r { val = new }))
      × (Base.test_bit new k
          ≡ (if Base.test_bit r.write_mask k then Base.test_bit v k else Base.test_bit r.val k))
write_masked a b v k regs next ne hk h =
    let (r, before, allowed, after) = find-write a v false regs next h in
    (
      find-write_ne a v false regs next b h ne,
      r,
      stored r v false,
      before,
      after,
      stored_bit r v k hk,
    )

-- A bit test on a readable register.
test_bit_lem :
    (ws a n : ℕ) (regs : RegisterFile) (r : Register)
    → n < ws * 8
    → find a regs ≡ ok r
    → can_read r.access ≡ true
    → test_bit ws a n regs ≡ ok (Base.test_bit r.val n)
unfolding test_bit read
test_bit_lem ws a n regs r h found readable =
    rw (lt→ltb _ _ h, found, readable) (ap ok (sym (bit_and-two_pow n r.val)))

-- What `write` stores for a value that differs from the old one in bit `bit` alone.
stored_one_bit :
    (r : Register) (value bit n : ℕ) (wanted force : Bool)
    → n < 32
    → ((k : ℕ)
        → k < 32
        → Base.test_bit value k ≡ (if k == bit then wanted else Base.test_bit r.val k))
    → Base.test_bit (stored r value force) n ≡ (
        if n == bit && (force || Base.test_bit r.write_mask n)
        then wanted
        else Base.test_bit r.val n)
unfolding stored
stored_one_bit r value bit n wanted true h bits = rw (bits n h) (ground arith)
stored_one_bit r value bit n wanted false h bits =
    stored_bit r value n h ∙ rw (bits n h) (ground arith)

read_inv :
    (a : ℕ) (regs : RegisterFile) (r : Register) (old : ℕ)
    → find a regs ≡ ok r
    → read a regs ≡ ok old
    → old ≡ r.val
unfolding read
read_inv a regs r old found h = ground arith

set_bit_inv :
    (ws a bit : ℕ) (force : Bool) (regs next : RegisterFile)
    → set_bit ws a bit force regs ≡ ok next
    → (old : ℕ) × (read a regs ≡ ok old) × (write a (bit_or old (2 ^ bit)) force regs ≡ ok next)
unfolding set_bit
set_bit_inv ws a bit force regs next h = ground arith

clear_bit_inv :
    (ws a bit : ℕ) (force : Bool) (regs next : RegisterFile)
    → clear_bit ws a bit force regs ≡ ok next
    → (r : Register) × (find a regs ≡ ok r)
      × (write a (bit_and r.val (not_bits 32 (2 ^ bit))) force regs ≡ ok next)
unfolding clear_bit
clear_bit_inv ws a bit force regs next h = ground arith

with_bit_set :
    (v bit k : ℕ)
    → Base.test_bit (bit_or v (2 ^ bit)) k ≡ (if k == bit then true else Base.test_bit v k)
with_bit_set v bit k = rw (test_bit-bit_or, test_bit-two_pow) (ground arith)

with_bit_clear :
    (v bit k : ℕ)
    → k < 32
    → Base.test_bit (bit_and v (not_bits 32 (2 ^ bit))) k
      ≡ (if k == bit then false else Base.test_bit v k)
with_bit_clear v bit k h =
    rw (test_bit-bit_and, test_bit-not_bits k 32 (2 ^ bit) h, test_bit-two_pow) (ground arith)

-- `setBit` sets exactly the chosen bit, and that only if the write is forced or the bit is in the
-- write mask; all other bits of the register are as they were.
pub set_bit_bits :
    (ws a bit n : ℕ) (force : Bool) (regs next : RegisterFile)
    → n < 32
    → set_bit ws a bit force regs ≡ ok next
    → (r : Register) × (new : ℕ) × (find a regs ≡ ok r)
      × (find a next ≡ ok (record r { val = new }))
      × (Base.test_bit new n ≡ (
          if n == bit && (force || Base.test_bit r.write_mask n)
          then true
          else Base.test_bit r.val n))
set_bit_bits ws a bit n force regs next hn h =
    let (old, got, written) = set_bit_inv ws a bit force regs next h in
    let (r, before, allowed, after) = find-write a (bit_or old (2 ^ bit)) force regs next written in
    let same : old ≡ r.val = read_inv a regs r old before got in
    (
      r,
      stored r (bit_or old (2 ^ bit)) force,
      before,
      after,
      stored_one_bit r (bit_or old (2 ^ bit)) bit n true force hn
          (λ k hk. rw same (with_bit_set r.val bit k)),
    )

-- `clearBit` clears exactly the chosen bit, and that only if the write is forced or the bit is in
-- the write mask; all other bits of the register are as they were.
pub clear_bit_bits :
    (ws a bit n : ℕ) (force : Bool) (regs next : RegisterFile)
    → n < 32
    → clear_bit ws a bit force regs ≡ ok next
    → (r : Register) × (new : ℕ) × (find a regs ≡ ok r)
      × (find a next ≡ ok (record r { val = new }))
      × (Base.test_bit new n ≡ (
          if n == bit && (force || Base.test_bit r.write_mask n)
          then false
          else Base.test_bit r.val n))
clear_bit_bits ws a bit n force regs next hn h =
    let (q, found, written) = clear_bit_inv ws a bit force regs next h in
    let cleared = bit_and q.val (not_bits 32 (2 ^ bit)) in
    let (r, before, allowed, after) = find-write a cleared force regs next written in
    let same : q ≡ r = cc in
    (
      r,
      stored r cleared force,
      before,
      after,
      stored_one_bit r cleared bit n false force hn (λ k hk.
          with_bit_clear q.val bit k hk
          ∙ ap (λ (x : Register). if k == bit then false else Base.test_bit x.val k) same),
    )
