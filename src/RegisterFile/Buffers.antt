-- ===== src/RegisterFile/Buffers.antt =====
-- Whole-word and single-byte bus accesses to a register.
use fused_checkmate.Base.{
  ℕ, ◌+◌, ◌-◌, ◌*◌, ◌/◌, ◌%◌, ◌^◌, ◌<◌, ◌≡◌, refl, ◌∙◌, ap, Bool, true, false, arith, List, [], ◌∷◌,
  ◌==◌, ==_iff, Result, ok, err, assertion, ◌>>=◌,
}
use fused_checkmate.Utilities.Packing.{pack_pair, ttohs_pair, unpack_pair}
use fused_checkmate.RegisterFile.{
  RegisterFile, Register, AccessMode, can_read, find, stored, write, read, write_byte, write_loop,
  read_loop, write_buffer, read_buffer, set_val,
}
use fused_checkmate.RegisterFile.Access.{find-write, write-ok}
use fused_checkmate.RegisterFile.Bitwise.{stored_whole}

Result_id {ℓ} : {A : Type ℓ} (m : Result A) → (m >>= λ x. ok x) ≡ m
Result_id (ok x) = refl
Result_id (err e) = refl

omega_pair :
    (b0 b1 : ℕ)
    → b0 < 256
    → b1 < 256
    → ◌≡◌ {A = Result (List ℕ)}
        (ok ((b1 * 256 + b0) % 256 ∷ (b1 * 256 + b0) / 256 % 256 ∷ []))
        (ok (b0 ∷ b1 ∷ []))
omega_pair b0 b1 h0 h1 = ground arith

-- A word of two bytes at an even address is stored as one little-endian value.
write_pair :
    (a b0 b1 : ℕ) (force : Bool) (regs : RegisterFile)
    → a % 2 ≡ 0
    → b0 < 256
    → b1 < 256
    → write_buffer 2 force a (b0 ∷ b1 ∷ []) regs ≡ write a (b1 * 256 + b0) force regs
unfolding write_buffer write_loop
write_pair a b0 b1 force regs even h0 h1 =
    let test : (a % 2 == 0) ≡ true = (==_iff _ _).1 even in
    rw (test, pack_pair b0 b1 h0 h1, ttohs_pair b0 b1 h0 h1)
      (Result_id (write a (b1 * 256 + b0) force regs))

-- What a read of two bytes at an even address gives.
read_pair :
    (junk a : ℕ) (regs : RegisterFile) (r : Register)
    → a % 2 ≡ 0
    → find a regs ≡ ok r
    → can_read r.access ≡ true
    → read_buffer 2 junk a 2 regs ≡ ok (r.val % 256 ∷ r.val / 256 % 256 ∷ [])
unfolding read_buffer read_loop read
read_pair junk a regs r even found readable =
    let test : (a % 2 == 0) ≡ true = (==_iff _ _).1 even in
    rw (test, found, readable, unpack_pair junk r.val)

-- Two bytes written to an even address, where a readable and writable register without masked bits
-- stands, are stored, and a read of two bytes there gives the same bytes in the same order,
-- whatever the conversion buffer holds.
pub read_buffer-write_buffer :
    (junk a b0 b1 : ℕ) (regs : RegisterFile) (r : Register)
    → a % 2 ≡ 0
    → b0 < 256
    → b1 < 256
    → find a regs ≡ ok r
    → r.access ≡ AccessMode.read_write
    → r.write_mask ≡ 2 ^ 32 - 1
    → r.val < 2 ^ 32
    → (next : RegisterFile) × (write_buffer 2 false a (b0 ∷ b1 ∷ []) regs ≡ ok next)
      × (read_buffer 2 junk a 2 next ≡ ok (b0 ∷ b1 ∷ []))
read_buffer-write_buffer junk a b0 b1 regs r even h0 h1 found both mask small =
    let v = b1 * 256 + b0 in
    let next = set_val a (stored r v false) regs in
    let done = write-ok a v false regs r found (rw both) in
    let (q, before, allowed, after) = find-write a v false regs next done in
    let same : q ≡ r = cc in
    let whole : stored q v false ≡ v =
      ap (λ (x : Register). stored x v false) same ∙ stored_whole r v mask (omega arith) small in
    let readable : can_read q.access ≡ true = rw (same, both) refl in
    (
      next,
      write_pair a b0 b1 false regs even h0 h1 ∙ done,
      read_pair junk a next (record q { val = stored q v false }) even after readable
          ∙ rw whole (omega_pair b0 b1 h0 h1),
    )

-- A one-byte write through the buffer interface never forces: on a register that is not writable it
-- fails the assertion, while the forced two-byte write to the same register succeeds.
pub forced_byte :
    (a b0 b1 : ℕ) (regs : RegisterFile) (r : Register)
    → a % 2 ≡ 0
    → b0 < 256
    → b1 < 256
    → find a regs ≡ ok r
    → r.access ≡ AccessMode.read_only
    → (write_buffer 2 true a (b0 ∷ []) regs ≡ err assertion)
      × (write_buffer 2 true a (b0 ∷ b1 ∷ []) regs ≡ ok (set_val a (b1 * 256 + b0) regs))
unfolding write_buffer write_loop write_byte read write stored
forced_byte a b0 b1 regs r even h0 h1 found access =
    let aligned : a - a % 2 ≡ a = omega arith in
    (
      rw (aligned, found, access) refl,
      write_pair a b0 b1 true regs even h0 h1
          ∙ write-ok a (b1 * 256 + b0) true regs r found (rw access),
    )
