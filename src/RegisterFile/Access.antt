-- ===== src/RegisterFile/Access.antt =====
-- Reading back what was written, and what a write leaves alone.
use fused_checkmate.Base.{
  ℕ, ◌≡◌, ◌≢◌, refl, ap, ◌∙◌, if◌then◌else◌, Bool, true, false, ◌||◌, some, [], ◌∷◌, arith, ok,
}
use fused_checkmate.RegisterFile.{
  RegisterFile, Register, can_write, find_if, find, set_val, stored, write, reset, reset_register,
}

find_if-set_val_self :
    (a v : ℕ) (regs : RegisterFile) (r : Register)
    → find_if a regs ≡ some r
    → find_if a (set_val a v regs) ≡ some (record r { val = v })
unfolding find_if set_val
find_if-set_val_self a v [] r h = cc
find_if-set_val_self a v (s ∷ regs) r h = ground (arith, find_if-set_val_self a v regs r)

find_if-set_val_ne :
    (a b v : ℕ) (regs : RegisterFile) → a ≢ b → find_if b (set_val a v regs) ≡ find_if b regs
unfolding find_if set_val
find_if-set_val_ne a b v [] h = refl
find_if-set_val_ne a b v (s ∷ regs) h = ground (arith, find_if-set_val_ne a b v regs h)

-- The register that `write` addresses, and what the file holds afterwards.
pub write_inv :
    (a v : ℕ) (force : Bool) (regs next : RegisterFile)
    → write a v force regs ≡ ok next
    → (r : Register) × (find_if a regs ≡ some r)
      × ((can_write r.access || force) ≡ true)
      × (next ≡ set_val a (stored r v force) regs)
unfolding write find stored
write_inv a v force regs next h = ground arith

-- What `find` gives after a write.
pub find-write :
    (a v : ℕ) (force : Bool) (regs next : RegisterFile)
    → write a v force regs ≡ ok next
    → (r : Register) × (find a regs ≡ ok r)
      × ((can_write r.access || force) ≡ true)
      × (find a next ≡ ok (record r { val = stored r v force }))
unfolding find
find-write a v force regs next h =
    let (r, found, allowed, e) = write_inv a v force regs next h in
    (r, rw found, allowed, rw (e, find_if-set_val_self a (stored r v force) regs r found))

pub find-write_ne :
    (a v : ℕ) (force : Bool) (regs next : RegisterFile) (b : ℕ)
    → write a v force regs ≡ ok next
    → a ≢ b
    → find b next ≡ find b regs
unfolding find
find-write_ne a v force regs next b h ne =
    let (r, found, allowed, e) = write_inv a v force regs next h in
    rw (e, find_if-set_val_ne a b (stored r v force) regs ne)

reset-set_val : (a v : ℕ) (regs : RegisterFile) → reset (set_val a v regs) ≡ reset regs
unfolding reset set_val
reset-set_val a v [] = refl
reset-set_val a v (r ∷ regs) = ground (arith, reset-set_val a v regs)

find-reset :
    (b : ℕ) (regs : RegisterFile) (r : Register)
    → find b regs ≡ ok r
    → find b (reset regs) ≡ ok (record r { val = r.reset_value })
unfolding find find_if reset reset_register
find-reset b [] r h = cc
find-reset b (x ∷ regs) r h = ground (arith, h, find-reset b regs r)

forced_value : (r : Register) (v : ℕ) (force : Bool) → (if force then stored r v force else v) ≡ v
unfolding stored
forced_value r v true = refl
forced_value r v false = refl

-- After a successful write, the register at its address differs in its value alone, and holds the
-- value written if the write was forced; and reset undoes the write, forced or not: `reset` gives
-- the same register file as it gives before the write, in which each register that is there holds
-- its reset value, and has the reset value, the write mask and the access mode that it had.
pub reset-write :
    (a v b : ℕ) (force : Bool) (regs next : RegisterFile) (r : Register)
    → write a v force regs ≡ ok next
    → find b regs ≡ ok r
    → (reset next ≡ reset regs)
      × (find b (reset next) ≡ ok (record r { val = r.reset_value }))
      × (old : Register) × (new : ℕ) × (find a regs ≡ ok old)
      × (find a next ≡ ok (record old { val = new }))
      × ((if force then new else v) ≡ v)
reset-write a v b force regs next r h there =
    let (old, found, allowed, e) = write_inv a v force regs next h in
    let undone : reset next ≡ reset regs = rw e (reset-set_val a (stored old v force) regs) in
    let (at, before, may, after) = find-write a v force regs next h in
    (
      undone,
      ap (find b) undone ∙ find-reset b regs r there,
      at,
      stored at v force,
      before,
      after,
      forced_value at v force,
    )

-- A write to a register that is there and may be written succeeds.
pub write-ok :
    (a v : ℕ) (force : Bool) (regs : RegisterFile) (r : Register)
    → find a regs ≡ ok r
    → (can_write r.access || force) ≡ true
    → write a v force regs ≡ ok (set_val a (stored r v force) regs)
unfolding write
write-ok a v force regs r found allowed = rw (found, allowed)
