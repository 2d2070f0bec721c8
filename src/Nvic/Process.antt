-- ===== src/Nvic/Process.antt =====
-- `process`: the interrupt that the controller hands to the CPU.
use fused_checkmate.Base.{
  ℕ, ◌+◌, ◌<◌, ◌≤◌, ◌≡◌, ◌⊎◌, inl, inr, refl, ◌∙◌, ap, arith, Bool, Bool-cases, true, false, ◌&&◌,
  ◌||◌, Option-cases, some, test_bit, ok,
}
use fused_checkmate.Base.Int.{pos, negsuc}
use fused_checkmate.RegisterFile.{
  RegisterFile, Register, find, read, write, read_byte, stored, can_read, can_write,
}
use fused_checkmate.RegisterFile.Access.{write-ok, find-write, find-write_ne}
use fused_checkmate.Nvic.{
  Nvic, Inputs, Scan, process, pending_id, ofs_ipr0, ofs_ispr, ofs_icpr, word_size, except_id_base,
}
use fused_checkmate.Nvic.Priority.{IsPriority, Scanned, pended, scan_lem}

read_byte-lt : (ws a b : ℕ) (regs : RegisterFile) → read_byte ws a regs ≡ ok b → b < 256
unfolding read_byte
read_byte-lt ws a b regs h = ground arith

or_true : (b : Bool) → (b || true) ≡ true
or_true true = refl
or_true false = refl

-- A forced write to a register that is there.
forced :
    (a v : ℕ) (regs : RegisterFile) (r : Register)
    → find a regs ≡ ok r
    → (next : RegisterFile) × (write a v true regs ≡ ok next)
      × (find a next ≡ ok (record r { val = v }))
unfolding stored
forced a v regs r found =
    let done = write-ok a v true regs r found (or_true (can_write r.access)) in
    let (q, before, allowed, after) = find-write a v true regs _ done in
    let same : q ≡ r = cc in (_, done, rw (← same) after)

readable :
    (a v : ℕ) (regs : RegisterFile) (r : Register)
    → find a regs ≡ ok r
    → read a regs ≡ ok v
    → can_read r.access ≡ true
unfolding read
readable a v regs r found h = ground arith

-- Whether interrupt j is pending and enabled.
abbrev pub is_on : ℕ → ℕ → ℕ → Bool
is_on word enabled j = test_bit word j && test_bit enabled j

-- One word in two registers, forced.
both_written :
    (v : ℕ) (regs : RegisterFile) (r q : Register)
    → find ofs_ispr regs ≡ ok r
    → find ofs_icpr regs ≡ ok q
    → can_read r.access ≡ true
    → (mid next : RegisterFile) × (write ofs_ispr v true regs ≡ ok mid)
      × (write ofs_icpr v true mid ≡ ok next)
      × (read ofs_ispr next ≡ ok v)
unfolding read
both_written v regs r q found found' can =
    let (mid, wrote, at) = forced ofs_ispr v regs r found in
    let (next, wrote', at') =
      forced ofs_icpr v mid q
        (find-write_ne ofs_ispr v true regs mid ofs_icpr wrote (omega arith) ∙ found') in
    let still = find-write_ne ofs_icpr v true mid next ofs_ispr wrote' (omega arith) ∙ at in
    (mid, next, wrote, wrote', rw (still, can))

-- What the choice means for interrupt j.
choice :
    (n : Nvic) (inputs : Inputs) (prio : ℕ → ℕ) (enabled before j : ℕ) (s : Scan)
    → prio j < 4
    → j < 32
    → Scanned n inputs prio enabled before 32 s
    → (pending_id s.highest_irq ≡ negsuc 0) × (is_on s.word enabled j ≡ false)
      ⊎ (b : ℕ) × (pending_id s.highest_irq ≡ pos (except_id_base + b))
        × (b < 32)
        × (is_on s.word enabled b ≡ true)
        × ((is_on s.word enabled j ≡ false) ⊎ (prio b < prio j) ⊎ (prio b ≡ prio j) × (b ≤ j))
unfolding pending_id
choice n inputs prio enabled before j s small h d = elim (Option-cases s.highest_irq) [
  | inl e ↦ elim (Bool-cases (is_on s.word enabled j)) [
    | inl on ↦ absurd (omega (arith, small, d.idle e, d.best j h h on))
    | inr off ↦ inl (ap pending_id e, off)
  ]
  | inr (b, e) ↦
      let (inside, on, value) = d.chosen b e in
      inr (
        b,
        ap pending_id e,
        inside,
        on,
        elim (Bool-cases (is_on s.word enabled j)) [
          | inl on' ↦ inr (compared b e value on')
          | inr off ↦ inl off
        ],
      )
]
  where
    compared :
        (b : ℕ)
        → s.highest_irq ≡ some b
        → s.highest_pri ≡ prio b
        → is_on s.word enabled j ≡ true
        → (prio b < prio j) ⊎ (prio b ≡ prio j) × (b ≤ j)
    compared b e value on = grind (arith, value, d.best j h h on, d.first b j e)

-- `process` with the power on, where the registers are there: it gives the CPU an interrupt that is
-- pending and enabled, and for interrupt j, either j is not pending or not enabled, or the given
-- interrupt has a smaller priority number, or the same and not a larger index. It gives -1 only where
-- j is not pending or not enabled. ISPR holds the new pending word, in which j is pending if it is
-- set, or if it was pending and is not cleared.
pub process_lem :
    (n : Nvic) (inputs : Inputs) (prio : ℕ → ℕ) (enabled before j : ℕ) (r q : Register)
    → inputs.pwr_on ≡ true
    → IsPriority n.target.regs prio enabled
    → find ofs_ispr n.target.regs ≡ ok r
    → read ofs_ispr n.target.regs ≡ ok before
    → find ofs_icpr n.target.regs ≡ ok q
    → j < 32
    → (n' : Nvic) × (word : ℕ) × (process n inputs ≡ ok n')
      × (read ofs_ispr n'.target.regs ≡ ok word)
      × (test_bit word j ≡ pended n inputs j (test_bit before j))
      × ((n'.pending ≡ negsuc 0) × (is_on word enabled j ≡ false)
          ⊎ (b : ℕ) × (n'.pending ≡ pos (except_id_base + b))
            × (b < 32)
            × (is_on word enabled b ≡ true)
            × ((is_on word enabled j ≡ false) ⊎ (prio b < prio j) ⊎ (prio b ≡ prio j) × (b ≤ j)))
unfolding process
process_lem n inputs prio enabled before j r q on regs found got found' h =
    let (s, ran, d) = scan_lem n inputs prio enabled before 32 (omega arith) regs in
    let (mid, next, wrote, wrote', after) =
      both_written s.word n.target.regs r q found found' (readable ofs_ispr before _ r found got) in
    let (b, got_byte, value) = regs.byte j h in
    let small : prio j < 4 =
      omega (arith, value, read_byte-lt word_size (ofs_ipr0 + j) b _ got_byte) in
    (
      record {
        target = record n.target { regs = next };
        prev_irq = inputs.irq;
        prev_active = inputs.active;
        sw_clear_pending = 0;
        sw_set_pending = 0;
        pending = pending_id s.highest_irq;
      },
      s.word,
      rw (got, ran, wrote, wrote', on),
      after,
      d.low j h h,
      choice n inputs prio enabled before j s small h d,
    )
