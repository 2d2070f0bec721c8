-- ===== src/RegisterFile/Plain.antt =====
-- Registers that may be read and written, and what keeps them so.
use fused_checkmate.Base.{
  ℕ, ◌≡◌, ◌≢◌, inl, inr, refl, subst, ◌∙◌, Bool, true, Bool-cases, ◌==◌, ==_iff, bit_and, bit_or,
  not_bits, arith, ok, ◌*◌, ◌^◌, ◌<◌, lt→ltb,
}
use fused_checkmate.RegisterFile.{
  RegisterFile, Register, find, stored, write, read, set_val, set_bit_mask, clear_bit_mask, set_bit,
  clear_bit,
}
use fused_checkmate.RegisterFile.AccessMode.{read_write}
use fused_checkmate.RegisterFile.Access.{write-ok, find-write, find-write_ne}

-- There is such a register at the address.
pub record IsPlain (a : ℕ) (regs : RegisterFile) : Type 0 where
  pub at : Register
  pub found : find a regs ≡ ok at
  pub both : at.access ≡ read_write

-- All such registers of one file are such registers of another.
abbrev pub Keeps : RegisterFile → RegisterFile → Type 0
Keeps regs next = (b : ℕ) → IsPlain b regs → IsPlain b next

pub read_plain : (a : ℕ) (regs : RegisterFile) → IsPlain a regs → (v : ℕ) × (read a regs ≡ ok v)
unfolding read
read_plain a regs p = let found = p.found in (p.at.val, rw (found, p.both) refl)

-- A write to such a register succeeds and keeps all of them.
pub write_plain :
    (a v : ℕ) (force : Bool) (regs : RegisterFile)
    → IsPlain a regs
    → (next : RegisterFile) × (write a v force regs ≡ ok next) × Keeps regs next
write_plain a v force regs p = (next, done, keeps)
  where
    next : RegisterFile
    next = set_val a (stored p.at v force) regs

    done : write a v force regs ≡ ok next
    done = write-ok a v force regs p.at p.found (rw p.both refl)

    keeps : (b : ℕ) → IsPlain b regs → IsPlain b next
    keeps b q = elim (Bool-cases (a == b)) [
      | inl e ↦
          let (r, found, allowed, after) = find-write a v force regs next done in
          let same : a ≡ b = (==_iff a b).0 e in
          let r-at : r ≡ p.at = cc (found, p.found) in
          record {
            at = record r { val = stored r v force };
            found = subst (λ x. find x next ≡ ok (record r { val = stored r v force })) same after;
            both = rw r-at p.both;
          }
      | inr e ↦ record {
        at = q.at;
        found =
            find-write_ne a v force regs next b done (λ same. ground (arith, same, e)) ∙ q.found;
        both = q.both;
      }
    ]

pub clear_plain :
    (a mask : ℕ) (force : Bool) (regs : RegisterFile)
    → IsPlain a regs
    → (next : RegisterFile) × (clear_bit_mask a mask force regs ≡ ok next) × Keeps regs next
unfolding clear_bit_mask
clear_plain a mask force regs p =
    let (v, e) = read_plain a regs p in
    rw e (write_plain a (bit_and v (not_bits 32 mask)) force regs p)

pub set_plain :
    (a mask : ℕ) (force : Bool) (regs : RegisterFile)
    → IsPlain a regs
    → (next : RegisterFile) × (set_bit_mask a mask force regs ≡ ok next) × Keeps regs next
unfolding set_bit_mask
set_plain a mask force regs p =
    let (v, e) = read_plain a regs p in rw e (write_plain a (bit_or v mask) force regs p)

-- A forced write to such a register stores the value.
pub read-write_forced :
    (a v : ℕ) (regs next : RegisterFile)
    → IsPlain a regs
    → write a v true regs ≡ ok next
    → read a next ≡ ok v
unfolding read stored
read-write_forced a v regs next p done =
    let (r, found, allowed, after) = find-write a v true regs next done in
    let found' = p.found in
    let r-at : r ≡ p.at = cc (found, found') in
    let both : r.access ≡ read_write = rw r-at p.both in rw (after, both) refl

-- Reading another register than the one that was written.
pub read-write_ne :
    (a v : ℕ) (force : Bool) (b : ℕ) (regs next : RegisterFile)
    → write a v force regs ≡ ok next
    → a ≢ b
    → read b next ≡ read b regs
unfolding read
read-write_ne a v force b regs next done ne = rw (find-write_ne a v force regs next b done ne) refl

-- A forced change of the value: it succeeds and changes that register only.
pub record Changed (a v : ℕ) (regs next : RegisterFile) : Type 0 where
  pub holds : read a next ≡ ok v
  pub others : (b : ℕ) → a ≢ b → read b next ≡ read b regs
  pub keeps : Keeps regs next

changed :
    (a v : ℕ) (regs : RegisterFile)
    → IsPlain a regs
    → (next : RegisterFile) × (write a v true regs ≡ ok next) × Changed a v regs next
changed a v regs p =
    let (next, done, keeps) = write_plain a v true regs p in
    (
      next,
      done,
      record {
        holds = read-write_forced a v regs next p done;
        others = λ b ne. read-write_ne a v true b regs next done ne;
        keeps = keeps;
      },
    )

pub set_bit_forced :
    (ws a bit v : ℕ) (regs : RegisterFile)
    → IsPlain a regs
    → read a regs ≡ ok v
    → bit < ws * 8
    → (next : RegisterFile) × (set_bit ws a bit true regs ≡ ok next)
      × Changed a (bit_or v (2 ^ bit)) regs next
unfolding set_bit
set_bit_forced ws a bit v regs p known small =
    let (next, done, change) = changed a (bit_or v (2 ^ bit)) regs p in
    let fits = lt→ltb bit (ws * 8) small in
    let found = p.found in let both = p.both in (next, rw (fits, found, both, known) done, change)

pub clear_bit_forced :
    (ws a bit v : ℕ) (regs : RegisterFile)
    → IsPlain a regs
    → read a regs ≡ ok v
    → bit < ws * 8
    → (next : RegisterFile) × (clear_bit ws a bit true regs ≡ ok next)
      × Changed a (bit_and v (not_bits 32 (2 ^ bit))) regs next
unfolding clear_bit read
clear_bit_forced ws a bit v regs p known small =
    let (next, done, change) = changed a (bit_and v (not_bits 32 (2 ^ bit))) regs p in
    let fits = lt→ltb bit (ws * 8) small in
    let found = p.found in
    let both = p.both in
    let holds : read a regs ≡ ok p.at.val = rw (found, both) refl in
    let same : p.at.val ≡ v = cc (holds, known) in (next, rw (fits, found, both, same) done, change)
