-- ===== src/Msp430Cpu/Memory.antt =====
-- Word accesses of the CPU where memory stands behind its bus socket.
use native.Mathlib.Nat.{mod-eq_of_lt}
use fused_checkmate.Base.{
  ℕ, true, ◌&&◌, ◌-◌, refl, leb, ltb, ◌+◌, ◌*◌, ◌/◌, ◌%◌, ◌^◌, ◌<◌, ◌≡◌, ◌≢◌, ◌∙◌, ap, arith, List,
  [], ◌∷◌, Result, ok, err,
}
use fused_checkmate.Utilities.{pack_bytes, unpack_bytes, htots, ttohs}
use fused_checkmate.Utilities.Packing.{pack_pair, ttohs_pair, unpack_pair}
use fused_checkmate.BusTarget.Cells.{cells, overwrite}
use fused_checkmate.BusTarget.Contract.{IsMemory}
use fused_checkmate.Msp430Cpu.State.{
  Cpu, BusPort, bind_ok, read_mem, write_mem, read16, write16, lift,
}

-- The second of two bytes written.
next_byte : (f : ℕ → ℕ) (a b0 b1 : ℕ) → overwrite f a (b0 ∷ b1 ∷ []) (a + 1) ≡ b1
unfolding overwrite
next_byte f a b0 b1 =
    let index : a + 1 - a ≡ 1 = omega arith in
    let inside : (leb a (a + 1) && ltb (a + 1) (a + 2)) ≡ true = ground arith in
    rw (inside, index) refl

module _ {S : Type 0} ⦃port : BusPort S⦄ (mem : IsMemory port) where
  open mem use {IsState, cell, covers, cell_byte, read_lem, write_lem}

  -- The little-endian word at an address.
  abbrev pub word_at : S → ℕ → ℕ
  word_at s a = cell s (a + 1) * 256 + cell s a

  read_mem_lem :
      (a : ℕ) (bytes : List ℕ) (c : Cpu S) (s : S)
      → a < 2 ^ 32
      → port.b_read c.bus a 2 ≡ ok (bytes, s)
      → read_mem a 2 c ≡ ok (bytes, record c { bus = s })
  unfolding read_mem
  read_mem_lem a bytes c s h e = ap after (ap (λ x. port.b_read c.bus x 2) (mod-eq_of_lt h) ∙ e)
    where
      after : Result (List ℕ × S) → Result (List ℕ × Cpu S)
      after r = elim r [ ok (bytes, bus') ↦ ok (bytes, record c { bus = bus' }) | err e ↦ err e ]

  write_mem_lem :
      (a : ℕ) (bytes : List ℕ) (c : Cpu S) (s : S)
      → a < 2 ^ 32
      → port.b_write c.bus a bytes ≡ ok s
      → write_mem a bytes c ≡ ok (tt, record c { bus = s })
  unfolding write_mem
  write_mem_lem a bytes c s h e =
      ap after (ap (λ x. port.b_write c.bus x bytes) (mod-eq_of_lt h) ∙ e)
    where
      after : Result S → Result (Unit {0} × Cpu S)
      after r = elim r [ ok bus' ↦ ok (tt, record c { bus = bus' }) | err e ↦ err e ]

  -- A word that the bus serves is read; the bus may change, but not its cells.
  pub read16_lem :
      (a : ℕ) (c : Cpu S)
      → a < 2 ^ 32
      → IsState c.bus
      → covers a 2 ≡ true
      → (s : S) × (read16 a c ≡ ok (word_at c.bus a, record c { bus = s }))
        × IsState s
        × ((x : ℕ) → cell s x ≡ cell c.bus x)
  unfolding read16 cells
  read16_lem a c h is covered =
      let low = cell_byte c.bus a is in
      let high = cell_byte c.bus (a + 1) is in
      let (s, got, is', same) = read_lem c.bus a 2 is covered in
      let bytes = cell c.bus a ∷ cell c.bus (a + 1) ∷ [] in
      let c' : Cpu S = record c { bus = s } in
      let packed = cell c.bus a * 256 + cell c.bus (a + 1) in
      let value : ttohs packed % 2 ^ 16 ≡ word_at c.bus a =
        omega (arith, ttohs_pair _ _ low high, low, high) in
      (
        s,
        bind_ok (read_mem a 2) _ c c' bytes (read_mem_lem a bytes c s h got)
            ∙ bind_ok (lift (pack_bytes bytes)) _ c' c' packed
                (ap (λ r. lift r c') (pack_pair _ _ low high))
            ∙ ap (λ v. ok (v, c')) value,
        is',
        same,
      )

  -- Where a word has been written it is read back, and the other cells are as they were.
  pub write16_lem :
      (a v : ℕ) (c : Cpu S)
      → a < 2 ^ 32
      → v < 2 ^ 16
      → IsState c.bus
      → covers a 2 ≡ true
      → (s : S) × (write16 a v c ≡ ok (tt, record c { bus = s }))
        × IsState s
        × (word_at s a ≡ v)
        × ((x : ℕ) → x ≢ a → x ≢ a + 1 → cell s x ≡ cell c.bus x)
  unfolding write16 overwrite
  write16_lem a v c ha hv is covered =
      let b0 = v % 256 in
      let b1 = v / 256 % 256 in
      let (s, wrote, is', now) =
        write_lem c.bus a (b0 ∷ b1 ∷ []) is (omega arith, (omega arith, tt)) covered in
      let low : cell s a ≡ b0 = now a ∙ ground arith in
      let high : cell s (a + 1) ≡ b1 = now (a + 1) ∙ next_byte (cell c.bus) a b0 b1 in
      (
        s,
        bind_ok (lift (unpack_bytes (htots 0 v) 2)) (write_mem a) c c (b0 ∷ b1 ∷ [])
              (ap (λ r. lift r c) (unpack_pair 0 v))
            ∙ write_mem_lem a (b0 ∷ b1 ∷ []) c s ha wrote,
        is',
        omega (arith, low, high),
        λ x h₁ h₂. now x ∙ ground arith,
      )
