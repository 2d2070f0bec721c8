-- ===== src/Mpy32/Product.antt =====
-- The unsigned product of two 16-bit operands.
use native.Mathlib.Nat.{mod-eq_of_lt, mul-le-mul}
use fused_checkmate.Base.{
  ℕ, zero, suc, sym, ◌∙◌, subst, ltb, bit_and, not_bits, test_bit, zero_bits, test_bit_ext,
  bit_and-two_pow, Bool-cases, lt→ltb, ==_iff, inl, inr, test_bit-bit_and, bit_and-le_left, ◌||◌,
  ◌==◌, ◌+◌, ◌-◌, ◌*◌, ◌/◌, ◌%◌, ◌^◌, ◌<◌, ◌≤◌, ◌≡◌, refl, ap, arith, true, false, [], ◌∷◌, ok,
}
use fused_checkmate.Base.Masks.{clear_here, bit_and_scaled, bit_and_low}
use fused_checkmate.RegisterFile.{
  RegisterFile, Register, read, write, find, find_if, set_val, stored, clear_bit,
}
use fused_checkmate.RegisterFile.AccessMode.{read_write}
use fused_checkmate.RegisterFile.Bitwise.{stored_whole}
use fused_checkmate.Mpy32.{
  process, process_powered, multiply, mpy_short, clear_bits, read16, word, write_low, write_carry,
}

abbrev plain : ℕ → ℕ → Register
plain address v = record {
  addr = address;
  val = v;
  reset_value = 0;
  write_mask = 2 ^ 32 - 1;
  access = read_write;
}

-- The registers of a device at 0x4c0 to 0x4ef: two operands, the results RESLO, RESHI, RES0 and RES1,
-- SUMEXT, the control register, and any values in the rest.
abbrev pub operands : (ℕ → ℕ) → ℕ → ℕ → ℕ → ℕ → ℕ → ℕ → ℕ → ℕ → RegisterFile
operands rest ctl sum a b low high res0 res1 =
    plain 0x00 a
    ∷ plain 0x02 (rest 0x02)
    ∷ plain 0x04 (rest 0x04)
    ∷ plain 0x06 (rest 0x06)
    ∷ plain 0x08 b
    ∷ plain 0x0a low
    ∷ plain 0x0c high
    ∷ plain 0x0e sum
    ∷ plain 0x10 (rest 0x10)
    ∷ plain 0x12 (rest 0x12)
    ∷ plain 0x14 (rest 0x14)
    ∷ plain 0x16 (rest 0x16)
    ∷ plain 0x18 (rest 0x18)
    ∷ plain 0x1a (rest 0x1a)
    ∷ plain 0x1c (rest 0x1c)
    ∷ plain 0x1e (rest 0x1e)
    ∷ plain 0x20 (rest 0x20)
    ∷ plain 0x22 (rest 0x22)
    ∷ plain 0x24 res0
    ∷ plain 0x26 res1
    ∷ plain 0x28 (rest 0x28)
    ∷ plain 0x2a (rest 0x2a)
    ∷ plain 0x2c ctl
    ∷ plain 0x2e (rest 0x2e)
    ∷ []

store_word :
    (address old v : ℕ) → old < 2 ^ 16 → v < 2 ^ 16 → stored (plain address old) v false ≡ v
store_word address old v few small =
    stored_whole (plain address old) v refl (omega arith) (omega arith)

-- The loop that clears a register clears each bit below n, and sets none.
clear_lem :
    (ofs : ℕ) (file : ℕ → RegisterFile)
    (step : (bit v : ℕ)
      → bit < 16
      → v < 2 ^ 16
      → clear_bit 2 ofs bit false (file v) ≡ ok (file (bit_and v (not_bits 32 (2 ^ bit)))))
    (n v : ℕ)
    → n ≤ 16
    → v < 2 ^ 16
    → (v' : ℕ) × (clear_bits ofs n (file v) ≡ ok (file v'))
      × (v' < 2 ^ 16)
      × ((k : ℕ) → k < 32 → test_bit v k ≡ false → test_bit v' k ≡ false)
      × ((k : ℕ) → k < n → test_bit v' k ≡ false)
unfolding clear_bits
clear_lem ofs file step zero v room small =
    (v, refl, small, λ k h e. e, λ k h. absurd (omega (arith, h)))
clear_lem ofs file step (suc n) v room small =
    let w = bit_and v (not_bits 32 (2 ^ n)) in
    let few : w < 2 ^ 16 = omega (arith, bit_and-le_left v (not_bits 32 (2 ^ n)), small) in
    let (v', done, bound, kept, cleared) = clear_lem ofs file step n w (omega arith) few in
    let here : test_bit v' n ≡ false = kept n (omega arith) (clear_here v n (omega arith)) in
    (
      v',
      rw (step n v (omega arith) small) done,
      bound,
      λ k h e. kept k h (rw (test_bit-bit_and k v (not_bits 32 (2 ^ n)), e) refl),
      below v' n here cleared,
    )
  where
    below :
        (v' n : ℕ)
        → test_bit v' n ≡ false
        → ((k : ℕ) → k < n → test_bit v' k ≡ false)
        → (k : ℕ) → k < suc n
        → test_bit v' k ≡ false
    below v' n here cleared k h = elim (Bool-cases (k == n)) [
      | inl e ↦ subst (λ x. test_bit v' x ≡ false) (sym ((==_iff k n).0 e)) here
      | inr e ↦ cleared k (ground (arith, h, e))
    ]

cleared_all :
    (ofs : ℕ) (file : ℕ → RegisterFile)
    (step : (bit v : ℕ)
      → bit < 16
      → v < 2 ^ 16
      → clear_bit 2 ofs bit false (file v) ≡ ok (file (bit_and v (not_bits 32 (2 ^ bit)))))
    (v : ℕ)
    → v < 2 ^ 16
    → clear_bits ofs 16 (file v) ≡ ok (file 0)
cleared_all ofs file step v small =
    let (v', done, bound, kept, cleared) = clear_lem ofs file step 16 v (omega arith) small in
    let none_left : v' ≡ 0 =
      test_bit_ext 16 v' 0 bound (omega arith) (λ k h. cleared k h ∙ sym (zero_bits k)) in
    done ∙ ap (λ (x : ℕ). ok (file x)) none_left

-- The control register with its carry bit cleared.
carry_lem : (ctl : ℕ) → ctl < 2 ^ 16 → bit_and ctl (not_bits 32 1) ≡ ctl / 2 * 2
carry_lem ctl small =
    bit_and_scaled 1 ctl (2 ^ 31 - 1)
    ∙ ap (λ (x : ℕ). x * 2 ^ 1) (bit_and_low 31 (ctl / 2 ^ 1))
    ∙ omega (arith, small)

-- The control register selects the unsigned multiplication of words.
record IsMpy (ctl : ℕ) : Type 0 where
  long : (ltb 0 (bit_and ctl 0x40) || ltb 0 (bit_and ctl 0x80)) ≡ false
  plainly : ltb 0 (bit_and ctl 0x20) ≡ false
  unsigned : ltb 0 (bit_and ctl 0x10) ≡ false

mode_lem : (ctl : ℕ) → ctl / 2 ^ 4 % 16 ≡ 0 → IsMpy ctl
mode_lem ctl clear =
    let sixteenth : ctl / 2 / 2 / 2 / 2 % 16 ≡ 0 = omega (arith, clear) in
    let bit_4 : test_bit ctl 4 ≡ false = ground (arith, sixteenth) in
    let bit_5 : test_bit ctl 5 ≡ false = ground (arith, sixteenth) in
    let bit_6 : test_bit ctl 6 ≡ false = ground (arith, sixteenth) in
    let bit_7 : test_bit ctl 7 ≡ false = ground (arith, sixteenth) in
    let is_64 = sym (bit_and-two_pow 6 ctl) ∙ bit_6 in
    let is_128 = sym (bit_and-two_pow 7 ctl) ∙ bit_7 in
    record {
      long = ap (λ b. b || ltb 0 (bit_and ctl 0x80)) is_64 ∙ is_128;
      plainly = sym (bit_and-two_pow 5 ctl) ∙ bit_5;
      unsigned = sym (bit_and-two_pow 4 ctl) ∙ bit_4;
    }

module _ (rest : ℕ → ℕ) (ctl : ℕ) where
  clear_high :
      (sum a b low high r0 r1 : ℕ)
      → r1 < 2 ^ 16
      → clear_bits 0x26 16 (operands rest ctl sum a b low high r0 r1)
        ≡ ok (operands rest ctl sum a b low high r0 0)
  unfolding clear_bit write find find_if set_val
  clear_high sum a b low high r0 r1 small =
      cleared_all 0x26 (operands rest ctl sum a b low high r0) step r1 small
    where
      step :
          (bit v : ℕ)
          → bit < 16
          → v < 2 ^ 16
          → clear_bit 2 0x26 bit false (operands rest ctl sum a b low high r0 v)
            ≡ ok (operands rest ctl sum a b low high r0 (bit_and v (not_bits 32 (2 ^ bit))))
      step bit v fits few = rw (lt→ltb bit 16 fits) (
          ap (λ (x : ℕ). ok (operands rest ctl sum a b low high r0 x))
            (store_word 0x26 v (bit_and v (not_bits 32 (2 ^ bit))) few
              (omega (arith, bit_and-le_left v (not_bits 32 (2 ^ bit)), few))))

  clear_low :
      (sum a b low high r0 r1 : ℕ)
      → r0 < 2 ^ 16
      → clear_bits 0x24 16 (operands rest ctl sum a b low high r0 r1)
        ≡ ok (operands rest ctl sum a b low high 0 r1)
  unfolding clear_bit write find find_if set_val
  clear_low sum a b low high r0 r1 small =
      cleared_all 0x24 (λ v. operands rest ctl sum a b low high v r1) step r0 small
    where
      step :
          (bit v : ℕ)
          → bit < 16
          → v < 2 ^ 16
          → clear_bit 2 0x24 bit false (operands rest ctl sum a b low high v r1)
            ≡ ok (operands rest ctl sum a b low high (bit_and v (not_bits 32 (2 ^ bit))) r1)
      step bit v fits few = rw (lt→ltb bit 16 fits) (
          ap (λ (x : ℕ). ok (operands rest ctl sum a b low high x r1))
            (store_word 0x24 v (bit_and v (not_bits 32 (2 ^ bit))) few
              (omega (arith, bit_and-le_left v (not_bits 32 (2 ^ bit)), few))))

  write_product :
      (res sum a b low high : ℕ)
      → write_low res (operands rest ctl sum a b low high 0 0)
        ≡ ok (operands rest ctl sum a b low high (word 0 res) (word 1 res))
  unfolding write_low write find find_if set_val word
  write_product res sum a b low high =
      let lowest : res / 2 ^ (16 * 0) % 2 ^ 16 < 2 ^ 16 = omega arith in
      let highest : res / 2 ^ (16 * 1) % 2 ^ 16 < 2 ^ 16 = omega arith in
      rw
        (
          store_word 0x26 0 (res / 2 ^ (16 * 1) % 2 ^ 16) (omega arith) highest,
          store_word 0x24 0 (res / 2 ^ (16 * 0) % 2 ^ 16) (omega arith) lowest,
        )
        refl

  write_carry_lem :
      (sum a b low high r0 r1 : ℕ)
      → sum < 2 ^ 16
      → ctl < 2 ^ 16
      → write_carry ctl 0 false (operands rest ctl sum a b low high r0 r1)
        ≡ ok (operands rest (ctl / 2 * 2) 0 a b low high r0 r1)
  unfolding write_carry write find find_if set_val
  write_carry_lem sum a b low high r0 r1 small few =
      rw (carry_lem ctl few, store_word 0x0e sum 0 small (omega arith))
        (ap (λ (x : ℕ). ok (operands rest x 0 a b low high r0 r1))
          (store_word 0x2c ctl (ctl / 2 * 2) few (omega arith)))

  mpy_lem :
      (sum a b low high r0 r1 : ℕ)
      → ctl < 2 ^ 16
      → sum < 2 ^ 16
      → r0 < 2 ^ 16
      → r1 < 2 ^ 16
      → (let res = a % 2 ^ 16 * (b % 2 ^ 16) in
          mpy_short false ctl (operands rest ctl sum a b low high r0 r1)
          ≡ ok (operands rest (ctl / 2 * 2) 0 a b low high (word 0 res) (word 1 res)))
  unfolding mpy_short read find find_if
  mpy_lem sum a b low high r0 r1 few small fits0 fits1 =
      let res = a % 2 ^ 16 * (b % 2 ^ 16) in
      rw
        (
          clear_high sum a b low high r0 r1 fits1,
          clear_low sum a b low high r0 0 fits0,
          write_product res sum a b low high,
        )
        (write_carry_lem sum a b low high (word 0 res) (word 1 res) small few)

  -- The copies of the result.
  write_copies :
      (sum a b low high r0 r1 : ℕ)
      → low < 2 ^ 16
      → high < 2 ^ 16
      → r0 < 2 ^ 16
      → r1 < 2 ^ 16
      → (write 0x0a r0 false (operands rest ctl sum a b low high r0 r1)
          ≡ ok (operands rest ctl sum a b r0 high r0 r1))
        × (write 0x0c r1 false (operands rest ctl sum a b r0 high r0 r1)
            ≡ ok (operands rest ctl sum a b r0 r1 r0 r1))
  unfolding write find find_if set_val
  write_copies sum a b low high r0 r1 few small fits0 fits1 = (
    ap (λ (x : ℕ). ok (operands rest ctl sum a b x high r0 r1)) (store_word 0x0a low r0 few fits0),
    ap (λ (x : ℕ). ok (operands rest ctl sum a b r0 x r0 r1)) (store_word 0x0c high r1 small fits1),
  )

product_words :
    (a b : ℕ)
    → a < 2 ^ 16
    → b < 2 ^ 16
    → (let res = a % 2 ^ 16 * (b % 2 ^ 16) in
        (word 0 res < 2 ^ 16) × (word 1 res < 2 ^ 16) × (word 1 res * 2 ^ 16 + word 0 res ≡ a * b))
unfolding word
product_words a b ha hb =
    let ea : a % 2 ^ 16 ≡ a = mod-eq_of_lt ha in
    let eb : b % 2 ^ 16 ≡ b = mod-eq_of_lt hb in
    let same : a % 2 ^ 16 * (b % 2 ^ 16) ≡ a * b = rw (ea, eb) refl in
    let room : a * b ≤ 0xffff * 0xffff =
      mul-le-mul {n₁ = a} {m₁ = b} {n₂ = 0xffff} {m₂ = 0xffff} (omega arith) (omega arith) in
    (omega arith, omega arith, omega (arith, same, room))

-- A 16-bit unsigned multiplication, which the control register selects with its bits 4 to 7 clear,
-- succeeds whatever 16-bit values the result registers and SUMEXT held before, and whatever the
-- registers held that take no part: it leaves the high word of the product in RES1 and RESHI, the low
-- word in RES0 and RESLO, zero in SUMEXT, and the control register without the carry bit, and all
-- other registers as they were.
pub process-product :
    (rest : ℕ → ℕ) (ctl sum a b low high res0 res1 : ℕ)
    → ctl < 2 ^ 16
    → ctl / 2 ^ 4 % 16 ≡ 0
    → a < 2 ^ 16
    → b < 2 ^ 16
    → sum < 2 ^ 16
    → low < 2 ^ 16
    → high < 2 ^ 16
    → res0 < 2 ^ 16
    → res1 < 2 ^ 16
    → (low' : ℕ) × (high' : ℕ) × (process true (operands rest ctl sum a b low high res0 res1)
        ≡ ok (operands rest (ctl / 2 * 2) 0 a b low' high' low' high'))
      × (high' * 2 ^ 16 + low' ≡ a * b)
      × (low' < 2 ^ 16)
      × (high' < 2 ^ 16)
unfolding process process_powered multiply read16 read find find_if
process-product rest ctl sum a b low high res0 res1 few clear ha hb hs hl hh h0 h1 =
    let mode = mode_lem ctl clear in
    let long = mode.long in
    let plainly = mode.plainly in
    let unsigned = mode.unsigned in
    let ec : ctl % 2 ^ 16 ≡ ctl = mod-eq_of_lt few in
    let res = a % 2 ^ 16 * (b % 2 ^ 16) in
    let (low-lt, high-lt, value) = product_words a b ha hb in
    let copies =
      write_copies rest (ctl / 2 * 2) 0 a b low high (word 0 res) (word 1 res) hl hh low-lt
        high-lt in
    (
      word 0 res,
      word 1 res,
      rw
          (
            ec,
            long,
            plainly,
            unsigned,
            mpy_lem rest ctl sum a b low high res0 res1 few hs h0 h1,
            copies.0,
          )
          (copies.1),
      value,
      low-lt,
      high-lt,
    )
