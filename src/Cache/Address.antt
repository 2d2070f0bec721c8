-- ===== src/Cache/Address.antt =====
-- The fields of an address: the line it lies in, and the byte of that line.
use native.Mathlib.Nat.{
  mul-add-div_right, mul-add-mod_self_right, pow-suc, one-le-pow, mod-eq_of_lt, mod-lt,
  div-div-eq-div-mul, div-add-mod', div-lt_iff_lt-mul, pow-le-pow_right, div-eq_of_lt,
  mul-lt-mul_of_pos_right, mul_assoc,
}
use fused_checkmate.Base.{
  ℕ, zero, suc, ◌+◌, ◌-◌, ◌*◌, ◌/◌, ◌%◌, ◌^◌, ◌<◌, ◌≤◌, ◌≡◌, sym, ap, ◌∙◌, arith, bit_and, bit_or,
  not_bits, bit_or_shift, zero-bit_or,
}
use fused_checkmate.Base.Masks.{bit_and_low, bit_and_scaled, bit_or_scaled, field_lem}
use fused_checkmate.Cache.{WritePolicy, geometry, index, tag_of, offset}

pub pow-add : (a b : ℕ) → 2 ^ (a + b) ≡ 2 ^ a * 2 ^ b
pow-add zero b = let e : zero + b ≡ b = omega arith in ap (λ (k : ℕ). 2 ^ k) e ∙ omega arith
pow-add (suc a) b =
    let e : suc a + b ≡ suc (a + b) = omega arith in
    ap (λ (k : ℕ). 2 ^ k) e
    ∙ pow-suc 2 (a + b)
    ∙ ap (λ (p : ℕ). p * 2) (pow-add a b)
    ∙ omega (arith, ap (λ (p : ℕ). p * 2 ^ b) (pow-suc 2 a))

pub pow-split : (a b c : ℕ) → a + b ≡ c → 2 ^ a * 2 ^ b ≡ 2 ^ c
pow-split a b c e = sym (pow-add a b) ∙ ap (λ (k : ℕ). 2 ^ k) e

pub positive : (k : ℕ) → 0 < 2 ^ k
positive k = omega (arith, one-le-pow k 2 (omega arith))

pub pred_mul : (x p : ℕ) → 0 < x → (x - 1) * p + p ≡ x * p
pred_mul zero p h = absurd (omega arith)
pred_mul (suc x) p h =
    let e : suc x - 1 ≡ x = omega arith in ap (λ (k : ℕ). k * p + p) e ∙ omega arith

pub below : (a k : ℕ) → k ≤ 32 → a < 2 ^ 32 → a / 2 ^ k < 2 ^ (32 - k)
below a k h small =
    (div-lt_iff_lt-mul (positive k)).1 (omega (arith, pow-split (32 - k) k 32 (omega arith)))

-- A byte later in the same line.
pub near_lem :
    (o a y : ℕ)
    → a % 2 ^ o + y < 2 ^ o
    → ((a + y) / 2 ^ o ≡ a / 2 ^ o) × ((a + y) % 2 ^ o ≡ a % 2 ^ o + y)
near_lem o a y room =
    let q = a / 2 ^ o in
    let r = a % 2 ^ o in
    let e : a + y ≡ q * 2 ^ o + (r + y) = omega (arith, div-add-mod' a (2 ^ o)) in
    (
      ap (λ (x : ℕ). x / 2 ^ o) e
          ∙ mul-add-div_right (positive o) q (r + y)
          ∙ omega (arith, div-eq_of_lt room),
      ap (λ (x : ℕ). x % 2 ^ o) e ∙ mul-add-mod_self_right q (2 ^ o) (r + y) ∙ mod-eq_of_lt room,
    )

-- `~(2 ^ k - 1)` on 32 bits
high_mask : (k : ℕ) → k ≤ 32 → not_bits 32 (2 ^ k - 1) ≡ (2 ^ (32 - k) - 1) * 2 ^ k
high_mask k h =
    let whole = pow-split (32 - k) k 32 (omega arith) in
    let small : (2 ^ k - 1) % 2 ^ 32 ≡ 2 ^ k - 1 =
      mod-eq_of_lt (omega (arith, positive k, pow-le-pow_right {n = 2} (omega arith) h)) in
    omega (arith, small, pred_mul (2 ^ (32 - k)) (2 ^ k) (positive (32 - k)), positive k)

module _ (o i n : ℕ) (wp : WritePolicy) (fits : o + i ≤ 32) where
  pub offset_lem : (a : ℕ) → offset (geometry o i n wp) a ≡ a % 2 ^ o
  unfolding offset geometry
  offset_lem a = bit_and_low o a

  id_small : (2 ^ i - 1) * 2 ^ o % 2 ^ 32 ≡ (2 ^ i - 1) * 2 ^ o
  id_small =
      let room = pow-le-pow_right {n = 2} (omega arith) {i = i + o} {j = 32} (omega arith) in
      mod-eq_of_lt
        (omega (arith, pred_mul (2 ^ i) (2 ^ o) (positive i), pow-add i o, positive o, room))

  pub index_lem : (a : ℕ) → index (geometry o i n wp) a ≡ a / 2 ^ o % 2 ^ i
  unfolding index geometry
  index_lem a = ap (λ (m : ℕ). bit_and a m / 2 ^ o) id_small ∙ field_lem i o a

  masks_lem : bit_or (2 ^ o - 1) ((2 ^ i - 1) * 2 ^ o) ≡ 2 ^ (o + i) - 1
  masks_lem =
      let low : 2 ^ o - 1 < 2 ^ o = omega (arith, positive o) in
      let split : 2 ^ i * 2 ^ o ≡ 2 ^ (o + i) = pow-split i o (o + i) (omega arith) in
      let high : bit_or ((2 ^ o - 1) / 2 ^ o) (2 ^ i - 1) * 2 ^ o ≡ (2 ^ i - 1) * 2 ^ o =
        ap (λ (t : ℕ). bit_or t (2 ^ i - 1) * 2 ^ o) (div-eq_of_lt low)
        ∙ ap (λ (t : ℕ). t * 2 ^ o) (zero-bit_or (2 ^ i - 1)) in
      omega (
        arith,
        bit_or_scaled o (2 ^ o - 1) (2 ^ i - 1),
        high,
        mod-eq_of_lt low,
        pred_mul (2 ^ i) (2 ^ o) (positive i),
        split,
        positive o,
      )

  pub tag_lem : (a : ℕ) → a < 2 ^ 32 → tag_of (geometry o i n wp) a ≡ a / 2 ^ o / 2 ^ i
  unfolding tag_of geometry
  tag_lem a h =
      ap (λ (m : ℕ). bit_and a (not_bits 32 (bit_or (2 ^ o - 1) m)) / 2 ^ (o + i)) id_small
      ∙ ap (λ (m : ℕ). bit_and a (not_bits 32 m) / 2 ^ (o + i)) masks_lem
      ∙ ap (λ (m : ℕ). bit_and a m / 2 ^ (o + i)) (high_mask (o + i) fits)
      ∙ field_lem (32 - (o + i)) (o + i) a
      ∙ mod-eq_of_lt (below a (o + i) fits h)
      ∙ ap (λ (m : ℕ). a / m) (pow-add o i)
      ∙ sym (div-div-eq-div-mul a (2 ^ o) (2 ^ i))

  -- The address that a line is read from.
  pub read_base_lem : (a : ℕ) → a < 2 ^ 32 → bit_and a (not_bits 32 (2 ^ o - 1)) ≡ a / 2 ^ o * 2 ^ o
  read_base_lem a h =
      ap (bit_and a) (high_mask o (omega arith))
      ∙ bit_and_scaled o a (2 ^ (32 - o) - 1)
      ∙ ap (λ (t : ℕ). t * 2 ^ o)
          (bit_and_low (32 - o) (a / 2 ^ o) ∙ mod-eq_of_lt (below a o (omega arith) h))

  -- The address that a line is written back to.
  pub write_base_lem :
      (l : ℕ)
      → l * 2 ^ o < 2 ^ 32
      → bit_or (l / 2 ^ i * 2 ^ (o + i) % 2 ^ 32) (l % 2 ^ i * 2 ^ o % 2 ^ 32) ≡ l * 2 ^ o
  write_base_lem l h =
      let split = pow-split i o (o + i) (omega arith) in
      let high : l / 2 ^ i * 2 ^ (o + i) ≡ l / 2 ^ i * 2 ^ i * 2 ^ o =
        ap (λ (p : ℕ). l / 2 ^ i * p) (sym split) ∙ sym (mul_assoc (l / 2 ^ i) (2 ^ i) (2 ^ o)) in
      let whole : l / 2 ^ i * 2 ^ i * 2 ^ o + l % 2 ^ i * 2 ^ o ≡ l * 2 ^ o =
        omega (arith, ap (λ (k : ℕ). k * 2 ^ o) (div-add-mod' l (2 ^ i))) in
      let low : l % 2 ^ i * 2 ^ o < 2 ^ (o + i) =
        omega (
          arith,
          split,
          mul-lt-mul_of_pos_right (mod-lt l {m = 2 ^ i} (positive i)) (positive o),
        ) in
      let high' = mod-eq_of_lt {n = l / 2 ^ i * 2 ^ (o + i)} {m = 2 ^ 32} (omega arith) in
      let low' = mod-eq_of_lt {n = l % 2 ^ i * 2 ^ o} {m = 2 ^ 32} (omega arith) in
      rw (high', low') (bit_or_shift (o + i) (l / 2 ^ i) _ low ∙ omega arith)
