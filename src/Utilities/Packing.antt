-- ===== src/Utilities/Packing.antt =====
-- Packing and unpacking bytes are inverse, and so are the byte-order conversions.
use mathlib.Core.List.{append-nil}
use native.Mathlib.Nat.{
  pow-suc, pow-le-pow_right, one-le-pow, div-div-eq-div-mul, mod-eq_of_lt, mul_comm,
}
use fused_checkmate.Base.{
  ℕ, zero, suc, ◌+◌, ◌*◌, ◌/◌, ◌%◌, ◌^◌, ◌<◌, ◌≤◌, ◌≡◌, refl, ap, ◌∙◌, List, [], ◌∷◌, ◌++◌, arith,
  length, bit_or_shift, ok, lt→ltb, ◌>>=◌,
}
use fused_checkmate.Utilities.{
  pack_loop, unpack_loop, pack_bytes, unpack_bytes, htots, ttohs, htotl, ttohl,
}

abbrev pub Bytes : List ℕ → Type 0
Bytes [] = Unit {0}
Bytes (b ∷ bs) = (b < 256) × Bytes bs

-- The number that bytes stand for, the first one the most significant.
pack_value : ℕ → List ℕ → ℕ
pack_value res [] = res
pack_value res (b ∷ bs) = pack_value (res * 256 + b) bs

pack_loop-eq-pack_value :
    (res : ℕ) (bs : List ℕ)
    → Bytes bs
    → (res + 1) * 256 ^ length bs ≤ 2 ^ 64
    → pack_loop res bs ≡ pack_value res bs
unfolding pack_loop pack_value
pack_loop-eq-pack_value res [] h room = refl
pack_loop-eq-pack_value res (b ∷ bs) (hb, h) room =
    let p = 256 ^ length bs in
    let room' : (res * 256 + 256) * p ≤ 2 ^ 64 =
      omega (arith, ap (λ (t : ℕ). (res + 1) * t) (pow-suc 256 (length bs))) in
    let one : 1 ≤ p = one-le-pow (length bs) 256 (omega arith) in
    let fits : res * 256 < 2 ^ 64 = grind arith in
    let next : (res * 256 + b + 1) * p ≤ 2 ^ 64 = grind arith in
    rw (mod-eq_of_lt fits, bit_or_shift 8 res b hb)
      (pack_loop-eq-pack_value (res * 256 + b) bs h next)

pack_value-div : (res : ℕ) (bs : List ℕ) → Bytes bs → pack_value res bs / 256 ^ length bs ≡ res
unfolding pack_value
pack_value-div res [] h = omega arith
pack_value-div res (b ∷ bs) (hb, h) =
    ap (λ (t : ℕ). pack_value (res * 256 + b) bs / t) (pow-suc 256 (length bs))
    ∙ rw (← div-div-eq-div-mul, pack_value-div (res * 256 + b) bs h) (omega arith)

-- The first byte that `unpackBytes` leaves is the most significant one.
unpack_loop_first :
    (out : List ℕ) (v n : ℕ) → unpack_loop out v (suc n) ≡ v / 256 ^ n % 256 ∷ unpack_loop out v n
unfolding unpack_loop
unpack_loop_first out v zero = ap (λ (t : ℕ). t % 256 ∷ out) (omega arith)
unpack_loop_first out v (suc n) =
    unpack_loop_first (v % 2 ^ 8 ∷ out) (v / 2 ^ 8) n
    ∙ ap (λ (t : ℕ). t % 256 ∷ unpack_loop (v % 2 ^ 8 ∷ out) (v / 2 ^ 8) n)
        (div-div-eq-div-mul v 256 (256 ^ n)
          ∙ ap (λ (t : ℕ). v / t) (mul_comm 256 (256 ^ n) ∙ omega (arith, pow-suc 256 n)))

unpack_loop-pack_value :
    (res : ℕ) (out bs : List ℕ)
    → Bytes bs
    → unpack_loop out (pack_value res bs) (length bs) ≡ bs ++ out
unfolding pack_value unpack_loop
unpack_loop-pack_value res out [] h = refl
unpack_loop-pack_value res out (b ∷ bs) (hb, h) =
    unpack_loop_first out (pack_value (res * 256 + b) bs) (length bs)
    ∙ rw (pack_value-div (res * 256 + b) bs h, unpack_loop-pack_value (res * 256 + b) out bs h)
        (ap (λ (t : ℕ). t ∷ bs ++ out) (omega arith))

pow_256-le : (n : ℕ) → n < 8 → 1 * 256 ^ n ≤ 2 ^ 64
pow_256-le n h =
    omega (arith, pow-le-pow_right {n = 256} (omega arith) {i = n} {j = 8} (omega arith))

-- Fewer than eight bytes, packed into a word and unpacked again, are as they were.
pub unpack_bytes-pack_bytes :
    (bs : List ℕ)
    → Bytes bs
    → length bs < 8
    → (do v ← pack_bytes bs; unpack_bytes v (length bs)) ≡ ok bs
unfolding pack_bytes unpack_bytes
unpack_bytes-pack_bytes bs bytes short =
    rw (lt→ltb _ _ short, pack_loop-eq-pack_value 0 bs bytes (pow_256-le (length bs) short))
      (ap ok (unpack_loop-pack_value 0 [] bs bytes ∙ append-nil bs))

-- A 16-bit value, converted to target byte order and back, is as it was, whatever the upper half of
-- the conversion's buffer held.
pub ttohs-htots : (junk v : ℕ) → v < 2 ^ 16 → ttohs (htots junk v) ≡ v
unfolding ttohs htots
ttohs-htots junk v h = omega arith

-- A 32-bit value, converted to the byte order of a 32-bit target and back, is as it was.
pub ttohl-htotl : (junk v : ℕ) → v < 2 ^ 32 → ttohl 4 (htotl 4 junk v) ≡ v
unfolding ttohl htotl
ttohl-htotl junk v h = omega arith

-- Two bytes in memory order make a little-endian word.
pub pack_pair : (b0 b1 : ℕ) → b0 < 256 → b1 < 256 → pack_bytes (b0 ∷ b1 ∷ []) ≡ ok (b0 * 256 + b1)
unfolding pack_bytes pack_value
pack_pair b0 b1 h0 h1 =
    ap ok (pack_loop-eq-pack_value 0 (b0 ∷ b1 ∷ []) (h0, (h1, tt)) (omega arith) ∙ value)
  where
    value : pack_value 0 (b0 ∷ b1 ∷ []) ≡ b0 * 256 + b1
    value = omega arith

pub ttohs_pair : (b0 b1 : ℕ) → b0 < 256 → b1 < 256 → ttohs (b0 * 256 + b1) ≡ b1 * 256 + b0
unfolding ttohs
ttohs_pair b0 b1 h0 h1 = omega arith

-- A value converted to target order and unpacked has its low byte first.
pub unpack_pair : (junk v : ℕ) → unpack_bytes (htots junk v) 2 ≡ ok (v % 256 ∷ v / 256 % 256 ∷ [])
unfolding unpack_bytes htots unpack_loop
unpack_pair junk v = ground arith
