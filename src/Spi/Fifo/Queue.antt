-- ===== src/Spi/Fifo/Queue.antt =====
-- The word as a queue of bytes, the first one lowest.
use native.Mathlib.Nat.{mod-eq_of_lt, pow-suc, mul_comm}
use fused_checkmate.Base.{
  ℕ, zero, suc, ◌+◌, ◌*◌, ◌/◌, ◌%◌, ◌^◌, ◌<◌, ◌≤◌, ◌≡◌, refl, ◌∙◌, ap, arith, bit_and, bit_or, true,
  false, leb, ltb, not_bits, Bool-cases, inl, inr, zero_bits, test_bit, test_bit_ext,
  test_bit-bit_and, test_bit-not_bits, bit_and-le_left, bit_or_shift, bit_or-lt, test_bit-bit_or,
  List, [], ◌∷◌, ◌++◌, length, ok,
}
use fused_checkmate.Utilities.Packing.{Bytes}
use fused_checkmate.Spi.Fifo.{Fifo, put, bytes_of_bits, at_most}

-- The word of these bytes.
abbrev pub value : List ℕ → ℕ
value [] = 0
value (b ∷ bs) = b + 256 * value bs

-- The queue holds these bytes and no others.
pub record Holds (f : Fifo) (bs : List ℕ) : Type 0 where
  pub counted : f.n_valid_bytes ≡ length bs
  pub few : length bs ≤ 4
  pub bytes : Bytes bs
  pub packed : f.word ≡ value bs

test_bit-above : (k w d : ℕ) → d < 2 ^ k → k ≤ w → test_bit d w ≡ false
test_bit-above zero w d h le = let none_left : d ≡ 0 = omega arith in rw none_left (zero_bits w)
test_bit-above (suc k) zero d h le = absurd (omega arith)
test_bit-above (suc k) (suc w) d h le =
    test_bit-above k w (d / 2) (omega (arith, pow-suc 2 k)) (omega arith)

test_bit-below : (i k m : ℕ) → i < k → test_bit (m * 2 ^ k) i ≡ false
test_bit-below i zero m h = absurd (omega arith)
test_bit-below zero (suc k) m h =
    let twice : m * 2 ^ suc k ≡ m * 2 ^ k * 2 =
      omega (arith, ap (λ (t : ℕ). m * t) (pow-suc 2 k)) in
    let even : m * 2 ^ suc k % 2 ≡ 0 = omega (arith, twice) in rw even (ground arith)
test_bit-below (suc i) (suc k) m h =
    let twice : m * 2 ^ suc k ≡ m * 2 ^ k * 2 =
      omega (arith, ap (λ (t : ℕ). m * t) (pow-suc 2 k)) in
    let half : m * 2 ^ suc k / 2 ≡ m * 2 ^ k = omega (arith, twice) in
    rw half (test_bit-below i k m (omega arith))

-- Bytes that are clear anyway are cleared.
clear_above : (k m d : ℕ) → d < 2 ^ 32 → d < 2 ^ k → bit_and d (not_bits 32 (m * 2 ^ k)) ≡ d
clear_above k m d word small =
    test_bit_ext 32 (bit_and d (not_bits 32 (m * 2 ^ k))) d
      (omega (arith, bit_and-le_left d (not_bits 32 (m * 2 ^ k)), word)) word same
  where
    same : (i : ℕ) → i < 32 → test_bit (bit_and d (not_bits 32 (m * 2 ^ k))) i ≡ test_bit d i
    same i h =
        rw (test_bit-bit_and i d (not_bits 32 (m * 2 ^ k)), test_bit-not_bits i 32 (m * 2 ^ k) h)
          (elim (Bool-cases (ltb i k)) [
            | inl e ↦ rw (test_bit-below i k m (ground (arith, e))) (ground arith)
            | inr e ↦ rw (test_bit-above k i d small (ground (arith, e))) (ground arith)
          ])

bit_or_comm : (a b : ℕ) → a < 2 ^ 32 → b < 2 ^ 32 → bit_or a b ≡ bit_or b a
bit_or_comm a b ha hb =
    test_bit_ext 32 (bit_or a b) (bit_or b a) (bit_or-lt 32 a b ha hb) (bit_or-lt 32 b a hb ha)
      (λ i h. rw (test_bit-bit_or i a b, test_bit-bit_or i b a) (ground arith))

byte_power : (n : ℕ) → n ≤ 3 → 256 ^ n ≡ 2 ^ (8 * n)
byte_power zero h = refl
byte_power (suc zero) h = refl
byte_power (suc (suc zero)) h = refl
byte_power (suc (suc (suc zero))) h = refl
byte_power (suc (suc (suc (suc n)))) h = absurd (omega (arith, h))

-- Bytes put above others.
join :
    (n m d x : ℕ)
    → n ≤ 3
    → d < 256 ^ n
    → d < 2 ^ 32
    → m * 256 ^ n < 2 ^ 32
    → x * 256 ^ n < 2 ^ 32
    → bit_or (bit_and d (not_bits 32 (m * 256 ^ n % 2 ^ 32))) (x * 256 ^ n % 2 ^ 32)
      ≡ d + 256 ^ n * x
join n m d x few small word mask_fits fits =
    let power = byte_power n few in
    let mask : m * 256 ^ n % 2 ^ 32 ≡ m * 2 ^ (8 * n) =
      mod-eq_of_lt mask_fits ∙ ap (λ (t : ℕ). m * t) power in
    let upper : x * 256 ^ n % 2 ^ 32 ≡ x * 2 ^ (8 * n) =
      mod-eq_of_lt fits ∙ ap (λ (t : ℕ). x * t) power in
    let below : d < 2 ^ (8 * n) = rw⁻¹ power small in
    let above : x * 2 ^ (8 * n) < 2 ^ 32 = omega (arith, fits, ap (λ (t : ℕ). x * t) power) in
    let total : x * 2 ^ (8 * n) + d ≡ d + 256 ^ n * x =
      omega (arith, ap (λ (t : ℕ). x * t) power, mul_comm x (256 ^ n)) in
    rw (mask, upper, clear_above (8 * n) m d word below)
      (bit_or_comm d (x * 2 ^ (8 * n)) word above ∙ bit_or_shift (8 * n) x d below ∙ total)

pub value-lt : (bs : List ℕ) → Bytes bs → value bs < 256 ^ length bs
value-lt [] h = omega arith
value-lt (b ∷ bs) (small, rest) = omega (arith, value-lt bs rest, pow-suc 256 (length bs), small)

pub value-append : (xs ys : List ℕ) → value (xs ++ ys) ≡ value xs + 256 ^ length xs * value ys
value-append [] ys = omega arith
value-append (x ∷ xs) ys =
    omega (arith, value-append xs ys, ap (λ (t : ℕ). t * value ys) (pow-suc 256 (length xs)))

pub Bytes-append : (xs ys : List ℕ) → Bytes xs → Bytes ys → Bytes (xs ++ ys)
Bytes-append [] ys hx hy = hy
Bytes-append (x ∷ xs) ys (h, hx) hy = (h, Bytes-append xs ys hx hy)

-- What fits into the word.
fits_low : (n d : ℕ) → n ≤ 3 → d < 256 ^ n → d < 2 ^ 32
fits_low zero d h small = omega (arith, small)
fits_low (suc zero) d h small = omega (arith, small)
fits_low (suc (suc zero)) d h small = omega (arith, small)
fits_low (suc (suc (suc zero))) d h small = omega (arith, small)
fits_low (suc (suc (suc (suc n)))) d h small = absurd (omega (arith, h))

fits_byte : (n v : ℕ) → n ≤ 3 → v < 256 → v * 256 ^ n < 2 ^ 32
fits_byte zero v h small = omega (arith, small)
fits_byte (suc zero) v h small = omega (arith, small)
fits_byte (suc (suc zero)) v h small = omega (arith, small)
fits_byte (suc (suc (suc zero))) v h small = omega (arith, small)
fits_byte (suc (suc (suc (suc n)))) v h small = absurd (omega (arith, h))

fits_pair : (n v : ℕ) → n ≤ 2 → v < 65536 → v * 256 ^ n < 2 ^ 32
fits_pair zero v h small = omega (arith, small)
fits_pair (suc zero) v h small = omega (arith, small)
fits_pair (suc (suc zero)) v h small = omega (arith, small)
fits_pair (suc (suc (suc n))) v h small = absurd (omega (arith, h))

pub put_byte :
    (nbits val n d v : ℕ)
    → bytes_of_bits nbits ≡ ok 1
    → n ≤ 3
    → d < 256 ^ n
    → bit_and val 0x00ff ≡ v
    → v < 256
    → put nbits val (record { n_valid_bytes = n; word = d })
      ≡ ok (record { n_valid_bytes = 1 + n; word = d + 256 ^ n * v }, false)
unfolding put at_most
put_byte nbits val n d v counted few small masked byte =
    let at : n % 4 ≡ n = omega arith in
    let sum : (1 + n) % 2 ^ 32 ≡ 1 + n = omega arith in
    let room : leb ((1 + n + 2 ^ 31) % 2 ^ 32) ((4 + 2 ^ 31) % 2 ^ 32) ≡ true = ground arith in
    let word =
      join n 0x00ff d v few small (fits_low n d few small) (fits_byte n 0x00ff few (omega arith))
        (fits_byte n v few byte) in
    rw (counted, at, sum, room, masked, word) refl

pub put_pair :
    (nbits val n d v : ℕ)
    → bytes_of_bits nbits ≡ ok 2
    → n ≤ 2
    → d < 256 ^ n
    → bit_and val 0xffff ≡ v
    → v < 65536
    → put nbits val (record { n_valid_bytes = n; word = d })
      ≡ ok (record { n_valid_bytes = 2 + n; word = d + 256 ^ n * v }, false)
unfolding put at_most
put_pair nbits val n d v counted few small masked pair =
    let at : n % 4 ≡ n = omega arith in
    let sum : (2 + n) % 2 ^ 32 ≡ 2 + n = omega arith in
    let room : leb ((2 + n + 2 ^ 31) % 2 ^ 32) ((4 + 2 ^ 31) % 2 ^ 32) ≡ true = ground arith in
    let word =
      join n 0xffff d v (omega arith) small (fits_low n d (omega arith) small)
        (fits_pair n 0xffff few (omega arith)) (fits_pair n v few pair) in
    rw (counted, at, sum, room, masked, word) refl
