-- ===== src/Spi/Fifo/Steps.antt =====
-- One operation on the word and on the bytes that it holds.
use fused_checkmate.Base.{
  ℕ, zero, suc, ◌+◌, ◌-◌, ◌*◌, ◌/◌, ◌%◌, ◌^◌, ◌<◌, ◌≤◌, ◌≡◌, refl, sym, ◌∙◌, ap, arith, bit_and,
  true, false, ◌&&◌, leb, Bool-cases, inl, inr, if◌then◌else◌, List, [], ◌∷◌, ◌++◌, length, take,
  drop, length-append, ok,
}
use fused_checkmate.Base.Masks.{bit_and_low}
use fused_checkmate.Utilities.Packing.{Bytes}
use fused_checkmate.Spi.Fifo.{Fifo, get, put, bytes_of_bits, at_most}
use fused_checkmate.Spi.Fifo.Queue.{
  value, Holds, put_byte, put_pair, value-lt, value-append, Bytes-append,
}

-- The low bytes of a number.
unfoldable pub low_bytes : ℕ → ℕ → List ℕ
low_bytes zero v = []
low_bytes (suc n) v = v % 256 ∷ low_bytes n (v / 256)

-- The bytes that so many bits take.
abbrev pub width : ℕ → ℕ
width nbits = if leb nbits 8 then 1 else 2

width_lem :
    (nbits : ℕ) → (leb 4 nbits && leb nbits 16) ≡ true → bytes_of_bits nbits ≡ ok (width nbits)
unfolding bytes_of_bits
width_lem nbits h = ground arith

-- The word is known from the bytes.
Holds-eq :
    (f : Fifo) (q : List ℕ) → Holds f q → f ≡ record { n_valid_bytes = length q; word = value q }
Holds-eq f q holds = ground (arith, holds.counted, holds.packed)

-- New bytes above the others.
Holds-append :
    (q new : List ℕ) (v : ℕ)
    → Bytes q
    → Bytes new
    → length q + length new ≤ 4
    → value new ≡ v
    → Holds
        (record { n_valid_bytes = length new + length q; word = value q + 256 ^ length q * v })
        (q ++ new)
Holds-append q new v bytes bytes' room e = record {
  counted = omega (arith, length-append q new);
  few = omega (arith, length-append q new, room);
  bytes = Bytes-append q new bytes bytes';
  packed = rw (← e) (sym (value-append q new));
}

pub put_lem :
    (nbits val : ℕ) (f : Fifo) (q : List ℕ)
    → Holds f q
    → (leb 4 nbits && leb nbits 16) ≡ true
    → leb (width nbits + length q) 4 ≡ true
    → (f' : Fifo) × (put nbits val f ≡ ok (f', false)) × Holds f' (q ++ low_bytes (width nbits) val)
unfolding low_bytes
put_lem nbits val f q holds wide room = elim (Bool-cases (leb nbits 8)) [
  | inl e ↦
      let counted : bytes_of_bits nbits ≡ ok 1 = width_lem nbits wide ∙ rw e refl in
      let few : length q ≤ 3 = ground (arith, e, room) in
      let byte : val % 256 < 256 = omega arith in
      (
        record { n_valid_bytes = 1 + length q; word = value q + 256 ^ length q * (val % 256) },
        ap (put nbits val) (Holds-eq f q holds)
            ∙ put_byte nbits val (length q) (value q) (val % 256) counted few
                (value-lt q holds.bytes) (bit_and_low 8 val) byte,
        rw e (
            Holds-append q (val % 256 ∷ []) (val % 256) holds.bytes (byte, tt) (omega (arith, few))
              (omega arith)),
      )
  | inr e ↦
      let counted : bytes_of_bits nbits ≡ ok 2 = width_lem nbits wide ∙ rw e refl in
      let few : length q ≤ 2 = ground (arith, e, room) in
      (
        record { n_valid_bytes = 2 + length q; word = value q + 256 ^ length q * (val % 65536) },
        ap (put nbits val) (Holds-eq f q holds)
            ∙ put_pair nbits val (length q) (value q) (val % 65536) counted few
                (value-lt q holds.bytes) (bit_and_low 16 val) (omega arith),
        rw e (
            Holds-append q (val % 256 ∷ val / 256 % 256 ∷ []) (val % 65536) holds.bytes
              (omega arith, (omega arith, tt)) (omega (arith, few)) (omega arith)),
      )
]

pub put_full :
    (nbits val : ℕ) (f : Fifo) (q : List ℕ)
    → Holds f q
    → (leb 4 nbits && leb nbits 16) ≡ true
    → leb (width nbits + length q) 4 ≡ false
    → put nbits val f ≡ ok (f, true)
unfolding put at_most
put_full nbits val f q holds wide full =
    let counted = holds.counted in
    let few = holds.few in
    let e : leb (((width nbits + length q) % 2 ^ 32 + 2 ^ 31) % 2 ^ 32) ((4 + 2 ^ 31) % 2 ^ 32)
        ≡ false =
      ground arith in
    rw (width_lem nbits wide, counted, e) refl

-- What `get` takes is lowest.
get_byte :
    (nbits b : ℕ) (q : List ℕ)
    → bytes_of_bits nbits ≡ ok 1
    → length q ≤ 3
    → b < 256
    → get nbits (record { n_valid_bytes = suc (length q); word = b + 256 * value q })
      ≡ ok (b, record { n_valid_bytes = length q; word = value q })
unfolding get
get_byte nbits b q counted few small =
    let left : (suc (length q) + 2 ^ 32 - 1) % 2 ^ 32 ≡ length q = omega (arith, few) in
    let low : bit_and (b + 256 * value q) 0xff ≡ b =
      bit_and_low 8 (b + 256 * value q) ∙ omega (arith, small) in
    let high : (b + 256 * value q) / 2 ^ 8 ≡ value q = omega (arith, small) in
    rw (counted, left, low, high) refl

get_pair :
    (nbits b c : ℕ) (q : List ℕ)
    → bytes_of_bits nbits ≡ ok 2
    → length q ≤ 2
    → b < 256
    → c < 256
    → get nbits
        (record { n_valid_bytes = suc (suc (length q)); word = b + 256 * (c + 256 * value q) })
      ≡ ok (b + 256 * (c + 256 * 0), record { n_valid_bytes = length q; word = value q })
unfolding get
get_pair nbits b c q counted few small small' =
    let left : (suc (suc (length q)) + 2 ^ 32 - 2) % 2 ^ 32 ≡ length q = omega (arith, few) in
    let low : bit_and (b + 256 * (c + 256 * value q)) 0xffff ≡ b + 256 * (c + 256 * 0) =
      bit_and_low 16 (b + 256 * (c + 256 * value q)) ∙ omega (arith, small, small') in
    let high : (b + 256 * (c + 256 * value q)) / 2 ^ 16 ≡ value q = omega (arith, small, small') in
    rw (counted, left, low, high) refl

Holds-rest :
    (q : List ℕ)
    → Bytes q
    → length q ≤ 4
    → Holds (record { n_valid_bytes = length q; word = value q }) q
Holds-rest q bytes few = record { counted = refl; few = few; bytes = bytes; packed = refl }

-- The bytes of so many bits that `get` returns, and the others.
abbrev pub Got : ℕ → ℕ → Fifo → List ℕ → Type 0
Got n nbits f q = (f' : Fifo) × (get nbits f ≡ ok (value (take n q), f')) × Holds f' (drop n q)

get_one :
    (nbits : ℕ) (f : Fifo) (q : List ℕ)
    → Holds f q
    → bytes_of_bits nbits ≡ ok 1
    → 1 ≤ length q
    → Got 1 nbits f q
get_one nbits f [] holds counted enough = absurd (omega (arith, enough))
get_one nbits f (b ∷ q) holds counted enough =
    let (small, bytes) = holds.bytes in
    let few = holds.few in
    let whole : b ≡ b + 256 * 0 = omega arith in
    (
      record { n_valid_bytes = length q; word = value q },
      ap (get nbits) (Holds-eq f (b ∷ q) holds)
          ∙ get_byte nbits b q counted (omega (arith, few)) small
          ∙ ap (λ (v : ℕ). ok (v, record { n_valid_bytes = length q; word = value q })) whole,
      Holds-rest q bytes (omega (arith, few)),
    )

get_two :
    (nbits : ℕ) (f : Fifo) (q : List ℕ)
    → Holds f q
    → bytes_of_bits nbits ≡ ok 2
    → 2 ≤ length q
    → Got 2 nbits f q
get_two nbits f [] holds counted enough = absurd (omega (arith, enough))
get_two nbits f (b ∷ []) holds counted enough = absurd (omega (arith, enough))
get_two nbits f (b ∷ c ∷ q) holds counted enough =
    let (small, (small', bytes)) = holds.bytes in
    let few = holds.few in
    (
      record { n_valid_bytes = length q; word = value q },
      ap (get nbits) (Holds-eq f (b ∷ c ∷ q) holds)
          ∙ get_pair nbits b c q counted (omega (arith, few)) small small',
      Holds-rest q bytes (omega (arith, few)),
    )

pub get_lem :
    (nbits : ℕ) (f : Fifo) (q : List ℕ)
    → Holds f q
    → (leb 4 nbits && leb nbits 16) ≡ true
    → leb (width nbits) (length q) ≡ true
    → Got (width nbits) nbits f q
get_lem nbits f q holds wide enough = elim (Bool-cases (leb nbits 8)) [
  | inl e ↦
      rw e (get_one nbits f q holds (width_lem nbits wide ∙ rw e refl) (ground (arith, e, enough)))
  | inr e ↦
      rw e (get_two nbits f q holds (width_lem nbits wide ∙ rw e refl) (ground (arith, e, enough)))
]
