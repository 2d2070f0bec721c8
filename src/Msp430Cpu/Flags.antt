-- ===== src/Msp430Cpu/Flags.antt =====
-- `isNegative`, `isZero`, `isCarry` and `isOverflow`, and the subtraction of SUB and CMP.
use fused_checkmate.Base.{
  ℕ, ◌+◌, ◌%◌, ◌^◌, Bool, not, ◌&&◌, ◌||◌, ltb, ◌==◌, if◌then◌else◌, test_bit, to_nat,
}

-- The width of an operation in bits.
abbrev pub width : Bool → ℕ
width byte_not_word = if byte_not_word then 8 else 16

-- The parameter is a uint16_t.
unfoldable pub is_negative : ℕ → Bool → Bool
is_negative val byte_not_word =
    if byte_not_word then test_bit (val % 2 ^ 16) 7 else test_bit (val % 2 ^ 16) 15

unfoldable pub is_zero : ℕ → Bool → Bool
is_zero val byte_not_word = if byte_not_word then val % 2 ^ 16 % 2 ^ 8 == 0 else val % 2 ^ 16 == 0

unfoldable pub is_carry : ℕ → ℕ → Bool → Bool → Bool
is_carry a b c byte_not_word =
    if byte_not_word
    then ltb 0xff (a % 2 ^ 8 + b % 2 ^ 8 + to_nat c)
    else ltb 0xffff (a % 2 ^ 16 + b % 2 ^ 16 + to_nat c)

unfoldable pub is_overflow : ℕ → ℕ → Bool → Bool → Bool
is_overflow a b c byte_not_word =
    let res = (a + b + to_nat c) % 2 ^ 32 in
    let a_neg = is_negative a byte_not_word in
    let b_neg = is_negative b byte_not_word in
    let res_neg = is_negative res byte_not_word in
    (res_neg && not a_neg && not b_neg) || (not res_neg && a_neg && b_neg)
