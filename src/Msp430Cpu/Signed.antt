-- ===== src/Msp430Cpu/Signed.antt =====
-- What the flag tests mean for the numbers that the operands stand for.
use native.Mathlib.Nat.{pow-suc}
use fused_checkmate.Base.{
  ℕ, zero, suc, ◌+◌, ◌-◌, ◌*◌, ◌/◌, ◌%◌, ◌^◌, ◌<◌, ◌≤◌, ◌≡◌, ◌⊎◌, sym, ◌∙◌, Bool, true, false, not,
  ◌&&◌, ◌||◌, arith, leb, ltb, if◌then◌else◌, test_bit, test_bit-mod, to_nat,
}
use fused_checkmate.Base.Int.{ℤ, pos, negsuc, pos_part, neg_part, ◌+ℤ◌}
use fused_checkmate.Msp430Cpu.Flags.{is_negative, is_overflow}

-- The number that x, below 2 * half, stands for in two's complement.
abbrev pub signed_of : ℕ → ℕ → ℤ
signed_of half x = if ltb x half then pos x else negsuc (2 * half - x - 1)

-- Half the number of values of an operation's width.
abbrev pub half_range : Bool → ℕ
half_range byte_not_word = if byte_not_word then 2 ^ 7 else 2 ^ 15

-- The low bits of a value as an unsigned and as a signed number.
abbrev pub unsigned : Bool → ℕ → ℕ
unsigned byte_not_word v = if byte_not_word then v % 2 ^ 8 else v % 2 ^ 16

abbrev pub signed : Bool → ℕ → ℤ
signed byte_not_word v = signed_of (half_range byte_not_word) (unsigned byte_not_word v)

-- The numbers from -half to half - 1.
abbrev pub in_range : ℕ → ℤ → Bool
in_range half z = leb (neg_part z) half && ltb (pos_part z) half

to_nat-le : (c : Bool) → to_nat c ≤ 1
to_nat-le true = omega arith
to_nat-le false = omega arith

-- The highest bit of a word is a comparison.
pub test_bit_top : (k x : ℕ) → x < 2 ^ suc k → test_bit x k ≡ leb (2 ^ k) x
test_bit_top zero x h = ground arith
test_bit_top (suc k) x h =
    test_bit_top k (x / 2) (omega (arith, pow-suc 2 (suc k)))
    ∙ halves (2 ^ k) (2 ^ suc k) (pow-suc 2 k)
  where
    halves : (p q : ℕ) → q ≡ p * 2 → leb p (x / 2) ≡ leb q x
    halves p q e = ground arith

pub is_negative_lem :
    (v : ℕ) (byte_not_word : Bool)
    → is_negative v byte_not_word
      ≡ (if byte_not_word then leb (2 ^ 7) (v % 2 ^ 8) else leb (2 ^ 15) (v % 2 ^ 16))
unfolding is_negative
is_negative_lem v true =
    sym (test_bit-mod 7 8 (v % 2 ^ 16) (omega arith))
    ∙ test_bit_top 7 (v % 2 ^ 16 % 2 ^ 8) (omega arith)
    ∙ low
  where
    low : leb (2 ^ 7) (v % 2 ^ 16 % 2 ^ 8) ≡ leb (2 ^ 7) (v % 2 ^ 8)
    low = ground arith
is_negative_lem v false = test_bit_top 15 (v % 2 ^ 16) (omega arith)

overflow_test :
    (half x y c r : ℕ)
    → x < 2 * half
    → y < 2 * half
    → r < 2 * half
    → c ≤ 1
    → (r ≡ x + y + c) ⊎ (r + 2 * half ≡ x + y + c)
    → ((leb half r && not (leb half x) && not (leb half y))
        || (not (leb half r) && leb half x && leb half y))
      ≡ not (in_range half (signed_of half x +ℤ signed_of half y +ℤ pos c))
overflow_test half x y c r hx hy hr hc sum = ground arith

-- `isOverflow` holds exactly when the sum of the two operands as signed numbers of the operation's
-- width, and of the carry, is not a number of that width.
pub is_overflow-in_range :
    (a b : ℕ) (c byte_not_word : Bool)
    → is_overflow a b c byte_not_word
      ≡ not (
          in_range
            (half_range byte_not_word)
            (signed byte_not_word a +ℤ signed byte_not_word b +ℤ pos (to_nat c)))
unfolding is_overflow
is_overflow-in_range a b c true =
    rw (is_negative_lem _ true, is_negative_lem a true, is_negative_lem b true)
      (overflow_test (2 ^ 7) (a % 2 ^ 8) (b % 2 ^ 8) (to_nat c) _ (omega arith) (omega arith)
        (omega arith) (to_nat-le c) (wrapped (to_nat c) (to_nat-le c)))
  where
    wrapped :
        (k : ℕ)
        → k ≤ 1
        → ((a + b + k) % 2 ^ 32 % 2 ^ 8 ≡ a % 2 ^ 8 + b % 2 ^ 8 + k)
          ⊎ ((a + b + k) % 2 ^ 32 % 2 ^ 8 + 2 * 2 ^ 7 ≡ a % 2 ^ 8 + b % 2 ^ 8 + k)
    wrapped k h = grind arith
is_overflow-in_range a b c false =
    rw (is_negative_lem _ false, is_negative_lem a false, is_negative_lem b false)
      (overflow_test (2 ^ 15) (a % 2 ^ 16) (b % 2 ^ 16) (to_nat c) _ (omega arith) (omega arith)
        (omega arith) (to_nat-le c) (wrapped (to_nat c) (to_nat-le c)))
  where
    wrapped :
        (k : ℕ)
        → k ≤ 1
        → ((a + b + k) % 2 ^ 32 % 2 ^ 16 ≡ a % 2 ^ 16 + b % 2 ^ 16 + k)
          ⊎ ((a + b + k) % 2 ^ 32 % 2 ^ 16 + 2 * 2 ^ 15 ≡ a % 2 ^ 16 + b % 2 ^ 16 + k)
    wrapped k h = grind arith
