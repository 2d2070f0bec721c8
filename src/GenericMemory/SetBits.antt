-- ===== src/GenericMemory/SetBits.antt =====
-- mcu/NonvolatileMemory.cpp: the loop that clears the lowest set bit.
use native.Mathlib.Nat.{pow-suc}
use fused_checkmate.Base.{
  ℕ, zero, suc, ◌+◌, ◌-◌, ◌*◌, ◌/◌, ◌%◌, ◌^◌, ◌<◌, ◌≤◌, ◌≡◌, refl, ap, ◌∙◌, arith, bit_and,
  Bool-cases, inl, inr, ◌==◌, min, bit_and-le_left,
}
use fused_checkmate.Base.Digits.{bit_and_lowest}
use fused_checkmate.GenericMemory.{count_loop}

-- The number of ones in the w lowest binary digits.
unfoldable pub ones : ℕ → ℕ → ℕ
ones zero n = 0
ones (suc w) n = n % 2 + ones w (n / 2)

ones_zero : (w : ℕ) → ones w 0 ≡ 0
unfolding ones
ones_zero zero = refl
ones_zero (suc w) = omega (arith, ones_zero w)

ones-le : (w n : ℕ) → ones w n ≤ w
unfolding ones
ones-le zero n = omega arith
ones-le (suc w) n = omega (arith, ones-le w (n / 2))

bit_and_self : (n bound : ℕ) → n ≤ bound → bit_and n n ≡ n
bit_and_self zero bound h = refl
bit_and_self (suc n) zero h = absurd (omega arith)
bit_and_self (suc n) (suc bound) h =
    omega (arith, bit_and_lowest (suc n) (suc n), bit_and_self (suc n / 2) bound (omega arith))

-- A round clears one bit.
clear_lowest : (w n : ℕ) → 0 < n → n < 2 ^ w → suc (ones w (bit_and n (n - 1))) ≡ ones w n
unfolding ones
clear_lowest zero n some_bit h = absurd (omega arith)
clear_lowest (suc w) n some_bit h = elim (Bool-cases (n % 2 == 0)) [
  | inl even ↦
      let e : n % 2 ≡ 0 = ground (arith, even) in
      let half : (n - 1) / 2 ≡ n / 2 - 1 = omega arith in
      let low = bit_and_lowest n (n - 1) in
      let low' = low ∙ ap (λ (t : ℕ). bit_and (n / 2) t * 2 + min (n % 2) ((n - 1) % 2)) half in
      let rest = clear_lowest w (n / 2) (omega (arith, e)) (omega (arith, pow-suc 2 w)) in
      let digit : bit_and n (n - 1) % 2 ≡ 0 = omega (arith, low', e) in
      let upper : bit_and n (n - 1) / 2 ≡ bit_and (n / 2) (n / 2 - 1) = omega (arith, low', e) in
      rw (digit, upper) (omega (arith, rest, e))
  | inr odd ↦
      let e : n % 2 ≡ 1 = ground (arith, odd) in
      let half : (n - 1) / 2 ≡ n / 2 = omega arith in
      let low = bit_and_lowest n (n - 1) in
      let low' = low ∙ ap (λ (t : ℕ). bit_and (n / 2) t * 2 + min (n % 2) ((n - 1) % 2)) half in
      let same = bit_and_self (n / 2) (n / 2) (omega arith) in
      let digit : bit_and n (n - 1) % 2 ≡ 0 = omega (arith, low', e) in
      let upper : bit_and n (n - 1) / 2 ≡ n / 2 = omega (arith, low', e, same) in
      rw (digit, upper) (omega (arith, e))
]

loop_lem :
    (fuel count w n : ℕ) → n < 2 ^ w → ones w n ≤ fuel → count_loop fuel count n ≡ count + ones w n
unfolding count_loop
loop_lem zero count w n h room = omega arith
loop_lem (suc fuel) count w n h room = elim (Bool-cases (n == 0)) [
  | inl e ↦ let none_left : n ≡ 0 = ground (arith, e) in rw none_left (omega (arith, ones_zero w))
  | inr e ↦
      let cleared = clear_lowest w n (ground (arith, e)) h in
      let rest =
        loop_lem fuel (count + 1) w (bit_and n (n - 1)) (omega (arith, bit_and-le_left n (n - 1)))
          (omega (arith, cleared, room)) in
      rw e (omega (arith, rest, cleared))
]

-- The loop of countSetBits ends within as many rounds as the number has bits, since any more fuel
-- than that gives the same result, which is the number of ones among its binary digits.
pub count_loop-ones : (fuel w n : ℕ) → n < 2 ^ w → w ≤ fuel → count_loop fuel 0 n ≡ ones w n
count_loop-ones fuel w n small room =
    omega (arith, loop_lem fuel 0 w n small (omega (arith, ones-le w n)))
