-- ===== src/Msp430Cpu/Compare.antt =====
-- CMP followed by a conditional jump decides the order of its operands.
use fused_checkmate.Base.{
  ℕ, ◌+◌, ◌-◌, ◌*◌, ◌%◌, ◌^◌, ◌<◌, ◌≡◌, ◌⊎◌, refl, sym, ◌∙◌, Bool, true, false, not, xor, ◌&&◌,
  ◌||◌, arith, leb, ltb, ◌==◌, ok, ap,
}
use fused_checkmate.Base.Int.{ltbℤ}
use fused_checkmate.Msp430Cpu.State.{Cpu, BusPort, M, set_flag, bind_ok, ◌>>=◌, ◌>>◌, pure}
use fused_checkmate.Msp430Cpu.State
use fused_checkmate.Msp430Cpu.Flags.{is_negative, is_zero, is_carry, is_overflow}
use fused_checkmate.Msp430Cpu.Signed.{signed, unsigned, signed_of, is_negative_lem}
use fused_checkmate.Msp430Cpu.FlagBits.{flag, with_flag, with_flags, set_flag_lem, flags-with_flags}
use fused_checkmate.Msp430Cpu.Operands.{Operand}
use fused_checkmate.Msp430Cpu.Execute.{do_jump}
use fused_checkmate.Msp430Cpu.Execute.Double.{sum_result, sum_flags, inverted, double_op}

-- What an addition leaves in the flags.
pub sum_flags_lem :
    {S : Type 0} (a b : ℕ) (carry bw : Bool) (c : Cpu S)
    → sum_flags a b carry bw c
      ≡ ok (
        tt,
        with_flags
            (is_zero (sum_result a b carry) bw)
            (is_negative (sum_result a b carry) bw)
            (is_overflow a b carry bw)
            (is_carry a b carry bw)
            c,
      )
unfolding sum_flags
sum_flags_lem a b carry bw c =
    let z = is_zero (sum_result a b carry) bw in
    let n = is_negative (sum_result a b carry) bw in
    let v = is_overflow a b carry bw in
    let c₁ = with_flag 1 z c in
    let c₂ = with_flag 2 n c₁ in
    let c₃ = with_flag 8 v c₂ in
    bind_ok (set_flag 1 z) _ c c₁ tt (set_flag_lem 1 z c (omega arith))
    ∙ bind_ok (set_flag 2 n) _ c₁ c₂ tt (set_flag_lem 2 n c₁ (omega arith))
    ∙ bind_ok (set_flag 8 v) _ c₂ c₃ tt (set_flag_lem 8 v c₂ (omega arith))
    ∙ set_flag_lem 0 (is_carry a b carry bw) c₃ (omega arith)

less_test :
    (half x y r : ℕ)
    → x < 2 * half
    → y < 2 * half
    → r < 2 * half
    → (r + y ≡ x) ⊎ (r + y ≡ x + 2 * half)
    → xor (leb half r) (
        (leb half r && not (leb half x) && not (leb half (2 * half - 1 - y)))
        || (not (leb half r) && leb half x && leb half (2 * half - 1 - y)))
      ≡ ltbℤ (signed_of half x) (signed_of half y)
unfolding xor
less_test half x y r hx hy hr sum = ground arith

-- The negative and overflow flags of a subtraction tell whether it is signed less.
signed_less :
    (dst src : ℕ) (bw : Bool)
    → xor
        (is_negative (sum_result dst (inverted src) true) bw)
        (is_overflow dst (inverted src) true bw)
      ≡ ltbℤ (signed bw dst) (signed bw src)
unfolding is_overflow sum_result
signed_less dst src true =
    rw
      (
        is_negative_lem ((dst + inverted src + 1) % 2 ^ 32) true,
        is_negative_lem dst true,
        is_negative_lem (inverted src) true,
        complement,
      )
      (less_test (2 ^ 7) (dst % 2 ^ 8) (src % 2 ^ 8) _ (omega arith) (omega arith) (omega arith)
        wrapped)
  where
    complement : inverted src % 2 ^ 8 ≡ 2 * 2 ^ 7 - 1 - src % 2 ^ 8
    complement = omega arith

    wrapped :
        ((dst + inverted src + 1) % 2 ^ 32 % 2 ^ 8 + src % 2 ^ 8 ≡ dst % 2 ^ 8)
        ⊎ ((dst + inverted src + 1) % 2 ^ 32 % 2 ^ 8 + src % 2 ^ 8 ≡ dst % 2 ^ 8 + 2 * 2 ^ 7)
    wrapped = grind arith
signed_less dst src false =
    rw
      (
        is_negative_lem ((dst + inverted src + 1) % 2 ^ 32) false,
        is_negative_lem dst false,
        is_negative_lem (inverted src) false,
        complement,
      )
      (less_test (2 ^ 15) (dst % 2 ^ 16) (src % 2 ^ 16) _ (omega arith) (omega arith) (omega arith)
        wrapped)
  where
    complement : inverted src % 2 ^ 16 ≡ 2 * 2 ^ 15 - 1 - src % 2 ^ 16
    complement = omega arith

    wrapped :
        ((dst + inverted src + 1) % 2 ^ 32 % 2 ^ 16 + src % 2 ^ 16 ≡ dst % 2 ^ 16)
        ⊎ ((dst + inverted src + 1) % 2 ^ 32 % 2 ^ 16 + src % 2 ^ 16 ≡ dst % 2 ^ 16 + 2 * 2 ^ 15)
    wrapped = grind arith

-- The carry flag of a subtraction is clear exactly when it is unsigned less.
unsigned_less :
    (dst src : ℕ) (bw : Bool)
    → not (is_carry dst (inverted src) true bw) ≡ ltb (unsigned bw dst) (unsigned bw src)
unfolding is_carry
unsigned_less dst src true = ground arith
unsigned_less dst src false = ground arith

-- The zero flag of a subtraction is set exactly when the operands are equal.
equal_test :
    (dst src : ℕ) (bw : Bool)
    → is_zero (sum_result dst (inverted src) true) bw ≡ (unsigned bw dst == unsigned bw src)
unfolding is_zero sum_result
equal_test dst src true = ground arith
equal_test dst src false = ground arith

not-not : (b : Bool) → not (not b) ≡ b
not-not true = refl
not-not false = refl

abbrev Conditions : {S : Type 0} → Cpu S → Bool → Bool → Bool → Bool → Type 0
Conditions c z n v cy =
    (do_jump 0 c ≡ ok (not z, c))
    × (do_jump 1 c ≡ ok (z, c))
    × (do_jump 2 c ≡ ok (not cy, c))
    × (do_jump 3 c ≡ ok (cy, c))
    × (do_jump 5 c ≡ ok (not (xor n v), c))
    × (do_jump 6 c ≡ ok (xor n v, c))

-- The values of the conditions of a jump, in terms of the flags.
jump_lem :
    {S : Type 0} (c : Cpu S) (z n v cy : Bool)
    → flag 0 c ≡ cy
    → flag 1 c ≡ z
    → flag 2 c ≡ n
    → flag 8 c ≡ v
    → Conditions c z n v cy
unfolding do_jump State.get_flag
jump_lem c z n v cy hc hz hn hv = (rw hz, rw hz, rw hc, rw hc, rw (hn, hv), rw (hn, hv))

-- After CMP the conditions of the jumps are the orders of its operands at the operation's width:
-- JNE and JEQ their equality, JLO and JHS the unsigned order, JGE and JL the signed order of
-- destination and source.
pub compare_jump :
    {S : Type 0} ⦃port : BusPort S⦄ (src dst : Operand) (c : Cpu S)
    → (after : Cpu S) × (double_op 9 src dst c ≡ ok (tt, after))
      × (do_jump 0 after
          ≡ ok (
            not (unsigned src.byte_not_word dst.val == unsigned src.byte_not_word src.val),
            after,
          ))
      × (do_jump 1 after
          ≡ ok (unsigned src.byte_not_word dst.val == unsigned src.byte_not_word src.val, after))
      × (do_jump 2 after
          ≡ ok (
            ltb (unsigned src.byte_not_word dst.val) (unsigned src.byte_not_word src.val),
            after,
          ))
      × (do_jump 3 after
          ≡ ok (
            not (ltb (unsigned src.byte_not_word dst.val) (unsigned src.byte_not_word src.val)),
            after,
          ))
      × (do_jump 5 after
          ≡ ok (
            not (ltbℤ (signed src.byte_not_word dst.val) (signed src.byte_not_word src.val)),
            after,
          ))
      × (do_jump 6 after
          ≡ ok (ltbℤ (signed src.byte_not_word dst.val) (signed src.byte_not_word src.val), after))
unfolding double_op State.get_flag
compare_jump {S} src dst c = (
  after,
  sum_flags_lem dst.val (inverted src.val) true bw c,
  jumps.0 ∙ ap (λ b. ok (not b, after)) equal,
  jumps.1 ∙ ap (λ b. ok (b, after)) equal,
  jumps.2 ∙ ap (λ b. ok (b, after)) lower,
  jumps.3 ∙ ap (λ b. ok (b, after)) (sym (not-not cy) ∙ ap not lower),
  jumps.4 ∙ ap (λ b. ok (not b, after)) less,
  jumps.5 ∙ ap (λ b. ok (b, after)) less,
)
  where
    bw : Bool
    bw = src.byte_not_word

    z : Bool
    z = is_zero (sum_result dst.val (inverted src.val) true) bw

    n : Bool
    n = is_negative (sum_result dst.val (inverted src.val) true) bw

    v : Bool
    v = is_overflow dst.val (inverted src.val) true bw

    cy : Bool
    cy = is_carry dst.val (inverted src.val) true bw

    after : Cpu S
    after = with_flags z n v cy c

    flags : (flag 0 after ≡ cy) × (flag 1 after ≡ z) × (flag 2 after ≡ n) × (flag 8 after ≡ v)
    flags = flags-with_flags z n v cy c

    jumps : Conditions after z n v cy
    jumps = jump_lem after z n v cy flags.0 flags.1 flags.2 flags.3

    equal : z ≡ (unsigned bw dst.val == unsigned bw src.val)
    equal = equal_test dst.val src.val bw

    lower : not cy ≡ ltb (unsigned bw dst.val) (unsigned bw src.val)
    lower = unsigned_less dst.val src.val bw

    less : xor n v ≡ ltbℤ (signed bw dst.val) (signed bw src.val)
    less = signed_less dst.val src.val bw
