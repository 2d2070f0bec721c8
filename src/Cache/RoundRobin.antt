-- ===== src/Cache/RoundRobin.antt =====
-- CacheReplacementRoundRobin of mcu/CacheReplacementPolicies.hpp. The state is `m_cnt`.
use native.Mathlib.Nat.{mod-lt, mod-eq_of_lt, mod-add-mod}
use fused_checkmate.Base.{ℕ, zero, suc, ◌+◌, ◌%◌, ◌^◌, ◌<◌, ◌≡◌, sym, ◌∙◌, ap, arith, Bool, false}
use fused_checkmate.Cache.Policy.{CacheReplacementIf, IsReplacement}

unfoldable pub hit : ℕ → ℕ → Bool → ℕ
hit cnt line_no is_write = cnt

unfoldable pub miss : ℕ → ℕ → Bool → ℕ → ℕ × ℕ × ℕ
miss n_lines cnt is_write lfsr = let next = (cnt + 1) % 2 ^ 32 % n_lines in (next, lfsr, next)

unfoldable pub reset : ℕ → ℕ
reset cnt = 0

unfoldable pub round_robin_policy : ℕ → CacheReplacementIf ℕ
round_robin_policy n_lines = record { hit = hit; miss = miss n_lines; reset = reset }

-- The counter is a line of the set from the start on, and so is every victim.
pub round_robin-IsReplacement :
    (n : ℕ) → 0 < n → (law : IsReplacement (round_robin_policy n) n) × law.IsState 0
unfolding round_robin_policy hit miss reset
round_robin-IsReplacement n h = (
  record {
    IsState = λ cnt. cnt < n;
    hit-IsState = λ cnt line_no is_write inside small. inside;
    miss-IsState = λ cnt is_write lfsr inside. omega arith;
    victim = λ cnt is_write lfsr inside. omega arith;
    reset-IsState = λ cnt inside. h;
  },
  h,
)

-- The state after k misses.
unfoldable pub misses : ℕ → ℕ → ℕ → ℕ
misses n_lines zero cnt = cnt
misses n_lines (suc k) cnt = (miss n_lines (misses n_lines k cnt) false 0).0

counter_lem : (n k cnt : ℕ) → cnt < n → n < 2 ^ 32 → misses n k cnt ≡ (cnt + k) % n
unfolding misses miss
counter_lem n zero cnt inside small =
    sym (mod-eq_of_lt inside) ∙ ap (λ (v : ℕ). v % n) (omega arith)
counter_lem n (suc k) cnt inside small =
    let before = counter_lem n k cnt inside small in
    let low : (cnt + k) % n < n = mod-lt (cnt + k) (omega arith) in
    ap (λ (v : ℕ). (v + 1) % 2 ^ 32 % n) before
    ∙ ap (λ (v : ℕ). v % n) (mod-eq_of_lt (omega arith))
    ∙ mod-add-mod (cnt + k) n 1
    ∙ ap (λ (v : ℕ). v % n) (omega arith)

-- The victims go round: in a set of fewer than 2 ^ 32 lines, from a counter that is one of them, the
-- victim of each further miss is the line after the one before, and after the last line comes the
-- first; the counter is the last victim.
pub misses_lem :
    (n k cnt : ℕ) (is_write : Bool) (lfsr : ℕ)
    → cnt < n
    → n < 2 ^ 32
    → ((miss n (misses n k cnt) is_write lfsr).2 ≡ (cnt + suc k) % n)
      × ((miss n (misses n k cnt) is_write lfsr).0 ≡ (cnt + suc k) % n)
unfolding misses miss
misses_lem n k cnt is_write lfsr inside small =
    let next = counter_lem n (suc k) cnt inside small in (next, next)
