-- ===== src/Cache/Policy.antt =====
-- CacheReplacementIf of mcu/CacheReplacementPolicies.hpp, and what a cache needs of a policy.
use fused_checkmate.Base.{ℕ, ◌<◌, Bool}

-- A policy keeps its state P per cache set; the static shift register of the pseudo-random policy is
-- shared by all sets, and the last argument and the middle result of `miss`.
pub record CacheReplacementIf (P : Type 0) : Type 0 where
  pub hit : P → ℕ → Bool → P
  pub miss : P → Bool → ℕ → P × ℕ × ℕ
  pub reset : P → P

-- The contract: the states that a set with `n_lines` lines can reach, in which the victim of a miss
-- is one of the lines.
pub record IsReplacement {P : Type 0} (policy : CacheReplacementIf P) (n_lines : ℕ) : Type 1 where
  pub IsState : P → Type 0
  pub hit-IsState :
      (p : P) (line_no : ℕ) (is_write : Bool)
      → IsState p
      → line_no < n_lines
      → IsState (policy.hit p line_no is_write)
  pub miss-IsState :
      (p : P) (is_write : Bool) (lfsr : ℕ) → IsState p → IsState (policy.miss p is_write lfsr).0
  pub victim :
      (p : P) (is_write : Bool) (lfsr : ℕ) → IsState p → (policy.miss p is_write lfsr).2 < n_lines
  pub reset-IsState : (p : P) → IsState p → IsState (policy.reset p)
