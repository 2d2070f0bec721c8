-- ===== src/PowerManagementModule/Supply.antt =====
-- The passes of `process` as a switch with hysteresis.
use fused_checkmate.Base.{
  ℕ, ◌+◌, ◌%◌, ◌^◌, ◌<◌, ◌≡◌, refl, sym, ◌∙◌, arith, Bool, true, false, not, ◌&&◌, List, [], ◌∷◌,
  if◌then◌else◌,
}
use fused_checkmate.PowerManagementModule.{PowerManagementModule, supply, process}

-- The level after a list of levels, from a level before.
abbrev pub final : Bool → List Bool → Bool
final before [] = before
final before (l ∷ ls) = final l ls

-- How often the level goes from low to high.
abbrev pub rises : Bool → List Bool → ℕ
rises before [] = 0
rises before (l ∷ ls) = (if not before && l then 1 else 0) + rises l ls

module _ {V : Type 0} (less : V → V → Bool) (v_on v_off : V) where
  -- The voltages below the lower threshold, which are low, and above the upper one, which are high.
  abbrev pub levels : List (V × Bool) → List Bool
  levels [] = []
  levels (pass ∷ passes) =
      let rest = levels passes in
      if less pass.0 v_off then false ∷ rest else if less v_on pass.0 then true ∷ rest else rest

  -- A pass for each voltage and acknowledgement.
  abbrev pub run : List (V × Bool) → PowerManagementModule → PowerManagementModule
  run [] p = p
  run (pass ∷ passes) p = run passes (process less v_on v_off pass.0 pass.1 p)

  module _ (pass : V × Bool) (passes : List (V × Bool)) (p : PowerManagementModule) where
    -- What a pass does to the level and to the count.
    Stepped : Type 0
    Stepped =
        (final p.is_on (levels (pass ∷ passes))
          ≡ final (process less v_on v_off pass.0 pass.1 p).is_on (levels passes))
        × ((p.power_on_reset_count + rises p.is_on (levels (pass ∷ passes))) % 2 ^ 32
            ≡ ((process less v_on v_off pass.0 pass.1 p).power_on_reset_count
                + rises (process less v_on v_off pass.0 pass.1 p).is_on (levels passes))
              % 2 ^ 32)

    step_cases :
        (on low high : Bool)
        → p.is_on ≡ on
        → less pass.0 v_off ≡ low
        → less v_on pass.0 ≡ high
        → (low ≡ true → high ≡ false)
        → Stepped
    unfolding process supply Stepped
    step_cases true true high was below above apart = rw (was, below) (refl, omega arith)
    step_cases true false true was below above apart = rw (was, below, above) (refl, omega arith)
    step_cases true false false was below above apart = rw (was, below, above) (refl, refl)
    step_cases false true true was below above apart = let clash = apart refl in absurd cc
    step_cases false true false was below above apart = rw (was, below, above) (refl, omega arith)
    step_cases false false true was below above apart = rw (was, below, above) (refl, omega arith)
    step_cases false false false was below above apart = rw (was, below, above) (refl, refl)

  count-lt :
      (pass : V × Bool) (p : PowerManagementModule)
      → p.power_on_reset_count < 2 ^ 32
      → (process less v_on v_off pass.0 pass.1 p).power_on_reset_count < 2 ^ 32
  unfolding process supply
  count-lt pass p small = ground arith

  good-step :
      (pass : V × Bool) (p : PowerManagementModule)
      → p.pwr_good ≡ p.is_on
      → (let p' = process less v_on v_off pass.0 pass.1 p in p'.pwr_good ≡ p'.is_on)
  unfolding process supply
  good-step pass p good = ground (arith, good)

  -- If no voltage is both below the lower and above the upper threshold, then after every sequence of
  -- passes, from every state whose count is below 2 ^ 32 and whose output says whether it is on, the
  -- output is high if the last of the low and high voltages was high, or without any if it was high
  -- before, so voltages between the thresholds do not count; and the count of the power-on resets has
  -- grown, modulo 2 ^ 32, by the number of times that a high voltage followed a low one.
  pub run_lem :
      (apart : (v : V) → less v v_off ≡ true → less v_on v ≡ false) (passes : List (V × Bool))
      (p : PowerManagementModule)
      → p.power_on_reset_count < 2 ^ 32
      → p.pwr_good ≡ p.is_on
      → ((run passes p).is_on ≡ final p.is_on (levels passes))
        × ((run passes p).pwr_good ≡ (run passes p).is_on)
        × ((run passes p).power_on_reset_count
            ≡ (p.power_on_reset_count + rises p.is_on (levels passes)) % 2 ^ 32)
  unfolding Stepped
  run_lem apart [] p small good = (refl, good, omega (arith, small))
  run_lem apart (pass ∷ passes) p small good =
      let p' = process less v_on v_off pass.0 pass.1 p in
      let (on, shown, counted) =
        run_lem apart passes p' (count-lt pass p small) (good-step pass p good) in
      let (same, counts) =
        step_cases pass passes p p.is_on (less pass.0 v_off) (less v_on pass.0) refl refl refl
          (apart pass.0) in
      (on ∙ sym same, shown, counted ∙ sym counts)
