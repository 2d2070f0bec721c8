-- ===== src/PowerManagementModule/Tests.antt =====
-- A supply that recovers twice, and the lock.
use fused_checkmate.Base.{ℕ, ◌≡◌, refl, arith, Bool, true, false, List, [], ◌∷◌, ltb, ok}
use fused_checkmate.PowerManagementModule.{create, reset, on_write}
use fused_checkmate.PowerManagementModule.Supply.{run, run_lem, levels}

-- Hundredths of a volt.
abbrev some_passes : List (ℕ × Bool)
some_passes =
    (360, false) ∷ (250, true) ∷ (170, false) ∷ (250, false) ∷ (360, false) ∷ (190, false) ∷ []

apart_here : (v : ℕ) → ltb v 180 ≡ true → ltb 350 v ≡ false
apart_here v below = ground (arith, below)

levels_example : levels ltb 350 180 some_passes ≡ true ∷ false ∷ true ∷ []
levels_example = refl

supply_example :
    ((run ltb 350 180 some_passes create).is_on ≡ true)
    × ((run ltb 350 180 some_passes create).pwr_good ≡ (run ltb 350 180 some_passes create).is_on)
    × ((run ltb 350 180 some_passes create).power_on_reset_count ≡ 2)
unfolding create reset
supply_example = run_lem ltb 350 180 apart_here some_passes create (omega arith) refl

-- The password locks the registers.
password_locks : on_write 0 2 0xa540 create ≡ ok (record create { locked = true })
unfolding create reset on_write
password_locks = refl

other_unlocks : on_write 0 2 0x9640 create ≡ ok (record create { locked = false })
unfolding create reset on_write
other_unlocks = refl
