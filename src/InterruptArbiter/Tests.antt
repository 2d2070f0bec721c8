-- ===== src/InterruptArbiter/Tests.antt =====
-- Runs of the arbiter with four requests.
use fused_checkmate.Base.{ℕ, ◌≡◌, ◌≢◌, ◌⊎◌, refl, true, false, none, some, [], ◌∷◌, get_elem?, ok}
use fused_checkmate.InterruptArbiter.{Arbiter, Inputs, process, next, scan, write_ira}
use fused_checkmate.InterruptArbiter.Highest.{Last, process-Last}

abbrev start : Arbiter
start = record {
  idx = 1;
  irq = false;
  ira_connected = false;
  ira_out = false ∷ true ∷ false ∷ false ∷ [];
}

abbrev two_pending : Inputs
two_pending = record {
  irq_in = some true ∷ none ∷ some true ∷ some false ∷ [];
  ira_bound = false ∷ true ∷ false ∷ true ∷ [];
  ira_in = false;
}

-- The second of the two wins, and `iraConnected` is of the index before.
forwarded : next two_pending start ≡ record {
  idx = 2;
  irq = true;
  ira_connected = true;
  ira_out = false ∷ false ∷ false ∷ false ∷ [];
}
unfolding next scan write_ira
forwarded = refl

arbiter_example :
    (a' : Arbiter) × (process two_pending start ≡ ok a')
    × ((a'.irq ≡ true) × Last two_pending.irq_in a'.idx
        ⊎ (a'.irq ≡ false)
          × (a'.idx ≡ 1)
          × ((k : ℕ) → get_elem? two_pending.irq_in k ≢ some (some true)))
arbiter_example = process-Last two_pending start refl
