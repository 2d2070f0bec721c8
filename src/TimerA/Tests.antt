-- ===== src/TimerA/Tests.antt =====
-- Runs of the timer.
use fused_checkmate.Base.{ℕ, suc, ◌+◌, ◌-◌, ◌≡◌, refl, arith, true, false, ok}
use fused_checkmate.RegisterFile.{add_register, find, find_if, read}
use fused_checkmate.TimerA.{TimerA, create, create_regs, update_clk_source}
use fused_checkmate.TimerA.UpMode.{IsUp, registers, counting, edges, edges-counting}

abbrev zeros : ℕ → ℕ
zeros address = 0

abbrev timer : TimerA
timer = record {
  regs = registers zeros 0 0 0;
  direction = true;
  irq = false;
  dma_trigger = false;
  clk_mux_select = 0;
  clk_div_amount = 1;
}

-- The registers of the theorem are those of the constructor.
created : create true ≡ timer
unfolding create create_regs add_register
created = refl

-- SMCLK, a divider, the up mode and TAIE.
settings_there : IsUp zeros 0x252
settings_there = record {
  small = omega arith;
  mode = refl;
  no_clear = refl;
  no_flag = refl;
  enabled = refl;
}

edges_example :
    (edges 1 (counting timer zeros 0x252 3 5 false)
      ≡ ok (counting timer zeros 0x252 (3 + 1) 5 false))
    × (edges (suc (5 - 3)) (counting timer zeros 0x252 3 5 false)
        ≡ ok (counting timer zeros (0x252 + 1) 0 5 true))
edges_example = edges-counting timer zeros 0x252 3 5 1 settings_there (omega arith) (omega arith)

-- Divider setting 2, by four, leaves the clock as it is.
divider_ignored :
    update_clk_source (record timer { regs = registers zeros 0x290 0 0 })
    ≡ ok (record timer { regs = registers zeros 0x290 0 0; clk_mux_select = 1; clk_div_amount = 1 })
unfolding update_clk_source read find find_if
divider_ignored = refl
