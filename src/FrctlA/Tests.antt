-- ===== src/FrctlA/Tests.antt =====
-- The wait states at the start, after a write, and after a power cycle.
use fused_checkmate.Base.{◌≡◌, refl, true, false, ok, Result, ◌>>=◌}
use fused_checkmate.RegisterFile.{add_register, read, write, find, find_if, set_val, stored}
use fused_checkmate.FrctlA.{FrctlA, create_regs, reset, process, ofs_frctl0}

abbrev at_start : FrctlA
at_start = record { regs = create_regs; wait_states = 0 }

-- Two wait states.
abbrev slow : Result FrctlA
slow = write ofs_frctl0 0x9620 false at_start.regs >>= λ regs.
    process (record at_start { regs = regs })

slow_states : (slow >>= λ f. ok f.wait_states) ≡ ok 2
unfolding create_regs process add_register read write find find_if set_val stored
slow_states = refl

-- The register is not at its reset value afterwards.
cycled : (reset true at_start >>= λ f. read ofs_frctl0 f.regs) ≡ ok 0
unfolding create_regs reset add_register read write find find_if set_val stored
cycled = refl
