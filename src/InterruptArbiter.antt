-- ===== src/InterruptArbiter.antt =====
-- mcu/msp430fr5xx/InterruptArbiter.hpp: which interrupt request the CPU sees. A signal that is
-- written keeps its old value for reads until the process ends. Trace files are left out.
pub mod Highest
mod Tests
use fused_checkmate.Base.{
  ℕ, zero, suc, ◌+◌, Bool, true, false, Option, none, some, List, [], ◌∷◌, if◌then◌else◌, get_or,
  get_elem?, set, Result, ok, fatal, or_fault, ◌>>=◌,
}

-- The signals that the arbiter drives: idxOut, irqOut, iraConnected and iraOut.
pub record Arbiter : Type 0 where
  pub idx : ℕ
  pub irq : Bool
  pub ira_connected : Bool
  pub ira_out : List Bool

-- The signals that it reads. An unbound `irqIn` port is `none`; `ira_bound` tells which `iraOut`
-- ports are bound.
pub record Inputs : Type 0 where
  pub irq_in : List (Option Bool)
  pub ira_bound : List Bool
  pub ira_in : Bool

-- A write to the `iraOut` port of the current index, if it is bound.
unfoldable pub write_ira : Bool → Inputs → Arbiter → Arbiter
write_ira level req a =
    if get_or req.ira_bound a.idx false then record a { ira_out = set a.ira_out a.idx level } else a

-- The loop over the requests from i on. `connected` is of the index before the process.
unfoldable pub scan : List (Option Bool) → ℕ → Bool → Arbiter → Bool → Arbiter × Bool
scan [] i connected a pending = (a, pending)
scan (some true ∷ requests) i connected a pending =
    scan requests (i + 1) connected (record a { idx = i; ira_connected = connected }) true
scan (some false ∷ requests) i connected a pending = scan requests (i + 1) connected a pending
scan (none ∷ requests) i connected a pending = scan requests (i + 1) connected a pending

-- The branch of `process` while the CPU accepts a request; to read an unbound port ends the run.
unfoldable pub accept : Inputs → Arbiter → Result Arbiter
accept req a = do
  port ← or_fault (get_elem? req.irq_in a.idx) fatal
  level ← or_fault port fatal
  ok (record (write_ira true req a) { irq = level })

-- The branch that looks for the next request.
unfoldable pub next : Inputs → Arbiter → Arbiter
next req a =
    let (found, pending) =
      scan req.irq_in 0 (get_or req.ira_bound a.idx false) (write_ira false req a) false in
    record found { irq = pending }

-- `process`
unfoldable pub process : Inputs → Arbiter → Result Arbiter
process req a = if req.ira_in then accept req a else ok (next req a)
