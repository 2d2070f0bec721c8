-- ===== src/BusTarget/Contract.antt =====
-- What an initiator relies on where memory stands behind its bus socket: the interface between the
-- CPU or the cache and the bus with its memories.
use fused_checkmate.Base.{ℕ, ◌<◌, ◌≡◌, Bool, true, List, length, ok}
use fused_checkmate.Utilities.Packing.{Bytes}
use fused_checkmate.BusTarget.{BusPort}
use fused_checkmate.BusTarget.Cells.{cells, overwrite}

-- Memory as an abstract map from addresses to bytes. `covers` tells which accesses are served; the
-- state may change in what is no byte of the memory, such as traces.
pub record IsMemory {S : Type 0} (port : BusPort S) : Type 1 where
  pub IsState : S → Type 0
  pub cell : S → ℕ → ℕ
  pub covers : ℕ → ℕ → Bool
  pub cell_byte : (s : S) (a : ℕ) → IsState s → cell s a < 256
  pub read_lem :
      (s : S) (a len : ℕ)
      → IsState s
      → covers a len ≡ true
      → (s' : S) × (port.b_read s a len ≡ ok (cells (cell s) a len, s'))
        × IsState s'
        × ((x : ℕ) → cell s' x ≡ cell s x)
  pub write_lem :
      (s : S) (a : ℕ) (bytes : List ℕ)
      → IsState s
      → Bytes bytes
      → covers a (length bytes) ≡ true
      → (s' : S) × (port.b_write s a bytes ≡ ok s')
        × IsState s'
        × ((x : ℕ) → cell s' x ≡ overwrite (cell s) a bytes x)
