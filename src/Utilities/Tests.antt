-- ===== src/Utilities/Tests.antt =====
-- A run of the theorem on packing.
use fused_checkmate.Base.{ℕ, ◌≡◌, arith, List, [], ◌∷◌, ok, ◌>>=◌}
use fused_checkmate.Utilities.{pack_bytes, unpack_bytes}
use fused_checkmate.Utilities.Packing.{unpack_bytes-pack_bytes}

abbrev five_bytes : List ℕ
five_bytes = 1 ∷ 0 ∷ 255 ∷ 128 ∷ 7 ∷ []

pack_example : (do v ← pack_bytes five_bytes; unpack_bytes v 5) ≡ ok five_bytes
pack_example =
    unpack_bytes-pack_bytes five_bytes
      (omega arith, (omega arith, (omega arith, (omega arith, (omega arith, tt))))) (omega arith)
