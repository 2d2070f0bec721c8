-- ===== src/BusTarget/Cells.antt =====
-- Memory as a function from addresses to bytes.
use mathlib.Core.Path.{ap₂}
use fused_checkmate.Base.{
  ℕ, zero, suc, ◌+◌, ◌-◌, ◌<◌, ◌≡◌, refl, ap, ◌∙◌, arith, ◌&&◌, List, [], ◌∷◌, leb, ltb,
  if◌then◌else◌, length, get_or,
}

-- `len` bytes from an address on.
unfoldable pub cells : (ℕ → ℕ) → ℕ → ℕ → List ℕ
cells cell a zero = []
cells cell a (suc len) = cell a ∷ cells cell (a + 1) len

-- The bytes of a memory after a write.
unfoldable pub overwrite : (ℕ → ℕ) → ℕ → List ℕ → ℕ → ℕ
overwrite cell a bytes x =
    if leb a x && ltb x (a + length bytes) then get_or bytes (x - a) 0 else cell x

pub cells-get_or : (f : ℕ → ℕ) (a len i : ℕ) → i < len → get_or (cells f a len) i 0 ≡ f (a + i)
unfolding cells
cells-get_or f a zero i h = absurd (omega arith)
cells-get_or f a (suc len) zero h = ap f (omega arith)
cells-get_or f a (suc len) (suc i) h =
    cells-get_or f (a + 1) len i (omega arith) ∙ ap f (omega arith)

pub length-cells : (f : ℕ → ℕ) (a len : ℕ) → length (cells f a len) ≡ len
unfolding cells
length-cells f a zero = refl
length-cells f a (suc len) = ap suc (length-cells f (a + 1) len)

-- Two stretches of memory with the same bytes.
pub cells_ext :
    (f g : ℕ → ℕ) (a b len : ℕ)
    → ((i : ℕ) → i < len → f (a + i) ≡ g (b + i))
    → cells f a len ≡ cells g b len
unfolding cells
cells_ext f g a b zero same = refl
cells_ext f g a b (suc len) same =
    let first : f a ≡ g b = ap f (omega arith) ∙ same 0 (omega arith) ∙ ap g (omega arith) in
    ap₂ ◌∷◌ first (
      cells_ext f g (a + 1) (b + 1) len
        (λ i small. ap f (omega arith) ∙ same (i + 1) (omega arith) ∙ ap g (omega arith)))
