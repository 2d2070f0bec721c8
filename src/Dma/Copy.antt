-- ===== src/Dma/Copy.antt =====
-- Copies of stretches of memory, unit by unit and as a whole.
use fused_checkmate.Base.{
  ℕ, zero, suc, ◌+◌, ◌-◌, ◌≤◌, ◌<◌, ◌≡◌, ◌⊎◌, inl, inr, refl, ◌∙◌, ap, arith, ◌&&◌, Bool-cases, leb,
  ltb, if◌then◌else◌,
}
use fused_checkmate.Utilities.Packing
use fused_checkmate.BusTarget.Cells.{cells, overwrite, cells-get_or, length-cells}

-- The bytes from a on, written from b on.
unfoldable pub copied : (ℕ → ℕ) → ℕ → ℕ → ℕ → ℕ → ℕ
copied f a b len = overwrite f b (cells f a len)

pub copied_at :
    (f : ℕ → ℕ) (a b len x : ℕ)
    → copied f a b len x ≡ (if leb b x && ltb x (b + len) then f (a + (x - b)) else f x)
unfolding copied overwrite
copied_at f a b len x = elim (Bool-cases (leb b x && ltb x (b + len))) [
  | inl e ↦ rw (length-cells f a len, e) (cells-get_or f a len (x - b) (ground (arith, e)))
  | inr e ↦ rw (length-cells f a len, e) refl
]

-- Two stretches that do not overlap.
abbrev pub Apart : ℕ → ℕ → ℕ → Type 0
Apart a b len = (a + len ≤ b) ⊎ (b + len ≤ a)

-- A copy of the first bytes and then of the others is a copy of all.
pub copied_twice :
    (f g h : ℕ → ℕ) (a b len more : ℕ)
    → Apart a b (len + more)
    → ((x : ℕ) → g x ≡ copied f a b len x)
    → ((x : ℕ) → h x ≡ copied g (a + len) (b + len) more x)
    → (x : ℕ) → h x ≡ copied f a b (len + more) x
copied_twice f g h a b len more apart first second x =
    second x
    ∙ copied_at g (a + len) (b + len) more x
    ∙ ground (
      arith,
      first x ∙ copied_at f a b len x,
      first (a + len + (x - (b + len))) ∙ copied_at f a b len (a + len + (x - (b + len))),
      copied_at f a b (len + more) x,
      same,
      apart,
    )
  where
    same : b + len ≤ x → f (a + len + (x - (b + len))) ≡ f (a + (x - b))
    same h = ap f (omega arith)

pub Bytes-cells : (f : ℕ → ℕ) (a len : ℕ) → ((x : ℕ) → f x < 256) → Packing.Bytes (cells f a len)
unfolding cells
Bytes-cells f a zero small = tt
Bytes-cells f a (suc len) small = (small a, Bytes-cells f (a + 1) len small)
