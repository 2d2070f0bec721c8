-- ===== src/GenericMemory/Bytes.antt =====
-- Each byte of a memory after a `memcpy`.
use fused_checkmate.Base.{
  ℕ, ◌+◌, ◌-◌, ◌<◌, ◌≤◌, ◌≡◌, sym, ap, ◌∙◌, arith, List, ◌++◌, length, get_or, take, drop,
  length-append, length-take, length-drop, get_or-append_left, get_or-append_right, get_or-take,
  get_or-drop, get_or_ext,
}
use fused_checkmate.BusTarget.Cells.{cells, overwrite, cells-get_or, length-cells}
use fused_checkmate.GenericMemory.{GenericMemory, store, load}

pub length-store :
    (addr : ℕ) (bytes : List ℕ) (mem : GenericMemory)
    → addr + length bytes ≤ length mem
    → length (store addr bytes mem) ≡ length mem
unfolding store
length-store addr bytes mem h = omega (
  arith,
  length-append (take addr mem) (bytes ++ drop (addr + length bytes) mem),
  length-append bytes (drop (addr + length bytes) mem),
  length-take addr mem (omega arith),
  length-drop (addr + length bytes) mem,
)

before_lem :
    (addr : ℕ) (bytes : List ℕ) (mem : GenericMemory) (x : ℕ)
    → addr + length bytes ≤ length mem
    → x < addr
    → get_or (store addr bytes mem) x 0 ≡ get_or mem x 0
unfolding store
before_lem addr bytes mem x h hx =
    let front = length-take addr mem (omega arith) in
    get_or-append_left (take addr mem) _ x 0 (omega (arith, front)) ∙ get_or-take addr mem x 0 hx

within_lem :
    (addr : ℕ) (bytes : List ℕ) (mem : GenericMemory) (x : ℕ)
    → addr + length bytes ≤ length mem
    → addr ≤ x
    → x < addr + length bytes
    → get_or (store addr bytes mem) x 0 ≡ get_or bytes (x - addr) 0
unfolding store
within_lem addr bytes mem x h low high =
    let front = length-take addr mem (omega arith) in
    get_or-append_right (take addr mem) _ x 0 (omega (arith, front))
    ∙ ap (λ (k : ℕ). get_or (bytes ++ drop (addr + length bytes) mem) (x - k) 0) front
    ∙ get_or-append_left bytes _ (x - addr) 0 (omega arith)

after_lem :
    (addr : ℕ) (bytes : List ℕ) (mem : GenericMemory) (x : ℕ)
    → addr + length bytes ≤ length mem
    → addr + length bytes ≤ x
    → get_or (store addr bytes mem) x 0 ≡ get_or mem x 0
unfolding store
after_lem addr bytes mem x h low =
    let front = length-take addr mem (omega arith) in
    get_or-append_right (take addr mem) _ x 0 (omega (arith, front))
    ∙ ap (λ (k : ℕ). get_or (bytes ++ drop (addr + length bytes) mem) (x - k) 0) front
    ∙ get_or-append_right bytes _ (x - addr) 0 (omega arith)
    ∙ get_or-drop (addr + length bytes) mem _ 0
    ∙ ap (λ (k : ℕ). get_or mem k 0) (omega arith)

-- A `memcpy` into the memory, byte by byte.
pub get_or-store :
    (addr : ℕ) (bytes : List ℕ) (mem : GenericMemory) (x : ℕ)
    → addr + length bytes ≤ length mem
    → get_or (store addr bytes mem) x 0 ≡ overwrite (λ k. get_or mem k 0) addr bytes x
unfolding overwrite
get_or-store addr bytes mem x h = ground (
  arith,
  before_lem addr bytes mem x h,
  within_lem addr bytes mem x h,
  after_lem addr bytes mem x h,
)

-- A `memcpy` out of the memory gives its cells.
pub load-cells :
    (addr len : ℕ) (mem : GenericMemory)
    → addr + len ≤ length mem
    → load addr len mem ≡ cells (λ k. get_or mem k 0) addr len
unfolding load
load-cells addr len mem h =
    let long : length (take len (drop addr mem)) ≡ len =
      length-take len (drop addr mem) (omega (arith, length-drop addr mem)) in
    get_or_ext _ _ 0 (long ∙ sym (length-cells _ addr len)) (λ i small.
      let i_small : i < len = omega (arith, small, long) in
      get_or-take len (drop addr mem) i 0 i_small
      ∙ get_or-drop addr mem i 0
      ∙ sym (cells-get_or (λ k. get_or mem k 0) addr len i i_small))
