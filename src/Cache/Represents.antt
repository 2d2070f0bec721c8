-- ===== src/Cache/Represents.antt =====
-- What the lines of a cache and the memory behind it hold together.
pub mod Put
pub mod Steps
use native.Mathlib.Nat.{
  div-add-mod', mod-lt, one-le-pow, div-eq_of_lt-le, mul-add-div_right, mul-add-mod_self_right,
  mod-eq_of_lt, div-eq_of_lt,
}
use fused_checkmate.Base.{
  ℕ, zero, suc, ◌+◌, ◌-◌, ◌*◌, ◌/◌, ◌%◌, ◌^◌, ◌<◌, ◌≤◌, ◌≡◌, ◌≢◌, ◌⊎◌, inl, inr, refl, sym, ap, ◌∙◌,
  subst, arith, Bool, true, false, not, ◌&&◌, ◌||◌, Bool-cases, Option, none, some, List, [], ◌∷◌,
  leb, ltb, ◌==◌, if◌then◌else◌, length, get_or,
}
use fused_checkmate.Utilities.Packing.{Bytes}
use fused_checkmate.BusTarget.Cells.{overwrite}
use fused_checkmate.Cache.{CacheLine}

-- A whole line written to memory.
pub overwrite_line :
    (f : ℕ → ℕ) (o l : ℕ) (bytes : List ℕ) (x : ℕ)
    → length bytes ≡ 2 ^ o
    → x / 2 ^ o ≡ l
    → overwrite f (l * 2 ^ o) bytes x ≡ get_or bytes (x % 2 ^ o) 0
unfolding overwrite
overwrite_line f o l bytes x len e =
    let p = one-le-pow o 2 (omega arith) in
    let whole = div-add-mod' x (2 ^ o) in
    let scaled = ap (λ (k : ℕ). k * 2 ^ o) e in
    let low = mod-lt x {m = 2 ^ o} (omega (arith, p)) in
    let index : x - l * 2 ^ o ≡ x % 2 ^ o = omega arith in
    let inside : (leb (l * 2 ^ o) x && ltb x (l * 2 ^ o + length bytes)) ≡ true = ground arith in
    rw (inside, index) refl

pub overwrite_other :
    (f : ℕ → ℕ) (o l : ℕ) (bytes : List ℕ) (x : ℕ)
    → length bytes ≡ 2 ^ o
    → x / 2 ^ o ≢ l
    → overwrite f (l * 2 ^ o) bytes x ≡ f x
unfolding overwrite
overwrite_other f o l bytes x len e =
    elim (Bool-cases (leb (l * 2 ^ o) x && ltb x (l * 2 ^ o + length bytes))) [
      | inl h ↦
          let low : l * 2 ^ o ≤ x = ground (arith, h) in
          let high : x < (l + 1) * 2 ^ o = ground (arith, h, len) in
          absurd (e (div-eq_of_lt-le (2 ^ o) low high))
      | inr h ↦ rw h refl
    ]

-- The lines of all sets: by set and by place in the set.
abbrev pub Lines : Type 0
Lines = ℕ → ℕ → Option CacheLine

abbrev pub update : Lines → ℕ → ℕ → CacheLine → Lines
update at j k line j' k' = if j' == j && k' == k then some line else at j' k'

module _ (o i : ℕ) where
  -- The set, the tag and the line number of an address.
  abbrev pub set_at : ℕ → ℕ
  set_at x = x / 2 ^ o % 2 ^ i

  abbrev pub tag_at : ℕ → ℕ
  tag_at x = x / 2 ^ o / 2 ^ i

  -- The line number of a tag in a set.
  abbrev pub line_no : ℕ → ℕ → ℕ
  line_no tag j = tag * 2 ^ i + j

  pub line_no_lem : (x tag j : ℕ) → set_at x ≡ j → tag ≡ tag_at x → x / 2 ^ o ≡ line_no tag j
  line_no_lem x tag j ej et =
      sym (div-add-mod' (x / 2 ^ o) (2 ^ i)) ∙ omega (arith, ej, ap (λ (t : ℕ). t * 2 ^ i) et)

  pub line_no-mod : (tag j : ℕ) → j < 2 ^ i → line_no tag j % 2 ^ i ≡ j
  line_no-mod tag j small = mul-add-mod_self_right tag (2 ^ i) j ∙ mod-eq_of_lt small

  pub line_no-div : (tag j : ℕ) → j < 2 ^ i → line_no tag j / 2 ^ i ≡ tag
  line_no-div tag j small =
      let p : 0 < 2 ^ i = omega (arith, one-le-pow i 2 (omega arith)) in
      mul-add-div_right p tag j ∙ omega (arith, div-eq_of_lt small)

  pub line_no_inv :
      (x tag j : ℕ) → x / 2 ^ o ≡ line_no tag j → j < 2 ^ i → (set_at x ≡ j) × (tag ≡ tag_at x)
  line_no_inv x tag j e small = (
    ap (λ (l : ℕ). l % 2 ^ i) e ∙ line_no-mod tag j small,
    sym (ap (λ (l : ℕ). l / 2 ^ i) e ∙ line_no-div tag j small),
  )

module _ (o i : ℕ) (covers : ℕ → ℕ → Bool) where
  -- A valid line can be written back.
  abbrev pub Served : ℕ → CacheLine → Type 0
  Served j line =
      line.valid ≡ true
      → (covers (line_no o i line.tag j * 2 ^ o) (2 ^ o) ≡ true)
        × (line_no o i line.tag j * 2 ^ o < 2 ^ 32)
        × (j < 2 ^ i)

  -- The cache with these lines, before a memory with these cells, stands for the memory f: a valid
  -- line holds bytes of f, and the memory those that no dirty line holds. In a set no two valid
  -- lines have one tag, and each line can be written back.
  pub record Represents (at : Lines) (cell f : ℕ → ℕ) : Type 0 where
    pub sized : (j k : ℕ) (line : CacheLine) → at j k ≡ some line → length line.bytes ≡ 2 ^ o
    pub bytes : (j k : ℕ) (line : CacheLine) → at j k ≡ some line → Bytes line.bytes
    pub served : (j k : ℕ) (line : CacheLine) → at j k ≡ some line → Served j line
    pub dirty_valid :
        (j k : ℕ) (line : CacheLine) → at j k ≡ some line → line.dirty ≡ true → line.valid ≡ true
    pub unique :
        (j k k' : ℕ) (line line' : CacheLine)
        → at j k ≡ some line
        → at j k' ≡ some line'
        → line.valid ≡ true
        → line'.valid ≡ true
        → line.tag ≡ line'.tag
        → k ≡ k'
    pub held :
        (x k : ℕ) (line : CacheLine)
        → at (set_at o i x) k ≡ some line
        → line.valid ≡ true
        → line.tag ≡ tag_at o i x
        → get_or line.bytes (x % 2 ^ o) 0 ≡ f x
    pub backed :
        (x : ℕ)
        → ((k : ℕ) (line : CacheLine)
            → at (set_at o i x) k ≡ some line
            → line.valid ≡ true
            → line.tag ≡ tag_at o i x
            → line.dirty ≡ false)
        → cell x ≡ f x

  -- What makes a line fit for a place.
  pub record Fit (at : Lines) (f : ℕ → ℕ) (j k : ℕ) (line : CacheLine) : Type 0 where
    pub long : length line.bytes ≡ 2 ^ o
    pub bytes : Bytes line.bytes
    pub served : Served j line
    pub dirty_valid : line.dirty ≡ true → line.valid ≡ true
    pub fresh :
        (k' : ℕ) (line' : CacheLine)
        → at j k' ≡ some line'
        → line'.valid ≡ true
        → line.valid ≡ true
        → line.tag ≡ line'.tag
        → k' ≡ k
    pub held :
        (x : ℕ)
        → set_at o i x ≡ j
        → line.valid ≡ true
        → line.tag ≡ tag_at o i x
        → get_or line.bytes (x % 2 ^ o) 0 ≡ f x
