-- ===== src/Cache/Refill.antt =====
-- readLine, writeLine, and a miss of a write-back cache.
use fused_checkmate.Base.{
  ℕ, ◌+◌, ◌*◌, ◌/◌, ◌%◌, ◌^◌, ◌<◌, ◌≤◌, ◌≡◌, ◌≢◌, inl, inr, refl, sym, ap, ◌∙◌, subst, arith, Bool,
  true, false, ◌&&◌, Bool-cases, some, length, ◌==◌, ok, bit_or,
}
use fused_checkmate.Utilities.Packing.{Bytes}
use fused_checkmate.BusTarget.{BusPort}
use fused_checkmate.BusTarget.Cells.{overwrite, cells}
use fused_checkmate.BusTarget.Contract.{IsMemory}
use fused_checkmate.Cache.{CacheLine, geometry, read_line, write_line, refill}
use fused_checkmate.Cache.WritePolicy.{write_back}
use fused_checkmate.Cache.Address.{index_lem, tag_lem, read_base_lem, write_base_lem}
use fused_checkmate.Cache.Represents.{
  Lines, update, set_at, tag_at, line_no, line_no-mod, line_no-div, Represents,
}
use fused_checkmate.Cache.Represents.Put.{update_inv}
use fused_checkmate.Cache.Represents.Steps.{update_here, evicted, loaded}

-- The line that a load makes.
abbrev pub line_of : ℕ → ℕ → (ℕ → ℕ) → ℕ → CacheLine
line_of o i cell a = record {
  valid = true;
  dirty = false;
  tag = tag_at o i a;
  bytes = cells cell (a / 2 ^ o * 2 ^ o) (2 ^ o);
}

pub update_twice :
    (at : Lines) (j k : ℕ) (l₁ l₂ : CacheLine) (j' k' : ℕ)
    → update (update at j k l₁) j k l₂ j' k' ≡ update at j k l₂ j' k'
update_twice at j k l₁ l₂ j' k' = elim (Bool-cases (j' == j && k' == k)) [
  | inl e ↦ rw e refl
  | inr e ↦ rw e refl
]

-- Lines and cells that agree everywhere stand for the same memory.
pub Represents-ext :
    (o i : ℕ) (covers : ℕ → ℕ → Bool) (at at' : Lines) (cell cell' f : ℕ → ℕ)
    → ((j k : ℕ) → at j k ≡ at' j k)
    → ((x : ℕ) → cell x ≡ cell' x)
    → Represents o i covers at cell f
    → Represents o i covers at' cell' f
Represents-ext o i covers at at' cell cell' f lines same rep =
    let lines' : at ≡ at' = λ d. λ j k. lines j k d in
    let same' : cell ≡ cell' = λ d. λ x. same x d in
    subst (λ (a : Lines). Represents o i covers a cell' f) lines'
      (subst (λ (c : ℕ → ℕ). Represents o i covers at c f) same' rep)

module _ {S : Type 0} ⦃port : BusPort S⦄ (mem : IsMemory port) (o i n : ℕ) (fits : o + i ≤ 32) where
  open mem use {IsState, cell, covers, cell_byte, read_lem, write_lem}

  read_line_lem :
      (a : ℕ) (line : CacheLine) (s : S)
      → a < 2 ^ 32
      → IsState s
      → covers (a / 2 ^ o * 2 ^ o) (2 ^ o) ≡ true
      → line.dirty ≡ false
      → (s' : S) × (read_line (geometry o i n write_back) a line s
          ≡ ok (line_of o i (cell s) a, s'))
        × IsState s'
        × ((x : ℕ) → cell s' x ≡ cell s x)
  unfolding read_line geometry
  read_line_lem a line s word is covered clean =
      let (s', got, is', same) = read_lem s (a / 2 ^ o * 2 ^ o) (2 ^ o) is covered in
      let base = read_base_lem o i n write_back fits a word in
      let tag = tag_lem o i n write_back fits a word in
      (s', rw (clean, base, got, tag) refl, is', same)

  write_line_lem :
      (a : ℕ) (line : CacheLine) (s : S)
      → IsState s
      → line.dirty ≡ true
      → line.valid ≡ true
      → Bytes line.bytes
      → length line.bytes ≡ 2 ^ o
      → covers (line_no o i line.tag (set_at o i a) * 2 ^ o) (2 ^ o) ≡ true
      → line_no o i line.tag (set_at o i a) * 2 ^ o < 2 ^ 32
      → set_at o i a < 2 ^ i
      → (s' : S) × (write_line (geometry o i n write_back) line a s
          ≡ ok (record line { dirty = false }, s'))
        × IsState s'
        × ((x : ℕ)
            → cell s' x
              ≡ overwrite (cell s) (line_no o i line.tag (set_at o i a) * 2 ^ o) line.bytes x)
  unfolding write_line geometry
  write_line_lem a line s is dirty valid small long covered word set_small =
      let j = set_at o i a in
      let l = line_no o i line.tag j in
      let covered' = ap (covers (l * 2 ^ o)) long ∙ covered in
      let (s', wrote, is', now) = write_lem s (l * 2 ^ o) line.bytes is small covered' in
      let back : bit_or (line.tag * 2 ^ (o + i) % 2 ^ 32) (j * 2 ^ o % 2 ^ 32) ≡ l * 2 ^ o =
        ap (λ (t : ℕ). bit_or (t * 2 ^ (o + i) % 2 ^ 32) (j * 2 ^ o % 2 ^ 32))
          (sym (line_no-div o i line.tag j set_small))
        ∙ ap (λ (t : ℕ). bit_or (l / 2 ^ i * 2 ^ (o + i) % 2 ^ 32) (t * 2 ^ o % 2 ^ 32))
            (sym (line_no-mod o i line.tag j set_small))
        ∙ write_base_lem o i n write_back fits l word in
      let set_no = index_lem o i n write_back fits a in
      (s', rw (dirty, valid, set_no, back, wrote) refl, is', now)

  -- What a miss leaves in the place of the victim.
  pub record Refilled (at : Lines) (f : ℕ → ℕ) (a k : ℕ) (old : CacheLine) (s : S) : Type 0 where
    pub line : CacheLine
    pub memory : S
    pub ran : refill (geometry o i n write_back) a old s ≡ ok (line, memory)
    pub state : IsState memory
    pub valid : line.valid ≡ true
    pub tagged : line.tag ≡ tag_at o i a
    pub represents : Represents o i covers (update at (set_at o i a) k line) (cell memory) f

  -- A clean victim is replaced.
  refill_clean :
      (at : Lines) (f : ℕ → ℕ) (a k : ℕ) (old : CacheLine) (s : S)
      → Represents o i covers at (cell s) f
      → at (set_at o i a) k ≡ some old
      → ((k' : ℕ) (line' : CacheLine)
          → at (set_at o i a) k' ≡ some line'
          → line'.valid ≡ true
          → line'.tag ≢ tag_at o i a)
      → a < 2 ^ 32
      → IsState s
      → covers (a / 2 ^ o * 2 ^ o) (2 ^ o) ≡ true
      → old.dirty ≡ false
      → (s' : S) × (read_line (geometry o i n write_back) a old s ≡ ok (line_of o i (cell s) a, s'))
        × IsState s'
        × Represents o i covers (update at (set_at o i a) k (line_of o i (cell s) a)) (cell s') f
  refill_clean at f a k old s rep here miss word is covered clean =
      let (s', ran, is', same) = read_line_lem a old s word is covered clean in
      (
        s',
        ran,
        is',
        Represents-ext o i covers _ _ (cell s) (cell s') f (λ j k'. refl) (λ x. sym (same x))
            (loaded o i covers at (cell s) f a k old rep here clean miss (λ x. cell_byte s x is)
              covered word),
      )

  refill_dirty :
      (a : ℕ) (old l : CacheLine) (s s₁ : S) (r : CacheLine × S)
      → (old.valid && old.dirty) ≡ true
      → write_line (geometry o i n write_back) old a s ≡ ok (l, s₁)
      → read_line (geometry o i n write_back) a l s₁ ≡ ok r
      → refill (geometry o i n write_back) a old s ≡ ok r
  unfolding refill
  refill_dirty a old l s s₁ r test wrote ran = rw (test, wrote) ran

  refill_plain :
      (a : ℕ) (old : CacheLine) (s : S) (r : CacheLine × S)
      → (old.valid && old.dirty) ≡ false
      → read_line (geometry o i n write_back) a old s ≡ ok r
      → refill (geometry o i n write_back) a old s ≡ ok r
  unfolding refill
  refill_plain a old s r test ran = rw test ran

  -- A miss writes a dirty victim back and loads the line of the address.
  pub refill_lem :
      (at : Lines) (f : ℕ → ℕ) (a k : ℕ) (old : CacheLine) (s : S)
      → Represents o i covers at (cell s) f
      → at (set_at o i a) k ≡ some old
      → ((k' : ℕ) (line' : CacheLine)
          → at (set_at o i a) k' ≡ some line'
          → line'.valid ≡ true
          → line'.tag ≢ tag_at o i a)
      → a < 2 ^ 32
      → IsState s
      → covers (a / 2 ^ o * 2 ^ o) (2 ^ o) ≡ true
      → Refilled at f a k old s
  refill_lem at f a k old s rep here miss word is covered =
      let j = set_at o i a in
      elim (Bool-cases old.dirty) [
        | inl dirty ↦
            let valid = rep.dirty_valid j k old here dirty in
            let (covered', word', set_small) = rep.served j k old here valid in
            let (s₁, wrote, is₁, now) =
              write_line_lem a old s is dirty valid (rep.bytes j k old here)
                (rep.sized j k old here) covered' word' set_small in
            let old₁ : CacheLine = record old { dirty = false } in
            let at₁ = update at j k old₁ in
            let rep₁ = evicted o i covers at (cell s) (cell s₁) f j k old rep here valid now in
            let (s₂, ran, is₂, rep₂) =
              refill_clean at₁ f a k old₁ s₁ rep₁ (update_here at j k old₁ j refl)
                (λ k' line' h v t. elim (update_inv at j k old₁ j k' line' h) [
                  | inl (ej, ek, e) ↦ miss k old here valid (ap (λ (l : CacheLine). l.tag) e ∙ t)
                  | inr (h', ne) ↦ miss k' line' h' v t
                ])
                word is₁ covered refl in
            record {
              line = line_of o i (cell s₁) a;
              memory = s₂;
              ran = refill_dirty a old old₁ s s₁ _ (ground (arith, valid, dirty)) wrote ran;
              state = is₂;
              valid = refl;
              tagged = refl;
              represents =
                  Represents-ext o i covers _ _ (cell s₂) (cell s₂) f (update_twice at j k old₁ _)
                    (λ x. refl) rep₂;
            }
        | inr clean ↦
            let (s₂, ran, is₂, rep₂) =
              refill_clean at f a k old s rep here miss word is covered clean in
            let test : (old.valid && old.dirty) ≡ false = ground (arith, clean) in
            record {
              line = line_of o i (cell s) a;
              memory = s₂;
              ran = refill_plain a old s _ test ran;
              state = is₂;
              valid = refl;
              tagged = refl;
              represents = rep₂;
            }
      ]
