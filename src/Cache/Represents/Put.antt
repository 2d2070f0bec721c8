-- ===== src/Cache/Represents/Put.antt =====
-- A line put in its place.
use native.Mathlib.Nat.{}
use fused_checkmate.Base.{
  ℕ, ◌%◌, ◌^◌, ◌≡◌, ◌≢◌, ◌⊎◌, inl, inr, sym, ap, ◌∙◌, subst, arith, Bool, true, false, ◌&&◌,
  Bool-cases, some, ◌==◌, length, get_or,
}
use fused_checkmate.Utilities.Packing.{Bytes}
use fused_checkmate.Cache.{CacheLine}
use fused_checkmate.Cache.Represents.{Lines, update, set_at, tag_at, Served, Represents, Fit}

pub update_inv :
    (at : Lines) (j k : ℕ) (line : CacheLine) (j' k' : ℕ) (line' : CacheLine)
    → update at j k line j' k' ≡ some line'
    → ((j' ≡ j) × (k' ≡ k) × (line ≡ line')) ⊎ ((at j' k' ≡ some line') × (j' ≡ j → k' ≢ k))
update_inv at j k line j' k' line' h = elim (Bool-cases (j' == j && k' == k)) [
  | inl e ↦ let h' = rw e at h in inl (ground (arith, e), ground (arith, e), cc)
  | inr e ↦ inr (rw e at h, λ ej ek. ground (arith, e, ej, ek))
]

valid_of : {l l' : CacheLine} → l ≡ l' → l'.valid ≡ true → l.valid ≡ true
valid_of e v = ap (λ (l : CacheLine). l.valid) e ∙ v

tag_of_eq : {l l' : CacheLine} → l ≡ l' → l.tag ≡ l'.tag
tag_of_eq e = ap (λ (l : CacheLine). l.tag) e

module _ (o i : ℕ) (covers : ℕ → ℕ → Bool) where
  fresh_lem :
      (at : Lines) (f : ℕ → ℕ) (j k : ℕ) (line : CacheLine)
      → Fit o i covers at f j k line
      → (j' k' : ℕ) (line' : CacheLine) → j' ≡ j
      → at j' k' ≡ some line'
      → line'.valid ≡ true
      → line.valid ≡ true
      → line.tag ≡ line'.tag
      → k' ≡ k
  fresh_lem at f j k line fit j' k' line' e h v' v t =
      fit.fresh k' line' (subst (λ (s : ℕ). at s k' ≡ some line') e h) v' v t

  put_unique :
      (at : Lines) (cell f f' : ℕ → ℕ) (j k : ℕ) (line : CacheLine)
      → Represents o i covers at cell f
      → Fit o i covers at f' j k line
      → (j' k₁ k₂ : ℕ) (l₁ l₂ : CacheLine) → update at j k line j' k₁ ≡ some l₁
      → update at j k line j' k₂ ≡ some l₂
      → l₁.valid ≡ true
      → l₂.valid ≡ true
      → l₁.tag ≡ l₂.tag
      → k₁ ≡ k₂
  put_unique at cell f f' j k line old fit j' k₁ k₂ l₁ l₂ h₁ h₂ v₁ v₂ t =
      elim (update_inv at j k line j' k₁ l₁ h₁) [
        | inl (j₁, e₁, s₁) ↦ elim (update_inv at j k line j' k₂ l₂ h₂) [
          | inl (j₂, e₂, s₂) ↦ e₁ ∙ sym e₂
          | inr (g₂, ne) ↦
              e₁
              ∙ sym (
                  fresh_lem at f' j k line fit j' k₂ l₂ j₁ g₂ v₂ (valid_of s₁ v₁)
                    (tag_of_eq s₁ ∙ t))
        ]
        | inr (g₁, ne) ↦ elim (update_inv at j k line j' k₂ l₂ h₂) [
          | inl (j₂, e₂, s₂) ↦
              fresh_lem at f' j k line fit j' k₁ l₁ j₂ g₁ v₁ (valid_of s₂ v₂) (tag_of_eq s₂ ∙ sym t)
              ∙ sym e₂
          | inr (g₂, ne') ↦ old.unique j' k₁ k₂ l₁ l₂ g₁ g₂ v₁ v₂ t
        ]
      ]

  -- A fit line is put in its place, where the memory it stands for changes in that line alone.
  pub put_line :
      (at : Lines) (cell cell' f f' : ℕ → ℕ) (j k : ℕ) (line : CacheLine)
      → Represents o i covers at cell f
      → Fit o i covers at f' j k line
      → ((x : ℕ) → (set_at o i x ≡ j → line.valid ≡ true → line.tag ≢ tag_at o i x) → f' x ≡ f x)
      → ((x : ℕ)
          → ((k' : ℕ) (line' : CacheLine)
              → update at j k line (set_at o i x) k' ≡ some line'
              → line'.valid ≡ true
              → line'.tag ≡ tag_at o i x
              → line'.dirty ≡ false)
          → cell' x ≡ f' x)
      → Represents o i covers (update at j k line) cell' f'
  put_line at cell cell' f f' j k line old fit others backed' = record {
    sized = λ j' k' line' h. elim (update_inv at j k line j' k' line' h) [
      | inl (ej, ek, e) ↦ subst (λ (l : CacheLine). length l.bytes ≡ 2 ^ o) e fit.long
      | inr (h', ne) ↦ old.sized j' k' line' h'
    ];
    bytes = λ j' k' line' h. elim (update_inv at j k line j' k' line' h) [
      | inl (ej, ek, e) ↦ subst (λ (l : CacheLine). Bytes l.bytes) e fit.bytes
      | inr (h', ne) ↦ old.bytes j' k' line' h'
    ];
    served = λ j' k' line' h. elim (update_inv at j k line j' k' line' h) [
      | inl (ej, ek, e) ↦
          subst (Served o i covers j') e
            (subst (λ (s : ℕ). Served o i covers s line) (sym ej) fit.served)
      | inr (h', ne) ↦ old.served j' k' line' h'
    ];
    dirty_valid = λ j' k' line' h d. elim (update_inv at j k line j' k' line' h) [
      | inl (ej, ek, e) ↦
          subst (λ (l : CacheLine). l.dirty ≡ true → l.valid ≡ true) e fit.dirty_valid d
      | inr (h', ne) ↦ old.dirty_valid j' k' line' h' d
    ];
    unique = put_unique at cell f f' j k line old fit;
    held = λ x k' line' h v t. elim (update_inv at j k line (set_at o i x) k' line' h) [
      | inl (ej, ek, e) ↦
          subst
            (λ (l : CacheLine).
              l.valid ≡ true → l.tag ≡ tag_at o i x → get_or l.bytes (x % 2 ^ o) 0 ≡ f' x)
            e (fit.held x ej) v t
      | inr (h', ne) ↦
          old.held x k' line' h' v t
          ∙ sym (
              others x (λ ej v' t'.
                let in_set = subst (λ (s : ℕ). at s k' ≡ some line') ej h' in
                ne ej (fit.fresh k' line' in_set v v' (t' ∙ sym t))))
    ];
    backed = backed';
  }
