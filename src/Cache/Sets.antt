-- ===== src/Cache/Sets.antt =====
-- The lines of all sets of a cache, and the line that an address is found in.
use fused_checkmate.Base.{
  ℕ, zero, suc, ◌+◌, ◌<◌, ◌≡◌, ◌≢◌, inl, inr, refl, sym, ap, ◌∙◌, arith, Bool, true, false, ◌&&◌,
  Bool-cases, Option, none, some, List, [], ◌∷◌, ◌==◌, if◌then◌else◌, length, get_elem?, set,
}
use fused_checkmate.Cache.{CacheLine, CacheSet, find_line}
use fused_checkmate.Cache.Represents.{Lines, update}

module _ {ℓ} {A : Type ℓ} where
  pub get_elem?-lt : (xs : List A) (k : ℕ) → k < length xs → (x : A) × (get_elem? xs k ≡ some x)
  get_elem?-lt [] k h = absurd (omega arith)
  get_elem?-lt (x ∷ xs) zero h = (x, refl)
  get_elem?-lt (x ∷ xs) (suc k) h = get_elem?-lt xs k (omega arith)

  pub get_elem?-small : (xs : List A) (k : ℕ) (x : A) → get_elem? xs k ≡ some x → k < length xs
  get_elem?-small [] k x h = cc
  get_elem?-small (y ∷ xs) zero x h = omega arith
  get_elem?-small (y ∷ xs) (suc k) x h = omega (arith, get_elem?-small xs k x h)

  pub get_elem?-set :
      (xs : List A) (k j : ℕ) (x old : A)
      → get_elem? xs k ≡ some old
      → get_elem? (set xs k x) j ≡ (if j == k then some x else get_elem? xs j)
  get_elem?-set [] k j x old h = cc
  get_elem?-set (y ∷ xs) zero zero x old h = ground arith
  get_elem?-set (y ∷ xs) zero (suc j) x old h = ground arith
  get_elem?-set (y ∷ xs) (suc k) zero x old h = ground arith
  get_elem?-set (y ∷ xs) (suc k) (suc j) x old h =
      let test : (suc j == suc k) ≡ (j == k) = ground arith in
      rw test (get_elem?-set xs k j x old h)

-- Putting a line where it is changes nothing.
pub update_same :
    (at : Lines) (j k : ℕ) (line : CacheLine)
    → at j k ≡ some line
    → (j' k' : ℕ) → at j' k' ≡ update at j k line j' k'
update_same at j k line here j' k' = elim (Bool-cases (j' == j && k' == k)) [
  | inl e ↦
      let ej : j' ≡ j = ground (arith, e) in
      let ek : k' ≡ k = ground (arith, e) in rw e (ap (λ (x : ℕ). at x k') ej ∙ ap (at j) ek ∙ here)
  | inr e ↦ rw e refl
]

-- The line at a place.
abbrev pub place : {P : Type 0} → Option (CacheSet P) → ℕ → Option CacheLine
place none k = none
place (some s) k = get_elem? s.lines k

abbrev pub at_of : {P : Type 0} → List (CacheSet P) → Lines
at_of sets j k = place (get_elem? sets j) k

pub at_of_lem :
    {P : Type 0} (sets : List (CacheSet P)) (j k : ℕ) (s : CacheSet P)
    → get_elem? sets j ≡ some s
    → at_of sets j k ≡ get_elem? s.lines k
at_of_lem sets j k s h = ap (λ r. place r k) h

choose_place :
    {P : Type 0} (b c : Bool) (line : CacheLine) (s' : CacheSet P) (found : Option (CacheSet P))
    (old : Option CacheLine) (k' : ℕ)
    → get_elem? s'.lines k' ≡ (if c then some line else old)
    → (b ≡ true → place found k' ≡ old)
    → (if b && c then some line else place found k') ≡ place (if b then some s' else found) k'
choose_place true true line s' found old k' lines' same = sym lines'
choose_place true false line s' found old k' lines' same = same refl ∙ sym lines'
choose_place false c line s' found old k' lines' same = refl

-- A line put into its set.
pub at_of-set :
    {P : Type 0} (sets : List (CacheSet P)) (j k : ℕ) (s : CacheSet P) (p : P)
    (line old : CacheLine)
    → get_elem? sets j ≡ some s
    → get_elem? s.lines k ≡ some old
    → (j' k' : ℕ)
    → update (at_of sets) j k line j' k'
      ≡ at_of (set sets j (record { replacement = p; lines = set s.lines k line })) j' k'
at_of-set sets j k s p line old hs hl j' k' =
    let s' : CacheSet _ = record { replacement = p; lines = set s.lines k line } in
    choose_place (j' == j) (k' == k) line s' (get_elem? sets j') (get_elem? s.lines k') k'
      (get_elem?-set s.lines k k' line old hl)
      (λ e.
        let ej : j' ≡ j = ground (arith, e) in
        ap (λ x. at_of sets x k') ej ∙ at_of_lem sets j k' s hs)
    ∙ ap (λ r. place r k') (sym (get_elem?-set sets j j' s' s hs))

some-none : {x : ℕ} → some x ≡ none → ⊥
some-none h = cc

pub find_line-none :
    (tag m : ℕ) (lines : List CacheLine)
    → find_line tag m lines ≡ none
    → (k : ℕ) (line : CacheLine) → get_elem? lines k ≡ some line
    → line.valid ≡ true
    → line.tag ≢ tag
unfolding find_line
find_line-none tag m [] h k line hl v t = cc
find_line-none tag m (l ∷ lines) h zero line hl v t =
    let same : l ≡ line = cc in
    let t' : l.tag ≡ tag = ap (λ (x : CacheLine). x.tag) same ∙ t in
    let v' : l.valid ≡ true = ap (λ (x : CacheLine). x.valid) same ∙ v in
    let test : (l.tag == tag && l.valid) ≡ true = ground (arith, t', v') in
    absurd (some-none (rw test at h))
find_line-none tag m (l ∷ lines) h (suc k) line hl v t =
    elim (Bool-cases (l.tag == tag && l.valid)) [
      | inl e ↦ absurd (some-none (rw e at h))
      | inr e ↦ find_line-none tag (m + 1) lines (rw e at h) k line hl v t
    ]

pub find_line-some :
    (tag m k : ℕ) (lines : List CacheLine)
    → find_line tag m lines ≡ some k
    → (k' : ℕ) × (line : CacheLine) × (k ≡ m + k')
      × (get_elem? lines k' ≡ some line)
      × (line.valid ≡ true)
      × (line.tag ≡ tag)
unfolding find_line
find_line-some tag m k [] h = cc
find_line-some tag m k (l ∷ lines) h = elim (Bool-cases (l.tag == tag && l.valid)) [
  | inl e ↦ (0, l, ground (arith, e, h), refl, ground (arith, e), ground (arith, e))
  | inr e ↦
      let (k', line, ek, hl, v, t) = find_line-some tag (m + 1) k lines (rw e at h) in
      (suc k', line, omega (arith, ek), hl, v, t)
]
