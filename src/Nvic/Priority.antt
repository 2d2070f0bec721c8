-- ===== src/Nvic/Priority.antt =====
-- The loop of `process`: which interrupts are pending, and which one is chosen.
use fused_checkmate.Base.{
  ℕ, zero, suc, ◌+◌, ◌/◌, ◌^◌, ◌<◌, ◌≤◌, ◌≡◌, ◌≢◌, inl, inr, refl, subst, sym, ◌∙◌, ap, arith, Bool,
  true, false, ◌&&◌, Bool-cases, none, some, ltb, ◌==◌, if◌then◌else◌, test_bit, test_bit-bit_or,
  test_bit-bit_and, test_bit-two_pow, test_bit-not_bits, ok,
}
use fused_checkmate.RegisterFile.{RegisterFile, read, read_byte}
use fused_checkmate.Nvic.{
  Nvic, Inputs, Scan, set_pend, clear_pend, resolve, check_priority, scan, ofs_ipr0, ofs_iser,
  word_size,
}

-- The new value of bit i of the pending word.
abbrev pub pended : Nvic → Inputs → ℕ → Bool → Bool
pended n inputs i was =
    if set_pend n inputs i then true else if clear_pend n inputs i then false else was

resolve_bit :
    (n : Nvic) (inputs : Inputs) (i j word : ℕ)
    → j < 32
    → test_bit (resolve n inputs i word) j
      ≡ (if j == i then pended n inputs i (test_bit word j) else test_bit word j)
unfolding resolve
resolve_bit n inputs i j word h = elim (Bool-cases (set_pend n inputs i)) [
  | inl e ↦ rw (e, test_bit-bit_or, test_bit-two_pow) (ground arith)
  | inr e ↦ elim (Bool-cases (clear_pend n inputs i)) [
    | inl c ↦
        rw (e, c, test_bit-bit_and, test_bit-not_bits j 32 (2 ^ i) h, test_bit-two_pow)
          (ground arith)
    | inr c ↦ rw (e, c) (ground arith)
  ]
]

-- What the registers hold: the two high bits of an interrupt's byte are its priority, and ISER is the
-- enabled word.
pub record IsPriority (regs : RegisterFile) (prio : ℕ → ℕ) (enabled : ℕ) : Type 0 where
  pub byte :
      (i : ℕ)
      → i < 32
      → (b : ℕ) × (read_byte word_size (ofs_ipr0 + i) regs ≡ ok b) × (b / 2 ^ 6 ≡ prio i)
  pub enable : read ofs_iser regs ≡ ok enabled

-- What the first k passes leave, from a pending word.
pub record Scanned (n : Nvic) (inputs : Inputs) (prio : ℕ → ℕ) (enabled before k : ℕ) (s : Scan)
    : Type 0 where
  pub low : (j : ℕ) → j < k → j < 32 → test_bit s.word j ≡ pended n inputs j (test_bit before j)
  pub high : (j : ℕ) → k ≤ j → j < 32 → test_bit s.word j ≡ test_bit before j
  pub bound : s.highest_pri ≤ 4
  pub best :
      (j : ℕ)
      → j < k
      → j < 32
      → (test_bit s.word j && test_bit enabled j) ≡ true
      → s.highest_pri ≤ prio j
  pub first :
      (b j : ℕ)
      → s.highest_irq ≡ some b
      → j < b
      → (test_bit s.word j && test_bit enabled j) ≡ true
      → s.highest_pri < prio j
  pub chosen :
      (b : ℕ)
      → s.highest_irq ≡ some b
      → (b < k) × ((test_bit s.word b && test_bit enabled b) ≡ true) × (s.highest_pri ≡ prio b)
  pub idle : s.highest_irq ≡ none → s.highest_pri ≡ 4

-- One pass in terms of the priority.
some_inj : {a b : ℕ} → some a ≡ some b → a ≡ b
some_inj e = cc

none-ne-some : {a : ℕ} → none ≢ some a
none-ne-some e = cc

abbrev judge : ℕ → ℕ → ℕ → Scan → Scan
judge prio enabled i s =
    if test_bit s.word i && ltb prio s.highest_pri
    then (if test_bit enabled i
        then record { word = s.word; highest_pri = prio; highest_irq = some i }
        else s)
    else s

check_priority_lem :
    (regs : RegisterFile) (i byte enabled : ℕ) (s : Scan)
    → read_byte word_size (ofs_ipr0 + i) regs ≡ ok byte
    → read ofs_iser regs ≡ ok enabled
    → check_priority regs i s ≡ ok (judge (byte / 2 ^ 6) enabled i s)
unfolding check_priority
check_priority_lem regs i byte enabled s hb he = rw (hb, he) (ground arith)

judge_word : (prio enabled i : ℕ) (s : Scan) → (judge prio enabled i s).word ≡ s.word
judge_word prio enabled i s = ground arith

module _ (n : Nvic) (inputs : Inputs) (prio : ℕ → ℕ) (enabled before k : ℕ) (s : Scan) (h : k < 32)
    (d : Scanned n inputs prio enabled before k s) where
  word' : ℕ
  word' = resolve n inputs k s.word

  next : Scan
  unfolding word'
  next = judge (prio k) enabled k (record s { word = word' })

  bit_of : (j : ℕ) → j < 32 → test_bit next.word j ≡ test_bit word' j
  unfolding next
  bit_of j small =
      ap (λ (v : ℕ). test_bit v j) (judge_word (prio k) enabled k (record s { word = word' }))

  other_bit : (j : ℕ) → j < 32 → j ≢ k → test_bit word' j ≡ test_bit s.word j
  unfolding word'
  other_bit j small ne = ground (arith, resolve_bit n inputs k j s.word small)

  own_bit : test_bit word' k ≡ pended n inputs k (test_bit s.word k)
  unfolding word'
  own_bit = ground (arith, resolve_bit n inputs k k s.word h)

  low_next :
      (j : ℕ) → j < k + 1 → j < 32 → test_bit next.word j ≡ pended n inputs j (test_bit before j)
  low_next j jk small = elim (Bool-cases (j == k)) [
    | inl e ↦
        let same : j ≡ k = ground (arith, e) in
        bit_of j small
        ∙ ap (test_bit word') same
        ∙ own_bit
        ∙ ap (λ (v : Bool). pended n inputs k v) (d.high k (omega arith) h)
        ∙ ap (λ (v : ℕ). pended n inputs v (test_bit before v)) (sym same)
    | inr e ↦
        let ne : j ≢ k = ground (arith, e) in
        bit_of j small ∙ other_bit j small ne ∙ d.low j (omega (arith, ne)) small
  ]

  taken : Bool
  taken = test_bit word' k && ltb (prio k) s.highest_pri && test_bit enabled k

  next_taken : taken ≡ true → (next.highest_pri ≡ prio k) × (next.highest_irq ≡ some k)
  unfolding taken next
  next_taken e = ground (arith, e)

  next_kept :
      taken ≡ false → (next.highest_pri ≡ s.highest_pri) × (next.highest_irq ≡ s.highest_irq)
  unfolding taken next
  next_kept e = ground (arith, e)

  kept_on : taken ≡ false → (test_bit word' k && test_bit enabled k) ≡ true → s.highest_pri ≤ prio k
  unfolding taken
  kept_on e on = ground (arith, e, on)

  taken_on :
      taken ≡ true → ((test_bit word' k && test_bit enabled k) ≡ true) × (prio k < s.highest_pri)
  unfolding taken
  taken_on e = ground (arith, e)

  -- An interrupt before k is on after the pass as it was before it.
  on_before :
      (j : ℕ)
      → j < k
      → (test_bit next.word j && test_bit enabled j) ≡ (test_bit s.word j && test_bit enabled j)
  on_before j jk = rw (bit_of j (omega arith), other_bit j (omega arith) (omega arith))

  on_here : (test_bit next.word k && test_bit enabled k) ≡ (test_bit word' k && test_bit enabled k)
  on_here = rw (bit_of k h)

  best_next :
      (j : ℕ)
      → j < k + 1
      → j < 32
      → (test_bit next.word j && test_bit enabled j) ≡ true
      → next.highest_pri ≤ prio j
  best_next j jk small on = elim (Bool-cases (j == k)) [
    | inl e ↦
        let same : j ≡ k = ground (arith, e) in
        let on' =
          sym on_here ∙ ap (λ v. test_bit next.word v && test_bit enabled v) (sym same) ∙ on in
        elim (Bool-cases taken) [
          | inl t ↦ omega (arith, (next_taken t).0, ap prio same)
          | inr t ↦ omega (arith, (next_kept t).0, ap prio same, kept_on t on')
        ]
    | inr e ↦
        let ne : j ≢ k = ground (arith, e) in
        let below =
          d.best j (omega (arith, ne)) small (sym (on_before j (omega (arith, ne))) ∙ on) in
        elim (Bool-cases taken) [
          | inl t ↦ omega (arith, (next_taken t).0, (taken_on t).1, below)
          | inr t ↦ omega (arith, (next_kept t).0, below)
        ]
  ]

  chosen_next :
      (b : ℕ)
      → next.highest_irq ≡ some b
      → (b < k + 1)
        × ((test_bit next.word b && test_bit enabled b) ≡ true)
        × (next.highest_pri ≡ prio b)
  chosen_next b e = elim (Bool-cases taken) [
    | inl t ↦
        let same : k ≡ b = some_inj (sym (next_taken t).1 ∙ e) in
        (
          omega (arith, same),
          ap (λ v. test_bit next.word v && test_bit enabled v) (sym same)
              ∙ on_here
              ∙ (taken_on t).0,
          (next_taken t).0 ∙ ap prio same,
        )
    | inr t ↦
        let (small, on, value) = d.chosen b (sym (next_kept t).1 ∙ e) in
        (omega (arith, small), on_before b small ∙ on, (next_kept t).0 ∙ value)
  ]

  first_next :
      (b j : ℕ)
      → next.highest_irq ≡ some b
      → j < b
      → (test_bit next.word j && test_bit enabled j) ≡ true
      → next.highest_pri < prio j
  first_next b j e jb on = elim (Bool-cases taken) [
    | inl t ↦
        let same : k ≡ b = some_inj (sym (next_taken t).1 ∙ e) in
        let jk : j < k = omega (arith, same, jb) in
        let below = d.best j jk (omega (arith, jk, h)) (sym (on_before j jk) ∙ on) in
        omega (arith, (next_taken t).0, (taken_on t).1, below)
    | inr t ↦
        let e' = sym (next_kept t).1 ∙ e in
        let jk : j < k = omega (arith, (d.chosen b e').0, jb) in
        omega (arith, (next_kept t).0, d.first b j e' jb (sym (on_before j jk) ∙ on))
  ]

  idle_next : next.highest_irq ≡ none → next.highest_pri ≡ 4
  idle_next e = elim (Bool-cases taken) [
    | inl t ↦ absurd (none-ne-some (sym e ∙ (next_taken t).1))
    | inr t ↦ (next_kept t).0 ∙ d.idle (sym (next_kept t).1 ∙ e)
  ]

  bound_next : next.highest_pri ≤ 4
  bound_next = elim (Bool-cases taken) [
    | inl t ↦ omega (arith, (next_taken t).0, (taken_on t).1, d.bound)
    | inr t ↦ omega (arith, (next_kept t).0, d.bound)
  ]

  pass : Scanned n inputs prio enabled before (k + 1) next
  pass = record {
    low = low_next;
    high = λ j jk small.
        bit_of j small ∙ other_bit j small (omega (arith, jk)) ∙ d.high j (omega (arith, jk)) small;
    bound = bound_next;
    best = best_next;
    first = first_next;
    chosen = chosen_next;
    idle = idle_next;
  }

start :
    (n : Nvic) (inputs : Inputs) (prio : ℕ → ℕ) (enabled before : ℕ)
    → Scanned n inputs prio enabled before 0
        (record { word = before; highest_pri = 4; highest_irq = none })
start n inputs prio enabled before = record {
  low = λ j jk small. absurd (omega (arith, jk));
  high = λ j jk small. refl;
  bound = omega arith;
  best = λ j jk small on. absurd (omega (arith, jk));
  first = λ b j e jb on. absurd (none-ne-some e);
  chosen = λ b e. absurd (none-ne-some e);
  idle = λ e. refl;
}

pub scan_lem :
    (n : Nvic) (inputs : Inputs) (prio : ℕ → ℕ) (enabled before k : ℕ)
    → k ≤ 32
    → IsPriority n.target.regs prio enabled
    → (s : Scan) × (scan n inputs k (record { word = before; highest_pri = 4; highest_irq = none })
        ≡ ok s)
      × Scanned n inputs prio enabled before k s
unfolding scan next word'
scan_lem n inputs prio enabled before zero h regs = (_, refl, start n inputs prio enabled before)
scan_lem n inputs prio enabled before (suc k) h regs =
    let (s, ran, d) = scan_lem n inputs prio enabled before k (omega (arith, h)) regs in
    let (b, got, value) = regs.byte k (omega (arith, h)) in
    let s' : Scan = record s { word = resolve n inputs k s.word } in
    (
      judge (prio k) enabled k s',
      rw (ran, check_priority_lem n.target.regs k b enabled s' got regs.enable, value),
      subst (λ m. Scanned n inputs prio enabled before m (judge (prio k) enabled k s'))
          (omega arith) (pass n inputs prio enabled before k s (omega (arith, h)) d),
    )
