-- ===== src/Dma/Request.antt =====
-- The interrupt flags, the vector and the request.
use fused_checkmate.Base.{
  ℕ, zero, suc, ◌+◌, ◌*◌, ◌<◌, ◌≡◌, ◌⊎◌, inl, inr, refl, subst, ◌∙◌, ap, arith, true, false,
  Bool-cases, none, some, List, [], ◌∷◌, map, if◌then◌else◌, get_elem?, set, ok,
}
use fused_checkmate.RegisterFile.{RegisterFile}
use fused_checkmate.RegisterFile.Plain.{IsPlain, Keeps, clear_plain, set_plain}
use fused_checkmate.Dma.{ofs_ctl, ofs_iv, write_flags, find_flagged}
use fused_checkmate.Dma.Channel.{DmaChannel}

-- A channel with its flag cleared.
abbrev pub unflag : DmaChannel → DmaChannel
unflag c = record c { interrupt_flag = false }

-- How many flags are set.
unfoldable pub count_flags : List DmaChannel → ℕ
count_flags [] = 0
count_flags (c ∷ channels) =
    if c.interrupt_flag then suc (count_flags channels) else count_flags channels

-- What a channel number names: the first channel with its flag set.
pub record First (channels : List DmaChannel) (j : ℕ) : Type 0 where
  pub channel : DmaChannel
  pub there : get_elem? channels j ≡ some channel
  pub flagged : channel.interrupt_flag ≡ true
  pub earlier :
      (k : ℕ) (c : DmaChannel) → get_elem? channels k ≡ some c → k < j → c.interrupt_flag ≡ false

-- It is one of the flags.
pub record Found (channels : List DmaChannel) (j : ℕ) : Type 0 where
  pub first : First channels j
  pub fewer : suc (count_flags (set channels j (unflag first.channel))) ≡ count_flags channels
  pub same : map unflag (set channels j (unflag first.channel)) ≡ map unflag channels

-- Either no flag is set, or `find_flagged` finds the first one.
abbrev pub Search : ℕ → List DmaChannel → Type 0
Search i channels =
    ((find_flagged i channels ≡ none)
      × (map unflag channels ≡ channels)
      × (count_flags channels ≡ 0))
    ⊎ ((j : ℕ) × (find_flagged i channels ≡ some (i + j)) × Found channels j)

pub unflag_same : (c : DmaChannel) → c.interrupt_flag ≡ false → unflag c ≡ c
unflag_same c h = ground (arith, h)

search_here :
    (c : DmaChannel) (channels : List DmaChannel) (i : ℕ)
    → c.interrupt_flag ≡ true
    → Search i (c ∷ channels)
unfolding find_flagged count_flags
search_here c channels i h = inr (
  0,
  rw h (ap some (omega arith)),
  record {
    first = record {
      channel = c;
      there = refl;
      flagged = h;
      earlier = λ k c' at below. absurd (omega (arith, below));
    };
    fewer = rw h refl;
    same = refl;
  },
)

search_later :
    (c : DmaChannel) (channels : List DmaChannel) (i : ℕ)
    → c.interrupt_flag ≡ false
    → Search (i + 1) channels
    → Search i (c ∷ channels)
unfolding find_flagged count_flags
search_later c channels i h (inl (missing, same, zero_flags)) =
    inl (rw h missing, rw (unflag_same c h, same) refl, rw h zero_flags)
search_later c channels i h (inr (j, found, at)) = inr (
  suc j,
  rw h (found ∙ ap some (omega arith)),
  record {
    first = record {
      channel = at.first.channel;
      there = at.first.there;
      flagged = at.first.flagged;
      earlier = go;
    };
    fewer = rw h at.fewer;
    same = ap (λ t. unflag c ∷ t) at.same;
  },
)
  where
    go :
        (k : ℕ) (c' : DmaChannel)
        → get_elem? (c ∷ channels) k ≡ some c'
        → k < suc j
        → c'.interrupt_flag ≡ false
    go zero c' same below = let e : c ≡ c' = cc same in subst (λ x. x.interrupt_flag ≡ false) e h
    go (suc k) c' there below = at.first.earlier k c' there (omega (arith, below))

pub search_lem : (i : ℕ) (channels : List DmaChannel) → Search i channels
unfolding find_flagged count_flags
search_lem i [] = inl (refl, refl, refl)
search_lem i (c ∷ channels) = elim (Bool-cases c.interrupt_flag) [
  | inl e ↦ search_here c channels i e
  | inr e ↦ search_later c channels i e (search_lem (i + 1) channels)
]

-- The vector and the control registers are there, from channel i on.
abbrev pub HasControls : ℕ → List DmaChannel → RegisterFile → Type 0
HasControls i [] regs = IsPlain ofs_iv regs
HasControls i (c ∷ channels) regs =
    IsPlain (ofs_ctl + i * 0x10) regs × HasControls (i + 1) channels regs

pub HasControls-keep :
    (i : ℕ) (channels : List DmaChannel) (regs next : RegisterFile)
    → Keeps regs next
    → HasControls i channels regs
    → HasControls i channels next
HasControls-keep i [] regs next keeps has = keeps _ has
HasControls-keep i (c ∷ channels) regs next keeps (control, rest) =
    (keeps _ control, HasControls-keep (i + 1) channels regs next keeps rest)

pub HasControls-vector :
    (i : ℕ) (channels : List DmaChannel) (regs : RegisterFile)
    → HasControls i channels regs
    → IsPlain ofs_iv regs
HasControls-vector i [] regs has = has
HasControls-vector i (c ∷ channels) regs (control, rest) =
    HasControls-vector (i + 1) channels regs rest

pub HasControls-set :
    (i j : ℕ) (channels : List DmaChannel) (c : DmaChannel) (regs : RegisterFile)
    → HasControls i channels regs
    → HasControls i (set channels j c) regs
HasControls-set i j [] c regs has = has
HasControls-set i zero (x ∷ channels) c regs has = has
HasControls-set i (suc j) (x ∷ channels) c regs (control, rest) =
    (control, HasControls-set (i + 1) j channels c regs rest)

pub write_flags_lem :
    (i : ℕ) (channels : List DmaChannel) (regs : RegisterFile)
    → HasControls i channels regs
    → (next : RegisterFile) × (write_flags i channels regs ≡ ok next) × Keeps regs next
unfolding write_flags
write_flags_lem i [] regs has = (regs, refl, λ b p. p)
write_flags_lem i (c ∷ channels) regs (control, rest) = elim (Bool-cases c.interrupt_flag) [
  | inl e ↦
      let (next, done, keeps) = set_plain (ofs_ctl + i * 0x10) 0x8 false regs control in
      let (last, more, kept) =
        write_flags_lem (i + 1) channels next
          (HasControls-keep (i + 1) channels regs next keeps rest) in
      (last, rw (e, done) more, λ b p. kept b (keeps b p))
  | inr e ↦
      let (next, done, keeps) = clear_plain (ofs_ctl + i * 0x10) 0x8 false regs control in
      let (last, more, kept) =
        write_flags_lem (i + 1) channels next
          (HasControls-keep (i + 1) channels regs next keeps rest) in
      (last, rw (e, done) more, λ b p. kept b (keeps b p))
]
