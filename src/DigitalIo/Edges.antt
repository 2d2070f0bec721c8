-- ===== src/DigitalIo/Edges.antt =====
-- The edges of the inputs, as `process` samples them.
use fused_checkmate.Base.{
  ℕ, ◌^◌, ◌<◌, ◌≡◌, refl, arith, ◌∙◌, test_bit, bit_and, bit_or, not_bits, Bool, true, false, not,
  ◌&&◌, ◌||◌, Bool-cases, inl, inr, if◌then◌else◌, ok,
}
use fused_checkmate.Base.Masks.{set_here, clear_here}
use fused_checkmate.RegisterFile.{RegisterFile, read, set_bit}
use fused_checkmate.RegisterFile.Plain.{IsPlain, read_plain, set_bit_forced, clear_bit_forced}
use fused_checkmate.DigitalIo.{DigitalIo, Settings, sample, rise, fall, ofs_in, ofs_ifg}

-- Whether the input has the edge that the port selects for its interrupt.
abbrev pub is_edge : (current last falling : Bool) → Bool
is_edge current last falling = if falling then (not current && last) else (current && not last)

-- The edge memory and the data register hold the level that was read, and the flag is set if it was
-- or if the selected edge came while the interrupt is enabled.
pub record Sampled (i : ℕ) (current : Bool) (s : Settings) (d d' : DigitalIo) (level flags : ℕ)
    : Type 0 where
  pub follows : test_bit d'.last_state i ≡ current
  pub shown : test_bit level i ≡ current
  pub before : ℕ
  pub known : read ofs_ifg d.regs ≡ ok before
  pub flagged : test_bit flags i ≡ (
      test_bit before i
      || (test_bit s.irq_en i && is_edge current (test_bit d.last_state i) (test_bit s.irq_edge i)))

-- The flag after an edge.
flag_lem :
    (i flags : ℕ) (raises : Bool) (regs : RegisterFile)
    → i < 16
    → IsPlain ofs_ifg regs
    → read ofs_ifg regs ≡ ok flags
    → (next : RegisterFile) × (flags' : ℕ) × ((if raises
          then set_bit 2 ofs_ifg i true regs
          else ok regs)
        ≡ ok next)
      × (read ofs_ifg next ≡ ok flags')
      × (read ofs_in next ≡ read ofs_in regs)
      × (test_bit flags' i ≡ (test_bit flags i || raises))
flag_lem i flags true regs small p known =
    let (next, done, change) =
      set_bit_forced 2 ofs_ifg i flags regs p known (omega (arith, small)) in
    (
      next,
      bit_or flags (2 ^ i),
      done,
      change.holds,
      change.others ofs_in (λ e. absurd (omega (arith, e))),
      rw (set_here flags i) (ground arith),
    )
flag_lem i flags false regs small p known = (regs, flags, refl, known, refl, ground arith)

-- What sampling gives.
abbrev pub Outcome : ℕ → Bool → Settings → DigitalIo → Type 0
Outcome i current s d =
    (d' : DigitalIo) × (level' : ℕ) × (flags' : ℕ) × (sample i current s d ≡ ok d')
    × (read ofs_in d'.regs ≡ ok level')
    × (read ofs_ifg d'.regs ≡ ok flags')
    × Sampled i current s d d' level' flags'

module _ (i : ℕ) (s : Settings) (d : DigitalIo) (level : ℕ) (small : i < 16)
    (has-in : IsPlain ofs_in d.regs) (has-ifg : IsPlain ofs_ifg d.regs)
    (shows : read ofs_in d.regs ≡ ok level) where
  stays :
      (current : Bool)
      → test_bit level i ≡ test_bit d.last_state i
      → test_bit d.last_state i ≡ current
      → Outcome i current s d
  unfolding sample
  stays true same e =
      let (flags, known) = read_plain ofs_ifg d.regs has-ifg in
      (
        d,
        level,
        flags,
        rw e refl,
        shows,
        known,
        record {
          follows = e;
          shown = same ∙ e;
          before = flags;
          known = known;
          flagged = rw e (ground arith);
        },
      )
  stays false same e =
      let (flags, known) = read_plain ofs_ifg d.regs has-ifg in
      (
        d,
        level,
        flags,
        rw e refl,
        shows,
        known,
        record {
          follows = e;
          shown = same ∙ e;
          before = flags;
          known = known;
          flagged = rw e (ground arith);
        },
      )

  rises : test_bit d.last_state i ≡ false → Outcome i true s d
  unfolding sample rise
  rises e =
      let raises = test_bit s.irq_en i && not (test_bit s.irq_edge i) in
      let (shown, sets, change) =
        set_bit_forced 2 ofs_in i level d.regs has-in shows (omega (arith, small)) in
      let (flags, known) = read_plain ofs_ifg d.regs has-ifg in
      let kept : read ofs_ifg shown ≡ ok flags =
        change.others ofs_ifg (λ e. absurd (omega (arith, e))) ∙ known in
      let (regs, flags', raised, holds, still, flagged) =
        flag_lem i flags raises shown small (change.keeps ofs_ifg has-ifg) kept in
      (
        record d { regs = regs; last_state = bit_or d.last_state (2 ^ i) },
        bit_or level (2 ^ i),
        flags',
        rw (e, sets, raised) refl,
        still ∙ change.holds,
        holds,
        record {
          follows = set_here d.last_state i;
          shown = set_here level i;
          before = flags;
          known = known;
          flagged = rw e (flagged ∙ ground arith);
        },
      )

  falls : test_bit d.last_state i ≡ true → Outcome i false s d
  unfolding sample fall
  falls e =
      let raises = test_bit s.irq_en i && test_bit s.irq_edge i in
      let (shown, clears, change) =
        clear_bit_forced 2 ofs_in i level d.regs has-in shows (omega (arith, small)) in
      let (flags, known) = read_plain ofs_ifg d.regs has-ifg in
      let kept : read ofs_ifg shown ≡ ok flags =
        change.others ofs_ifg (λ e. absurd (omega (arith, e))) ∙ known in
      let (regs, flags', raised, holds, still, flagged) =
        flag_lem i flags raises shown small (change.keeps ofs_ifg has-ifg) kept in
      (
        record d { regs = regs; last_state = bit_and d.last_state (not_bits 32 (2 ^ i)) },
        bit_and level (not_bits 32 (2 ^ i)),
        flags',
        rw (e, clears, raised) refl,
        still ∙ change.holds,
        holds,
        record {
          follows = clear_here d.last_state i (omega (arith, small));
          shown = clear_here level i (omega (arith, small));
          before = flags;
          known = known;
          flagged = rw e (flagged ∙ ground arith);
        },
      )

-- With the data and flag registers there, sampling one of the sixteen inputs succeeds. If the data
-- register showed the level in the edge memory, both show the level that was read, and the flag of
-- the input is set if it was set before, or if the interrupt is enabled and the input has the edge
-- that the port selects, and in no other case.
pub sample-Outcome :
    (i : ℕ) (current : Bool) (s : Settings) (d : DigitalIo) (level : ℕ)
    → i < 16
    → IsPlain ofs_in d.regs
    → IsPlain ofs_ifg d.regs
    → read ofs_in d.regs ≡ ok level
    → test_bit level i ≡ test_bit d.last_state i
    → Outcome i current s d
sample-Outcome i true s d level small has-in has-ifg shows same =
    elim (Bool-cases (test_bit d.last_state i)) [
      | inl e ↦ stays i s d level small has-in has-ifg shows true same e
      | inr e ↦ rises i s d level small has-in has-ifg shows e
    ]
sample-Outcome i false s d level small has-in has-ifg shows same =
    elim (Bool-cases (test_bit d.last_state i)) [
      | inl e ↦ falls i s d level small has-in has-ifg shows e
      | inr e ↦ stays i s d level small has-in has-ifg shows false same e
    ]
