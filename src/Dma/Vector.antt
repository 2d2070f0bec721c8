-- ===== src/Dma/Vector.antt =====
-- What an update of the interrupt state comes to.
use fused_checkmate.Base.{
  ℕ, zero, suc, ◌+◌, ◌^◌, ◌<◌, ◌≡◌, ◌⊎◌, inl, inr, refl, sym, subst, ◌∙◌, ap, arith, Bool, true,
  false, none, some, List, [], ◌∷◌, map, if◌then◌else◌, get_elem?, set, Result, ok, ◌>>=◌, ◌||◌,
}
use fused_checkmate.RegisterFile.{RegisterFile, read}
use fused_checkmate.RegisterFile.Plain.{Keeps, write_plain, read-write_forced}
use fused_checkmate.Dma.{
  Dma, ofs_iv, write_flags, find_flagged, set_vector, clear_flag, update_vector, interrupt_update,
}
use fused_checkmate.Dma.Channel.{DmaChannel}
use fused_checkmate.Dma.Request.{
  unflag, count_flags, First, search_lem, HasControls, HasControls-keep, HasControls-vector,
  HasControls-set, write_flags_lem,
}

-- The flags are written first.
update_lem :
    (d : Dma) (regs : RegisterFile)
    → write_flags 0 d.channels d.regs ≡ ok regs
    → interrupt_update d ≡ update_vector (find_flagged 0 d.channels) (record d { regs = regs })
unfolding interrupt_update
update_lem d regs done = rw done refl

-- No flag is set.
quiet_lem :
    (d : Dma)
    → find_flagged 0 d.channels ≡ none
    → HasControls 0 d.channels d.regs
    → (regs : RegisterFile) × (interrupt_update d
        ≡ ok (record d { regs = regs; clear_ifg = false; irq = false }, false))
      × (read ofs_iv regs ≡ ok 0)
unfolding update_vector set_vector
quiet_lem d missing has =
    let (flags, done, keeps) = write_flags_lem 0 d.channels d.regs has in
    let plain = keeps _ (HasControls-vector 0 d.channels d.regs has) in
    let (regs, written, kept) = write_plain ofs_iv 0 true flags plain in
    (
      regs,
      update_lem d flags done ∙ rw (missing, written) refl,
      read-write_forced ofs_iv 0 flags regs plain written,
    )

-- Some flag is set, and none is to be cleared.
vector_lem :
    (d : Dma) (j : ℕ) (c : DmaChannel)
    → d.clear_ifg ≡ false
    → find_flagged 0 d.channels ≡ some j
    → get_elem? d.channels j ≡ some c
    → HasControls 0 d.channels d.regs
    → (regs : RegisterFile) × (interrupt_update d
        ≡ ok (
          record d {
            regs = regs;
            clear_ifg = false;
            irq = if c.interrupt_enable then true else d.irq;
          },
          false,
        ))
      × (read ofs_iv regs ≡ ok (2 ^ (j + 1)))
unfolding update_vector set_vector
vector_lem d j c keep found there has =
    let (flags, done, keeps) = write_flags_lem 0 d.channels d.regs has in
    let plain = keeps _ (HasControls-vector 0 d.channels d.regs has) in
    let (regs, written, kept) = write_plain ofs_iv (2 ^ (j + 1)) true flags plain in
    (
      regs,
      update_lem d flags done ∙ rw (found, keep, written, there) refl,
      read-write_forced ofs_iv (2 ^ (j + 1)) flags regs plain written,
    )

-- Some flag is set, and is to be cleared.
clear_lem :
    (d : Dma) (j : ℕ) (c : DmaChannel)
    → d.clear_ifg ≡ true
    → find_flagged 0 d.channels ≡ some j
    → get_elem? d.channels j ≡ some c
    → HasControls 0 d.channels d.regs
    → (regs : RegisterFile) × (interrupt_update d
        ≡ ok (record d { regs = regs; channels = set d.channels j (unflag c) }, true))
      × Keeps d.regs regs
unfolding update_vector clear_flag
clear_lem d j c keep found there has =
    let (flags, done, keeps) = write_flags_lem 0 d.channels d.regs has in
    (flags, update_lem d flags done ∙ rw (found, keep, there) refl, keeps)

all_quiet :
    (channels : List DmaChannel)
    → map unflag channels ≡ channels
    → (j : ℕ) (c : DmaChannel) → get_elem? channels j ≡ some c
    → c.interrupt_flag ≡ false
all_quiet [] same j c there = cc
all_quiet (x ∷ channels) same zero c there =
    let head : unflag x ≡ x = cc same in
    let at : x ≡ c = cc there in
    subst (λ y. y.interrupt_flag ≡ false) at (sym (ap (λ y. y.interrupt_flag) head))
all_quiet (x ∷ channels) same (suc j) c there =
    let tail : map unflag channels ≡ channels = cc same in all_quiet channels tail j c there

first_of :
    (channels : List DmaChannel) (j : ℕ)
    → find_flagged 0 channels ≡ some (0 + j)
    → find_flagged 0 channels ≡ some j
first_of channels j found = found ∙ ap some (omega arith)

-- An update with no flag to clear, where the registers are there, succeeds and is not notified
-- again. If no flag is set, the vector is zero and the request is withdrawn. Otherwise the vector
-- has the bit of the first channel with its flag set, counted from one, and an interrupt is
-- requested if that channel's interrupt is enabled; if it is not, the request stays as it was. The
-- channels stay as they are.
pub interrupt_update_lem :
    (d : Dma)
    → d.clear_ifg ≡ false
    → HasControls 0 d.channels d.regs
    → (d' : Dma) × (interrupt_update d ≡ ok (d', false))
      × (d'.channels ≡ d.channels)
      × (((j : ℕ) (c : DmaChannel) → get_elem? d.channels j ≡ some c → c.interrupt_flag ≡ false)
            × (read ofs_iv d'.regs ≡ ok 0)
            × (d'.irq ≡ false)
          ⊎ (j : ℕ) × (first : First d.channels j) × (read ofs_iv d'.regs ≡ ok (2 ^ (j + 1)))
            × (d'.irq ≡ (first.channel.interrupt_enable || d.irq)))
interrupt_update_lem d keep has = elim (search_lem 0 d.channels) [
  | inl (missing, same, flags) ↦
      let (regs, done, vector) = quiet_lem d missing has in
      (
        record d { regs = regs; clear_ifg = false; irq = false },
        done,
        refl,
        inl (all_quiet d.channels same, vector, refl),
      )
  | inr (j, found, at) ↦
      let c = at.first.channel in
      let (regs, done, vector) =
        vector_lem d j c keep (first_of d.channels j found) at.first.there has in
      (
        record d {
          regs = regs;
          clear_ifg = false;
          irq = if c.interrupt_enable then true else d.irq;
        },
        done,
        refl,
        inr (j, at.first, vector, requested c.interrupt_enable d.irq),
      )
]
  where
    requested : (enable irq : Bool) → (if enable then true else irq) ≡ (enable || irq)
    requested true irq = refl
    requested false irq = refl

-- `interrupt_update` as often as it notifies itself, with fuel; the second result tells that it
-- would go on.
unfoldable pub settle : ℕ → Dma → Result (Dma × Bool)
settle zero d = ok (d, true)
settle (suc fuel) d = interrupt_update d >>= λ (d', again).
    let rest = settle fuel d' in if again then rest else ok (d', false)

settle_again :
    (fuel : ℕ) (d d' : Dma)
    → interrupt_update d ≡ ok (d', true)
    → settle (suc fuel) d ≡ settle fuel d'
unfolding settle
settle_again fuel d d' done = rw (done, settle) refl

settle_end :
    (fuel : ℕ) (d d' : Dma)
    → interrupt_update d ≡ ok (d', false)
    → settle (suc fuel) d ≡ ok (d', false)
unfolding settle
settle_end fuel d d' done = rw (done, settle) refl

-- Once a flag is to be cleared, the updates notify themselves until no flag is left, and no more:
-- with more fuel than flags are set, they succeed and end with the flags of all channels cleared,
-- not only that of the first, the vector zero and the request withdrawn, where the registers are
-- there. The channels stay as they are otherwise.
pub settle_lem :
    (fuel : ℕ) (d : Dma)
    → d.clear_ifg ≡ true
    → count_flags d.channels < fuel
    → HasControls 0 d.channels d.regs
    → (regs : RegisterFile) × (settle fuel d
        ≡ ok (
          record d {
            regs = regs;
            channels = map unflag d.channels;
            clear_ifg = false;
            irq = false;
          },
          false,
        ))
      × (read ofs_iv regs ≡ ok 0)
settle_lem zero d clear enough has = elim enough [ ]
settle_lem (suc fuel) d clear enough has = elim (search_lem 0 d.channels) [
  | inl (missing, same, flags) ↦
      let (regs, done, vector) = quiet_lem d missing has in
      (regs, settle_end fuel d _ done ∙ rw same refl, vector)
  | inr (j, found, at) ↦
      let c = at.first.channel in
      let (regs, done, keeps) =
        clear_lem d j c clear (first_of d.channels j found) at.first.there has in
      let next = record d { regs = regs; channels = set d.channels j (unflag c) } in
      let fewer = at.fewer in
      let kept =
        HasControls-keep 0 (set d.channels j (unflag c)) d.regs regs keeps
          (HasControls-set 0 j d.channels (unflag c) d.regs has) in
      let (last, more, vector) = settle_lem fuel next clear (omega (arith, fewer, enough)) kept in
      let same = at.same in (last, settle_again fuel d next done ∙ more ∙ rw same refl, vector)
]
