-- ===== src/Accelerometer/Measure.antt =====
-- A measurement by an accelerometer whose registers may be read and written.
use fused_checkmate.Base.{
  ℕ, ◌*◌, ◌%◌, ◌^◌, ◌≡◌, refl, ap, sym, subst, ◌∙◌, bit_and, Bool, true, false, not, ◌&&◌, ◌||◌,
  List, [], ◌∷◌, ◌++◌, length, ltb, if◌then◌else◌, ok,
}
use fused_checkmate.RegisterFile.{RegisterFile, read}
use fused_checkmate.RegisterFile.Plain.{IsPlain, read_plain, set_plain, clear_plain}
use fused_checkmate.Accelerometer.{
  Accelerometer, ctrl, status, fifo_thr, is_continuous, to_standby, frame, pop_loop, take_sample,
  is_single,
}
use fused_checkmate.Accelerometer.Frames.{
  Frame, AllWhole, AllWhole-append, Newest, flatten, flatten-append, length-flatten, new_frame,
  new_whole, frame-bytes, pop_loop-Newest,
}

standby_plain :
    (b : Bool) (regs : RegisterFile)
    → IsPlain ctrl regs
    → (next : RegisterFile) × ((if b then to_standby regs else ok regs) ≡ ok next)
unfolding to_standby
standby_plain false regs p = (regs, refl)
standby_plain true regs p =
    let (cleared, clears, keeps) = clear_plain ctrl 3 false regs p in
    let (next, sets, kept) = set_plain ctrl 1 false cleared (keeps ctrl p) in
    (next, rw (clears, sets) refl)

-- The bytes after the loop, from a FIFO of whole frames.
fifo_lem :
    (control x y z : ℕ) (fs : List Frame)
    → AllWhole fs
    → (let filled = flatten fs ++ frame control x y z in
        Newest (fs ++ (new_frame control x y z ∷ [])) (pop_loop (length filled) filled))
fifo_lem control x y z fs whole =
    let new = new_frame control x y z ∷ [] in
    let filled : flatten (fs ++ new) ≡ flatten fs ++ frame control x y z =
      flatten-append fs new ∙ ap (λ t. flatten fs ++ t) (sym (frame-bytes control x y z)) in
    let all = AllWhole-append fs new whole (new_whole control x y z) in
    subst (λ t. Newest (fs ++ new) (pop_loop (length t) t)) filled
      (pop_loop-Newest (length (flatten (fs ++ new))) (fs ++ new) all (length-flatten (fs ++ new)))

-- With the registers CTRL, STATUS and FIFO_THR there, from a FIFO of whole frames, taking a sample
-- succeeds; afterwards the FIFO holds at most 1024 bytes: of
-- the old frames and the one for the axes that CTRL enables the newest, whole, and no frame was
-- dropped while the bytes from it on would have fit.
pub take_sample-Newest :
    (x y z : ℕ) (a : Accelerometer) (fs : List Frame)
    → IsPlain ctrl a.regs
    → IsPlain status a.regs
    → IsPlain fifo_thr a.regs
    → a.fifo ≡ flatten fs
    → AllWhole fs
    → (a' : Accelerometer) × (control : ℕ) × (take_sample x y z a ≡ ok a')
      × (read ctrl a.regs ≡ ok control)
      × Newest (fs ++ (new_frame control x y z ∷ [])) a'.fifo
unfolding take_sample
take_sample-Newest x y z a fs has-ctrl has-status has-thr holds whole =
    let (control, known) = read_plain ctrl a.regs has-ctrl in
    let (idle, clears, keeps) = clear_plain status 1 false a.regs has-status in
    let (threshold, limit) = read_plain fifo_thr idle (keeps fifo_thr has-thr) in
    let (regs, stands) = standby_plain (is_single a.measurement_state) idle (keeps ctrl has-ctrl) in
    let filled = a.fifo ++ frame control x y z in
    let fifo = pop_loop (length filled) filled in
    let continuous = is_continuous a.measurement_state in
    let fifo_irq = continuous && not (ltb (length fifo) (threshold * 4 % 2 ^ 32)) in
    let raises =
      ltb 0 (bit_and control 0x40) && (fifo_irq || (not continuous && ltb 0 (length fifo))) in
    let set_irq = if raises then true else a.set_irq in
    (
      record a { regs = regs; fifo = fifo; set_irq = set_irq },
      control,
      rw (known, clears, limit, stands) refl,
      known,
      subst
          (λ t.
            Newest (fs ++ (new_frame control x y z ∷ []))
              (pop_loop (length (t ++ frame control x y z)) (t ++ frame control x y z)))
          (sym holds) (fifo_lem control x y z fs whole),
    )
