-- ===== src/Spi/Fifo/Run.antt =====
-- Sequences of operations, on the word and on a queue of bytes.
use fused_checkmate.Base.{
  ℕ, ◌+◌, ◌≡◌, refl, sym, ◌∙◌, ap, subst, true, ◌&&◌, leb, Bool-cases, Option-cases, inl, inr,
  if◌then◌else◌, Option, some, none, List, [], ◌∷◌, ◌++◌, length, take, drop, Result, ok, ◌>>=◌,
}
use mathlib.Core.Option.{map}
use fused_checkmate.Spi.Fifo.{Fifo, get, put}
use fused_checkmate.Spi.Fifo.Queue.{value, Holds}
use fused_checkmate.Spi.Fifo.Steps.{low_bytes, width, put_lem, put_full, get_lem}

-- `put(nbits, val)` and `get(nbits)`
pub data Operation : Type 0 where
  puts : ℕ → ℕ → Operation
  gets : ℕ → Operation

-- The operations one after another, with what the calls of `get` return.
unfoldable pub run : List Operation → Fifo → Result (List ℕ × Fifo)
run [] f = ok ([], f)
run (puts nbits val ∷ ops) f = put nbits val f >>= λ (f', full). run ops f'
run (gets nbits ∷ ops) f = do (v, f') ← get nbits f; (vs, f'') ← run ops f'; ok (v ∷ vs, f'')

-- The same operations on a queue of at most four bytes: what does not fit is dropped, and there must
-- be enough for a `get`. `none` is a sequence that asks for more, or for a width the hardware does
-- not have.
unfoldable pub run_queue : List Operation → List ℕ → Option (List ℕ × List ℕ)
run_queue [] q = some ([], q)
run_queue (puts nbits val ∷ ops) q =
    let next = if leb (width nbits + length q) 4 then q ++ low_bytes (width nbits) val else q in
    if leb 4 nbits && leb nbits 16 then run_queue ops next else none
run_queue (gets nbits ∷ ops) q =
    let got = value (take (width nbits) q) in
    let rest =
      map (λ (r : List ℕ × List ℕ). (got ∷ r.0, r.1)) (run_queue ops (drop (width nbits) q)) in
    if leb 4 nbits && leb nbits 16 && leb (width nbits) (length q) then rest else none

-- A test of the specification that holds.
run_puts :
    (nbits val : ℕ) (ops : List Operation) (q : List ℕ) {r : List ℕ × List ℕ}
    → run_queue (puts nbits val ∷ ops) q ≡ some r
    → ((leb 4 nbits && leb nbits 16) ≡ true)
      × (run_queue ops
            (if leb (width nbits + length q) 4 then q ++ low_bytes (width nbits) val else q)
          ≡ some r)
unfolding run_queue
run_puts nbits val ops q {r} h = elim (Bool-cases (leb 4 nbits && leb nbits 16)) [
  | inl e ↦ (e, rw e at h)
  | inr e ↦ let no : none ≡ some r = rw e at h in cc
]

run_gets :
    (nbits : ℕ) (ops : List Operation) (q : List ℕ) {r : List ℕ × List ℕ}
    → run_queue (gets nbits ∷ ops) q ≡ some r
    → ((leb 4 nbits && leb nbits 16) ≡ true)
      × (leb (width nbits) (length q) ≡ true)
      × (vs : List ℕ) × (run_queue ops (drop (width nbits) q) ≡ some (vs, r.1))
      × (r.0 ≡ value (take (width nbits) q) ∷ vs)
unfolding run_queue
run_gets nbits ops q {r} h = elim (Bool-cases (leb 4 nbits && leb nbits 16)) [
  | inr e ↦ let no : none ≡ some r = rw e at h in cc
  | inl wide ↦ elim (Bool-cases (leb (width nbits) (length q))) [
    | inr e ↦ let no : none ≡ some r = rw (wide, e) at h in cc
    | inl enough ↦ elim (Option-cases (run_queue ops (drop (width nbits) q))) [
      | inl e ↦ let no : none ≡ some r = rw (wide, enough, e) at h in cc
      | inr ((vs, q'), e) ↦
          let same : some (value (take (width nbits) q) ∷ vs, q') ≡ some r =
            rw (wide, enough, e) at h in
          let parts : (value (take (width nbits) q) ∷ vs, q') ≡ r = cc same in
          (
            wide,
            enough,
            vs,
            e ∙ ap (λ x. some (vs, x)) (ap (λ (x : List ℕ × List ℕ). x.1) parts),
            sym (ap (λ (x : List ℕ × List ℕ). x.0) parts),
          )
    ]
  ]
]

run_nothing : {vs q q' : List ℕ} → run_queue [] q ≡ some (vs, q') → ([] ≡ vs) × (q ≡ q')
unfolding run_queue
run_nothing h = (cc h, cc h)

-- The FIFO is a queue of at most four bytes: in any sequence of puts and gets of four to sixteen
-- bits each, that never gets more bytes than there are, the gets return the bytes in the order of
-- the puts, with the first byte lowest in a value of two, and a put that does not fit is ignored.
-- The sequence succeeds, and the FIFO then holds what the queue does.
pub run-queue :
    (ops : List Operation) (f : Fifo) (q vs q' : List ℕ)
    → Holds f q
    → run_queue ops q ≡ some (vs, q')
    → (f' : Fifo) × (run ops f ≡ ok (vs, f')) × Holds f' q'
unfolding run
run-queue [] f q vs q' holds h =
    let (e, same) = run_nothing h in (f, ap (λ x. ok (x, f)) e, subst (Holds f) same holds)
run-queue (puts nbits val ∷ ops) f q vs q' holds h =
    let (wide, rest) = run_puts nbits val ops q h in
    elim (Bool-cases (leb (width nbits + length q) 4)) [
      | inl e ↦
          let (f₁, done, holds₁) = put_lem nbits val f q holds wide e in
          let (f', runs, last) =
            run-queue ops f₁ (q ++ low_bytes (width nbits) val) vs q' holds₁ (rw e at rest) in
          (f', rw done runs, last)
      | inr e ↦
          let (f', runs, last) = run-queue ops f q vs q' holds (rw e at rest) in
          (f', rw (put_full nbits val f q holds wide e) runs, last)
    ]
run-queue (gets nbits ∷ ops) f q vs q' holds h =
    let (wide, enough, vs', rest, e) = run_gets nbits ops q h in
    let (f₁, done, holds₁) = get_lem nbits f q holds wide enough in
    let (f', runs, last) = run-queue ops f₁ (drop (width nbits) q) vs' q' holds₁ rest in
    (f', rw (done, runs, e) refl, last)
