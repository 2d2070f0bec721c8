-- ===== src/Cache/Represents/Steps.antt =====
-- Writing a line back, loading one, and writing into one.
use native.Mathlib.Nat.{div-add-mod', mod-lt, one-le-pow, div-eq_of_lt-le}
use fused_checkmate.Base.{
  ℕ, zero, suc, ◌+◌, ◌-◌, ◌*◌, ◌/◌, ◌%◌, ◌^◌, ◌<◌, ◌≤◌, ◌≡◌, ◌≢◌, inl, inr, refl, sym, ap, ◌∙◌,
  subst, arith, Bool, true, false, ◌&&◌, Bool-cases, some, List, leb, ltb, ◌==◌, length, get_or,
}
use fused_checkmate.Utilities.Packing.{Bytes}
use fused_checkmate.BusTarget.Cells.{overwrite, cells, length-cells, cells-get_or}
use fused_checkmate.GenericMemory.{store}
use fused_checkmate.GenericMemory.Bytes.{length-store, get_or-store}
use fused_checkmate.Bus.Memories.Cells.{Bytes-store}
use fused_checkmate.Cache.{CacheLine}
use fused_checkmate.Cache.Represents.{
  Lines, update, set_at, tag_at, line_no, line_no_lem, line_no_inv, Represents, Fit, overwrite_line,
  overwrite_other,
}
use fused_checkmate.Cache.Represents.Put.{put_line}

update_other :
    (at : Lines) (j k : ℕ) (line : CacheLine) (s k' : ℕ) (line' : CacheLine)
    → at s k' ≡ some line'
    → (s ≡ j → k' ≢ k)
    → update at j k line s k' ≡ some line'
update_other at j k line s k' line' h ne = elim (Bool-cases (s == j && k' == k)) [
  | inl e ↦ absurd (ne (ground (arith, e)) (ground (arith, e)))
  | inr e ↦ rw e h
]

dirty_clean : true ≡ false → ⊥
dirty_clean e = cc

pub update_here :
    (at : Lines) (j k : ℕ) (line : CacheLine) (s : ℕ) → s ≡ j → update at j k line s k ≡ some line
update_here at j k line s e = let here : (s == j && k == k) ≡ true = ground arith in rw here refl

same_line :
    (at : Lines) {j k s k' : ℕ} {old line : CacheLine}
    → at j k ≡ some old
    → s ≡ j
    → k' ≡ k
    → at s k' ≡ some line
    → old ≡ line
same_line at {j} {k} {s} {k'} {old} {line} h es ek h' =
    let g =
      subst (λ (x : ℕ). at x k ≡ some line) es (subst (λ (y : ℕ). at s y ≡ some line) ek h') in
    cc

Bytes-cells : (f : ℕ → ℕ) (a n : ℕ) → ((x : ℕ) → f x < 256) → Bytes (cells f a n)
unfolding cells
Bytes-cells f a zero h = tt
Bytes-cells f a (suc n) h = (h a, Bytes-cells f (a + 1) n h)

-- An overwrite seen from another origin.
overwrite_shift :
    (f g : ℕ → ℕ) (a ofs x y b : ℕ) (bytes : List ℕ)
    → a ≡ b + ofs
    → x ≡ b + y
    → g y ≡ f x
    → overwrite g ofs bytes y ≡ overwrite f a bytes x
unfolding overwrite
overwrite_shift f g a ofs x y b bytes ea ex same =
    let index : y - ofs ≡ x - a = omega arith in
    let test : (leb ofs y && ltb y (ofs + length bytes)) ≡ (leb a x && ltb x (a + length bytes)) =
      ground arith in
    rw (test, index, same) refl

overwrite_outside :
    (f : ℕ → ℕ) (o a : ℕ) (bytes : List ℕ) (x : ℕ)
    → a % 2 ^ o + length bytes ≤ 2 ^ o
    → x / 2 ^ o ≢ a / 2 ^ o
    → overwrite f a bytes x ≡ f x
unfolding overwrite
overwrite_outside f o a bytes x room ne =
    let whole = div-add-mod' a (2 ^ o) in
    elim (Bool-cases (leb a x && ltb x (a + length bytes))) [
      | inl e ↦
          let low : a / 2 ^ o * 2 ^ o ≤ x = ground (arith, e, whole) in
          let high : x < (a / 2 ^ o + 1) * 2 ^ o = ground (arith, e, whole, room) in
          absurd (ne (div-eq_of_lt-le (2 ^ o) low high))
      | inr e ↦ rw e refl
    ]

module _ (o i : ℕ) (covers : ℕ → ℕ → Bool) where
  -- The memory stands for the same in the lines that are not written, where the line that is
  -- replaced was clean or elsewhere.
  backed_other :
      (at : Lines) (cell f : ℕ → ℕ) (j k : ℕ) (old line : CacheLine) (x : ℕ)
      → Represents o i covers at cell f
      → at j k ≡ some old
      → (set_at o i x ≡ j → old.valid ≡ true → old.tag ≡ tag_at o i x → old.dirty ≡ false)
      → ((k' : ℕ) (line' : CacheLine)
          → update at j k line (set_at o i x) k' ≡ some line'
          → line'.valid ≡ true
          → line'.tag ≡ tag_at o i x
          → line'.dirty ≡ false)
      → cell x ≡ f x
  backed_other at cell f j k old line x rep here clean premise = rep.backed x (λ k' line' h v t.
      elim (Bool-cases (set_at o i x == j && k' == k)) [
        | inl e ↦
            let es : set_at o i x ≡ j = ground (arith, e) in
            let same = same_line at here es (ground (arith, e)) h in
            subst (λ (l : CacheLine). l.valid ≡ true → l.tag ≡ tag_at o i x → l.dirty ≡ false) same
              (clean es) v t
        | inr e ↦
            premise k' line'
              (update_other at j k line _ k' line' h (λ es ek. ground (arith, e, es, ek))) v t
      ])

  -- The victim is written back.
  pub evicted :
      (at : Lines) (cell cell' f : ℕ → ℕ) (j k : ℕ) (old : CacheLine)
      → Represents o i covers at cell f
      → at j k ≡ some old
      → old.valid ≡ true
      → ((x : ℕ) → cell' x ≡ overwrite cell (line_no o i old.tag j * 2 ^ o) old.bytes x)
      → Represents o i covers (update at j k (record old { dirty = false })) cell' f
  evicted at cell cell' f j k old rep here valid written =
      let long = rep.sized j k old here in
      let fit : Fit o i covers at f j k (record old { dirty = false }) = record {
        long = long;
        bytes = rep.bytes j k old here;
        served = rep.served j k old here;
        dirty_valid = λ d. valid;
        fresh = λ k' line' h v' v t. rep.unique j k' k line' old h here v' v (sym t);
        held =
            λ x ej v t. rep.held x k old (subst (λ (s : ℕ). at s k ≡ some old) (sym ej) here) v t;
      } in
      put_line o i covers at cell cell' f f j k _ rep fit (λ x other. refl)
        (λ x premise. elim (Bool-cases (x / 2 ^ o == line_no o i old.tag j)) [
          | inl e ↦
              let inside : x / 2 ^ o ≡ line_no o i old.tag j = ground (arith, e) in
              let (es, et) = line_no_inv o i x old.tag j inside (rep.served j k old here valid).2 in
              written x ∙ overwrite_line cell o _ old.bytes x long inside ∙ fit.held x es valid et
          | inr e ↦
              let ne : x / 2 ^ o ≢ line_no o i old.tag j = λ e'. ground (arith, e, e') in
              written x
              ∙ overwrite_other cell o _ old.bytes x long ne
              ∙ backed_other at cell f j k old _ x rep here
                  (λ es v t. absurd (ne (line_no_lem o i x old.tag j es t))) premise
        ])

  -- A line is loaded in the place of a clean one, where no line of the set has its tag.
  pub loaded :
      (at : Lines) (cell f : ℕ → ℕ) (a k : ℕ) (old : CacheLine)
      → Represents o i covers at cell f
      → at (set_at o i a) k ≡ some old
      → old.dirty ≡ false
      → ((k' : ℕ) (line' : CacheLine)
          → at (set_at o i a) k' ≡ some line'
          → line'.valid ≡ true
          → line'.tag ≢ tag_at o i a)
      → ((x : ℕ) → cell x < 256)
      → covers (a / 2 ^ o * 2 ^ o) (2 ^ o) ≡ true
      → a < 2 ^ 32
      → Represents o i covers
          (update at (set_at o i a) k (record {
            valid = true;
            dirty = false;
            tag = tag_at o i a;
            bytes = cells cell (a / 2 ^ o * 2 ^ o) (2 ^ o);
          }))
          cell
          f
  loaded at cell f a k old rep here clean miss small covered word =
      let l = a / 2 ^ o in
      let no : l ≡ line_no o i (tag_at o i a) (set_at o i a) = line_no_lem o i a _ _ refl refl in
      let po : 0 < 2 ^ o = omega (arith, one-le-pow o 2 (omega arith)) in
      let pi : 0 < 2 ^ i = omega (arith, one-le-pow i 2 (omega arith)) in
      let base : l * 2 ^ o < 2 ^ 32 = omega (arith, div-add-mod' a (2 ^ o)) in
      let fit : Fit o i covers at f (set_at o i a) k (record {
        valid = true;
        dirty = false;
        tag = tag_at o i a;
        bytes = cells cell (l * 2 ^ o) (2 ^ o);
      }) =
        record {
          long = length-cells cell (l * 2 ^ o) (2 ^ o);
          bytes = Bytes-cells cell _ _ small;
          served = λ v.
              subst
                (λ (n : ℕ).
                  (covers (n * 2 ^ o) (2 ^ o) ≡ true)
                  × (n * 2 ^ o < 2 ^ 32)
                  × (set_at o i a < 2 ^ i))
                no (covered, base, mod-lt l {m = 2 ^ i} pi);
          dirty_valid = λ d. refl;
          fresh = λ k' line' h v' v t. absurd (miss k' line' h v' (sym t));
          held = λ x es v t.
              let same : x / 2 ^ o ≡ l = line_no_lem o i x _ _ es t ∙ sym no in
              cells-get_or cell (l * 2 ^ o) (2 ^ o) (x % 2 ^ o) (mod-lt x {m = 2 ^ o} po)
              ∙ ap cell (omega (arith, div-add-mod' x (2 ^ o), ap (λ (n : ℕ). n * 2 ^ o) same))
              ∙ rep.backed x (λ k' line' h v' t'.
                absurd
                  (miss k' line' (subst (λ (s : ℕ). at s k' ≡ some line') es h) v' (t' ∙ sym t)));
        } in
      put_line o i covers at cell cell f f (set_at o i a) k _ rep fit (λ x other. refl)
        (λ x premise. backed_other at cell f _ k old _ x rep here (λ es v t. clean) premise)

  -- Bytes are written into a valid line, which is dirty then.
  pub written :
      (at : Lines) (cell f f' : ℕ → ℕ) (a k : ℕ) (old : CacheLine) (bytes : List ℕ)
      → Represents o i covers at cell f
      → at (set_at o i a) k ≡ some old
      → old.valid ≡ true
      → old.tag ≡ tag_at o i a
      → a % 2 ^ o + length bytes ≤ 2 ^ o
      → Bytes bytes
      → ((x : ℕ) → f' x ≡ overwrite f a bytes x)
      → Represents o i covers
          (update at
            (set_at o i a)
            k
            (record old { bytes = store (a % 2 ^ o) bytes old.bytes; dirty = true }))
          cell
          f'
  written at cell f f' a k old bytes rep here valid tag room small change =
      let j = set_at o i a in
      let ofs = a % 2 ^ o in
      let long = rep.sized j k old here in
      let inside : ofs + length bytes ≤ length old.bytes = omega (arith, room, long) in
      let whole = div-add-mod' a (2 ^ o) in
      let line : CacheLine = record old { bytes = store ofs bytes old.bytes; dirty = true } in
      let fit : Fit o i covers at f' j k line = record {
        long = length-store ofs bytes old.bytes inside ∙ long;
        bytes = Bytes-store ofs bytes old.bytes small (rep.bytes j k old here);
        served = rep.served j k old here;
        dirty_valid = λ d. valid;
        fresh = λ k' line' h v' v t. rep.unique j k' k line' old h here v' v (sym t);
        held = λ x es v t.
            let same : x / 2 ^ o ≡ a / 2 ^ o =
              line_no_lem o i x old.tag j es t ∙ sym (line_no_lem o i a old.tag j refl tag) in
            let origin : x ≡ a / 2 ^ o * 2 ^ o + x % 2 ^ o =
              omega (arith, div-add-mod' x (2 ^ o), ap (λ (n : ℕ). n * 2 ^ o) same) in
            get_or-store ofs bytes old.bytes (x % 2 ^ o) inside
            ∙ overwrite_shift f (λ y. get_or old.bytes y 0) a ofs x (x % 2 ^ o) (a / 2 ^ o * 2 ^ o)
                bytes (sym whole) origin
                (rep.held x k old (subst (λ (s : ℕ). at s k ≡ some old) (sym es) here) v t)
            ∙ sym (change x);
      } in
      let others : (x : ℕ)
          → (set_at o i x ≡ j → old.valid ≡ true → old.tag ≢ tag_at o i x)
          → f' x ≡ f x =
        λ x other.
          change x
          ∙ overwrite_outside f o a bytes x room (λ e.
            other (ap (λ (l : ℕ). l % 2 ^ i) e) valid (tag ∙ ap (λ (l : ℕ). l / 2 ^ i) (sym e))) in
      put_line o i covers at cell cell f f' j k line rep fit others (λ x premise.
        let outside = λ (es : set_at o i x ≡ j) (v : old.valid ≡ true) (t : old.tag ≡ tag_at o i x).
          premise k line (update_here at j k line _ es) valid t in
        backed_other at cell f j k old line x rep here
          (λ es v t. absurd (dirty_clean (outside es v t))) premise
        ∙ sym (others x (λ es v t. absurd (dirty_clean (outside es v t)))))
