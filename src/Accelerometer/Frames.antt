-- ===== src/Accelerometer/Frames.antt =====
-- The frames of the FIFO, and which of them the loop that pops old frames keeps.
use fused_checkmate.Base.{
  ℕ, zero, suc, ◌+◌, ◌/◌, ◌^◌, ◌≤◌, ◌<◌, ◌≡◌, inl, inr, refl, sym, ap, ◌∙◌, arith, bit_and, Bool,
  true, false, Bool-cases, List, [], ◌∷◌, ◌++◌, length, drop, ltb, ltb→lt, lt→ltb, if◌then◌else◌,
  test_bit, test_bit-mod, bit_and-two_pow, length-append, drop-append, drop-drop,
}
use fused_checkmate.Base.Masks.{field_lem}
use fused_checkmate.Accelerometer.{frame, pop_oldest_frame, pop_loop, fifo_capacity}

pub record Frame : Type 0 where
  pub header : ℕ
  pub samples : List ℕ

abbrev count : Bool → ℕ
count true = 1
count false = 0

-- The number of axes that a header names.
abbrev pub axes : ℕ → ℕ
axes header =
    count (ltb 0 (bit_and header 1))
    + (count (ltb 0 (bit_and header 2)) + count (ltb 0 (bit_and header 4)))

-- Each frame has a sample for each axis of its header.
abbrev pub AllWhole : List Frame → Type 0
AllWhole [] = Unit
AllWhole (f ∷ fs) = (length f.samples ≡ axes f.header) × AllWhole fs

-- The bytes of the frames.
abbrev pub flatten : List Frame → List ℕ
flatten [] = []
flatten (f ∷ fs) = f.header ∷ (f.samples ++ flatten fs)

-- The bytes are those of the newest of the frames, whole and as many as fit.
pub record Newest (fs : List Frame) (fifo : List ℕ) : Type 0 where
  pub dropped : ℕ
  pub kept : fifo ≡ flatten (drop dropped fs)
  pub fits : length fifo ≤ fifo_capacity
  pub as_many : (j : ℕ) → j < dropped → fifo_capacity < length (flatten (drop j fs))

pub AllWhole-append : (fs gs : List Frame) → AllWhole fs → AllWhole gs → AllWhole (fs ++ gs)
AllWhole-append [] gs h k = k
AllWhole-append (f ∷ fs) gs (one, more) k = (one, AllWhole-append fs gs more k)

append_assoc : (xs ys zs : List ℕ) → (xs ++ ys) ++ zs ≡ xs ++ (ys ++ zs)
append_assoc [] ys zs = refl
append_assoc (x ∷ xs) ys zs = ap (λ t. x ∷ t) (append_assoc xs ys zs)

append_nil : (xs : List ℕ) → xs ++ [] ≡ xs
append_nil [] = refl
append_nil (x ∷ xs) = ap (λ t. x ∷ t) (append_nil xs)

pub flatten-append : (fs gs : List Frame) → flatten (fs ++ gs) ≡ flatten fs ++ flatten gs
flatten-append [] gs = refl
flatten-append (f ∷ fs) gs =
    ap (λ t. f.header ∷ t)
      (ap (λ t. f.samples ++ t) (flatten-append fs gs)
        ∙ sym (append_assoc f.samples (flatten fs) (flatten gs)))

pub flatten_one : (f : Frame) → flatten (f ∷ []) ≡ f.header ∷ f.samples
flatten_one f = ap (λ t. f.header ∷ t) (append_nil f.samples)

drop_axis : (b : Bool) (xs : List ℕ) → (if b then drop 1 xs else xs) ≡ drop (count b) xs
drop_axis true xs = refl
drop_axis false xs = refl

-- The oldest of whole frames is popped whole.
pop_whole :
    (f : Frame) (fs : List Frame)
    → length f.samples ≡ axes f.header
    → pop_oldest_frame (flatten (f ∷ fs)) ≡ flatten fs
unfolding pop_oldest_frame
pop_whole f fs whole =
    let x = ltb 0 (bit_and f.header 1) in
    let y = ltb 0 (bit_and f.header 2) in
    let z = ltb 0 (bit_and f.header 4) in
    let all = f.samples ++ flatten fs in
    let after_x = if x then drop 1 all else all in
    let after_y = if y then drop 1 after_x else after_x in
    drop_axis z after_y
    ∙ ap (drop (count z)) (drop_axis y after_x ∙ ap (drop (count y)) (drop_axis x all))
    ∙ ap (drop (count z)) (drop-drop (count y) (count x) all)
    ∙ drop-drop (count z) (count x + count y) all
    ∙ ap (λ (n : ℕ). drop n all) (omega (arith, whole))
    ∙ drop-append f.samples (flatten fs)

loop_stays : (fuel : ℕ) (fifo : List ℕ) → length fifo ≤ fifo_capacity → pop_loop fuel fifo ≡ fifo
unfolding pop_loop
loop_stays zero fifo small = refl
loop_stays (suc fuel) fifo small =
    let below : ltb fifo_capacity (length fifo) ≡ false = ground arith in rw below refl

loop_pops :
    (fuel : ℕ) (f : Frame) (fs : List Frame)
    → length f.samples ≡ axes f.header
    → fifo_capacity < length (flatten (f ∷ fs))
    → pop_loop (suc fuel) (flatten (f ∷ fs)) ≡ pop_loop fuel (flatten fs)
unfolding pop_loop
loop_pops fuel f fs one over =
    let above : ltb fifo_capacity (length (flatten (f ∷ fs))) ≡ true =
      lt→ltb fifo_capacity (length (flatten (f ∷ fs))) over in
    rw above (ap (pop_loop fuel) (pop_whole f fs one))

all_kept :
    (fuel : ℕ) (fs : List Frame)
    → length (flatten fs) ≤ fifo_capacity
    → Newest fs (pop_loop fuel (flatten fs))
all_kept fuel fs small =
    let stays = loop_stays fuel (flatten fs) small in
    record {
      dropped = 0;
      kept = stays;
      fits = rw stays small;
      as_many = λ j below. absurd (omega (arith, below));
    }

one_more :
    (f : Frame) (fs : List Frame) (k : ℕ)
    → fifo_capacity < length (flatten (f ∷ fs))
    → ((j : ℕ) → j < k → fifo_capacity < length (flatten (drop j fs)))
    → (j : ℕ) → j < suc k
    → fifo_capacity < length (flatten (drop j (f ∷ fs)))
one_more f fs k over rest zero below = over
one_more f fs k over rest (suc j) below = rest j (omega (arith, below))

-- With as much fuel as there are frames.
pub pop_loop-Newest :
    (fuel : ℕ) (fs : List Frame)
    → AllWhole fs
    → length fs ≤ fuel
    → Newest fs (pop_loop fuel (flatten fs))
pop_loop-Newest fuel [] none_left enough = all_kept fuel [] (omega arith)
pop_loop-Newest zero (f ∷ fs) whole enough = absurd (omega arith)
pop_loop-Newest (suc fuel) (f ∷ fs) (one, more) enough =
    elim (Bool-cases (ltb fifo_capacity (length (flatten (f ∷ fs))))) [
      | inl above ↦
          let over = ltb→lt fifo_capacity (length (flatten (f ∷ fs))) above in
          let rest = pop_loop-Newest fuel fs more (omega (arith, enough)) in
          let pops = loop_pops fuel f fs one over in
          record {
            dropped = suc rest.dropped;
            kept = pops ∙ rest.kept;
            fits = rw pops rest.fits;
            as_many = one_more f fs rest.dropped over rest.as_many;
          }
      | inr below ↦ all_kept (suc fuel) (f ∷ fs) (ground (arith, below))
    ]

pub length-flatten : (fs : List Frame) → length fs ≤ length (flatten fs)
length-flatten [] = omega arith
length-flatten (f ∷ fs) = omega (arith, length-append f.samples (flatten fs), length-flatten fs)

-- The frame that a measurement writes.
pub new_frame : ℕ → ℕ → ℕ → ℕ → Frame
new_frame control x y z = record {
  header = bit_and control 0x38 / 2 ^ 3;
  samples =
      (if ltb 0 (bit_and control 0x8) then x ∷ [] else [])
      ++ ((if ltb 0 (bit_and control 0x10) then y ∷ [] else [])
          ++ (if ltb 0 (bit_and control 0x20) then z ∷ [] else []));
}

-- A bit of the header is that of its axis in the control register.
header_bit :
    (k control : ℕ)
    → k < 3
    → ltb 0 (bit_and (bit_and control 0x38 / 2 ^ 3) (2 ^ k))
      ≡ ltb 0 (bit_and control (2 ^ suc (suc (suc k))))
header_bit k control small =
    let eighth : control / 2 ^ 3 ≡ control / 2 / 2 / 2 = omega arith in
    sym (bit_and-two_pow k (bit_and control 0x38 / 2 ^ 3))
    ∙ ap (λ h. test_bit h k) (field_lem 3 3 control)
    ∙ test_bit-mod k 3 (control / 2 ^ 3) small
    ∙ ap (λ h. test_bit h k) eighth
    ∙ bit_and-two_pow (suc (suc (suc k))) control

samples_length :
    (a b c : Bool) (x y z : ℕ)
    → length
        ((if a then x ∷ [] else []) ++ ((if b then y ∷ [] else []) ++ (if c then z ∷ [] else [])))
      ≡ count a + (count b + count c)
samples_length true true true x y z = refl
samples_length true true false x y z = refl
samples_length true false true x y z = refl
samples_length true false false x y z = refl
samples_length false true true x y z = refl
samples_length false true false x y z = refl
samples_length false false true x y z = refl
samples_length false false false x y z = refl

pub new_whole : (control x y z : ℕ) → AllWhole (new_frame control x y z ∷ [])
unfolding new_frame
new_whole control x y z =
    let in_x = header_bit 0 control (omega arith) in
    let in_y = header_bit 1 control (omega arith) in
    let in_z = header_bit 2 control (omega arith) in
    (
      rw (in_x, in_y, in_z)
          (samples_length (ltb 0 (bit_and control 0x8)) (ltb 0 (bit_and control 0x10))
            (ltb 0 (bit_and control 0x20)) x y z),
      tt,
    )

pub frame-bytes : (control x y z : ℕ) → frame control x y z ≡ flatten (new_frame control x y z ∷ [])
unfolding frame new_frame
frame-bytes control x y z = sym (flatten_one (new_frame control x y z))
