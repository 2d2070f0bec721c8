-- ===== src/Cache/Lfu.antt =====
-- CacheReplacementLfu of mcu/CacheReplacementPolicies.hpp.
use fused_checkmate.Base.{
  ℕ, suc, ◌+◌, ◌<◌, ◌≤◌, ◌≡◌, refl, sym, subst, ◌∙◌, ap, arith, Bool, true, false, not, Option,
  Option-cases, inl, inr, ◌≢◌, none, some, List, [], ◌∷◌, ltb, ◌==◌, if◌then◌else◌, length,
  length-set, length-replicate, get_or-set_self, get_or-set_ne, get_or, set, replicate, map,
}
use fused_checkmate.Cache.Policy.{CacheReplacementIf, IsReplacement}

-- The counters are ints from 0 to `saturation`.
pub record Lfu : Type 0 where
  pub counters : List ℕ
  pub saturation : ℕ
  pub tie_breaker : Bool

unfoldable pub create : ℕ → ℕ → Lfu
create n_lines saturation = record {
  counters = replicate n_lines 0;
  saturation = saturation;
  tie_breaker = false;
}

unfoldable pub hit : Lfu → ℕ → Bool → Lfu
hit p line_no is_write =
    if ltb (get_or p.counters line_no 0) p.saturation
    then record p { counters = set p.counters line_no (get_or p.counters line_no 0 + 1) }
    else p

-- The variables of the loop of `miss`; `tie` is `none` where the source has -1.
pub record Search : Type 0 where
  pub victim : ℕ
  pub tie : Option ℕ
  pub least : ℕ

-- One pass of the loop's body, for the counter at i.
unfoldable pub compare_counter : ℕ → ℕ → Search → Search
compare_counter i counter s =
    if ltb counter s.least
    then record { victim = i; least = counter; tie = none }
    else if counter == s.least
    then record s { tie = some i }
    else s

-- The loop, from i on.
unfoldable pub scan : ℕ → List ℕ → Search → Search
scan i [] s = s
scan i (x ∷ xs) s = scan (i + 1) xs (compare_counter i x s)

-- The victim, with ties broken, and the new tie breaker.
unfoldable pub break_tie : Bool → Search → ℕ × Bool
break_tie tie_breaker s = elim s.tie [
  | none ↦ (s.victim, tie_breaker)
  | some tie ↦ ((if tie_breaker then s.victim else tie), not tie_breaker)
]

-- `m_counters[0]` of no counters is undefined; the victim is then 0.
unfoldable pub first_least : Bool → List ℕ → ℕ × Bool
first_least tie_breaker [] = (0, tie_breaker)
first_least tie_breaker (x ∷ xs) =
    break_tie tie_breaker (scan 1 xs (record { victim = 0; tie = none; least = x }))

unfoldable pub find_victim : Lfu → ℕ × Bool
find_victim p = first_least p.tie_breaker p.counters

unfoldable pub miss : Lfu → Bool → ℕ → Lfu × ℕ × ℕ
miss p is_write lfsr =
    let (victim, tie_breaker) = find_victim p in
    (record p { counters = set p.counters victim 0; tie_breaker = tie_breaker }, lfsr, victim)

unfoldable pub clear : ℕ → ℕ
clear e = 0

unfoldable pub reset : Lfu → Lfu
reset p = record p { counters = map clear p.counters }

unfoldable pub lfu_policy : CacheReplacementIf Lfu
lfu_policy = record { hit = hit; miss = miss; reset = reset }

-- What the search knows after the first n counters.
record IsLeast (f : ℕ → ℕ) (n : ℕ) (s : Search) : Type 0 where
  inside : s.victim < n
  value : f s.victim ≡ s.least
  below : (j : ℕ) → j < n → s.least ≤ f j
  first : (j : ℕ) → j < s.victim → s.least < f j
  alone : s.tie ≡ none → (j : ℕ) → j < n → s.victim < j → s.least < f j
  tied : (t : ℕ) → s.tie ≡ some t → (t < n) × (f t ≡ s.least) × (s.victim < t)
  last : (t : ℕ) → s.tie ≡ some t → (j : ℕ) → j < n → t < j → s.least < f j

compare_counter-IsLeast :
    (f : ℕ → ℕ) (n : ℕ) (s : Search) → IsLeast f n s → IsLeast f (n + 1) (compare_counter n (f n) s)
unfolding compare_counter
compare_counter-IsLeast f n s h = record {
  inside = ground (arith, h.inside);
  value = ground (arith, h.value);
  below = λ j small. ground (arith, h.below j);
  first = λ j small. ground (arith, h.first j, h.below j);
  alone = λ e j small above.
      ground (arith, e, λ (q : s.tie ≡ none). h.alone q j, λ (q : j ≡ n). ap f q);
  tied = λ t e. ground (arith, h.tied t, h.inside);
  last = λ t e j small above.
      ground (arith, e, λ (q : s.tie ≡ some t). h.last t q j, λ (q : j ≡ n). ap f q);
}

scan-IsLeast :
    (f : ℕ → ℕ) (n : ℕ) (xs : List ℕ) (s : Search)
    → IsLeast f n s
    → ((k : ℕ) → k < length xs → get_or xs k 0 ≡ f (n + k))
    → IsLeast f (n + length xs) (scan n xs s)
unfolding scan
scan-IsLeast f n [] s h reads = subst (λ m. IsLeast f m s) (omega arith) h
scan-IsLeast f n (x ∷ xs) s h reads =
    let here : x ≡ f n = reads 0 (omega arith) ∙ ap f (omega arith) in
    let next : IsLeast f (n + 1) (compare_counter n x s) =
      subst (λ v. IsLeast f (n + 1) (compare_counter n v s)) (sym here)
        (compare_counter-IsLeast f n s h) in
    let rest =
      scan-IsLeast f (n + 1) xs (compare_counter n x s) next
        (λ k small. reads (suc k) (omega arith) ∙ ap f (omega arith)) in
    subst (λ m. IsLeast f m (scan (n + 1) xs (compare_counter n x s))) (omega arith) rest

-- The choice among the least: the first of them if the tie breaker is set, the last if not, and the
-- tie breaker turns if there is more than one.
pub record Chosen (f : ℕ → ℕ) (n : ℕ) (tie_breaker : Bool) (victim : ℕ) (next : Bool) : Type 0 where
  pub inside : victim < n
  pub least : (j : ℕ) → j < n → f victim ≤ f j
  pub first : tie_breaker ≡ true → (j : ℕ) → j < victim → f victim < f j
  pub last : tie_breaker ≡ false → (j : ℕ) → j < n → victim < j → f victim < f j
  pub alone : ((j : ℕ) → j < n → j ≢ victim → f victim < f j) → next ≡ tie_breaker
  pub tied : (j : ℕ) → j < n → j ≢ victim → f j ≡ f victim → next ≡ not tie_breaker

break_tie-Chosen :
    (f : ℕ → ℕ) (n : ℕ) (b : Bool) (s : Search)
    → IsLeast f n s
    → Chosen f n b (break_tie b s).0 (break_tie b s).1
unfolding break_tie
break_tie-Chosen f n b s h = elim (Option-cases s.tie) [
  | inl e ↦ rw e (only b e)
  | inr (t, e) ↦ rw e (chosen b t e (h.tied t e))
]
  where
    only : (b : Bool) → s.tie ≡ none → Chosen f n b s.victim b
    only b e = record {
      inside = h.inside;
      least = λ j small. ground (arith, h.value, h.below j);
      first = λ set j small. ground (arith, h.value, h.first j);
      last = λ set j small above. ground (arith, h.value, h.alone e j small above);
      alone = λ other. refl;
      tied = λ j small ne same.
          absurd (ground (arith, ne, same, h.value, h.first j, h.alone e j small));
    }

    chosen :
        (b : Bool) (t : ℕ)
        → s.tie ≡ some t
        → (t < n) × (f t ≡ s.least) × (s.victim < t)
        → Chosen f n b (if b then s.victim else t) (not b)
    chosen true t e (inside, value, later) = record {
      inside = h.inside;
      least = λ j small. ground (arith, h.value, h.below j);
      first = λ set j small. ground (arith, h.value, h.first j);
      last = λ set. cc;
      alone = λ other. absurd (
          ground
            (arith, value, h.value, other t inside (λ same. absurd (omega (arith, same, later)))));
      tied = λ j small ne same. refl;
    }
    chosen false t e (inside, value, later) = record {
      inside = inside;
      least = λ j small. ground (arith, value, h.below j);
      first = λ set. cc;
      last = λ set j small above. ground (arith, value, h.last t e j small above);
      alone = λ other. absurd (
          ground (
            arith,
            value,
            h.value,
            other s.victim h.inside (λ same. absurd (omega (arith, same, later))),
          ));
      tied = λ j small ne same. refl;
    }

start-IsLeast : (f : ℕ → ℕ) → IsLeast f 1 (record { victim = 0; tie = none; least = f 0 })
start-IsLeast f = record {
  inside = omega arith;
  value = refl;
  below = λ j small. omega (arith, ap f (zero_of small));
  first = λ j small. absurd (omega arith);
  alone = λ e j small above. absurd (omega arith);
  tied = λ t e. absurd (none_some e);
  last = λ t e. absurd (none_some e);
}
  where
    zero_of : {j : ℕ} → j < 1 → j ≡ 0
    zero_of small = omega arith

    none_some : {t : ℕ} → none ≢ some t
    none_some e = cc

find_victim-Chosen :
    (p : Lfu)
    → 0 < length p.counters
    → Chosen
        (λ k. get_or p.counters k 0)
        (length p.counters)
        p.tie_breaker
        (find_victim p).0
        (find_victim p).1
unfolding find_victim first_least
find_victim-Chosen p h = choose p.counters h
  where
    choose :
        (xs : List ℕ)
        → 0 < length xs
        → Chosen
            (λ k. get_or xs k 0)
            (length xs)
            p.tie_breaker
            (first_least p.tie_breaker xs).0
            (first_least p.tie_breaker xs).1
    choose [] small = absurd (omega arith)
    choose (x ∷ xs) small =
        let f = λ (k : ℕ). get_or (x ∷ xs) k 0 in
        let step = λ (k : ℕ). let e : suc k ≡ 1 + k = omega arith in ap f e in
        let done =
          scan-IsLeast f 1 xs (record { victim = 0; tie = none; least = x }) (start-IsLeast f)
            (λ k inside. step k) in
        let all : 1 + length xs ≡ suc (length xs) = omega arith in
        subst
          (λ n.
            Chosen f n p.tie_breaker (first_least p.tie_breaker (x ∷ xs)).0
              (first_least p.tie_breaker (x ∷ xs)).1)
          all (break_tie-Chosen f (1 + length xs) p.tie_breaker _ done)

-- What a miss does: the choice of its victim, whose counter starts again from zero while the other
-- lines keep theirs.
pub record Missed (p next : Lfu) (victim : ℕ) : Type 0 where
  pub choice :
      Chosen (λ k. get_or p.counters k 0) (length p.counters) p.tie_breaker victim next.tie_breaker
  pub restarts : get_or next.counters victim 0 ≡ 0
  pub others : (k : ℕ) → victim ≢ k → get_or next.counters k 0 ≡ get_or p.counters k 0
  pub lines : length next.counters ≡ length p.counters

-- In a set with a line at least, the victim of a miss is a line whose counter no other line's counter
-- is below; of several such lines it is the first if the tie breaker is set and the last if not, and
-- the tie breaker turns exactly if there are several. The victim's counter starts again from zero,
-- and the other lines keep theirs.
pub miss-Missed :
    (p : Lfu) (is_write : Bool) (lfsr : ℕ)
    → 0 < length p.counters
    → Missed p (miss p is_write lfsr).0 (miss p is_write lfsr).2
unfolding miss
miss-Missed p is_write lfsr h =
    let choice = find_victim-Chosen p h in
    record {
      choice = choice;
      restarts = get_or-set_self p.counters (find_victim p).0 0 0 choice.inside;
      others = λ k ne. get_or-set_ne p.counters 0 0 ne;
      lines = length-set p.counters (find_victim p).0 0;
    }

length-map-clear : (xs : List ℕ) → length (map clear xs) ≡ length xs
length-map-clear [] = refl
length-map-clear (x ∷ xs) = ap suc (length-map-clear xs)

-- Every hit, miss and reset keeps one counter per line, and so every victim is a line of the set.
pub lfu-IsReplacement :
    (n saturation : ℕ)
    → 0 < n
    → (law : IsReplacement lfu_policy n) × law.IsState (create n saturation)
unfolding lfu_policy hit miss reset create
lfu-IsReplacement n saturation h = (
  record {
    IsState = λ p. length p.counters ≡ n;
    hit-IsState = λ p line_no is_write len small.
        ground (arith, len, length-set p.counters line_no (get_or p.counters line_no 0 + 1));
    miss-IsState = λ p is_write lfsr len. length-set p.counters _ 0 ∙ len;
    victim = λ p is_write lfsr len.
        let choice = find_victim-Chosen p (omega (arith, len)) in
        let inside = choice.inside in omega (arith, inside, len);
    reset-IsState = λ p len. length-map-clear p.counters ∙ len;
  },
  length-replicate n 0,
)
