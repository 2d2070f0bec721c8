-- ===== src/Cache/Lru.antt =====
-- CacheReplacementLru of mcu/CacheReplacementPolicies.hpp. The state is `m_lru`, the most recently
-- used line first.
use fused_checkmate.Base.{
  ℕ, zero, suc, ◌+◌, ◌<◌, ◌≤◌, ◌≡◌, ◌≢◌, refl, ◌∙◌, arith, Bool, Bool-cases, inl, inr, ◌&&◌, ltb,
  leb, List, [], ◌∷◌, ◌==◌, if◌then◌else◌, length,
}
use fused_checkmate.Cache.Policy.{CacheReplacementIf, IsReplacement}

-- The numbers from `i` on, n of them: the loops of the constructor and of `reset`.
unfoldable pub count_from : ℕ → ℕ → List ℕ
count_from i zero = []
count_from i (suc n) = i ∷ count_from (i + 1) n

-- The constructor.
unfoldable pub create : ℕ → List ℕ
create n_lines = count_from 0 n_lines

-- `std::list::remove`
unfoldable pub remove : ℕ → List ℕ → List ℕ
remove line_no [] = []
remove line_no (x ∷ xs) = if x == line_no then remove line_no xs else x ∷ remove line_no xs

unfoldable pub hit : List ℕ → ℕ → Bool → List ℕ
hit lru line_no is_write = line_no ∷ remove line_no lru

-- `back` of a list with at least one element x ∷ xs.
unfoldable pub back : ℕ → List ℕ → ℕ
back x [] = x
back x (y ∷ ys) = back y ys

-- `pop_back` of such a list.
unfoldable pub pop_back : ℕ → List ℕ → List ℕ
pop_back x [] = []
pop_back x (y ∷ ys) = x ∷ pop_back y ys

-- The back moves to the front, and is the victim. `back` of an empty list is undefined; it gives 0.
unfoldable pub miss : List ℕ → Bool → ℕ → List ℕ × ℕ × ℕ
miss [] is_write lfsr = ([], lfsr, 0)
miss (x ∷ xs) is_write lfsr = (back x xs ∷ pop_back x xs, lfsr, back x xs)

unfoldable pub reset : List ℕ → List ℕ
reset lru = count_from 0 (length lru)

unfoldable pub lru_policy : CacheReplacementIf (List ℕ)
lru_policy = record { hit = hit; miss = miss; reset = reset }

-- How often a line stands in the list.
unfoldable pub count : ℕ → List ℕ → ℕ
count y [] = 0
count y (x ∷ xs) = (if x == y then 1 else 0) + count y xs

-- The lines 0 .. n - 1, each once.
abbrev pub IsOrder : ℕ → List ℕ → Type 0
IsOrder n lru = (y : ℕ) → count y lru ≡ (if ltb y n then 1 else 0)

count-remove : (y x : ℕ) (xs : List ℕ) → count y (remove x xs) ≡ (if x == y then 0 else count y xs)
unfolding count remove
count-remove y x [] = ground arith
count-remove y x (z ∷ zs) = ground (arith, count-remove y x zs)

count-back : (y x : ℕ) (xs : List ℕ) → count y (back x xs ∷ pop_back x xs) ≡ count y (x ∷ xs)
unfolding count back pop_back
count-back y x [] = refl
count-back y x (z ∷ zs) = ground (arith, count-back y z zs)

count-count_from :
    (y i n : ℕ) → count y (count_from i n) ≡ (if leb i y && ltb y (i + n) then 1 else 0)
unfolding count count_from
count-count_from y i zero = ground arith
count-count_from y i (suc n) = ground (arith, count-count_from y (i + 1) n)

-- A hit on a line of the set keeps the order an order of the lines.
hit-IsOrder :
    (n line_no : ℕ) (lru : List ℕ) (is_write : Bool)
    → IsOrder n lru
    → line_no < n
    → IsOrder n (hit lru line_no is_write)
unfolding hit count
hit-IsOrder n line_no lru is_write order h y = ground (arith, count-remove y line_no lru, order y)

miss-IsOrder :
    (n : ℕ) (lru : List ℕ) (is_write : Bool) (lfsr : ℕ)
    → IsOrder n lru
    → IsOrder n (miss lru is_write lfsr).0
unfolding miss
miss-IsOrder n [] is_write lfsr order y = order y
miss-IsOrder n (x ∷ xs) is_write lfsr order y = count-back y x xs ∙ order y

pub count-create : (n y : ℕ) → count y (create n) ≡ (if ltb y n then 1 else 0)
unfolding create
count-create n y = ground (arith, count-count_from y 0 n)

length-remove : (x : ℕ) (xs : List ℕ) → length (remove x xs) + count x xs ≡ length xs
unfolding remove count
length-remove x [] = refl
length-remove x (y ∷ ys) = ground (arith, length-remove x ys)

length-pop_back : (x : ℕ) (xs : List ℕ) → length (pop_back x xs) ≡ length xs
unfolding pop_back
length-pop_back x [] = refl
length-pop_back x (y ∷ ys) = ground (arith, length-pop_back y ys)

length-count_from : (i n : ℕ) → length (count_from i n) ≡ n
unfolding count_from
length-count_from i zero = refl
length-count_from i (suc n) = ground (arith, length-count_from (i + 1) n)

hit-length :
    (n line_no : ℕ) (lru : List ℕ) (is_write : Bool)
    → IsOrder n lru
    → line_no < n
    → length (hit lru line_no is_write) ≡ length lru
unfolding hit
hit-length n line_no lru is_write order h = ground (arith, length-remove line_no lru, order line_no)

miss-length :
    (lru : List ℕ) (is_write : Bool) (lfsr : ℕ) → length (miss lru is_write lfsr).0 ≡ length lru
unfolding miss
miss-length [] is_write lfsr = refl
miss-length (x ∷ xs) is_write lfsr = ground (arith, length-pop_back x xs)

back_in : (x : ℕ) (xs : List ℕ) → 1 ≤ count (back x xs) (x ∷ xs)
unfolding count back
back_in x [] = ground arith
back_in x (y ∷ ys) = ground (arith, back_in y ys)

count_victim :
    (lru : List ℕ) (is_write : Bool) (lfsr : ℕ)
    → 0 < length lru
    → 1 ≤ count (miss lru is_write lfsr).2 lru
unfolding miss count back
count_victim [] is_write lfsr h = absurd (omega arith)
count_victim (x ∷ xs) is_write lfsr h = back_in x xs

length-create : (n : ℕ) → length (create n) ≡ n
unfolding create
length-create n = length-count_from 0 n

-- The replacement order of the lines fulfils what the cache needs: it starts as an order of all
-- lines, hits, misses and resets keep it one, and the victim of a miss is a line of the set.
pub lru-IsReplacement :
    (n : ℕ) → 0 < n → (law : IsReplacement lru_policy n) × law.IsState (create n)
unfolding lru_policy reset
lru-IsReplacement n h = (
  record {
    IsState = λ lru. IsOrder n lru × (length lru ≡ n);
    hit-IsState = λ lru line_no is_write (order, len) small. (
      hit-IsOrder n line_no lru is_write order small,
      hit-length n line_no lru is_write order small ∙ len,
    );
    miss-IsState = λ lru is_write lfsr (order, len).
        (miss-IsOrder n lru is_write lfsr order, miss-length lru is_write lfsr ∙ len);
    victim = λ lru is_write lfsr (order, len). ground (
      arith,
      order (miss lru is_write lfsr).2,
      count_victim lru is_write lfsr (omega (arith, len)),
    );
    reset-IsState = λ lru (order, len). (
      λ y. ground (arith, len, count-count_from y 0 (length lru)),
      length-count_from 0 (length lru) ∙ len,
    );
  },
  (count-create n, length-create n),
)

-- How many lines were used more recently than y.
unfoldable pub age : ℕ → List ℕ → ℕ
age y [] = 0
age y (x ∷ xs) = if x == y then 0 else 1 + age y xs

remove_absent : (x : ℕ) (xs : List ℕ) → count x xs ≡ 0 → remove x xs ≡ xs
unfolding remove count
remove_absent x [] h = refl
remove_absent x (y ∷ ys) h = ground (arith, remove_absent x ys)

age-remove :
    (y x : ℕ) (xs : List ℕ)
    → y ≢ x
    → count x xs ≤ 1
    → age y (remove x xs) + (if ltb (age x xs) (age y xs) then 1 else 0) ≡ age y xs
unfolding age remove count
age-remove y x [] ne h = ground arith
age-remove y x (z ∷ zs) ne h = ground (arith, age-remove y x zs, remove_absent x zs)

age_apart : (y x : ℕ) (xs : List ℕ) → y ≢ x → 1 ≤ count x xs → age y xs ≢ age x xs
unfolding age count
age_apart y x [] ne h = absurd (omega arith)
age_apart y x (z ∷ zs) ne h = ground (arith, age_apart y x zs)

age_other :
    (y x : ℕ) (xs : List ℕ)
    → y ≢ x
    → count x xs ≡ 1
    → 1 + age y (remove x xs) ≡ (if ltb (age y xs) (age x xs) then age y xs + 1 else age y xs)
age_other y x xs ne h =
    ground (arith, age-remove y x xs ne (omega (arith, h)), age_apart y x xs ne (omega (arith, h)))

-- A hit makes its line the most recently used one and ages exactly the lines that were used more
-- recently than it, by one.
pub age-hit :
    (n line_no y : ℕ) (lru : List ℕ) (is_write : Bool)
    → IsOrder n lru
    → line_no < n
    → age y (hit lru line_no is_write) ≡ (
        if y == line_no
        then 0
        else if ltb (age y lru) (age line_no lru)
        then age y lru + 1
        else age y lru)
unfolding hit age
age-hit n line_no y lru is_write order h = elim (Bool-cases (y == line_no)) [
  | inl e ↦ ground (arith, e)
  | inr e ↦
      let ne : y ≢ line_no = ground (arith, e) in
      ground (arith, e, age_other y line_no lru ne (ground (arith, order line_no)))
]
