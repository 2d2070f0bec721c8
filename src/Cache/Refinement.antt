-- ===== src/Cache/Refinement.antt =====
-- A write-back cache refines the memory behind it.
use native.Mathlib.Nat.{}
use fused_checkmate.Base.{
  ℕ, ◌+◌, ◌*◌, ◌/◌, ◌%◌, ◌^◌, ◌<◌, ◌≤◌, ◌≡◌, ◌≢◌, refl, sym, ap, ◌∙◌, subst, arith, Bool, true,
  false, Option, none, some, List, length, Result, ok, ◌>>=◌, get_elem?, replicate,
}
use fused_checkmate.BusTarget.{BusPort, Payload}
use fused_checkmate.BusTarget.Command.{read_command, write_command}
use fused_checkmate.BusTarget.Cells.{overwrite, cells}
use fused_checkmate.BusTarget.Contract.{IsMemory}
use fused_checkmate.Cache.{Cache, CacheLine, CacheSet, Geometry, geometry, b_transport}
use fused_checkmate.Cache.WritePolicy.{write_back}
use fused_checkmate.Cache.Policy.{CacheReplacementIf, IsReplacement}
use fused_checkmate.Cache.Represents.{Represents}
use fused_checkmate.Cache.Sets.{place, at_of}
use fused_checkmate.Base.{zero, suc, [], ◌∷◌, length-replicate}
use fused_checkmate.Utilities.Packing.{Bytes}
use fused_checkmate.Cache.{create_sets, create_line}
use fused_checkmate.Cache.Transport.{IsCache}
use fused_checkmate.Cache.Transparency.{transport-read, transport-write}

-- An access of the initiator.
pub data Access : Type 0 where
  load : ℕ → ℕ → Access
  save : ℕ → List ℕ → Access

-- The payload of an access.
unfoldable pub payload : Access → Payload
payload (load a len) = record { command = read_command; address = a; bytes = replicate len 0 }
payload (save a bytes) = record { command = write_command; address = a; bytes = bytes }

-- What a memory answers, and what it is then.
unfoldable pub answer : (ℕ → ℕ) → Access → List ℕ
answer f (load a len) = cells f a len
answer f (save a bytes) = bytes

unfoldable pub after : (ℕ → ℕ) → Access → ℕ → ℕ
after f (load a len) = f
after f (save a bytes) = overwrite f a bytes

-- The answers of a memory to a sequence of accesses.
unfoldable pub answers : (ℕ → ℕ) → List Access → List (List ℕ)
answers f [] = []
answers f (x ∷ xs) = answer f x ∷ answers (after f x) xs

-- The answers of the cache.
unfoldable pub run :
    {P S : Type 0} ⦃port : BusPort S⦄
    → Geometry
    → CacheReplacementIf P
    → Cache P S
    → List Access
    → Result (List (List ℕ) × Cache P S)
run g policy c [] = ok ([], c)
run g policy c (x ∷ xs) = do
  (c', done) ← b_transport g policy c (payload x)
  (rest, end) ← run g policy c' xs
  ok (done.bytes ∷ rest, end)

-- An access to some bytes within a line that the memory serves.
abbrev pub Within : ℕ → (ℕ → ℕ → Bool) → Access → Type 0
Within o covers (load a len) =
    (a < 2 ^ 32)
    × (covers (a / 2 ^ o * 2 ^ o) (2 ^ o) ≡ true)
    × (0 < len)
    × (a % 2 ^ o + len ≤ 2 ^ o)
Within o covers (save a bytes) =
    (a < 2 ^ 32)
    × (covers (a / 2 ^ o * 2 ^ o) (2 ^ o) ≡ true)
    × (0 < length bytes)
    × (a % 2 ^ o + length bytes ≤ 2 ^ o)
    × Bytes bytes

abbrev pub AllWithin : ℕ → (ℕ → ℕ → Bool) → List Access → Type 0
AllWithin o covers [] = Unit {0}
AllWithin o covers (x ∷ xs) = Within o covers x × AllWithin o covers xs

module _ {P S : Type 0} ⦃port : BusPort S⦄ (mem : IsMemory port) (o i n : ℕ) (fits : o + i ≤ 32)
    (policy : CacheReplacementIf P) (law : IsReplacement policy n) where
  open mem use {IsState, cell, covers}

  step_lem :
      (c : Cache P S) (f : ℕ → ℕ) (x : Access)
      → IsCache mem o i n fits policy law c f
      → Within o covers x
      → (c' : Cache P S) × (done : Payload) × (b_transport
            (geometry o i n write_back)
            policy
            c
            (payload x)
          ≡ ok (c', done))
        × (done.bytes ≡ answer f x)
        × IsCache mem o i n fits policy law c' (after f x)
  unfolding payload answer after
  step_lem c f (load a len) is (word, covered, some_bytes, room) =
      let (c', ran, is') =
        transport-read mem o i n fits policy law c f a len is word covered some_bytes room in
      (c', _, ran, refl, is')
  step_lem c f (save a bytes) is (word, covered, some_bytes, room, small) =
      let (c', ran, is') =
        transport-write mem o i n fits policy law c f a bytes is word covered small some_bytes
          room in
      (c', _, ran, refl, is')

  run_lem :
      (c : Cache P S) (f : ℕ → ℕ) (xs : List Access)
      → IsCache mem o i n fits policy law c f
      → AllWithin o covers xs
      → (c' : Cache P S) × (run (geometry o i n write_back) policy c xs ≡ ok (answers f xs, c'))
  unfolding run answers
  run_lem c f [] is all = (c, refl)
  run_lem c f (x ∷ xs) is (within, all) =
      let (c', done, ran, got, is') = step_lem c f x is within in
      let (end, rest) = run_lem c' (after f x) xs is' all in (end, rw (ran, rest, got) refl)

get_elem?-replicate :
    {A : Type 0} (n k : ℕ) (x y : A) → get_elem? (replicate n x) k ≡ some y → x ≡ y
get_elem?-replicate zero k x y h = cc
get_elem?-replicate (suc n) zero x y h = cc
get_elem?-replicate (suc n) (suc k) x y h = get_elem?-replicate n k x y h

place_inv :
    {P : Type 0} (found : Option (CacheSet P)) (k : ℕ) (line : CacheLine)
    → place found k ≡ some line
    → (s : CacheSet P) × (found ≡ some s) × (get_elem? s.lines k ≡ some line)
place_inv none k line h = cc
place_inv (some s) k line h = (s, refl, h)

zero-Bytes : (n : ℕ) → Bytes (replicate n 0)
zero-Bytes zero = tt
zero-Bytes (suc n) = (omega arith, zero-Bytes n)

invalid : {x : Bool} → x ≡ false → x ≢ true
invalid e e' = cc

-- The lines of the constructor's sets.
created_line :
    {P : Type 0} (g : Geometry) (p : P) (j k : ℕ) (line : CacheLine)
    → at_of (create_sets g p) j k ≡ some line
    → create_line g.line_width ≡ line
unfolding create_sets
created_line {P = P} g p j k line h =
    let (s, hs, hl) = place_inv (get_elem? (create_sets g p) j) k line h in
    let same = get_elem?-replicate g.n_sets j _ s hs in
    let hl' : get_elem? (replicate g.n_lines (create_line g.line_width)) k ≡ some line =
      ap (λ (x : CacheSet P). get_elem? x.lines k) same ∙ hl in
    get_elem?-replicate g.n_lines k _ line hl'

create-Represents :
    {P : Type 0} (o i n : ℕ) (covers : ℕ → ℕ → Bool) (p : P) (f : ℕ → ℕ)
    → Represents o i covers (at_of (create_sets (geometry o i n write_back) p)) f f
unfolding create_line geometry
create-Represents o i n covers p f =
    let g = geometry o i n write_back in
    let dead = λ (j k : ℕ) (line : CacheLine) (h : at_of (create_sets g p) j k ≡ some line).
      sym (ap (λ (l : CacheLine). l.valid) (created_line g p j k line h)) in
    record {
      sized = λ j k line h.
          subst (λ (l : CacheLine). length l.bytes ≡ 2 ^ o) (created_line g p j k line h)
            (length-replicate {A = ℕ} (2 ^ o) 0);
      bytes = λ j k line h.
          subst (λ (l : CacheLine). Bytes l.bytes) (created_line g p j k line h)
            (zero-Bytes (2 ^ o));
      served = λ j k line h v. absurd (invalid (dead j k line h) v);
      dirty_valid = λ j k line h d.
          absurd (invalid (sym (ap (λ (l : CacheLine). l.dirty) (created_line g p j k line h))) d);
      unique = λ j k k' line line' h h' v v' t. absurd (invalid (dead j k line h) v);
      held = λ x k line h v t. absurd (invalid (dead _ k line h) v);
      backed = λ x clean. refl;
    }

module _ {P S : Type 0} ⦃port : BusPort S⦄ (mem : IsMemory port) (o i n : ℕ) (fits : o + i ≤ 32)
    (policy : CacheReplacementIf P) (law : IsReplacement policy n) where
  open mem use {IsState, cell, covers}

  pub create-IsCache :
      (p : P) (lfsr : ℕ) (s : S)
      → law.IsState p
      → IsState s
      → IsCache mem o i n fits policy law
          (record { sets = create_sets (geometry o i n write_back) p; lfsr = lfsr; memory = s })
          (cell s)
  unfolding create_sets geometry
  create-IsCache p lfsr s reached is = record {
    state = is;
    represents = create-Represents o i n covers p (cell s);
    counted = length-replicate (2 ^ i) _;
    sized = λ j t h.
        subst (λ (x : CacheSet P). (length x.lines ≡ n) × law.IsState x.replacement)
          (get_elem?-replicate (2 ^ i) j _ t h) (length-replicate n _, reached);
  }

  -- A new write-back cache, of any size and with any policy that fulfils its contract, answers every
  -- sequence of reads and writes as the memory behind it would without the cache, where each access
  -- is to some bytes at a 32-bit address, within a line that the memory serves; in particular no access fails.
  pub run-answers :
      (p : P) (lfsr : ℕ) (s : S) (xs : List Access)
      → law.IsState p
      → IsState s
      → AllWithin o covers xs
      → (c : Cache P S) × (run
            (geometry o i n write_back)
            policy
            (record { sets = create_sets (geometry o i n write_back) p; lfsr = lfsr; memory = s })
            xs
          ≡ ok (answers (cell s) xs, c))
  run-answers p lfsr s xs reached is all =
      run_lem mem o i n fits policy law _ (cell s) xs (create-IsCache p lfsr s reached is) all
