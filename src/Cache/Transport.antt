-- ===== src/Cache/Transport.antt =====
-- b_transport of a write-back cache, step by step.
use native.Mathlib.Nat.{
  mod-lt, mul-add-mod_self_right, mod-eq_of_lt, div-add-mod', mul-le-mul_right,
}
use fused_checkmate.Base.{
  ℕ, ◌+◌, ◌-◌, ◌*◌, ◌/◌, ◌%◌, ◌^◌, ◌<◌, ◌≤◌, ◌≡◌, inl, inr, refl, sym, ap, ◌∙◌, subst, arith, Bool,
  true, false, Option-cases, none, some, List, length, leb, ltb, if◌then◌else◌, ok, get_elem?, set,
}
use fused_checkmate.BusTarget.{BusPort, Payload}
use fused_checkmate.BusTarget.Contract.{IsMemory}
use fused_checkmate.Cache.{
  Cache, CacheLine, CacheSet, Geometry, geometry, index, tag_of, offset, refill, find_line,
  choose_line, access, b_transport, is_write,
}
use fused_checkmate.Cache.WritePolicy.{write_back}
use fused_checkmate.Cache.Policy.{CacheReplacementIf, IsReplacement}
use fused_checkmate.Cache.Address.{below, positive, pow-split}
use fused_checkmate.Cache.Represents.{update, set_at, tag_at, Represents}
use fused_checkmate.Cache.Sets.{
  get_elem?-lt, get_elem?-small, update_same, at_of, at_of_lem, find_line-none, find_line-some,
}
use fused_checkmate.Cache.Refill.{refill_lem, Represents-ext}

module _ {P S : Type 0} ⦃port : BusPort S⦄ (g : Geometry) (policy : CacheReplacementIf P) where
  -- The run, from the runs of its steps.
  pub transport_lem :
      (c : Cache P S) (trans : Payload) (s : CacheSet P) (j t : ℕ) (p : P) (lfsr k : ℕ) (hit : Bool)
      (line line' : CacheLine) (bytes : List ℕ) (memory : S)
      → leb
          (offset g trans.address)
          (offset g ((trans.address + length trans.bytes + 2 ^ 32 - 1) % 2 ^ 32))
        ≡ true
      → index g trans.address ≡ j
      → tag_of g trans.address ≡ t
      → get_elem? c.sets j ≡ some s
      → choose_line policy (find_line t 0 s.lines) (is_write trans.command) s.replacement c.lfsr
        ≡ (p, lfsr, k, hit)
      → ltb k g.n_lines ≡ true
      → get_elem? s.lines k ≡ some line
      → access g trans hit line c.memory ≡ ok (line', bytes, memory)
      → b_transport g policy c trans
        ≡ ok (
          record {
            sets = set c.sets j (record { replacement = p; lines = set s.lines k line' });
            lfsr = lfsr;
            memory = memory;
          },
          record trans { bytes = bytes },
        )
  unfolding b_transport
  transport_lem c trans s j t p lfsr k hit line line' bytes memory within ej et in_set chosen small
        at ran =
      rw (within, ej, et, in_set, chosen, small, at, ran) refl

-- The last byte of an access within a line.
pub last_lem :
    (o a len : ℕ)
    → o ≤ 32
    → a < 2 ^ 32
    → 0 < len
    → a % 2 ^ o + len ≤ 2 ^ o
    → (a + len + 2 ^ 32 - 1) % 2 ^ 32 % 2 ^ o ≡ a % 2 ^ o + len - 1
last_lem o a len h word some_bytes room =
    let q = a / 2 ^ o in
    let r = a % 2 ^ o in
    let whole = div-add-mod' a (2 ^ o) in
    let end : (q + 1) * 2 ^ o ≤ 2 ^ 32 = omega (
      arith,
      mul-le-mul_right {m = q + 1} {n = 2 ^ (32 - o)} (2 ^ o) (omega (arith, below a o h word)),
      pow-split (32 - o) o 32 (omega arith),
    ) in
    let next : (a + len + 2 ^ 32 - 1) % 2 ^ 32 ≡ q * 2 ^ o + (r + len - 1) =
      omega (arith, end, whole) in
    ap (λ (x : ℕ). x % 2 ^ o) next
    ∙ mul-add-mod_self_right q (2 ^ o) (r + len - 1)
    ∙ mod-eq_of_lt (omega arith)

module _ {P S : Type 0} ⦃port : BusPort S⦄ (mem : IsMemory port) (o i n : ℕ) (fits : o + i ≤ 32)
    (policy : CacheReplacementIf P) (law : IsReplacement policy n) where
  open mem use {IsState, cell, covers}

  -- The cache stands for the memory f: its sets are as the constructor makes them, with their
  -- policies in states that they reach, and its lines and the memory behind it represent f.
  pub record IsCache (c : Cache P S) (f : ℕ → ℕ) : Type 0 where
    pub state : IsState c.memory
    pub represents : Represents o i covers (at_of c.sets) (cell c.memory) f
    pub counted : length c.sets ≡ 2 ^ i
    pub sized :
        (j : ℕ) (s : CacheSet P)
        → get_elem? c.sets j ≡ some s
        → (length s.lines ≡ n) × law.IsState s.replacement

  -- The line that an access goes to, with the line of the address in it.
  pub record Chosen (c : Cache P S) (f : ℕ → ℕ) (a : ℕ) (w : Bool) : Type 0 where
    pub s : CacheSet P
    pub p : P
    pub lfsr : ℕ
    pub k : ℕ
    pub hit : Bool
    pub old : CacheLine
    pub line : CacheLine
    pub memory : S
    pub in_set : get_elem? c.sets (set_at o i a) ≡ some s
    pub chosen :
        choose_line policy (find_line (tag_at o i a) 0 s.lines) w s.replacement c.lfsr
        ≡ (p, lfsr, k, hit)
    pub small : k < n
    pub policy_state : law.IsState p
    pub at : get_elem? s.lines k ≡ some old
    pub ran :
        (if hit then ok (old, c.memory) else refill (geometry o i n write_back) a old c.memory)
        ≡ ok (line, memory)
    pub state : IsState memory
    pub valid : line.valid ≡ true
    pub tagged : line.tag ≡ tag_at o i a
    pub represents :
        Represents o i covers (update (at_of c.sets) (set_at o i a) k line) (cell memory) f

  choose_miss :
      (c : Cache P S) (f : ℕ → ℕ) (a : ℕ) (w : Bool) (s : CacheSet P)
      → IsCache c f
      → a < 2 ^ 32
      → covers (a / 2 ^ o * 2 ^ o) (2 ^ o) ≡ true
      → get_elem? c.sets (set_at o i a) ≡ some s
      → find_line (tag_at o i a) 0 s.lines ≡ none
      → Chosen c f a w
  unfolding choose_line
  choose_miss c f a w s is word covered in_set missed =
      let j = set_at o i a in
      let (long, reached) = is.sized j s in_set in
      let k = (policy.miss s.replacement w c.lfsr).2 in
      let small = law.victim s.replacement w c.lfsr reached in
      let (old, at) = get_elem?-lt s.lines k (omega (arith, small, long)) in
      let here = at_of_lem c.sets j k s in_set ∙ at in
      let r =
        refill_lem mem o i n fits (at_of c.sets) f a k old c.memory is.represents here
          (λ k' line' h v.
            find_line-none (tag_at o i a) 0 s.lines missed k' line'
              (sym (at_of_lem c.sets j k' s in_set) ∙ h) v)
          word is.state covered in
      record {
        s = s;
        p = (policy.miss s.replacement w c.lfsr).0;
        lfsr = (policy.miss s.replacement w c.lfsr).1;
        k = k;
        hit = false;
        old = old;
        line = r.line;
        memory = r.memory;
        in_set = in_set;
        chosen = rw missed refl;
        small = small;
        policy_state = law.miss-IsState s.replacement w c.lfsr reached;
        at = at;
        ran = r.ran;
        state = r.state;
        valid = r.valid;
        tagged = r.tagged;
        represents = r.represents;
      }

  choose_hit :
      (c : Cache P S) (f : ℕ → ℕ) (a : ℕ) (w : Bool) (s : CacheSet P) (k : ℕ)
      → IsCache c f
      → get_elem? c.sets (set_at o i a) ≡ some s
      → find_line (tag_at o i a) 0 s.lines ≡ some k
      → Chosen c f a w
  unfolding choose_line
  choose_hit c f a w s k is in_set found =
      let j = set_at o i a in
      let (long, reached) = is.sized j s in_set in
      let (k', line, ek, at', v, t) = find_line-some (tag_at o i a) 0 k s.lines found in
      let same : k' ≡ k = omega (arith, ek) in
      let at = subst (λ (x : ℕ). get_elem? s.lines x ≡ some line) same at' in
      let small : k < n = omega (arith, get_elem?-small s.lines k line at, long) in
      let here = at_of_lem c.sets j k s in_set ∙ at in
      record {
        s = s;
        p = policy.hit s.replacement k w;
        lfsr = c.lfsr;
        k = k;
        hit = true;
        old = line;
        line = line;
        memory = c.memory;
        in_set = in_set;
        chosen = rw found refl;
        small = small;
        policy_state = law.hit-IsState s.replacement k w reached small;
        at = at;
        ran = refl;
        state = is.state;
        valid = v;
        tagged = t;
        represents =
            Represents-ext o i covers _ _ (cell c.memory) (cell c.memory) f
              (update_same (at_of c.sets) j k line here) (λ x. refl) is.represents;
      }

  pub choose :
      (c : Cache P S) (f : ℕ → ℕ) (a : ℕ) (w : Bool)
      → IsCache c f
      → a < 2 ^ 32
      → covers (a / 2 ^ o * 2 ^ o) (2 ^ o) ≡ true
      → Chosen c f a w
  choose c f a w is word covered =
      let small : set_at o i a < 2 ^ i = mod-lt (a / 2 ^ o) {m = 2 ^ i} (positive i) in
      let (s, in_set) = get_elem?-lt c.sets (set_at o i a) (omega (arith, small, is.counted)) in
      elim (Option-cases (find_line (tag_at o i a) 0 s.lines)) [
        | inl missed ↦ choose_miss c f a w s is word covered in_set missed
        | inr (k, found) ↦ choose_hit c f a w s k is in_set found
      ]
