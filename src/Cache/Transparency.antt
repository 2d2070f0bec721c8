-- ===== src/Cache/Transparency.antt =====
-- A write-back cache cannot be told from the memory behind it.
use native.Mathlib.Nat.{}
use fused_checkmate.Base.{
  ℕ, ◌+◌, ◌-◌, ◌*◌, ◌/◌, ◌%◌, ◌^◌, ◌<◌, ◌≤◌, ◌≡◌, inl, inr, refl, sym, ap, ◌∙◌, subst, arith, Bool,
  true, false, Bool-cases, some, List, length, length-set, length-replicate, ◌==◌, leb, ltb,
  if◌then◌else◌, ok, get_elem?, set, get_or, replicate,
}
use fused_checkmate.BusTarget.{BusPort, Payload}
use fused_checkmate.BusTarget.Command.{read_command, write_command}
use fused_checkmate.BusTarget.Cells.{overwrite, cells, cells_ext}
use fused_checkmate.BusTarget.Contract.{IsMemory}
use fused_checkmate.Cache.{
  Cache, CacheLine, CacheSet, Geometry, geometry, offset, refill, access, b_transport, is_write,
}
use fused_checkmate.Cache.WritePolicy.{write_back}
use fused_checkmate.Cache.Policy.{CacheReplacementIf, IsReplacement}
use fused_checkmate.Cache.Address.{near_lem, index_lem, tag_lem, offset_lem}
use fused_checkmate.Cache.Represents.{update, set_at, tag_at, Represents}
use fused_checkmate.Cache.Sets.{get_elem?-set, at_of, at_of-set}
use fused_checkmate.Cache.Refill.{Represents-ext}
use fused_checkmate.Utilities.Packing.{Bytes}
use fused_checkmate.GenericMemory.{store, load}
use fused_checkmate.GenericMemory.Bytes.{load-cells}
use fused_checkmate.Cache.{copy_in, read_access, write_access}
use fused_checkmate.Cache.Represents.Steps.{written, update_here}
use fused_checkmate.Cache.Refill.{update_twice}
use fused_checkmate.Cache.Transport.{transport_lem, last_lem, IsCache, Chosen, choose}

some_inj : {A : Type 0} {x y : A} → some x ≡ some y → x ≡ y
some_inj h = cc

module _ {S : Type 0} ⦃port : BusPort S⦄ (g : Geometry) where
  read_run :
      (hit : Bool) (a ofs len : ℕ) (old line : CacheLine) (s s' : S) (bytes : List ℕ)
      → (if hit then ok (old, s) else refill g a old s) ≡ ok (line, s')
      → offset g a ≡ ofs
      → load ofs len line.bytes ≡ bytes
      → access g (record { command = read_command; address = a; bytes = replicate len 0 }) hit old s
        ≡ ok (line, bytes, s')
  unfolding access read_access load
  read_run hit a ofs len old line s s' bytes ran e got =
      let long = length-replicate {A = ℕ} len 0 in rw (ran, e, long, got) refl

  write_run :
      (hit : Bool) (a ofs : ℕ) (bytes : List ℕ) (old line : CacheLine) (s s' : S)
      → (if hit then ok (old, s) else refill g a old s) ≡ ok (line, s')
      → offset g a ≡ ofs
      → write_access g write_back hit a bytes old s
        ≡ ok (record line { bytes = store ofs bytes line.bytes; dirty = true }, s')
  unfolding write_access copy_in store
  write_run hit a ofs bytes old line s s' ran e = rw (ran, e) refl

access_write :
    {S : Type 0} ⦃port : BusPort S⦄ (o i n a : ℕ) (hit : Bool) (bytes : List ℕ)
    (old line : CacheLine) (s s' : S)
    → write_access (geometry o i n write_back) write_back hit a bytes old s ≡ ok (line, s')
    → access
        (geometry o i n write_back)
        (record { command = write_command; address = a; bytes = bytes })
        hit
        old
        s
      ≡ ok (line, bytes, s')
unfolding access geometry
access_write o i n a hit bytes old line s s' ran = rw ran refl

module _ {P S : Type 0} ⦃port : BusPort S⦄ (mem : IsMemory port) (o i n : ℕ) (fits : o + i ≤ 32)
    (policy : CacheReplacementIf P) (law : IsReplacement policy n) where
  open mem use {IsState, cell, covers}

  set_sized :
      {f : ℕ → ℕ} (c : Cache P S) (j : ℕ) (s' s : CacheSet P)
      → IsCache mem o i n fits policy law c f
      → get_elem? c.sets j ≡ some s
      → length s'.lines ≡ n
      → law.IsState s'.replacement
      → (j' : ℕ) (s₂ : CacheSet P) → get_elem? (set c.sets j s') j' ≡ some s₂
      → (length s₂.lines ≡ n) × law.IsState s₂.replacement
  set_sized c j s' s is in_set long reached j' s₂ h =
      let h' = sym (get_elem?-set c.sets j j' s' s in_set) ∙ h in
      elim (Bool-cases (j' == j)) [
        | inl e ↦
            let same : s' ≡ s₂ = some_inj (rw e at h') in
            subst (λ (x : CacheSet P). (length x.lines ≡ n) × law.IsState x.replacement) same
              (long, reached)
        | inr e ↦ is.sized j' s₂ (rw e at h')
      ]

  -- The cache with the line in its place.
  put_IsCache :
      (c : Cache P S) (f f' : ℕ → ℕ) (a : ℕ) (w : Bool) (line : CacheLine)
      → IsCache mem o i n fits policy law c f
      → (ch : Chosen mem o i n fits policy law c f a w)
      → Represents o i covers (update (at_of c.sets) (set_at o i a) ch.k line) (cell ch.memory) f'
      → IsCache mem o i n fits policy law
          (record {
            sets =
                set c.sets
                  (set_at o i a)
                  (record { replacement = ch.p; lines = set ch.s.lines ch.k line });
            lfsr = ch.lfsr;
            memory = ch.memory;
          })
          f'
  put_IsCache c f f' a w line is ch rep =
      let j = set_at o i a in
      record {
        state = ch.state;
        represents =
            Represents-ext o i covers _ _ (cell ch.memory) (cell ch.memory) f'
              (at_of-set c.sets j ch.k ch.s ch.p line ch.old ch.in_set ch.at) (λ x. refl) rep;
        counted = length-set c.sets j _ ∙ is.counted;
        sized = λ j' s h.
            set_sized c j (record { replacement = ch.p; lines = set ch.s.lines ch.k line }) ch.s is
              ch.in_set (length-set ch.s.lines ch.k line ∙ (is.sized j ch.s ch.in_set).0)
              ch.policy_state j' s h;
      }

  within_line :
      (a : ℕ) (bytes : List ℕ)
      → a < 2 ^ 32
      → 0 < length bytes
      → a % 2 ^ o + length bytes ≤ 2 ^ o
      → leb
          (offset (geometry o i n write_back) a)
          (offset (geometry o i n write_back) ((a + length bytes + 2 ^ 32 - 1) % 2 ^ 32))
        ≡ true
  within_line a bytes word some_bytes room =
      let last = last_lem o a (length bytes) (omega (arith, fits)) word some_bytes room in
      rw (offset_lem o i n write_back fits a, offset_lem o i n write_back fits, last) (ground arith)

  small_lem : (k : ℕ) → k < n → ltb k (geometry o i n write_back).n_lines ≡ true
  unfolding geometry
  small_lem k h = ground arith

  line_cells :
      (c : Cache P S) (f : ℕ → ℕ) (a len : ℕ) (w : Bool)
      (ch : Chosen mem o i n fits policy law c f a w)
      → a % 2 ^ o + len ≤ 2 ^ o
      → cells (λ y. get_or ch.line.bytes y 0) (a % 2 ^ o) len ≡ cells f a len
  line_cells c f a len w ch room =
      cells_ext (λ y. get_or ch.line.bytes y 0) f (a % 2 ^ o) a len
        (λ y small.
          let (line, byte) = near_lem o a y (omega (arith, room, small)) in
          let es : set_at o i (a + y) ≡ set_at o i a = ap (λ (l : ℕ). l % 2 ^ i) line in
          let et : tag_at o i a ≡ tag_at o i (a + y) = ap (λ (l : ℕ). l / 2 ^ i) (sym line) in
          ap (λ (x : ℕ). get_or ch.line.bytes x 0) (sym byte)
          ∙ ch.represents.held (a + y) ch.k ch.line
              (update_here (at_of c.sets) (set_at o i a) ch.k ch.line _ es) ch.valid
              (ch.tagged ∙ et))

  -- A read at a 32-bit address, of some bytes within a line that the memory serves, by a write-back cache that stands for
  -- a memory f, succeeds, hit or miss: it gives the bytes of f, and the cache stands for f still.
  pub transport-read :
      (c : Cache P S) (f : ℕ → ℕ) (a len : ℕ)
      → IsCache mem o i n fits policy law c f
      → a < 2 ^ 32
      → covers (a / 2 ^ o * 2 ^ o) (2 ^ o) ≡ true
      → 0 < len
      → a % 2 ^ o + len ≤ 2 ^ o
      → (c' : Cache P S) × (b_transport
            (geometry o i n write_back)
            policy
            c
            (record { command = read_command; address = a; bytes = replicate len 0 })
          ≡ ok (c', record { command = read_command; address = a; bytes = cells f a len }))
        × IsCache mem o i n fits policy law c' f
  unfolding is_write
  transport-read c f a len is word covered some_bytes room =
      let ch = choose mem o i n fits policy law c f a false is word covered in
      let line = ch.line in
      let ofs = a % 2 ^ o in
      let trans : Payload = record {
        command = read_command;
        address = a;
        bytes = replicate len 0;
      } in
      let zeros = length-replicate {A = ℕ} len 0 in
      let long : length line.bytes ≡ 2 ^ o =
        ch.represents.sized (set_at o i a) ch.k line
          (update_here (at_of c.sets) (set_at o i a) ch.k line (set_at o i a) refl) in
      let ran =
        read_run (geometry o i n write_back) ch.hit a ofs len ch.old line c.memory ch.memory
          (cells f a len) ch.ran (offset_lem o i n write_back fits a)
          (load-cells ofs len line.bytes (omega (arith, long))
            ∙ line_cells c f a len false ch room) in
      (
        _,
        transport_lem (geometry o i n write_back) policy c trans ch.s (set_at o i a) (tag_at o i a)
            ch.p ch.lfsr ch.k ch.hit ch.old line (cells f a len) ch.memory
            (within_line a (replicate len 0) word (omega (arith, zeros, some_bytes))
              (omega (arith, zeros, room)))
            (index_lem o i n write_back fits a) (tag_lem o i n write_back fits a word) ch.in_set
            ch.chosen (small_lem ch.k ch.small) ch.at ran,
        put_IsCache c f f a false line is ch ch.represents,
      )

  -- A write at a 32-bit address, of some bytes within a line that the memory serves, by a write-back cache that stands for
  -- a memory f, succeeds, hit or miss: the cache then stands for f with these bytes written.
  pub transport-write :
      (c : Cache P S) (f : ℕ → ℕ) (a : ℕ) (bytes : List ℕ)
      → IsCache mem o i n fits policy law c f
      → a < 2 ^ 32
      → covers (a / 2 ^ o * 2 ^ o) (2 ^ o) ≡ true
      → Bytes bytes
      → 0 < length bytes
      → a % 2 ^ o + length bytes ≤ 2 ^ o
      → (c' : Cache P S) × (b_transport
            (geometry o i n write_back)
            policy
            c
            (record { command = write_command; address = a; bytes = bytes })
          ≡ ok (c', record { command = write_command; address = a; bytes = bytes }))
        × IsCache mem o i n fits policy law c' (overwrite f a bytes)
  unfolding is_write
  transport-write c f a bytes is word covered small some_bytes room =
      let ch = choose mem o i n fits policy law c f a true is word covered in
      let j = set_at o i a in
      let trans : Payload = record { command = write_command; address = a; bytes = bytes } in
      let line : CacheLine = record ch.line {
        bytes = store (a % 2 ^ o) bytes ch.line.bytes;
        dirty = true;
      } in
      let at = update (at_of c.sets) j ch.k ch.line in
      let rep =
        written o i covers at (cell ch.memory) f (overwrite f a bytes) a ch.k ch.line bytes
          ch.represents (update_here (at_of c.sets) j ch.k ch.line j refl) ch.valid ch.tagged room
          small (λ x. refl) in
      let ran = access_write o i n a ch.hit bytes ch.old line c.memory ch.memory (
        write_run (geometry o i n write_back) ch.hit a (a % 2 ^ o) bytes ch.old ch.line c.memory
          ch.memory ch.ran (offset_lem o i n write_back fits a)) in
      (
        _,
        transport_lem (geometry o i n write_back) policy c trans ch.s j (tag_at o i a) ch.p ch.lfsr
            ch.k ch.hit ch.old line bytes ch.memory (within_line a bytes word some_bytes room)
            (index_lem o i n write_back fits a) (tag_lem o i n write_back fits a word) ch.in_set
            ch.chosen (small_lem ch.k ch.small) ch.at ran,
        put_IsCache c f (overwrite f a bytes) a true line is ch (
            Represents-ext o i covers _ _ (cell ch.memory) (cell ch.memory) (overwrite f a bytes)
              (update_twice (at_of c.sets) j ch.k ch.line line) (λ x. refl) rep),
      )
