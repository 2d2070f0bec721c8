-- ===== src/Cache.antt =====
-- mcu/Cache.hpp and mcu/Cache.cpp: a set-associative cache in front of a memory. The children but
-- the last ones are mcu/CacheReplacementPolicies.hpp.
-- Energy events, the delay and the response status are left out. Addresses are uint32_t. An index
-- outside a vector is undefined in the source, and ends the run here.
pub mod Policy
pub mod Lru
pub mod RoundRobin
pub mod Lfu
pub mod PseudoRandom
pub mod Address
pub mod Represents
pub mod Sets
pub mod Refill
pub mod Transport
pub mod Transparency
pub mod Refinement
mod Tests
use fused_checkmate.Base.{
  ℕ, zero, suc, ◌+◌, ◌-◌, ◌*◌, ◌/◌, ◌%◌, ◌^◌, bit_and, bit_or, not_bits, Bool, true, false, not,
  ◌&&◌, Option, none, some, List, [], ◌∷◌, ◌++◌, map, ltb, leb, ◌==◌, if◌then◌else◌, length, take,
  drop, get_elem?, set, replicate, Result, ok, err, fatal, assertion, guard, or_fault, ◌>>=◌, ◌>>◌,
}
use fused_checkmate.BusTarget.{BusPort, Command, Payload}
use fused_checkmate.BusTarget.Command.{read_command, write_command, ignore_command}
use fused_checkmate.Cache.Policy.{CacheReplacementIf}

pub record CacheLine : Type 0 where
  pub valid : Bool
  pub dirty : Bool
  pub tag : ℕ
  pub bytes : List ℕ

-- `CacheLine::CacheLine`
unfoldable pub create_line : ℕ → CacheLine
create_line line_width = record {
  valid = false;
  dirty = false;
  tag = 0;
  bytes = replicate line_width 0;
}

-- What `reset` writes to every byte.
fill : ℕ → ℕ
fill d = 0xaa

-- `CacheLine::reset`
unfoldable pub reset_line : CacheLine → CacheLine
unfolding fill
reset_line line = record { valid = false; dirty = false; tag = 0; bytes = map fill line.bytes }

pub record CacheSet (P : Type 0) : Type 0 where
  pub replacement : P
  pub lines : List CacheLine

-- `CacheSet::findLine`: the index of the line from i on, where the source gives -1 for none.
unfoldable pub find_line : ℕ → ℕ → List CacheLine → Option ℕ
find_line tag i [] = none
find_line tag i (line ∷ lines) =
    if line.tag == tag && line.valid then some i else find_line tag (i + 1) lines

unfoldable pub reset_set : {P : Type 0} → CacheReplacementIf P → CacheSet P → CacheSet P
reset_set policy s = record {
  replacement = policy.reset s.replacement;
  lines = map reset_line s.lines;
}

pub data WritePolicy : Type 0 where
  write_through write_around write_back : WritePolicy

-- The constants that the constructor derives from the configuration. The widths of the fields are
-- log2 of the line width and of the number of sets.
pub record Geometry : Type 0 where
  pub line_width : ℕ
  pub n_sets : ℕ
  pub n_lines : ℕ
  pub n_offset_bits : ℕ
  pub offset_mask : ℕ
  pub n_id_bits : ℕ
  pub id_mask : ℕ
  pub tag_mask : ℕ
  pub write_policy : WritePolicy

-- The constructor's computation for a line of 2 ^ n_offset_bits bytes and 2 ^ n_id_bits sets.
unfoldable pub geometry : ℕ → ℕ → ℕ → WritePolicy → Geometry
geometry n_offset_bits n_id_bits n_lines write_policy =
    let offset_mask = 2 ^ n_offset_bits - 1 in
    let id_mask = (2 ^ n_id_bits - 1) * 2 ^ n_offset_bits % 2 ^ 32 in
    record {
      line_width = 2 ^ n_offset_bits;
      n_sets = 2 ^ n_id_bits;
      n_lines = n_lines;
      n_offset_bits = n_offset_bits;
      offset_mask = offset_mask;
      n_id_bits = n_id_bits;
      id_mask = id_mask;
      tag_mask = not_bits 32 (bit_or offset_mask id_mask);
      write_policy = write_policy;
    }

module _ (g : Geometry) where
  unfoldable pub index : ℕ → ℕ
  index addr = bit_and addr g.id_mask / 2 ^ g.n_offset_bits

  unfoldable pub tag_of : ℕ → ℕ
  tag_of addr = bit_and addr g.tag_mask / 2 ^ (g.n_offset_bits + g.n_id_bits)

  unfoldable pub offset : ℕ → ℕ
  offset addr = bit_and addr g.offset_mask

-- The sets, the static shift register of the pseudo-random policy, and the memory behind `iSocket`.
pub record Cache (P S : Type 0) : Type 0 where
  pub sets : List (CacheSet P)
  pub lfsr : ℕ
  pub memory : S

-- The sets that the constructor makes, each with its own policy.
unfoldable pub create_sets : {P : Type 0} → Geometry → P → List (CacheSet P)
create_sets g replacement =
    replicate g.n_sets
      (record { replacement = replacement; lines = replicate g.n_lines (create_line g.line_width) })

-- `memcpy(&line.data[ofs], dataPtr, len)`
unfoldable pub copy_in : ℕ → List ℕ → List ℕ → List ℕ
copy_in ofs bytes data' = take ofs data' ++ (bytes ++ drop (ofs + length bytes) data')

module _ {S : Type 0} ⦃port : BusPort S⦄ (g : Geometry) where
  -- `writeLine`
  unfoldable pub write_line : CacheLine → ℕ → S → Result (CacheLine × S)
  write_line line addr s = do
    guard line.dirty assertion
    guard line.valid assertion
    let wbaddr =
        bit_or (line.tag * 2 ^ (g.n_offset_bits + g.n_id_bits) % 2 ^ 32)
          (index g addr * 2 ^ g.n_offset_bits % 2 ^ 32)
    s' ← port.b_write s wbaddr line.bytes
    ok (record line { dirty = false }, s')

  -- `readLine`
  unfoldable pub read_line : ℕ → CacheLine → S → Result (CacheLine × S)
  read_line addr line s = do
    guard (not line.dirty) assertion
    (bytes, s') ← port.b_read s (bit_and addr (not_bits 32 g.offset_mask)) g.line_width
    ok (record { valid = true; dirty = false; tag = tag_of g addr; bytes = bytes }, s')

  -- A victim that has to be written back first, and then the line of the address.
  unfoldable pub refill : ℕ → CacheLine → S → Result (CacheLine × S)
  refill addr line s = do
    (clean, s') ← (if line.valid && line.dirty then write_line line addr s else ok (line, s))
    read_line addr clean s'

  -- A write, by the write policy.
  unfoldable pub write_access :
      WritePolicy → Bool → ℕ → List ℕ → CacheLine → S → Result (CacheLine × S)
  write_access write_around hit addr bytes line s = do
    guard (not line.dirty) assertion
    s' ← port.b_write s addr bytes
    ok (if hit then record line { valid = false } else line, s')
  write_access write_through hit addr bytes line s = do
    guard (not line.dirty) assertion
    (loaded, s') ← (if hit then ok (line, s) else read_line addr line s)
    s'' ← port.b_write s' addr bytes
    ok (record loaded { bytes = copy_in (offset g addr) bytes loaded.bytes }, s'')
  write_access write_back hit addr bytes line s = do
    (loaded, s') ← (if hit then ok (line, s) else refill addr line s)
    ok (record loaded { bytes = copy_in (offset g addr) bytes loaded.bytes; dirty = true }, s')

  -- A read: the line, and the bytes that are returned.
  unfoldable pub read_access : Bool → ℕ → ℕ → CacheLine → S → Result (CacheLine × List ℕ × S)
  read_access hit addr len line s = do
    (loaded, s') ← (if hit then ok (line, s) else refill addr line s)
    ok (loaded, take len (drop (offset g addr) loaded.bytes), s')

  unfoldable pub access : Payload → Bool → CacheLine → S → Result (CacheLine × List ℕ × S)
  access trans hit line s = elim trans.command [
    | write_command ↦
        write_access g.write_policy hit trans.address trans.bytes line s >>= λ (line', s').
        ok (line', trans.bytes, s')
    | read_command ↦ read_access hit trans.address (length trans.bytes) line s
    | ignore_command ↦ err fatal
  ]

-- What the policy says: its new state, the shift register, the line, and whether it was a hit.
unfoldable pub choose_line :
    {P : Type 0} → CacheReplacementIf P → Option ℕ → Bool → P → ℕ → P × ℕ × ℕ × Bool
choose_line policy found is_write p lfsr = elim found [
  | none ↦ let (p', lfsr', victim) = policy.miss p is_write lfsr in (p', lfsr', victim, false)
  | some line_no ↦ (policy.hit p line_no is_write, lfsr, line_no, true)
]

unfoldable pub is_write : Command → Bool
is_write write_command = true
is_write _ = false

module _ {P S : Type 0} ⦃port : BusPort S⦄ (g : Geometry) (policy : CacheReplacementIf P) where
  -- `b_transport`
  unfoldable pub b_transport : Cache P S → Payload → Result (Cache P S × Payload)
  b_transport c trans = do
    let addr = trans.address
    let last = (addr + length trans.bytes + 2 ^ 32 - 1) % 2 ^ 32
    guard (leb (offset g addr) (offset g last)) fatal
    s ← or_fault (get_elem? c.sets (index g addr)) fatal
    let found = find_line (tag_of g addr) 0 s.lines
    let (p, lfsr, line_no, hit) =
        choose_line policy found (is_write trans.command) s.replacement c.lfsr
    guard (ltb line_no g.n_lines) assertion
    line ← or_fault (get_elem? s.lines line_no) fatal
    (line', bytes, memory) ← access g trans hit line c.memory
    let s' : CacheSet P = record { replacement = p; lines = set s.lines line_no line' }
    ok (
      record { sets = set c.sets (index g addr) s'; lfsr = lfsr; memory = memory },
      record trans { bytes = bytes },
    )

  -- `reset`
  unfoldable pub reset : Cache P S → Cache P S
  reset c = record c { sets = map (reset_set policy) c.sets }
