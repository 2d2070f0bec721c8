-- ===== src/Bus/Memories.antt =====
-- Memories behind the bus, as an initiator sees them.
pub mod Cells
pub mod Contract
pub mod Sample
use native.Mathlib.Nat.{mod-eq_of_lt}
use fused_checkmate.Base.{
  ℕ, zero, suc, ◌+◌, ◌-◌, ◌*◌, ◌%◌, ◌^◌, ◌<◌, ◌≤◌, ◌≡◌, ◌≢◌, inl, inr, refl, sym, subst, ◌∙◌, ap,
  arith, Bool, true, false, not, ◌&&◌, ◌||◌, Bool-cases, Option, none, some, List, [], ◌∷◌, ◌++◌,
  leb, ltb, ◌==◌, ==_iff, if◌then◌else◌, length, get_or, get_elem?, set, replicate, take, drop,
  length-replicate, Result, ok, err, fatal, guard, or_fault, ◌>>=◌, ◌>>◌,
}
use fused_checkmate.Utilities.Packing.{Bytes}
use fused_checkmate.BusTarget.{BusPort, Payload, Command}
use fused_checkmate.BusTarget.Command.{read_command, write_command}
use fused_checkmate.BusTarget.Cells.{cells, overwrite, cells_ext}
use fused_checkmate.BusTarget.Contract.{IsMemory}
use fused_checkmate.GenericMemory.{GenericMemory, store, load}
use fused_checkmate.GenericMemory
use fused_checkmate.GenericMemory.Bytes.{length-store, get_or-store, load-cells}
use fused_checkmate.Bus.{Bus, RoutingTable, b_transport}
use fused_checkmate.Bus.Routing.{is_disjoint, is_words, is_apart, word_lem, b_transport-routes}

-- The bus with the memories at its ports.
abbrev pub System : Type 0
System = Bus × List GenericMemory

-- The memory at a port.
unfoldable pub forward : ℕ → List GenericMemory → Payload → Result (List GenericMemory × Payload)
forward port mems trans = do
  mem ← or_fault (get_elem? mems port) fatal
  (mem', done) ← GenericMemory.b_transport mem trans
  ok (set mems port mem', done)

-- The transactions that an initiator makes.
unfoldable pub read_bus : ℕ → System → ℕ → ℕ → Result (List ℕ × System)
read_bus word_size (bus, mems) a len =
    b_transport word_size forward bus mems
      (record { command = read_command; address = a; bytes = replicate len 0 })
    >>= λ (bus', mems', done). ok (done.bytes, (bus', mems'))

unfoldable pub write_bus : ℕ → System → ℕ → List ℕ → Result System
write_bus word_size (bus, mems) a bytes =
    b_transport word_size forward bus mems
      (record { command = write_command; address = a; bytes = bytes })
    >>= λ (bus', mems', done). ok (bus', mems')

abbrev pub bus_port : ℕ → BusPort System
bus_port word_size = record { b_read = read_bus word_size; b_write = write_bus word_size }

unfoldable pub in_entry : ℕ → ℕ × ℕ → Bool
in_entry x (low, high) = leb low x && leb x high

-- The byte at an address of the system.
unfoldable pub cell_of : RoutingTable → List GenericMemory → ℕ → ℕ
cell_of [] mems x = 0
cell_of (entry ∷ table) [] x = 0
cell_of (entry ∷ table) (mem ∷ mems) x =
    if in_entry x entry then get_or mem (x - entry.0) 0 else cell_of table mems x

-- The accesses that the bus passes: aligned, of at most a word, within one target.
unfoldable pub is_covered : ℕ → RoutingTable → ℕ → ℕ → Bool
is_covered word_size [] a len = false
is_covered word_size ((low, high) ∷ table) a len =
    if in_entry a (low, high)
    then not (len == 0) && leb (a + len) (high + 1) && (a - low) % len == 0 && leb len word_size
    else is_covered word_size table a len

-- Each memory is as long as its entry.
abbrev pub Fits : RoutingTable → List GenericMemory → Type 0
Fits [] mems = Unit {0}
Fits (entry ∷ table) [] = ⊥
Fits ((low, high) ∷ table) (mem ∷ mems) =
    (low ≤ high) × (length mem ≡ high - low + 1) × Bytes mem × Fits table mems
