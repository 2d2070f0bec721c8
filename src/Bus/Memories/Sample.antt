-- ===== src/Bus/Memories/Sample.antt =====
-- A bus with two small memories, for runs of its initiators.
use fused_checkmate.Base.{ℕ, zero, suc, ◌≡◌, refl, arith, [], ◌∷◌, true, replicate}
use fused_checkmate.Utilities.Packing.{Bytes}
use fused_checkmate.BusTarget.{BusPort}
use fused_checkmate.BusTarget.Contract.{IsMemory}
use fused_checkmate.Bus.{RoutingTable}
use fused_checkmate.Bus.Routing.{is_apart, is_disjoint, is_words}
use fused_checkmate.Bus.Memories.{System, bus_port}
use fused_checkmate.Bus.Memories.Contract.{IsSystem, bus_memory}

-- Some RAM with the stack, and the interrupt vectors.
abbrev pub sample_table : RoutingTable
sample_table = (0x23f0, 0x240f) ∷ (0xffe0, 0xffff) ∷ []

-- Every byte is 0x42.
abbrev pub sample_system : System
sample_system = (
  record { routing_table = sample_table; address_trace = 0; size_trace = 0; data_trace = 0 },
  replicate 32 0x42 ∷ replicate 32 0x42 ∷ [],
)

abbrev pub sample_port : BusPort System
sample_port = bus_port 2

sample-Bytes : (n : ℕ) → Bytes (replicate n 0x42)
sample-Bytes zero = tt
sample-Bytes (suc n) = (omega arith, sample-Bytes n)

pub sample-IsSystem : IsSystem sample_table sample_system
sample-IsSystem = record {
  tabled = refl;
  fits = (omega arith, refl, sample-Bytes 32, (omega arith, refl, sample-Bytes 32, tt));
}

pub sample_disjoint : is_disjoint sample_table ≡ true
unfolding is_disjoint is_apart
sample_disjoint = refl

pub sample_words : is_words sample_table ≡ true
unfolding is_words
sample_words = refl

abbrev pub sample_memory : IsMemory sample_port
sample_memory = bus_memory 2 sample_table sample_disjoint sample_words
