-- ===== src/Bus/Tests.antt =====
-- Runs of the theorems on the bus with two small memories.
use fused_checkmate.Base.{
  ℕ, ◌+◌, ◌-◌, ◌%◌, ◌<◌, ◌≤◌, ◌≡◌, refl, false, arith, some, List, [], ◌∷◌, length, get_elem?, ok,
}
use fused_checkmate.BusTarget.{Payload}
use fused_checkmate.BusTarget.Command.{write_command}
use fused_checkmate.BusTarget.Cells.{cells, overwrite}
use fused_checkmate.GenericMemory.{GenericMemory, store, load}
use fused_checkmate.GenericMemory
use fused_checkmate.Bus.{Bus, b_transport, overlaps_existing_target}
use fused_checkmate.Bus.Routing.{b_transport-routes, b_transport-within}
use fused_checkmate.Bus.Memories.{
  System, forward, read_bus, write_bus, cell_of, is_covered, in_entry,
}
use fused_checkmate.Bus.Memories.Contract.{IsSystem, read_covered, write_covered}
use fused_checkmate.Bus.Memories.Sample.{
  sample_table, sample_system, sample_disjoint, sample_words, sample-IsSystem,
}

-- A word written to the vectors.
abbrev some_write : Payload
some_write = record { command = write_command; address = 0xfff4; bytes = 0x00 ∷ 0x44 ∷ [] }

ran :
    (targets : List GenericMemory) × (done : Payload) × (forward 1 sample_system.1
        (record some_write { address = 0x14 })
      ≡ ok (targets, done))
unfolding forward GenericMemory.b_transport GenericMemory.transact
ran = (_, _, refl)

routes_example :
    (bus' : Bus) × (b_transport 2 forward sample_system.0 sample_system.1 some_write
      ≡ ok (bus', ran.0, ran.1))
    × (bus'.routing_table ≡ sample_table)
    × (bus'.address_trace ≡ 0xfff4)
    × (bus'.size_trace ≡ length ran.1.bytes)
routes_example =
    b_transport-routes 2 forward sample_system.0 sample_system.1 ran.0 some_write ran.1 1 0xffe0
      0xffff sample_disjoint refl (omega arith) (omega arith) (omega arith) (omega arith)
      (omega arith) refl ran.2

routes_run :
    (bus' : Bus) × (b_transport 2 forward sample_system.0 sample_system.1 some_write
      ≡ ok (bus', ran.0, ran.1))
    × (bus'.routing_table ≡ sample_table)
    × (bus'.address_trace ≡ 0xfff4)
    × (bus'.size_trace ≡ length ran.1.bytes)
routes_run =
    b_transport-routes 2 forward sample_system.0 sample_system.1 ran.0 some_write ran.1 1 0xffe0
      0xffff sample_disjoint refl (omega arith) (omega arith) (omega arith) (omega arith)
      (omega arith) refl ran.2

within_example :
    (port : ℕ) × (low : ℕ) × (high : ℕ) × (get_elem? sample_table port ≡ some (low, high))
    × (low ≤ 0xfff4)
    × (0xfff4 + 2 ≤ high + 1)
    × (0 < length some_write.bytes)
    × (length some_write.bytes ≤ 2)
    × ((0xfff4 - low) % 2 ≡ 0)
    × (forward port sample_system.1 (record some_write { address = 0xfff4 - low })
        ≡ ok (ran.0, ran.1))
within_example =
    b_transport-within 2 forward sample_system.0 routes_run.0 sample_system.1 ran.0 some_write ran.1
      sample_words (omega arith) (omega arith) routes_run.1

bus_read_example :
    (sys' : System) × (read_bus 2 sample_system 0x2402 2
      ≡ ok (cells (cell_of sample_table sample_system.1) 0x2402 2, sys'))
    × IsSystem sample_table sys'
    × ((x : ℕ) → cell_of sample_table sys'.1 x ≡ cell_of sample_table sample_system.1 x)
unfolding is_covered in_entry
bus_read_example =
    read_covered 2 sample_table sample_disjoint sample_words sample_system 0x2402 2 sample-IsSystem
      refl

bus_write_example :
    (sys' : System) × (write_bus 2 sample_system 0xfff4 (0x00 ∷ 0x44 ∷ []) ≡ ok sys')
    × IsSystem sample_table sys'
    × ((x : ℕ)
        → cell_of sample_table sys'.1 x
          ≡ overwrite (cell_of sample_table sample_system.1) 0xfff4 (0x00 ∷ 0x44 ∷ []) x)
unfolding is_covered in_entry
bus_write_example =
    write_covered 2 sample_table sample_disjoint sample_words sample_system 0xfff4
      (0x00 ∷ 0x44 ∷ []) sample-IsSystem (omega arith, (omega arith, tt)) refl

-- Ranges that share one address are not reported.
shared_boundary : overlaps_existing_target 0x100 0x200 ((0x200, 0x300) ∷ []) ≡ false
unfolding overlaps_existing_target
shared_boundary = refl
