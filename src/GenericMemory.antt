-- ===== src/GenericMemory.antt =====
-- mcu/GenericMemory.cpp, mcu/VolatileMemory.hpp and mcu/NonvolatileMemory.cpp: bytes behind a bus
-- socket. Power-model reports, events and delays are left out, so a nonvolatile memory is a generic
-- one. An access past the array is undefined in the source, and ends the run here.
pub mod Bytes
pub mod SetBits
mod Tests
use fused_checkmate.Base.{
  ℕ, zero, suc, ◌+◌, ◌-◌, Bool, true, false, List, [], ◌∷◌, ◌++◌, leb, if◌then◌else◌, length, take,
  drop, replicate, bit_and, ◌==◌, Result, ok, err, fatal, guard, ◌>>=◌, ◌>>◌,
}
use fused_checkmate.BusTarget.{Command, Payload}
use fused_checkmate.BusTarget.Command.{read_command, write_command, ignore_command}

-- `mem`, as long as `m_capacity`.
abbrev pub GenericMemory : Type 0
GenericMemory = List ℕ

-- The constructor. `make_unique` clears the array.
unfoldable pub create : ℕ → ℕ → GenericMemory
create start_address end_address = replicate (end_address - start_address + 1) 0

-- `size`
unfoldable pub size : GenericMemory → ℕ
size mem = length mem

-- `memcpy(&mem[addr], data, len)`
unfoldable pub store : ℕ → List ℕ → GenericMemory → GenericMemory
store addr bytes mem = take addr mem ++ (bytes ++ drop (addr + length bytes) mem)

-- `memcpy(data, &mem[addr], len)`
unfoldable pub load : ℕ → ℕ → GenericMemory → List ℕ
load addr len mem = take len (drop addr mem)

unfoldable pub transact : Command → ℕ → List ℕ → GenericMemory → Result (GenericMemory × List ℕ)
transact write_command addr bytes mem = do
  guard (leb (addr + length bytes) (length mem)) fatal
  ok (store addr bytes mem, bytes)
transact read_command addr bytes mem = do
  guard (leb (addr + length bytes) (length mem)) fatal
  ok (mem, load addr (length bytes) mem)
transact ignore_command addr bytes mem = err fatal

-- `b_transport`
unfoldable pub b_transport : GenericMemory → Payload → Result (GenericMemory × Payload)
b_transport mem trans = do
  (mem', bytes) ← transact trans.command trans.address trans.bytes mem
  ok (mem', record trans { bytes = bytes })

-- `transport_dbg`: the same, and the data length.
unfoldable pub transport_dbg : GenericMemory → Payload → Result (GenericMemory × Payload × ℕ)
transport_dbg mem trans = do
  (mem', done) ← b_transport mem trans
  ok (mem', done, length trans.bytes)

-- `VolatileMemory::reset`
unfoldable pub reset_volatile : Bool → GenericMemory → GenericMemory
reset_volatile pwr_on mem = if pwr_on then replicate (length mem) 0xaa else mem

-- The loop of `NonvolatileMemory::countSetBits`, on fuel.
unfoldable pub count_loop : ℕ → ℕ → ℕ → ℕ
count_loop zero count n = count
count_loop (suc fuel) count n =
    let rest = count_loop fuel (count + 1) (bit_and n (n - 1)) in if n == 0 then count else rest

-- `NonvolatileMemory::countSetBits`: a round clears the lowest of at most 64 bits.
unfoldable pub count_set_bits : ℕ → ℕ
count_set_bits n = count_loop 64 0 n

-- `NonvolatileMemory::countSetBitsArray`
unfoldable pub count_set_bits_array : List ℕ → ℕ
count_set_bits_array [] = 0
count_set_bits_array (b ∷ bs) = count_set_bits b + count_set_bits_array bs
