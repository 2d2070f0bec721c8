-- ===== src/Bus.antt =====
-- mcu/Bus.hpp and mcu/Bus.cpp: the bus between initiators and targets. `T` is the state of the
-- targets and `forward` the b_transport of the target at a port. The delay is left out.
pub mod Routing
pub mod Memories
mod Tests
use mathlib.Core.Option
use fused_checkmate.Base.{
  ℕ, zero, suc, ◌+◌, ◌-◌, ◌*◌, ◌%◌, ◌^◌, bit_or, Bool, true, false, not, ◌&&◌, Option, none, some,
  List, [], ◌∷◌, ◌++◌, leb, ltb, ◌==◌, if◌then◌else◌, length, get_or, get_elem?, replicate, Result,
  ok, err, assertion, fatal, guard, or_fault, ◌>>=◌, ◌>>◌,
}
use fused_checkmate.BusTarget.{Payload}

-- `m_routingTable`: start and end address of each port.
abbrev pub RoutingTable : Type 0
RoutingTable = List (ℕ × ℕ)

pub record Bus : Type 0 where
  pub routing_table : RoutingTable
  pub address_trace : ℕ
  pub size_trace : ℕ
  pub data_trace : ℕ

-- The constructor, with the members' first values.
unfoldable pub create : Bus
create = record { routing_table = []; address_trace = 0xffffffff; size_trace = 0; data_trace = 0 }

-- `bindTarget`
unfoldable pub bind_target : ℕ → ℕ → Bus → Bus
bind_target start_address end_address bus = record bus {
  routing_table = bus.routing_table ++ (start_address, end_address) ∷ [];
}

-- `inRange`, of an unsigned.
unfoldable pub in_range : ℕ → ℕ × ℕ → Bool
in_range a (low, high) = leb low (a % 2 ^ 32) && leb (a % 2 ^ 32) high

-- `std::find_if` over the routing table, as an index.
unfoldable pub find_port : ℕ → RoutingTable → Option ℕ
find_port a [] = none
find_port a (entry ∷ table) =
    if in_range a entry then some 0 else Option.map suc (find_port a table)

-- `routeForward`: the port, its entry, and the transaction with the address inside the target.
unfoldable pub route_forward : RoutingTable → Payload → Option (ℕ × ℕ × ℕ × Payload)
route_forward table trans = elim (find_port trans.address table) [
  | none ↦ none
  | some port ↦
      let (low, high) = get_or table port (0, 0) in
      some (port, low, high, record trans { address = trans.address - low })
]

-- `checkTransaction`; the remainder by a length of zero is undefined, and ends the run.
unfoldable pub check_transaction : ℕ → ℕ → ℕ → Payload → Result (Unit {0})
check_transaction word_size low high trans = do
  let len = length trans.bytes
  guard (leb ((trans.address + len + 2 ^ 64 - 1) % 2 ^ 64) ((high + 2 ^ 32 - low) % 2 ^ 32))
      assertion
  guard (not (len == 0)) fatal
  guard (trans.address % len == 0) assertion
  guard (leb len word_size) assertion

-- The loop of `updateTrace`, with n of its rounds left.
unfoldable pub trace_bytes : ℕ → List ℕ → ℕ → ℕ
trace_bytes zero bytes trace = trace
trace_bytes (suc n) [] trace = trace_bytes n [] (trace * 2 ^ 8 % 2 ^ 32)
trace_bytes (suc n) (b ∷ bytes) trace = trace_bytes n bytes (bit_or (trace * 2 ^ 8 % 2 ^ 32) b)

-- `updateTrace`
unfoldable pub update_trace : Payload → ℕ → Bus → Bus
update_trace trans original_address bus = record bus {
  address_trace = original_address % 2 ^ 32;
  size_trace = length trans.bytes;
  data_trace = trace_bytes 4 trans.bytes 0;
}

module _ {T : Type 0} (word_size : ℕ) (forward : ℕ → T → Payload → Result (T × Payload)) where
  -- `b_transport`
  unfoldable pub b_transport : Bus → T → Payload → Result (Bus × T × Payload)
  b_transport bus targets trans = do
    (port, low, high, inside) ← or_fault (route_forward bus.routing_table trans) fatal
    check_transaction word_size low high inside
    (targets', done) ← forward port targets inside
    ok (update_trace done trans.address bus, targets', done)

-- `transport_dbg`, with the number of bytes.
unfoldable pub transport_dbg :
    {T : Type 0}
    → (ℕ → T → Payload → Result (T × Payload × ℕ))
    → Bus
    → T
    → Payload
    → Result (T × Payload × ℕ)
transport_dbg forward bus targets trans =
    let len = length trans.bytes in
    elim (route_forward bus.routing_table trans) [
      | none ↦ ok (targets, record trans { bytes = replicate len 0 }, len)
      | some (port, low, high, inside) ↦
          guard (in_range trans.address (low, high)) assertion
          >> (guard (in_range (trans.address + len + 2 ^ 64 - 1) (low, high)) assertion
              >> forward port targets inside)
    ]

-- `overlapsExistingTarget`; the comparisons are unsigned.
unfoldable pub overlaps_existing_target : ℕ → ℕ → RoutingTable → Bool
overlaps_existing_target start_address end_address [] = false
overlaps_existing_target start_address end_address ((low, high) ∷ table) =
    if ltb start_address high && ltb low end_address
    then true
    else overlaps_existing_target start_address end_address table
