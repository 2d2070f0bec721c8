-- ===== src/DummyPeripheral.antt =====
-- mcu/DummyPeripheral.cpp: a peripheral whose reads give fixed bytes and whose writes are discarded.
-- Events, the delay and the response status are left out. A read past the bytes is undefined in the
-- source, and ends the run here.
use fused_checkmate.Base.{
  ℕ, zero, suc, ◌+◌, ◌-◌, List, [], ◌∷◌, length, get_elem?, replicate, Result, ok, err, fatal,
  or_fault, ◌>>=◌,
}
use fused_checkmate.BusTarget.{Command, Payload}
use fused_checkmate.BusTarget.Command.{read_command, write_command, ignore_command}

-- `retvals`
abbrev pub DummyPeripheral : Type 0
DummyPeripheral = List ℕ

-- The constructor without bytes: zeros.
unfoldable pub create_zero : ℕ → ℕ → DummyPeripheral
create_zero start_address end_address = replicate (end_address - start_address + 1) 0

-- The loop over the remaining bytes.
unfoldable pub read_loop : ℕ → ℕ → DummyPeripheral → Result (List ℕ)
read_loop addr zero retvals = ok []
read_loop addr (suc remaining) retvals = do
  b ← or_fault (get_elem? retvals addr) fatal
  rest ← read_loop (addr + 1) remaining retvals
  ok (b ∷ rest)

unfoldable pub transact : Command → DummyPeripheral → Payload → Result Payload
transact write_command retvals trans = ok trans
transact read_command retvals trans = do
  bytes ← read_loop trans.address (length trans.bytes) retvals
  ok (record trans { bytes = bytes })
transact ignore_command retvals trans = err fatal

-- `b_transport`; the state does not change.
unfoldable pub b_transport : DummyPeripheral → Payload → Result Payload
b_transport retvals trans = transact trans.command retvals trans

-- `transport_dbg`: the same, and a count of zero.
unfoldable pub transport_dbg : DummyPeripheral → Payload → Result (Payload × ℕ)
transport_dbg retvals trans = do done ← transact trans.command retvals trans; ok (done, 0)
