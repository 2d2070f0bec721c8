-- ===== src/BusTarget.antt =====
-- mcu/BusTarget.hpp and mcu/BusTarget.cpp: a peripheral behind a bus socket, and the payload of a
-- transaction. Power-model reports and the notification of events are left out, as is the delay.
pub mod Cells
pub mod Contract
use fused_checkmate.Base.{
  ℕ, false, List, [], length, leb, Result, ok, err, fatal, assertion, guard, ◌>>=◌, ◌>>◌,
}
use fused_checkmate.RegisterFile.{RegisterFile, write_buffer, read_buffer}

-- `tlm_command`
pub data Command : Type 0 where
  read_command write_command ignore_command : Command

-- The parts of a `tlm_generic_payload` that the models use; the data length is the list's.
pub record Payload : Type 0 where
  pub command : Command
  pub address : ℕ
  pub bytes : List ℕ

-- What stands behind an initiator socket: the bus and all that is behind it, with state S. A read gives the bytes.
pub record BusPort (S : Type 0) : Type 0 where
  pub b_read : S → ℕ → ℕ → Result (List ℕ × S)
  pub b_write : S → ℕ → List ℕ → Result S

pub record BusTarget : Type 0 where
  pub start_address : ℕ
  pub end_address : ℕ
  pub regs : RegisterFile

-- The constructor.
unfoldable pub create : ℕ → ℕ → Result BusTarget
create start_address end_address = do
  guard (leb start_address end_address) assertion
  ok (record { start_address = start_address; end_address = end_address; regs = [] })

module _ (word_size junk : ℕ) where
  transact : Command → BusTarget → Payload → Result (BusTarget × Payload)
  transact write_command t trans =
      write_buffer word_size false trans.address trans.bytes t.regs >>= λ next.
      ok (record t { regs = next }, trans)
  transact read_command t trans =
      read_buffer word_size junk trans.address (length trans.bytes) t.regs >>= λ got.
      ok (t, record trans { bytes = got })
  transact ignore_command t trans = err fatal

  -- `b_transport`
  unfoldable pub b_transport : BusTarget → Payload → Result (BusTarget × Payload)
  unfolding transact
  b_transport t trans = transact trans.command t trans

  -- `transport_dbg`: the same register accesses, and the data length.
  unfoldable pub transport_dbg : BusTarget → Payload → Result (BusTarget × Payload × ℕ)
  unfolding transact
  transport_dbg t trans =
      transact trans.command t trans >>= λ done. ok (done.0, done.1, length trans.bytes)
