-- ===== src/Spi/Fifo.antt =====
-- mcu/cortex-m0/Spi.hpp, `Spi::Fifo`: a queue of at most four bytes in a word. The number of bytes,
-- an int, is held as its 32-bit pattern. A shift by a negative count is undefined; here it counts
-- modulo 32. Warnings are left out.
pub mod Queue
pub mod Run
pub mod Steps
use fused_checkmate.Base.{
  ℕ, ◌+◌, ◌-◌, ◌*◌, ◌/◌, ◌%◌, ◌^◌, bit_and, bit_or, Bool, true, false, ◌&&◌, leb, ◌==◌,
  if◌then◌else◌, not_bits, Result, ok, assertion, guard, ◌>>=◌, ◌>>◌,
}

pub record Fifo : Type 0 where
  pub n_valid_bytes : ℕ
  pub word : ℕ

-- `<=` on int.
unfoldable pub at_most : ℕ → ℕ → Bool
at_most a b = leb ((a + 2 ^ 31) % 2 ^ 32) ((b + 2 ^ 31) % 2 ^ 32)

-- The constructor.
unfoldable pub create : Fifo
create = record { n_valid_bytes = 0; word = 0 }

-- `reset`
unfoldable pub reset : Fifo → Fifo
reset f = record { n_valid_bytes = 0; word = 0 }

-- `((nbits - 1) / 8) + 1`, after the assertion.
unfoldable pub bytes_of_bits : ℕ → Result ℕ
bytes_of_bits nbits = do guard (leb 4 nbits && leb nbits 16) assertion; ok ((nbits - 1) / 8 + 1)

-- `get`
unfoldable pub get : ℕ → Fifo → Result (ℕ × Fifo)
unfolding bytes_of_bits
get nbits f = do
  nbytes ← bytes_of_bits nbits
  let left = (f.n_valid_bytes + 2 ^ 32 - nbytes) % 2 ^ 32
  ok (
      if nbytes == 1
      then (bit_and f.word 0x00ff, record { n_valid_bytes = left; word = f.word / 2 ^ 8 })
      else (bit_and f.word 0xffff, record { n_valid_bytes = left; word = f.word / 2 ^ 16 }))

-- `put`; the second result is its return value, true on an overflow.
unfoldable pub put : ℕ → ℕ → Fifo → Result (Fifo × Bool)
unfolding bytes_of_bits at_most
put nbits val f = do
  nbytes ← bytes_of_bits nbits
  let mask = if nbytes == 1 then 0x00ff else 0xffff
  let at = 256 ^ (f.n_valid_bytes % 4)
  let cleared = bit_and f.word (not_bits 32 (mask * at % 2 ^ 32))
  let stored : Fifo = record {
    n_valid_bytes = (nbytes + f.n_valid_bytes) % 2 ^ 32;
    word = bit_or cleared (bit_and val mask * at % 2 ^ 32);
  }
  ok (if at_most ((nbytes + f.n_valid_bytes) % 2 ^ 32) 4 then (stored, false) else (f, true))

-- `level`
unfoldable pub level : Fifo → ℕ
unfolding at_most
level f =
    if at_most f.n_valid_bytes 2 then f.n_valid_bytes else if f.n_valid_bytes == 3 then 2 else 3
