-- ===== src/Utilities.antt =====
-- utilities/Utilities.cpp: bytes and words, byte order, single bits.
-- The build defines TARGET_LITTLE_ENDIAN for both microcontrollers; the host is little-endian, so
-- byte i of a host word w is w / 256 ^ i % 256. `word_size` is TARGET_WORD_SIZE, 2 or 4.
pub mod Packing
pub mod Flags
mod Tests
use fused_checkmate.Base.{
  ℕ, zero, suc, ◌+◌, ◌*◌, ◌/◌, ◌%◌, ◌^◌, bit_and, bit_or, Bool, List, [], ◌∷◌, ltb, ◌==◌,
  if◌then◌else◌, length, not_bits, to_nat, Result, ok, assertion, guard, ◌>>=◌, ◌>>◌,
}

-- The loop of `packBytes`: `res` is a uint64_t.
pack_loop : ℕ → List ℕ → ℕ
pack_loop res [] = res
pack_loop res (b ∷ bs) = pack_loop (bit_or (res * 2 ^ 8 % 2 ^ 64) b) bs

-- `packBytes`; the list is data[0 .. width).
unfoldable pub pack_bytes : List ℕ → Result ℕ
unfolding pack_loop
pack_bytes bytes = do guard (ltb (length bytes) 8) assertion; ok (pack_loop 0 bytes)

-- The loop of `unpackBytes`, from the last byte to the first.
unpack_loop : List ℕ → ℕ → ℕ → List ℕ
unpack_loop out val zero = out
unpack_loop out val (suc width) = unpack_loop (val % 2 ^ 8 ∷ out) (val / 2 ^ 8) width

-- `unpackBytes`: what data[0 .. width) holds afterwards.
unfoldable pub unpack_bytes : ℕ → ℕ → Result (List ℕ)
unfolding unpack_loop
unpack_bytes val width = do guard (ltb width 8) assertion; ok (unpack_loop [] val width)

-- Byte i of a word in the host's memory.
abbrev pub byte_of : ℕ → ℕ → ℕ
byte_of w i = w / 256 ^ i % 256

-- `htots` sets the two low bytes of an uninitialised buffer of four: `junk` is its upper half.
unfoldable pub htots : ℕ → ℕ → ℕ
htots junk host = host / 256 % 256 + host % 256 * 256 + junk % 2 ^ 16 * 2 ^ 16

unfoldable pub ttohs : ℕ → ℕ
ttohs target = byte_of target 0 * 256 + byte_of target 1

unfoldable pub htotl : ℕ → ℕ → ℕ → ℕ
unfolding htots
htotl word_size junk host =
    if word_size == 2
    then htots junk host
    else (host / 256 / 256 / 256 % 256
        + host / 256 / 256 % 256 * 256
        + host / 256 % 256 * 256 ^ 2
        + host % 256 * 256 ^ 3)

unfoldable pub ttohl : ℕ → ℕ → ℕ
unfolding ttohs
ttohl word_size target =
    if word_size == 2
    then ttohs target
    else (((byte_of target 0 * 256 + byte_of target 1) * 256 + byte_of target 2) * 256
        + byte_of target 3)

-- `setBit`
unfoldable pub set_bit : ℕ → ℕ → ℕ → Bool → Result ℕ
set_bit word_size idx word value = do
  guard (ltb idx (word_size * 8)) assertion
  ok (bit_or (bit_and word (not_bits 32 (2 ^ idx))) (to_nat value * 2 ^ idx))
