-- ===== src/RegisterFile.antt =====
-- mcu/RegisterFile.hpp and mcu/RegisterFile.cpp: the registers of a peripheral, by address.
-- Values and masks are uint32_t, so numbers below 2 ^ 32. `word_size` is TARGET_WORD_SIZE.
pub mod Access
pub mod Bitwise
pub mod Buffers
pub mod Plain
mod Tests
use fused_checkmate.Base.{
  ℕ, zero, suc, ◌+◌, ◌-◌, ◌*◌, ◌%◌, ◌^◌, bit_and, bit_or, Bool, true, false, not, ◌&&◌, ◌||◌,
  Option, none, some, List, [], ◌∷◌, ◌++◌, map, leb, ltb, ◌==◌, if◌then◌else◌, length, take, drop,
  get_or, not_bits, Result, ok, err, Fault, assertion, fatal, guard, or_fault, ◌>>=◌, ◌>>◌,
}
use fused_checkmate.Utilities.{byte_of, pack_bytes, unpack_bytes, htots, ttohs, htotl, ttohl}

-- `AccessMode`
pub data AccessMode : Type 0 where
  read_only write_only read_write : AccessMode

abbrev pub can_read : AccessMode → Bool
can_read write_only = false
can_read _ = true

abbrev pub can_write : AccessMode → Bool
can_write read_only = false
can_write _ = true

pub record Register : Type 0 where
  pub addr : ℕ
  pub val : ℕ
  pub reset_value : ℕ
  pub write_mask : ℕ
  pub access : AccessMode

-- `m_regs`, in the order in which the registers were added.
abbrev pub RegisterFile : Type 0
RegisterFile = List Register

-- `addRegister`
unfoldable pub add_register : ℕ → ℕ → AccessMode → ℕ → RegisterFile → RegisterFile
add_register address reset_value access write_mask regs =
    regs
    ++ record {
      addr = address;
      val = reset_value;
      reset_value = reset_value;
      write_mask = write_mask;
      access = access;
    }
      ∷ []

reset_register : Register → Register
reset_register r = record r { val = r.reset_value }

-- `reset`
unfoldable pub reset : RegisterFile → RegisterFile
unfolding reset_register
reset regs = map reset_register regs

-- `std::find_if` over the addresses.
unfoldable pub find_if : ℕ → RegisterFile → Option Register
find_if address [] = none
find_if address (r ∷ regs) = if r.addr == address then some r else find_if address regs

-- `find`
unfoldable pub find : ℕ → RegisterFile → Result Register
find address regs = or_fault (find_if address regs) fatal

-- `contains`
unfoldable pub contains : ℕ → RegisterFile → Bool
contains address regs = elim (find_if address regs) [ none ↦ false | some r ↦ true ]

-- The assignment through the reference that `find_if` gave.
unfoldable pub set_val : ℕ → ℕ → RegisterFile → RegisterFile
set_val address v [] = []
set_val address v (r ∷ regs) =
    if r.addr == address then record r { val = v } ∷ regs else r ∷ set_val address v regs

-- What `write` stores: `(r.val & ~r.writeMask) | (value & r.writeMask)`, or the value itself.
unfoldable pub stored : Register → ℕ → Bool → ℕ
stored r value force =
    if not force
    then bit_or (bit_and r.val (not_bits 32 r.write_mask)) (bit_and value r.write_mask)
    else value

-- `write(address, value, force)`
unfoldable pub write : ℕ → ℕ → Bool → RegisterFile → Result RegisterFile
write address value force regs = do
  r ← find address regs
  guard (can_write r.access || force) assertion
  ok (set_val address (stored r value force) regs)

-- `read(address)`
unfoldable pub read : ℕ → RegisterFile → Result ℕ
read address regs = do r ← find address regs; guard (can_read r.access) assertion; ok r.val

-- `reinterpret_cast<uint8_t *>(&tmp)[ofs] = value`
unfoldable pub set_byte : ℕ → ℕ → ℕ → ℕ
set_byte tmp ofs value = tmp - byte_of tmp ofs * 256 ^ ofs + value * 256 ^ ofs

-- `writeByte`
unfoldable pub write_byte : ℕ → ℕ → ℕ → Bool → RegisterFile → Result RegisterFile
write_byte word_size address value force regs = do
  let ofs = address % word_size
  let aligned = address - ofs
  tmp ← read aligned regs
  write aligned (set_byte tmp ofs value) force regs

-- `readByte`
unfoldable pub read_byte : ℕ → ℕ → RegisterFile → Result ℕ
read_byte word_size address regs = do
  let ofs = address % word_size
  r ← find (address - ofs) regs
  guard (can_read r.access) assertion
  ok (byte_of r.val ofs)

-- The loop of `write(address, buf, len, force)`; the list is buf[0 .. len), and the fuel its length.
-- A single byte is written without the `force` argument.
unfoldable pub write_loop : ℕ → ℕ → Bool → ℕ → List ℕ → RegisterFile → Result RegisterFile
write_loop word_size zero force address buf regs = ok regs
write_loop word_size (suc fuel) force address [] regs = ok regs
write_loop word_size (suc fuel) force address (b ∷ bs) regs =
    let buf = b ∷ bs in
    let four = pack_bytes (take 4 buf) >>= λ packed.
    write address (ttohl word_size packed) force regs >>= λ next.
    write_loop word_size fuel force (address + 4) (drop 4 buf) next in
    let two = pack_bytes (take 2 buf) >>= λ packed.
    write address (ttohs packed) force regs >>= λ next.
    write_loop word_size fuel force (address + 2) (drop 2 buf) next in
    let one = write_byte word_size address b false regs >>= λ next.
    write_loop word_size fuel force (address + 1) bs next in
    if leb 4 (length buf) && address % 4 == 0 && word_size == 4
    then four
    else if leb 2 (length buf) && address % 2 == 0
    then two
    else one

unfoldable pub write_buffer : ℕ → Bool → ℕ → List ℕ → RegisterFile → Result RegisterFile
write_buffer word_size force address buf regs =
    write_loop word_size (length buf) force address buf regs

-- The loop of `read(address, buf, len)`: the bytes that the buffer holds afterwards.
unfoldable pub read_loop : ℕ → ℕ → ℕ → ℕ → ℕ → RegisterFile → Result (List ℕ)
read_loop word_size zero junk address len regs = ok []
read_loop word_size (suc fuel) junk address len regs =
    let four = read address regs >>= λ v. unpack_bytes (htotl word_size junk v) 4 >>= λ bytes.
    read_loop word_size fuel junk (address + 4) (len - 4) regs >>= λ rest. ok (bytes ++ rest) in
    let two = read address regs >>= λ v. unpack_bytes (htots junk v) 2 >>= λ bytes.
    read_loop word_size fuel junk (address + 2) (len - 2) regs >>= λ rest. ok (bytes ++ rest) in
    let one = read_byte word_size address regs >>= λ b.
    read_loop word_size fuel junk (address + 1) (len - 1) regs >>= λ rest. ok (b ∷ rest) in
    if len == 0
    then ok []
    else if leb 4 len && address % 4 == 0 && word_size == 4
    then four
    else if leb 2 len && address % 2 == 0
    then two
    else one

-- `junk` is what the conversion to target byte order finds in its buffer.
unfoldable pub read_buffer : ℕ → ℕ → ℕ → ℕ → RegisterFile → Result (List ℕ)
read_buffer word_size junk address len regs = read_loop word_size len junk address len regs

-- `setBit`
unfoldable pub set_bit : ℕ → ℕ → ℕ → Bool → RegisterFile → Result RegisterFile
set_bit word_size address bit force regs = do
  guard (ltb bit (word_size * 8)) assertion
  r ← find address regs
  guard (can_write r.access || force) assertion
  old ← read address regs
  write address (bit_or old (2 ^ bit)) force regs

-- `clearBit`
unfoldable pub clear_bit : ℕ → ℕ → ℕ → Bool → RegisterFile → Result RegisterFile
clear_bit word_size address bit force regs = do
  guard (ltb bit (word_size * 8)) assertion
  r ← find address regs
  guard (can_write r.access || force) assertion
  write address (bit_and r.val (not_bits 32 (2 ^ bit))) force regs

-- `setBitMask`
unfoldable pub set_bit_mask : ℕ → ℕ → Bool → RegisterFile → Result RegisterFile
set_bit_mask address mask force regs = do
  old ← read address regs
  write address (bit_or old mask) force regs

-- `clearBitMask`
unfoldable pub clear_bit_mask : ℕ → ℕ → Bool → RegisterFile → Result RegisterFile
clear_bit_mask address mask force regs = do
  old ← read address regs
  write address (bit_and old (not_bits 32 mask)) force regs

-- `testBit`
unfoldable pub test_bit : ℕ → ℕ → ℕ → RegisterFile → Result Bool
test_bit word_size address n regs = do
  guard (ltb n (word_size * 8)) assertion
  v ← read address regs
  ok (ltb 0 (bit_and v (2 ^ n)))

-- `testBitMask`
unfoldable pub test_bit_mask : ℕ → ℕ → RegisterFile → Result Bool
test_bit_mask address mask regs = do v ← read address regs; ok (ltb 0 (bit_and v mask))

-- `increment`
unfoldable pub increment : ℕ → Bool → RegisterFile → Result RegisterFile
increment address force regs = do
  r ← find address regs
  guard (can_read r.access && can_write r.access || force) assertion
  write address ((r.val + 1) % 2 ^ 32) force regs
