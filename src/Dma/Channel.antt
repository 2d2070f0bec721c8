-- ===== src/Dma/Channel.antt =====
-- mcu/msp430fr5xx/Dma.cpp and Dma.hpp, `DmaChannel`: one channel, as a thread that waits for triggers
-- and for the module to accept transfers. The channel of mcu/cortex-m0/Dma.cpp differs only in the
-- bytes of a word, which `word` gives. A value of type int is held as its 32-bit pattern. Logging is
-- left out.
use fused_checkmate.Base.{
  ℕ, zero, suc, ◌+◌, ◌-◌, ◌/◌, ◌%◌, ◌^◌, bit_and, Bool, true, false, not, ◌&&◌, ltb, ◌==◌,
  if◌then◌else◌,
}

-- `AutoIncrementMode`
pub data AutoIncrementMode : Type 0 where
  unchanged decrement increment : AutoIncrementMode

-- `TransferMode`
pub data TransferMode : Type 0 where
  single block burst_block repeated_single repeated_block repeated_burst_block : TransferMode

-- `Bytes`
pub data Bytes : Type 0 where
  byte word : Bytes

-- Where the thread waits: for a trigger, for a transfer to be accepted, or for the end of a pause;
-- `looping` is a thread that never waits again.
pub data Phase : Type 0 where
  idle : Phase
  accepting : TransferMode → Phase
  pausing : TransferMode → Phase
  looping : Phase

pub record DmaChannel : Type 0 where
  pub pending : Bool
  pub interrupt_flag : Bool
  pub size : ℕ
  pub destination_address : ℕ
  pub source_address : ℕ
  pub destination_auto_increment : AutoIncrementMode
  pub source_auto_increment : AutoIncrementMode
  pub destination_bytes : Bytes
  pub source_bytes : Bytes
  pub enable : Bool
  pub level_sensitive : Bool
  pub interrupt_enable : Bool
  pub abort : Bool
  pub transfer_mode : TransferMode
  pub t_size : ℕ
  pub t_source_address : ℕ
  pub t_destination_address : ℕ
  pub phase : Phase

-- `<` on int.
unfoldable pub less : ℕ → ℕ → Bool
less a b = ltb ((a + 2 ^ 31) % 2 ^ 32) ((b + 2 ^ 31) % 2 ^ 32)

-- `size--`
unfoldable pub predecessor : ℕ → ℕ
predecessor size = (size + 2 ^ 32 - 1) % 2 ^ 32

-- The length of a byte or a word.
unfoldable pub unit_length : ℕ → Bytes → ℕ
unit_length words byte = 1
unit_length words word = words

unfoldable pub move : ℕ → AutoIncrementMode → Bytes → ℕ → ℕ
unfolding unit_length
move words unchanged size address = address
move words decrement size address = (address + 2 ^ 32 - unit_length words size) % 2 ^ 32
move words increment size address = (address + unit_length words size) % 2 ^ 32

-- `updateAddresses`
unfoldable pub update_addresses : ℕ → DmaChannel → DmaChannel
unfolding move
update_addresses words c = record c {
  t_destination_address =
      move words c.destination_auto_increment c.destination_bytes c.t_destination_address;
  t_source_address = move words c.source_auto_increment c.source_bytes c.t_source_address;
}

-- The switches on the increment bits.
unfoldable pub increment_mode : ℕ → AutoIncrementMode
increment_mode (suc (suc zero)) = decrement
increment_mode (suc (suc (suc zero))) = increment
increment_mode _ = unchanged

-- The switch on the transfer mode bits.
unfoldable pub mode_of : ℕ → TransferMode
mode_of zero = single
mode_of (suc zero) = block
mode_of (suc (suc zero)) = burst_block
mode_of (suc (suc (suc zero))) = burst_block
mode_of (suc (suc (suc (suc zero)))) = repeated_single
mode_of (suc (suc (suc (suc (suc zero))))) = repeated_block
mode_of _ = repeated_burst_block

-- `updateConfig`; the second result tells that the software trigger is notified.
unfoldable pub update_config : ℕ → DmaChannel → DmaChannel × Bool
unfolding increment_mode mode_of
update_config cfg c = (
  record c {
    interrupt_enable = ltb 0 (bit_and cfg 0x4);
    enable = ltb 0 (bit_and cfg 0x10);
    level_sensitive = ltb 0 (bit_and cfg 0x20);
    source_bytes = if ltb 0 (bit_and cfg 0x40) then byte else word;
    destination_bytes = if ltb 0 (bit_and cfg 0x80) then byte else word;
    source_auto_increment = increment_mode (bit_and cfg 0x300 / 2 ^ 8);
    destination_auto_increment = increment_mode (bit_and cfg 0xc00 / 2 ^ 10);
    transfer_mode = mode_of (bit_and cfg 0x7000 / 2 ^ 12);
  },
  ltb 0 (bit_and cfg 1),
)

-- The internal registers are loaded.
unfoldable pub load : DmaChannel → DmaChannel
load c = record c {
  t_source_address = c.source_address;
  t_destination_address = c.destination_address;
}

-- The end of a block; the repeated block stays enabled.
unfoldable pub finish_block : Bool → DmaChannel → DmaChannel
finish_block stays c = record c {
  size = c.t_size;
  enable = if stays then c.enable else false;
  interrupt_flag = true;
  pending = false;
  phase = idle;
}

-- The test of `while (size)`, before the wait for the next transfer to be accepted.
unfoldable pub next_of_block : TransferMode → Bool → DmaChannel → DmaChannel
unfolding finish_block
next_of_block mode stays c =
    if c.size == 0 then finish_block stays c else record c { phase = accepting mode }

unfoldable pub start_block : TransferMode → Bool → DmaChannel → DmaChannel
unfolding next_of_block load
start_block mode stays c =
    next_of_block mode stays (record (load c) { size = c.t_size; pending = true })

-- The outer loop of the repeated burst block: with a size of zero it never waits.
unfoldable pub restart : DmaChannel → DmaChannel
unfolding load
restart c =
    let again = record (load c) { size = c.t_size } in
    if c.t_size == 0
    then record again { interrupt_flag = true; phase = looping }
    else record again { phase = accepting repeated_burst_block }

unfoldable pub start_single : TransferMode → DmaChannel → DmaChannel
unfolding load
start_single mode c = record (if c.size == c.t_size then load c else c) {
  pending = true;
  phase = accepting mode;
}

-- The switch on the mode, up to the first wait.
unfoldable pub start : TransferMode → DmaChannel → DmaChannel
unfolding start_single start_block restart
start single c = start_single single c
start block c = start_block block false c
start burst_block c = start_block burst_block false c
start repeated_single c = start_single repeated_single c
start repeated_block c = start_block repeated_block true c
start repeated_burst_block c = restart (record c { pending = true })

-- What a single transfer does once it is accepted.
unfoldable pub finish_single : Bool → DmaChannel → DmaChannel
unfolding less predecessor
finish_single stays c =
    if less 1 c.size
    then record c { size = predecessor c.size; pending = false; phase = idle }
    else record c {
      size = c.t_size;
      interrupt_flag = true;
      enable = if stays then c.enable else false;
      pending = false;
      phase = idle;
    }

-- The rest of the round of a burst, after the pause if there is one.
unfoldable pub next_of_burst : DmaChannel → DmaChannel
unfolding predecessor next_of_block finish_block
next_of_burst c =
    if not c.enable
    then finish_block false c
    else next_of_block burst_block false (record c { size = predecessor c.size })

unfoldable pub next_of_repeated_burst : DmaChannel → DmaChannel
unfolding predecessor restart
next_of_repeated_burst c =
    if not c.enable
    then restart (record c { interrupt_flag = true })
    else if predecessor c.size == 0
    then restart (record c { interrupt_flag = true })
    else record c { size = predecessor c.size; phase = accepting repeated_burst_block }

-- The condition of the pause of two cycles.
unfoldable pub pauses : DmaChannel → Bool
unfolding less
pauses c = less 0 c.size && less c.size c.t_size && c.size % 4 == 0

unfoldable pub accept_mode : TransferMode → DmaChannel → DmaChannel
unfolding finish_single finish_block next_of_block predecessor pauses next_of_burst
    next_of_repeated_burst
accept_mode single c = finish_single false c
accept_mode block c =
    if not c.enable
    then finish_block false c
    else next_of_block block false (record c { size = predecessor c.size })
accept_mode burst_block c =
    if pauses c then record c { phase = pausing burst_block } else next_of_burst c
accept_mode repeated_single c = finish_single true c
accept_mode repeated_block c =
    if not c.enable then finish_block true c else next_of_block repeated_block true c
accept_mode repeated_burst_block c =
    if pauses c then record c { phase = pausing repeated_burst_block } else next_of_repeated_burst c

unfoldable pub trigger_at : Phase → DmaChannel → DmaChannel
unfolding start
trigger_at idle c = if c.enable then start c.transfer_mode c else c
trigger_at _ c = c

unfoldable pub accept_at : ℕ → Phase → DmaChannel → DmaChannel
unfolding accept_mode update_addresses
accept_at words (accepting mode) c = accept_mode mode (update_addresses words c)
accept_at words _ c = c

unfoldable pub timeout_at : Phase → DmaChannel → DmaChannel
unfolding next_of_burst next_of_repeated_burst
timeout_at (pausing burst_block) c = next_of_burst c
timeout_at (pausing repeated_burst_block) c = next_of_repeated_burst c
timeout_at _ c = c

-- `process` on a trigger, up to its next wait. An event that it does not wait for is missed.
unfoldable pub on_trigger : DmaChannel → DmaChannel
unfolding trigger_at
on_trigger c = trigger_at c.phase c

-- `process` on a rising edge of `accept`.
unfoldable pub on_accept : ℕ → DmaChannel → DmaChannel
unfolding accept_at
on_accept words c = accept_at words c.phase c

-- `process` at the end of a pause.
unfoldable pub on_timeout : DmaChannel → DmaChannel
unfolding timeout_at
on_timeout c = timeout_at c.phase c

-- `reset`
unfoldable pub reset : DmaChannel → DmaChannel
reset c = record c {
  size = 0;
  destination_address = 0;
  source_address = 0;
  destination_auto_increment = unchanged;
  source_auto_increment = unchanged;
  destination_bytes = word;
  source_bytes = word;
  enable = false;
  level_sensitive = false;
  abort = false;
  transfer_mode = single;
  interrupt_flag = false;
}
