-- ===== src/Dma.antt =====
-- mcu/msp430fr5xx/Dma.cpp and Dma.hpp: the DMA controller of the MSP430. A word of the int type is
-- held as its 32-bit pattern. The calls of `process` are its rounds between the waits for a pending
-- channel. A bus access takes time, so that a channel sees its transfer accepted, and its `pending`
-- settles, before the loop reads it. The trigger multiplexers show as the signals that select them.
-- Power-model reports, delays and logging are left out. Register offsets and masks are the ones of
-- the device's header.
pub mod Channel
pub mod Copy
pub mod Running
pub mod Rounds
pub mod Block
pub mod Request
pub mod Vector
pub mod Repeated
mod Tests
use fused_checkmate.Base.{
  ℕ, zero, suc, ◌+◌, ◌-◌, ◌*◌, ◌/◌, ◌%◌, ◌^◌, bit_and, Bool, true, false, not, ◌&&◌, ◌||◌, Option,
  none, some, List, [], ◌∷◌, map, leb, ltb, ◌==◌, if◌then◌else◌, get_elem?, set, replicate, Result,
  ok, err, fatal, guard, or_fault, ◌>>=◌, ◌>>◌,
}
use fused_checkmate.BusTarget.{BusTarget, BusPort, Payload, Command}
use fused_checkmate.BusTarget.Command.{read_command, write_command, ignore_command}
use fused_checkmate.BusTarget
use fused_checkmate.RegisterFile.{
  RegisterFile, add_register, read, write, set_bit_mask, clear_bit_mask,
}
use fused_checkmate.RegisterFile
use fused_checkmate.RegisterFile.AccessMode.{read_write}
use fused_checkmate.Dma.Channel.{
  DmaChannel, Bytes, unit_length, update_config, on_accept, on_timeout,
}
use fused_checkmate.Dma.Channel

abbrev pub ofs_iv : ℕ
ofs_iv = 0xe

abbrev pub ofs_ctl : ℕ
ofs_ctl = 0x10

abbrev pub ofs_sa : ℕ
ofs_sa = 0x12

abbrev pub ofs_da : ℕ
ofs_da = 0x16

abbrev pub ofs_sz : ℕ
ofs_sz = 0x1a

-- `m_clearIfg` is not initialised.
pub record Dma : Type 0 where
  pub regs : RegisterFile
  pub channels : List DmaChannel
  pub clear_ifg : Bool
  pub irq : Bool
  pub stall_cpu : Bool
  pub trigger_select : List ℕ

abbrev plain : ℕ → ℕ → RegisterFile → RegisterFile
plain address value regs = add_register address value read_write 0xffffffff regs

-- The six registers of a channel whose control register stands here.
unfoldable pub channel_regs : ℕ → RegisterFile → RegisterFile
channel_regs at regs =
    let sources = plain (at + 4) 0xaaaa (plain (at + 2) 0xaaaa (plain at 0 regs)) in
    plain (at + 10) 0xaaaa (plain (at + 8) 0xaaaa (plain (at + 6) 0xaaaa sources))

-- The register file of the constructor.
unfoldable pub create_regs : RegisterFile
unfolding channel_regs
create_regs =
    let shared = plain 0xe 0 (plain 0x8 0 (plain 0x4 0 (plain 0x2 0 (plain 0x0 0 [])))) in
    let half = channel_regs 0x30 (channel_regs 0x20 (channel_regs 0x10 shared)) in
    channel_regs 0x60 (channel_regs 0x50 (channel_regs 0x40 half))

-- `reset`
unfoldable pub reset : Dma → Dma
reset d = record d { regs = RegisterFile.reset d.regs; channels = map Channel.reset d.channels }

-- `setTrigger`; the triggers 30 and 31 end the simulation.
unfoldable pub set_trigger : ℕ → ℕ → Dma → Result Dma
set_trigger channel number d = do
  guard (ltb number 30) fatal
  ok (record d { trigger_select = set d.trigger_select channel number })

-- A control register of two triggers.
unfoldable pub set_triggers : ℕ → ℕ → Dma → Result Dma
unfolding set_trigger
set_triggers channel v d = set_trigger channel (bit_and v 0x1f) d >>= λ d'.
    set_trigger (channel + 1) (bit_and v 0x1f00 / 2 ^ 8) d'

-- `updateConfig` of a channel; the second result is the channel whose software trigger is notified.
unfoldable pub configure : ℕ → ℕ → Dma → Result (Dma × Option ℕ)
configure channel v d = do
  c ← or_fault (get_elem? d.channels channel) fatal
  let (c', triggered) = update_config v c
  ok (record d { channels = set d.channels channel c' }, if triggered then some channel else none)

-- The switch on the address of a write.
unfoldable pub on_write : ℕ → ℕ → Dma → Result (Dma × Option ℕ)
unfolding set_triggers configure
on_write addr v d =
    if addr == 0x0
    then (set_triggers 0 v d >>= λ d'. ok (d', none))
    else if addr == 0x2
    then (set_triggers 2 v d >>= λ d'. ok (d', none))
    else if addr == 0x4
    then (set_triggers 4 v d >>= λ d'. ok (d', none))
    else if leb 0x10 addr && leb addr 0x60 && addr % 0x10 == 0
    then configure (addr / 0x10 - 1) v d
    else ok (d, none)

is_write : Command → Bool
is_write write_command = true
is_write _ = false

-- `updateChannelAddresses`, from channel i on.
unfoldable pub update_channel_addresses :
    ℕ → RegisterFile → List DmaChannel → Result (List DmaChannel)
update_channel_addresses i regs [] = ok []
update_channel_addresses i regs (c ∷ channels) = do
  source ← read (ofs_sa + i * 0x10) regs
  destination ← read (ofs_da + i * 0x10) regs
  size ← read (ofs_sz + i * 0x10) regs
  rest ← update_channel_addresses (i + 1) regs channels
  ok (
      record c {
        source_address = source;
        destination_address = destination;
        size = size;
        t_size = if c.enable then c.t_size else size;
      }
      ∷ rest)

-- What `b_transport` does to the registers after the access.
unfoldable pub after_access : ℕ → Dma → Result (Dma × Bool)
after_access addr d =
    if addr == ofs_iv
    then (write ofs_iv 0 true d.regs >>= λ regs.
        ok (record d { regs = regs; clear_ifg = true }, true))
    else if leb 0x12 addr && leb addr 0x6a
    then (update_channel_addresses 0 d.regs d.channels >>= λ channels.
        ok (record d { channels = channels }, false))
    else ok (d, false)

-- `b_transport`, for a controller at `start_address`: with the channel whose software trigger is
-- notified, and whether `m_updateIrqEvent` is.
unfoldable pub b_transport : ℕ → ℕ → Dma → Payload → Result (Dma × Payload × Option ℕ × Bool)
unfolding is_write on_write after_access
b_transport junk start_address d trans = do
  (target, done) ←
      BusTarget.b_transport 2 junk
        (record {
          start_address = start_address;
          end_address = start_address + 0x6f;
          regs = d.regs;
        })
        trans
  let d' = record d { regs = target.regs }
  v ← read trans.address d'.regs
  (d'', triggered) ← (if is_write trans.command then on_write trans.address v d' else ok (d', none))
  (d₃, updated) ← after_access trans.address d''
  ok (d₃, done, triggered, updated)

-- The first channel with a transfer pending, from channel i on.
unfoldable pub find_pending : ℕ → List DmaChannel → Option ℕ
find_pending i [] = none
find_pending i (c ∷ channels) = if c.pending then some i else find_pending (i + 1) channels

-- An int as an address of 64 bits.
unfoldable pub address_of : ℕ → ℕ
address_of a = if ltb a (2 ^ 31) then a else a + (2 ^ 64 - 2 ^ 32)

module _ {S : Type 0} ⦃port : BusPort S⦄ where
  -- One transfer: a read, a write, and the channel's reaction.
  unfoldable pub transfer : ℕ → ℕ → DmaChannel → Dma → S → Result (Dma × S)
  unfolding address_of
  transfer len channel c d s = do
    (bytes, s') ← port.b_read s (address_of c.t_source_address) len
    s'' ← port.b_write s' (address_of c.t_destination_address) bytes
    let c' = on_accept 2 c
    regs ← write (ofs_sz + channel * 0x10) c'.size false d.regs
    ok (record d { regs = regs; channels = set d.channels channel c' }, s'')

  -- `while (ch.pending.read())`. The list tells for each round whether a pause of the channel has
  -- ended before its test; `none` is a loop that goes on after as many rounds.
  unfoldable pub transfer_loop : List Bool → ℕ → ℕ → Dma → S → Result (Option (Dma × S))
  transfer_loop [] len channel d s = ok none
  transfer_loop (resumes ∷ rounds) len channel d s = do
    c₀ ← or_fault (get_elem? d.channels channel) fatal
    let c = if resumes then on_timeout c₀ else c₀
    let d' = record d { channels = set d.channels channel c }
    let more = transfer len channel c d' s >>= λ (d'', s'). transfer_loop rounds len channel d'' s'
    if c.pending then more else ok (some (d', s))

  -- What follows the transfers of a channel; the last result tells that `m_updateIrqEvent` is
  -- notified.
  unfoldable pub finish : ℕ → Dma → S → Result (Dma × S × Bool)
  finish channel d s = do
    c ← or_fault (get_elem? d.channels channel) fatal
    regs ←
        (if c.enable
          then ok d.regs
          else clear_bit_mask (ofs_ctl + channel * 0x10) 0x10 false d.regs)
    ok (record d { regs = regs; stall_cpu = false }, s, c.interrupt_flag && c.interrupt_enable)

  -- A pending channel is served.
  unfoldable pub serve : List Bool → ℕ → Dma → S → Result (Option (Dma × S × Bool))
  serve rounds channel d s = do
    c ← or_fault (get_elem? d.channels channel) fatal
    let len = unit_length 2 c.source_bytes
    regs ← clear_bit_mask (ofs_ctl + channel * 0x10) 1 false d.regs
    done ← transfer_loop rounds len channel (record d { regs = regs; stall_cpu = true }) s
    elim done [
      | none ↦ ok none
      | some (d', s') ↦ finish channel d' s' >>= λ result. ok (some result)
    ]

  -- `process`, between two waits for a pending channel.
  unfoldable pub process : List Bool → Dma → S → Result (Option (Dma × S × Bool))
  process rounds d s = elim (find_pending 0 d.channels) [
    | none ↦ ok (some (d, s, false))
    | some channel ↦ serve rounds channel d s
  ]

-- The flags of the channels, from channel i on, in their control registers.
unfoldable pub write_flags : ℕ → List DmaChannel → RegisterFile → Result RegisterFile
write_flags i [] regs = ok regs
write_flags i (c ∷ channels) regs = do
  regs' ←
      (if c.interrupt_flag
        then set_bit_mask (ofs_ctl + i * 0x10) 0x8 false regs
        else clear_bit_mask (ofs_ctl + i * 0x10) 0x8 false regs)
  write_flags (i + 1) channels regs'

-- The first channel with its interrupt flag set, from channel i on.
unfoldable pub find_flagged : ℕ → List DmaChannel → Option ℕ
find_flagged i [] = none
find_flagged i (c ∷ channels) = if c.interrupt_flag then some i else find_flagged (i + 1) channels

-- The vector and the request.
unfoldable pub set_vector : Option ℕ → Dma → Result Dma
set_vector none d =
    write ofs_iv 0 true d.regs >>= λ regs. ok (record d { regs = regs; irq = false })
set_vector (some channel) d = do
  regs ← write ofs_iv (2 ^ (channel + 1)) true d.regs
  c ← or_fault (get_elem? d.channels channel) fatal
  ok (record d { regs = regs; irq = if c.interrupt_enable then true else d.irq })

-- The flag of a channel is cleared.
unfoldable pub clear_flag : ℕ → Dma → Result Dma
clear_flag channel d = do
  c ← or_fault (get_elem? d.channels channel) fatal
  ok (record d { channels = set d.channels channel (record c { interrupt_flag = false }) })

unfoldable pub update_vector : Option ℕ → Dma → Result (Dma × Bool)
unfolding set_vector clear_flag
update_vector none d = set_vector none (record d { clear_ifg = false }) >>= λ d'. ok (d', false)
update_vector (some channel) d =
    if d.clear_ifg
    then (clear_flag channel d >>= λ d'. ok (d', true))
    else set_vector (some channel) d >>= λ d'. ok (d', false)

-- `interruptUpdate`; the second result tells that it notifies itself again.
unfoldable pub interrupt_update : Dma → Result (Dma × Bool)
unfolding write_flags find_flagged update_vector
interrupt_update d = do
  regs ← write_flags 0 d.channels d.regs
  update_vector (find_flagged 0 d.channels) (record d { regs = regs })
