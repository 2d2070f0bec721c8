-- ===== src/Dma/Block.antt =====
-- A block transfer, from its trigger to the end of its service.
use fused_checkmate.Base.{
  get_elem?-set_self, ℕ, suc, ◌+◌, ◌*◌, ◌^◌, ◌≤◌, ◌<◌, ◌≡◌, refl, ◌∙◌, ap, arith, Bool, true, false,
  some, List, length, get_elem?, set, ok,
}
use fused_checkmate.BusTarget.{BusPort}
use fused_checkmate.BusTarget.Contract.{IsMemory}
use fused_checkmate.RegisterFile.{RegisterFile, clear_bit_mask}
use fused_checkmate.RegisterFile.Plain.{IsPlain, clear_plain}
use fused_checkmate.Dma.{Dma, ofs_ctl, ofs_sz, finish, serve}
use fused_checkmate.Dma.Channel.{
  DmaChannel, unit_length, on_trigger, start, start_block, load, next_of_block, trigger_at,
}
use fused_checkmate.Dma.Channel.AutoIncrementMode.{increment}
use fused_checkmate.Dma.Channel.TransferMode.{block}
use fused_checkmate.Dma.Channel.Phase.{idle}
use fused_checkmate.Dma.Copy.{copied, Apart}
use fused_checkmate.Dma.{process, find_pending}
use fused_checkmate.Dma.Running.{running, finished}
use fused_checkmate.Dma.Rounds.{Served, Copied, loop_lem}

-- A channel that waits for the trigger of a block of n units of `len` bytes, with both addresses
-- counting up.
pub record AtBlock (c : DmaChannel) (len n : ℕ) : Type 0 where
  pub waits : c.phase ≡ idle
  pub enabled : c.enable ≡ true
  pub mode : c.transfer_mode ≡ block
  pub sources : c.source_auto_increment ≡ increment
  pub destinations : c.destination_auto_increment ≡ increment
  pub source_units : unit_length 2 c.source_bytes ≡ len
  pub destination_units : unit_length 2 c.destination_bytes ≡ len
  pub sized : c.t_size ≡ n

-- The registers of a channel in use are there.
pub record HasRegisters (channel : ℕ) (regs : RegisterFile) : Type 0 where
  pub control : IsPlain (ofs_ctl + channel * 0x10) regs
  pub size_there : IsPlain (ofs_sz + channel * 0x10) regs

start_lem :
    (c : DmaChannel) (len n : ℕ)
    → AtBlock c len (suc n)
    → on_trigger c ≡ running c (suc n) c.source_address c.destination_address
unfolding on_trigger trigger_at start start_block next_of_block load
start_lem c len n at =
    let waits = at.waits in
    let enabled = at.enabled in
    let mode = at.mode in
    let sized = at.sized in
    let sources = at.sources in let destinations = at.destinations in ground arith

module _ {S : Type 0} ⦃port : BusPort S⦄ (mem : IsMemory port) where
  open mem use {IsState, cell}

  process-serve :
      (rounds : List Bool) (channel : ℕ) (d : Dma) (s : S)
      → find_pending 0 d.channels ≡ some channel
      → process rounds d s ≡ serve rounds channel d s
  unfolding process
  process-serve rounds channel d s first = rw (first, process) refl

  serve_lem :
      (c : DmaChannel) (len n a b channel : ℕ) (rounds : List Bool) (d : Dma) (s : S)
      {regs : RegisterFile}
      → unit_length 2 c.source_bytes ≡ len
      → get_elem? d.channels channel ≡ some (running c n a b)
      → clear_bit_mask (ofs_ctl + channel * 0x10) 1 false d.regs ≡ ok regs
      → (done : Copied mem len channel n a b c rounds
          (record d { regs = regs; stall_cpu = true })
          s)
      → (next : RegisterFile)
      → clear_bit_mask (ofs_ctl + channel * 0x10) 0x10 false done.regs ≡ ok next
      → serve rounds channel d s
        ≡ ok (
            some (
              record d {
                regs = next;
                channels = set d.channels channel (finished c (a + n * len) (b + n * len));
                stall_cpu = false;
              },
              done.state,
              c.interrupt_enable,
            ))
  unfolding serve finish
  serve_lem c len n a b channel rounds d s units at cleared done next disabled =
      let there =
        get_elem?-set_self d.channels channel (finished c (a + n * len) (b + n * len))
          (running c n a b) at in
      let runs = done.runs in rw (at, units, cleared, runs, there, disabled) refl

  -- A channel that waits for the trigger of a block of n units, with both addresses counting up, is
  -- triggered, and is the first one pending. Then `process` succeeds, whenever pauses end, if it
  -- may make more than n rounds, memory serves each unit at both ends, below 2 ^ 31, the two
  -- stretches do not overlap, and the channel's registers are there. It leaves the memory with the
  -- n units at the destination, and all other bytes as they were, the channel disabled and no
  -- longer pending, with its flag set and its size as before, the other channels as they were, and
  -- the CPU not stalled; and it asks for an update of the request if the channel's interrupt is
  -- enabled.
  pub process_block :
      (c : DmaChannel) (len n channel : ℕ) (rounds : List Bool) (d : Dma) (s : S)
      → AtBlock c len (suc n)
      → get_elem? d.channels channel ≡ some (on_trigger c)
      → find_pending 0 d.channels ≡ some channel
      → suc n < length rounds
      → suc n < 2 ^ 31
      → 0 < len
      → c.source_address + suc n * len ≤ 2 ^ 31
      → c.destination_address + suc n * len ≤ 2 ^ 31
      → Apart c.source_address c.destination_address (suc n * len)
      → Served mem len (suc n) c.source_address c.destination_address
      → HasRegisters channel d.regs
      → IsState s
      → (regs : RegisterFile) × (s' : S) × (process rounds d s
          ≡ ok (
              some (
                record d {
                  regs = regs;
                  channels = set d.channels channel (
                      finished c
                        (c.source_address + suc n * len)
                        (c.destination_address + suc n * len));
                  stall_cpu = false;
                },
                s',
                c.interrupt_enable,
              )))
        × IsState s'
        × ((x : ℕ)
            → cell s' x ≡ copied (cell s) c.source_address c.destination_address (suc n * len) x)
  process_block c len n channel rounds d s at here first long small pos fits-a fits-b apart served
        has good =
      let a = c.source_address in
      let b = c.destination_address in
      let here' : get_elem? d.channels channel ≡ some (running c (suc n) a b) =
        here ∙ ap some (start_lem c len n at) in
      let (regs, cleared, keeps) =
        clear_plain (ofs_ctl + channel * 0x10) 1 false d.regs has.control in
      let done =
        loop_lem mem c len channel at.source_units at.destination_units rounds n a b
          (record d { regs = regs; stall_cpu = true }) s long small pos fits-a fits-b apart served
          here' (keeps _ has.size_there) good in
      let (next, disabled, kept) =
        clear_plain (ofs_ctl + channel * 0x10) 0x10 false done.regs
          (done.keeps _ (keeps _ has.control)) in
      (
        next,
        done.state,
        process-serve rounds channel d s first
            ∙ serve_lem c len (suc n) a b channel rounds d s at.source_units here' cleared done next
                disabled,
        done.good,
        done.bytes,
      )
