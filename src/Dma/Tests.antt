-- ===== src/Dma/Tests.antt =====
-- Transfers between the two small memories, and updates of the request.
use fused_checkmate.Base.{
  ℕ, zero, suc, ◌+◌, ◌^◌, ◌≡◌, ◌⊎◌, refl, inl, arith, true, false, ◌||◌, some, List, [], ◌∷◌, map,
  get_elem?, replicate, ok,
}
use fused_checkmate.RegisterFile.{RegisterFile, add_register, find, find_if, read}
use fused_checkmate.RegisterFile.AccessMode.{read_write}
use fused_checkmate.RegisterFile.Plain.{IsPlain}
use fused_checkmate.Bus.Memories.{System, cell_of, is_covered, in_entry}
use fused_checkmate.Bus.Memories.Contract.{IsSystem}
use fused_checkmate.Bus.Memories.Sample.{
  sample_table, sample_system, sample_port, sample_memory, sample-IsSystem,
}
use fused_checkmate.Dma.{Dma, create_regs, process, find_pending, ofs_iv, interrupt_update}
use fused_checkmate.Dma.Channel.{DmaChannel, on_trigger, unit_length}
use fused_checkmate.Dma.Channel.Bytes.{word}
use fused_checkmate.Dma.Channel.Phase.{idle}
use fused_checkmate.Dma.Channel.TransferMode.{block, repeated_block}
use fused_checkmate.Dma.Channel.AutoIncrementMode.{increment}
use fused_checkmate.Dma.Copy.{copied}
use fused_checkmate.Dma.Running.{finished}
use fused_checkmate.Dma.Rounds.{Served}
use fused_checkmate.Dma.Block.{HasRegisters, process_block}
use fused_checkmate.Dma.Request.{First, HasControls, unflag, count_flags}
use fused_checkmate.Dma.Vector.{interrupt_update_lem, settle, settle_lem}
use fused_checkmate.Dma.Repeated.{accepts, repeated_block_lem}

-- Two words from the start of the first memory to its middle.
abbrev some_channel : DmaChannel
some_channel = record {
  pending = false;
  interrupt_flag = false;
  size = 2;
  destination_address = 0x2400;
  source_address = 0x23f0;
  destination_auto_increment = increment;
  source_auto_increment = increment;
  destination_bytes = word;
  source_bytes = word;
  enable = true;
  level_sensitive = false;
  interrupt_enable = true;
  abort = false;
  transfer_mode = block;
  t_size = 2;
  t_source_address = 0;
  t_destination_address = 0;
  phase = idle;
}

abbrev some_dma : List DmaChannel → Dma
some_dma channels = record {
  regs = create_regs;
  channels = channels;
  clear_ifg = false;
  irq = false;
  stall_cpu = false;
  trigger_select = replicate 6 0;
}

abbrev triggered : Dma
triggered = some_dma (on_trigger some_channel ∷ [])

IsPlain-at :
    (a v : ℕ)
    → find a create_regs
      ≡ ok (record {
        addr = a;
        val = v;
        reset_value = v;
        write_mask = 0xffffffff;
        access = read_write;
      })
    → IsPlain a create_regs
IsPlain-at a v e = record { at = _; found = e; both = refl }

has_registers : HasRegisters 0 create_regs
unfolding create_regs add_register find find_if
has_registers = record {
  control = IsPlain-at 0x10 0 refl;
  size_there = IsPlain-at 0x1a 0xaaaa refl;
}

served : Served ⦃port = sample_port⦄ sample_memory 2 2 0x23f0 0x2400
unfolding is_covered in_entry
served zero h = (refl, refl)
served (suc zero) h = (refl, refl)
served (suc (suc i)) h = absurd (omega (arith, h))

block_example :
    (regs : RegisterFile) × (s' : System) × (process ⦃port = sample_port⦄
        (false ∷ false ∷ false ∷ [])
        triggered
        sample_system
      ≡ ok (
          some (
            record triggered {
              regs = regs;
              channels = finished some_channel 0x23f4 0x2404 ∷ [];
              stall_cpu = false;
            },
            s',
            true,
          )))
    × IsSystem sample_table s'
    × ((x : ℕ)
        → cell_of sample_table s'.1 x
          ≡ copied (cell_of sample_table sample_system.1) 0x23f0 0x2400 4 x)
unfolding find_pending on_trigger unit_length
block_example =
    process_block ⦃port = sample_port⦄ sample_memory some_channel 2 1 0 (false ∷ false ∷ false ∷ [])
      triggered sample_system
      (record {
        waits = refl;
        enabled = refl;
        mode = refl;
        sources = refl;
        destinations = refl;
        source_units = refl;
        destination_units = refl;
        sized = refl;
      })
      refl refl (omega arith) (omega arith) (omega arith) (omega arith) (omega arith)
      (inl (omega arith)) served has_registers sample-IsSystem

repeated_example :
    let c = record some_channel { transfer_mode = repeated_block } in
    ((accepts 2 5 (on_trigger c)).pending ≡ true)
    × ((accepts 2 5 (on_trigger c)).size ≡ 2)
    × ((accepts 2 5 (on_trigger c)).interrupt_flag ≡ false)
repeated_example =
    repeated_block_lem 5 2 (record some_channel { transfer_mode = repeated_block }) refl refl refl
      (λ h. absurd (omega (arith, h)))

-- Channel 0 is quiet, and channel 1 has its flag set.
abbrev flagged : List DmaChannel
flagged = some_channel ∷ record some_channel { interrupt_flag = true } ∷ []

has_controls : HasControls 0 flagged create_regs
unfolding create_regs add_register find find_if
has_controls = (IsPlain-at 0x10 0 refl, (IsPlain-at 0x20 0 refl, IsPlain-at 0xe 0 refl))

vector_example :
    (d' : Dma) × (interrupt_update (some_dma flagged) ≡ ok (d', false))
    × (d'.channels ≡ flagged)
    × (((j : ℕ) (c : DmaChannel) → get_elem? flagged j ≡ some c → c.interrupt_flag ≡ false)
          × (read ofs_iv d'.regs ≡ ok 0)
          × (d'.irq ≡ false)
        ⊎ (j : ℕ) × (first : First flagged j) × (read ofs_iv d'.regs ≡ ok (2 ^ (j + 1)))
          × (d'.irq ≡ (first.channel.interrupt_enable || false)))
vector_example = interrupt_update_lem (some_dma flagged) refl has_controls

settle_example :
    (regs : RegisterFile) × (settle 2 (record (some_dma flagged) { clear_ifg = true })
      ≡ ok (
        record (some_dma flagged) {
          regs = regs;
          channels = map unflag flagged;
          clear_ifg = false;
          irq = false;
        },
        false,
      ))
    × (read ofs_iv regs ≡ ok 0)
unfolding count_flags
settle_example =
    settle_lem 2 (record (some_dma flagged) { clear_ifg = true }) refl (omega arith) has_controls
