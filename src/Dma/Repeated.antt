-- ===== src/Dma/Repeated.antt =====
-- The repeated block mode.
use fused_checkmate.Base.{ℕ, zero, suc, ◌≡◌, ◌≢◌, Bool, true, arith}
use fused_checkmate.Dma.Channel.{
  DmaChannel, on_trigger, on_accept, trigger_at, accept_at, start, start_block, next_of_block, load,
  accept_mode, update_addresses,
}
use fused_checkmate.Dma.Channel.Phase.{idle, accepting}
use fused_checkmate.Dma.Channel.TransferMode.{repeated_block}

-- So many transfers, each accepted.
unfoldable pub accepts : ℕ → ℕ → DmaChannel → DmaChannel
accepts words zero c = c
accepts words (suc n) c = accepts words n (on_accept words c)

-- A channel within a repeated block.
record Within (size : ℕ) (flag : Bool) (c : DmaChannel) : Type 0 where
  pub waits : c.phase ≡ accepting repeated_block
  pub enabled : c.enable ≡ true
  pub requested : c.pending ≡ true
  pub sized : c.size ≡ size
  pub flagged : c.interrupt_flag ≡ flag

accept-Within :
    (words size : ℕ) (flag : Bool) (c : DmaChannel)
    → size ≢ 0
    → Within size flag c
    → Within size flag (on_accept words c)
unfolding on_accept accept_at accept_mode next_of_block update_addresses
accept-Within words size flag c ne at = ground (arith, at.waits, at.enabled, at.sized)

accepts-Within :
    (n words size : ℕ) (flag : Bool) (c : DmaChannel)
    → size ≢ 0
    → Within size flag c
    → Within size flag (accepts words n c)
unfolding accepts
accepts-Within zero words size flag c ne at = at
accepts-Within (suc n) words size flag c ne at =
    accepts-Within n words size flag (on_accept words c) ne (accept-Within words size flag c ne at)

trigger-Within :
    (c : DmaChannel)
    → c.phase ≡ idle
    → c.enable ≡ true
    → c.transfer_mode ≡ repeated_block
    → c.t_size ≢ 0
    → Within c.t_size c.interrupt_flag (on_trigger c)
unfolding on_trigger trigger_at start start_block next_of_block load
trigger-Within c waits enabled mode some_units = ground arith

-- A repeated block never ends while the channel is enabled: a channel that waits for the trigger of
-- a repeated block of some units, once triggered, is still pending after any number of accepted
-- transfers, with the whole size left and its flag as it was.
pub repeated_block_lem :
    (n words : ℕ) (c : DmaChannel)
    → c.phase ≡ idle
    → c.enable ≡ true
    → c.transfer_mode ≡ repeated_block
    → c.t_size ≢ 0
    → ((accepts words n (on_trigger c)).pending ≡ true)
      × ((accepts words n (on_trigger c)).size ≡ c.t_size)
      × ((accepts words n (on_trigger c)).interrupt_flag ≡ c.interrupt_flag)
repeated_block_lem n words c waits enabled mode some_units =
    let at =
      accepts-Within n words c.t_size c.interrupt_flag (on_trigger c) some_units
        (trigger-Within c waits enabled mode some_units) in
    (at.requested, at.sized, at.flagged)
