-- ===== src/SpiDevice.antt =====
-- sd/SpiDevice.hpp and SpiDevice.cpp, sd/SpiLoopBack.cpp and mcu/SpiTransactionExtension.hpp: the
-- transactions of an SPI bus and the devices that answer them. The clock period, polarity, phase and
-- bit order of a transaction, which no device reads, are left out, as are events.
use fused_checkmate.Base.{
  ℕ, ◌-◌, ◌+◌, ◌^◌, ◌%◌, bit_and, Bool, true, false, ◌&&◌, List, get_or, if◌then◌else◌,
}
use fused_checkmate.Gpio.{Logic}
use fused_checkmate.Gpio.Logic.{low, high}

-- A write transaction: its bytes, the extension's number of data bits and response, and whether the
-- response status is TLM_OK_RESPONSE.
pub record Transaction : Type 0 where
  pub bytes : List ℕ
  pub n_data_bits : ℕ
  pub response : ℕ
  pub is_response_ok : Bool

-- `ChipSelectPolarity`
pub data ChipSelectPolarity : Type 0 where
  active_high active_low : ChipSelectPolarity

-- The signals and the shift registers of a device.
pub record SpiDevice : Type 0 where
  pub chip_select : Logic
  pub n_reset : Bool
  pub polarity : ChipSelectPolarity
  pub slave_in : ℕ
  pub slave_out : ℕ

selects : Logic → ChipSelectPolarity → Bool
selects high active_high = true
selects low active_low = true
selects _ _ = false

-- `enabled`
unfoldable pub enabled : SpiDevice → Bool
unfolding selects
enabled d = selects d.chip_select d.polarity

-- `SpiDevice::b_transport`
unfoldable pub b_transport : SpiDevice → Transaction → SpiDevice × Transaction
unfolding enabled
b_transport d t =
    if enabled d && d.n_reset
    then (
      record d { slave_in = get_or t.bytes 0 0 },
      record t { response = d.slave_out; is_response_ok = true },
    )
    else (d, t)

-- `SpiLoopBack::b_transport`
unfoldable pub loop_back : SpiDevice → Transaction → SpiDevice × Transaction
unfolding enabled
loop_back d t =
    if enabled d && d.n_reset
    then (d, record t { response = get_or t.bytes 0 0; is_response_ok = true })
    else (d, t)

-- `reset`, of both.
unfoldable pub reset : SpiDevice → SpiDevice
reset d = record d { slave_in = 0; slave_out = 0 }

-- `maskData`; the mask has a bit more than there are data bits.
unfoldable pub mask_data : ℕ → Transaction → ℕ
mask_data word t = bit_and word ((2 ^ (t.n_data_bits + 1) + 2 ^ 32 - 1) % 2 ^ 32)
