-- ===== src/Spi/Tests.antt =====
-- FIFO runs, an exchange with one of two devices, and a loop-back.
use fused_checkmate.Base.{
  ℕ, zero, suc, ◌≡◌, ◌≢◌, refl, arith, true, false, some, List, [], ◌∷◌, get_elem?, ok, subst,
}
use fused_checkmate.RegisterFile.{add_register, find, find_if, read}
use fused_checkmate.RegisterFile.AccessMode.{read_write}
use fused_checkmate.RegisterFile.Plain.{IsPlain}
use fused_checkmate.Gpio.Logic.{low, high}
use fused_checkmate.SpiDevice.{SpiDevice, Transaction, enabled, loop_back}
use fused_checkmate.SpiDevice.ChipSelectPolarity.{active_low}
use fused_checkmate.Spi.{Spi, create_regs, process, ofs_sr, ofs_cr2}
use fused_checkmate.Spi.Fifo
use fused_checkmate.Spi.Fifo.Queue.{Holds}
use fused_checkmate.Spi.Fifo.Run.{Operation, run, run_queue, run-queue}
use fused_checkmate.Spi.Fifo.Run.Operation.{puts, gets}
use fused_checkmate.Spi.Fifo.Steps.{low_bytes}
use fused_checkmate.Spi.Targets.{devices, OnlyAnswer, answers}
use fused_checkmate.Spi.Exchange.{process_exchanges}

empty : Holds Fifo.create []
unfolding Fifo.create
empty = record { counted = refl; few = omega arith; bytes = tt; packed = refl }

-- Two bytes, a pair, a byte that does not fit, and all of it back.
abbrev some_operations : List Operation
some_operations =
    puts 8 0x11 ∷ puts 8 0x22 ∷ puts 16 0x4433 ∷ puts 8 0x55 ∷ gets 8 ∷ gets 16 ∷ gets 8 ∷ []

fifo_example :
    (f' : Fifo.Fifo) × (run some_operations Fifo.create ≡ ok (0x11 ∷ 0x3322 ∷ 0x44 ∷ [], f'))
    × Holds f' []
unfolding run_queue low_bytes
fifo_example = run-queue some_operations Fifo.create [] (0x11 ∷ 0x3322 ∷ 0x44 ∷ []) [] empty refl

abbrev off : SpiDevice
off = record {
  chip_select = high;
  n_reset = true;
  polarity = active_low;
  slave_in = 0;
  slave_out = 0x77;
}

abbrev on : SpiDevice
on = record off { chip_select = low; slave_out = 0xa5 }

abbrev one_byte : Fifo.Fifo
one_byte = record { n_valid_bytes = 1; word = 0x3c }

abbrev some_spi : Spi
some_spi = record {
  regs = create_regs;
  enable = true;
  set_irq = false;
  irq = false;
  tx_fifo = one_byte;
  rx_fifo = record { n_valid_bytes = 0; word = 0 };
  response = 0;
}

has_one : Holds one_byte (0x3c ∷ [])
has_one = record { counted = refl; few = omega arith; bytes = (omega arith, tt); packed = refl }

has_none : Holds some_spi.rx_fifo []
has_none = record { counted = refl; few = omega arith; bytes = tt; packed = refl }

only_on : OnlyAnswer (off ∷ on ∷ []) 1 on
unfolding enabled
only_on = record { there = refl; answering = refl; others = quiet }
  where
    quiet :
        (j : ℕ) (e : SpiDevice) → get_elem? (off ∷ on ∷ []) j ≡ some e → j ≢ 1 → answers e ≡ false
    quiet zero e at ne = let same : off ≡ e = cc at in subst (λ x. answers x ≡ false) same refl
    quiet (suc zero) e at ne = absurd (ne refl)
    quiet (suc (suc j)) e at ne = cc

status_there : IsPlain ofs_sr create_regs
unfolding create_regs add_register find find_if
status_there = record {
  at = record {
    addr = 0x8;
    val = 0x0002;
    reset_value = 0x0002;
    write_mask = 0xffffffff;
    access = read_write;
  };
  found = refl;
  both = refl;
}

mode_known : read ofs_cr2 create_regs ≡ ok 0x0700
unfolding create_regs add_register read find find_if
mode_known = refl

exchange_example :
    (s' : Spi) × (process ⦃port = devices 2⦄ true some_spi (off ∷ on ∷ [])
      ≡ ok (s', off ∷ record on { slave_in = 0x3c } ∷ []))
    × Holds s'.tx_fifo []
    × Holds s'.rx_fifo (0xa5 ∷ [])
exchange_example =
    process_exchanges 2 1 0x3c [] [] some_spi (off ∷ on ∷ []) on 0x0700 refl mode_known refl
      status_there has_one has_none (omega arith) (omega arith) only_on

-- A loop-back answers with what it is sent.
looped : Transaction
looped =
    (loop_back on
      (record { bytes = 0x3c ∷ []; n_data_bits = 8; response = 0; is_response_ok = false })).1

echoed : looped.response ≡ 0x3c
unfolding looped loop_back
echoed = refl
