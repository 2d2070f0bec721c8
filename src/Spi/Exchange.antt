-- ===== src/Spi/Exchange.antt =====
-- One round of `process` with byte-wide transactions.
use fused_checkmate.Base.{
  ℕ, suc, ◌+◌, ◌*◌, ◌/◌, ◌%◌, ◌^◌, ◌≤◌, ◌<◌, ◌≡◌, refl, sym, subst, ◌||◌, ◌∙◌, arith, bit_and, Bool,
  true, false, ◌&&◌, leb, ltb, if◌then◌else◌, List, [], ◌∷◌, ◌++◌, length, set, ok,
}
use fused_checkmate.Utilities.{unpack_bytes}
use fused_checkmate.RegisterFile.{RegisterFile, read}
use fused_checkmate.RegisterFile.Plain.{IsPlain, write_plain, read_plain, read-write_ne}
use fused_checkmate.SpiDevice.{SpiDevice, Transaction}
use fused_checkmate.Spi.{
  Spi, ofs_cr2, ofs_sr, update_status_register, status, n_bits, n_bytes, ready_to_transmit,
  update_irq, exchange, process, call_targets,
}
use fused_checkmate.Spi.Fifo.{at_most, get, put}
use fused_checkmate.Spi.Fifo
use fused_checkmate.Spi.Fifo.Queue.{Holds}
use fused_checkmate.Spi.Fifo.Steps.{get_lem, put_lem, low_bytes}
use fused_checkmate.Spi.Targets.{devices, OnlyAnswer, call_targets_lem}

update_lem :
    (is_busy : Bool) (s : Spi) (cr2 : ℕ)
    → read ofs_cr2 s.regs ≡ ok cr2
    → IsPlain ofs_sr s.regs
    → (regs : RegisterFile) × (update_status_register is_busy s ≡ ok (record s { regs = regs }))
      × IsPlain ofs_sr regs
      × (read ofs_cr2 regs ≡ ok cr2)
unfolding update_status_register
update_lem is_busy s cr2 known plain =
    let (regs, done, keeps) = write_plain ofs_sr (status is_busy cr2 s) false s.regs plain in
    (
      regs,
      rw (known, done) refl,
      keeps _ plain,
      read-write_ne ofs_sr (status is_busy cr2 s) false ofs_cr2 s.regs regs done
            (λ e. absurd (omega (arith, e)))
          ∙ known,
    )

one_byte : (b : ℕ) → b < 256 → unpack_bytes (b + 256 * 0) 1 ≡ ok (b ∷ [])
unfolding unpack_bytes
one_byte b small = let e : (b + 256 * 0) % 2 ^ 8 ≡ b = omega (arith, small) in rw e refl

n_bits_lem : (cr2 : ℕ) → bit_and cr2 0xf00 / 2 ^ 8 ≡ 7 → n_bits cr2 ≡ 8
unfolding n_bits
n_bits_lem cr2 wide = rw wide refl

ready_lem :
    (b : ℕ) (bs : List ℕ) (s : Spi) (cr2 : ℕ)
    → s.enable ≡ true
    → read ofs_cr2 s.regs ≡ ok cr2
    → n_bits cr2 ≡ 8
    → Holds s.tx_fifo (b ∷ bs)
    → ready_to_transmit true s ≡ ok true
unfolding ready_to_transmit n_bytes at_most
ready_lem b bs s cr2 on known wide tx =
    let counted = tx.counted in
    let few = tx.few in
    let enough : leb ((1 + 2 ^ 31) % 2 ^ 32) ((suc (length bs) + 2 ^ 31) % 2 ^ 32) ≡ true =
      ground arith in
    rw (known, on, wide, counted, enough) refl

-- The interrupt condition leaves the FIFOs alone.
irq_lem :
    (cr2 : ℕ) (s : Spi)
    → IsPlain ofs_sr s.regs
    → (s' : Spi) × (update_irq cr2 s ≡ ok s') × (s'.tx_fifo ≡ s.tx_fifo) × (s'.rx_fifo ≡ s.rx_fifo)
unfolding update_irq
irq_lem cr2 s plain =
    let (sr, known) = read_plain ofs_sr s.regs plain in
    let rx_irq = ltb 0 (bit_and cr2 0x40) && ltb 0 (bit_and sr 1) in
    let tx_irq = ltb 0 (bit_and cr2 0x80) && ltb 0 (bit_and sr 2) in
    (record s { set_irq = if rx_irq || tx_irq then true else s.set_irq }, rw known refl, refl, refl)

module _ (n : ℕ) (s : Spi) (ds : List SpiDevice) {ds' : List SpiDevice} {s₃ : Spi}
    {regs₁ regs₂ : RegisterFile} {cr2 b v responses : ℕ} {tx rx : Fifo.Fifo} {t : Transaction} where
  exchange_lem :
      update_status_register true s ≡ ok (record s { regs = regs₁ })
      → read ofs_cr2 regs₁ ≡ ok cr2
      → n_bits cr2 ≡ 8
      → get 8 s.tx_fifo ≡ ok (v, tx)
      → unpack_bytes v 1 ≡ ok (b ∷ [])
      → call_targets ⦃port = devices n⦄ n 0 0 ds (record {
        bytes = b ∷ [];
        n_data_bits = 8;
        response = s.response;
        is_response_ok = false;
      })
        ≡ ok (ds', t, responses)
      → put 8 t.response s.rx_fifo ≡ ok (rx, false)
      → update_status_register false
          (record s { regs = regs₁; tx_fifo = tx; rx_fifo = rx; response = t.response })
        ≡ ok (record s { regs = regs₂; tx_fifo = tx; rx_fifo = rx; response = t.response })
      → update_irq cr2
          (record s { regs = regs₂; tx_fifo = tx; rx_fifo = rx; response = t.response })
        ≡ ok s₃
      → exchange ⦃port = devices n⦄ s ds ≡ ok (s₃, ds')
  unfolding exchange n_bytes
  exchange_lem busy known wide got sent called stored idle raised =
      rw (busy, known, wide, got, sent, called, stored, idle, raised) refl

ready_process :
    (n : ℕ) (s : Spi) (ds : List SpiDevice)
    → ready_to_transmit true s ≡ ok true
    → process ⦃port = devices n⦄ true s ds ≡ exchange ⦃port = devices n⦄ s ds
unfolding process
ready_process n s ds ready = rw (ready, process) refl

-- In eight-bit mode, with the master powered and enabled, a byte b first in the transmit FIFO, room
-- in the receive FIFO, the control and status registers there, and exactly one of the targets
-- answering, a round of `process` succeeds and exchanges two bytes: that device has b in its input
-- register, the low byte of its output register stands last in the receive FIFO, b has left the
-- transmit FIFO, and the other devices are as they were.
pub process_exchanges :
    (n k b : ℕ) (bs rs : List ℕ) (s : Spi) (ds : List SpiDevice) (d : SpiDevice) (cr2 : ℕ)
    → s.enable ≡ true
    → read ofs_cr2 s.regs ≡ ok cr2
    → bit_and cr2 0xf00 / 2 ^ 8 ≡ 7
    → IsPlain ofs_sr s.regs
    → Holds s.tx_fifo (b ∷ bs)
    → Holds s.rx_fifo rs
    → length rs ≤ 3
    → k < n
    → OnlyAnswer ds k d
    → (s' : Spi) × (process ⦃port = devices n⦄ true s ds
        ≡ ok (s', set ds k (record d { slave_in = b })))
      × Holds s'.tx_fifo bs
      × Holds s'.rx_fifo (rs ++ d.slave_out % 256 ∷ [])
unfolding low_bytes
process_exchanges n k b bs rs s ds d cr2 on known wide plain tx rx room small only =
    let bits = n_bits_lem cr2 wide in
    let (regs₁, busy, plain₁, known₁) = update_lem true s cr2 known plain in
    let (tx', got, tx_rest) = get_lem 8 s.tx_fifo (b ∷ bs) tx refl (ground arith) in
    let (rx', stored, rx_all) = put_lem 8 d.slave_out s.rx_fifo rs rx refl (ground (arith, room)) in
    let called =
      call_targets_lem k n n 0 k ds
        (record { bytes = b ∷ []; n_data_bits = 8; response = s.response; is_response_ok = false })
        d (omega arith) small only in
    let (regs₂, idle, plain₂, known₂) =
      update_lem false
        (record s { regs = regs₁; tx_fifo = tx'; rx_fifo = rx'; response = d.slave_out }) cr2 known₁
        plain₁ in
    let (s₃, raised, same_tx, same_rx) =
      irq_lem cr2 (record s { regs = regs₂; tx_fifo = tx'; rx_fifo = rx'; response = d.slave_out })
        plain₂ in
    (
      s₃,
      ready_process n s ds (ready_lem b bs s cr2 on known bits tx)
          ∙ exchange_lem n s ds busy known₁ bits got (one_byte b tx.bytes.0) called stored idle
              raised,
      subst (λ f. Holds f bs) (sym same_tx) tx_rest,
      subst (λ f. Holds f (rs ++ d.slave_out % 256 ∷ [])) (sym same_rx) rx_all,
    )
