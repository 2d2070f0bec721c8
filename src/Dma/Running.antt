-- ===== src/Dma/Running.antt =====
-- A channel within a block, and at its end.
use native.Mathlib.Nat.{mod-eq_of_lt}
use fused_checkmate.Base.{
  ℕ, suc, ◌+◌, ◌-◌, ◌%◌, ◌^◌, ◌<◌, ◌≡◌, inl, inr, refl, arith, true, false, lt→ltb,
}
use fused_checkmate.Dma.{address_of}
use fused_checkmate.Dma.Channel.{
  DmaChannel, unit_length, move, update_addresses, on_accept, on_timeout, accept_mode,
  next_of_block, finish_block, predecessor, accept_at, timeout_at,
}
use fused_checkmate.Dma.Channel.AutoIncrementMode.{increment}
use fused_checkmate.Dma.Channel.TransferMode.{block}
use fused_checkmate.Dma.Channel.Phase.{idle, accepting}
use fused_checkmate.Dma.Copy.{Apart}

-- The channel within a block, with so many units left and these addresses.
abbrev pub running : DmaChannel → ℕ → ℕ → ℕ → DmaChannel
running c size a b = record c {
  phase = accepting block;
  enable = true;
  pending = true;
  size = size;
  source_auto_increment = increment;
  destination_auto_increment = increment;
  t_source_address = a;
  t_destination_address = b;
}

-- The channel after a block, at these addresses.
abbrev pub finished : DmaChannel → ℕ → ℕ → DmaChannel
finished c a b = record c {
  phase = idle;
  enable = false;
  pending = false;
  interrupt_flag = true;
  size = c.t_size;
  source_auto_increment = increment;
  destination_auto_increment = increment;
  t_source_address = a;
  t_destination_address = b;
}

module _ (c : DmaChannel) (len : ℕ) (sources : unit_length 2 c.source_bytes ≡ len)
    (destinations : unit_length 2 c.destination_bytes ≡ len) where
  pub accept_more :
      (m a b : ℕ)
      → suc (suc m) < 2 ^ 32
      → a + len < 2 ^ 32
      → b + len < 2 ^ 32
      → on_accept 2 (running c (suc (suc m)) a b) ≡ running c (suc m) (a + len) (b + len)
  unfolding on_accept accept_at accept_mode update_addresses move next_of_block predecessor
  accept_more m a b small fits-a fits-b =
      let at-a : (a + len) % 2 ^ 32 ≡ a + len = mod-eq_of_lt fits-a in
      let at-b : (b + len) % 2 ^ 32 ≡ b + len = mod-eq_of_lt fits-b in
      let left : (suc (suc m) + 2 ^ 32 - 1) % 2 ^ 32 ≡ suc m = omega arith in
      rw (sources, destinations, at-a, at-b, left) (ground arith)

  pub accept_last :
      (a b : ℕ)
      → a + len < 2 ^ 32
      → b + len < 2 ^ 32
      → on_accept 2 (running c 1 a b) ≡ finished c (a + len) (b + len)
  unfolding on_accept accept_at accept_mode update_addresses move next_of_block predecessor
      finish_block
  accept_last a b fits-a fits-b =
      let at-a : (a + len) % 2 ^ 32 ≡ a + len = mod-eq_of_lt fits-a in
      let at-b : (b + len) % 2 ^ 32 ≡ b + len = mod-eq_of_lt fits-b in
      rw (sources, destinations, at-a, at-b) refl

pub still_running : (c : DmaChannel) (n a b : ℕ) → on_timeout (running c n a b) ≡ running c n a b
unfolding on_timeout timeout_at
still_running c n a b = refl

pub still_finished : (c : DmaChannel) (a b : ℕ) → on_timeout (finished c a b) ≡ finished c a b
unfolding on_timeout timeout_at
still_finished c a b = refl

pub shift : (a b len more : ℕ) → Apart a b (len + more) → Apart (a + len) (b + len) more
shift a b len more (inl below) = inl (omega (arith, below))
shift a b len more (inr above) = inr (omega (arith, above))

pub address_small : (a : ℕ) → a < 2 ^ 31 → address_of a ≡ a
unfolding address_of
address_small a h = rw (lt→ltb a (2 ^ 31) h) refl
