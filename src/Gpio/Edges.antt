-- ===== src/Gpio/Edges.antt =====
-- mcu/cortex-m0/Gpio.cpp: the edges of the inputs, as `process` samples them.
use fused_checkmate.Base.{
  ℕ, ◌-◌, ◌^◌, ◌<◌, ◌≡◌, refl, arith, test_bit, bit_and, bit_or, not_bits, Bool, true, false, not,
  ◌&&◌, ◌||◌, Bool-cases, inl, inr, [], ◌∷◌, ltb, ok,
}
use fused_checkmate.Base.Masks.{set_here, clear_here}
use fused_checkmate.RegisterFile.{
  RegisterFile, Register, AccessMode, read, write, find, find_if, set_val, stored, set_bit,
  clear_bit,
}
use fused_checkmate.RegisterFile.AccessMode.{read_only, read_write}
use fused_checkmate.Gpio.{Gpio, sample, rise, fall}

abbrev register : ℕ → AccessMode → ℕ → Register
register address access v = record {
  addr = address;
  val = v;
  reset_value = 0;
  write_mask = 2 ^ 32 - 1;
  access = access;
}

-- The registers of the constructor, with these values.
abbrev pub registers : ℕ → ℕ → ℕ → ℕ → RegisterFile
registers level dir ie ifg =
    register 0x0 read_write level
    ∷ register 0x400 read_write dir
    ∷ register 0x410 read_write ie
    ∷ register 0x404 read_only ifg
    ∷ []

set_level :
    (level dir ie ifg i : ℕ)
    → i < 32
    → set_bit 4 0x0 i true (registers level dir ie ifg)
      ≡ ok (registers (bit_or level (2 ^ i)) dir ie ifg)
unfolding set_bit read write find find_if set_val stored
set_level level dir ie ifg i small = let e : ltb i 32 ≡ true = ground arith in rw e refl

set_ifg :
    (level dir ie ifg i : ℕ)
    → i < 32
    → set_bit 4 0x404 i true (registers level dir ie ifg)
      ≡ ok (registers level dir ie (bit_or ifg (2 ^ i)))
unfolding set_bit read write find find_if set_val stored
set_ifg level dir ie ifg i small = let e : ltb i 32 ≡ true = ground arith in rw e refl

clear_level :
    (level dir ie ifg i : ℕ)
    → i < 32
    → clear_bit 4 0x0 i true (registers level dir ie ifg)
      ≡ ok (registers (bit_and level (not_bits 32 (2 ^ i))) dir ie ifg)
unfolding clear_bit read write find find_if set_val stored
clear_level level dir ie ifg i small = let e : ltb i 32 ≡ true = ground arith in rw e refl

-- What sampling input i leaves: the data register and the edge memory hold its level, and an
-- interrupt is requested, and the flag set, at a rising edge whose interrupt is enabled.
pub record Sampled (i : ℕ) (current enabled : Bool) (g g' : Gpio) (before level ifg : ℕ)
    : Type 0 where
  pub follows : test_bit g'.last_state i ≡ current
  pub shown : test_bit level i ≡ current
  pub requested : g'.set_irq ≡ (g.set_irq || (current && not (test_bit g.last_state i) && enabled))
  pub flagged :
      test_bit ifg i ≡ (test_bit before i || (current && not (test_bit g.last_state i) && enabled))

-- Sampling one of the 32 inputs succeeds. If the data register showed the level in the edge memory,
-- both show the level that was read; the interrupt is requested if it was before or at a rising edge
-- whose interrupt is enabled, the flag of the input is set if it was before or at such an edge, and
-- neither at any other.
pub sample-Sampled :
    (i : ℕ) (current enabled : Bool) (g : Gpio) (level dir ie ifg : ℕ)
    → i < 32
    → test_bit level i ≡ test_bit g.last_state i
    → (g' : Gpio) × (level' : ℕ) × (ifg' : ℕ) × (sample i current enabled
          (record g { regs = registers level dir ie ifg })
        ≡ ok g')
      × (g'.regs ≡ registers level' dir ie ifg')
      × Sampled i current enabled g g' ifg level' ifg'
unfolding sample rise fall
sample-Sampled i true true g level dir ie ifg small same =
    elim (Bool-cases (test_bit g.last_state i)) [
      | inl e ↦ (
        record g { regs = registers level dir ie ifg },
        level,
        ifg,
        rw e refl,
        refl,
        record {
          follows = e;
          shown = rw (same, e) refl;
          requested = rw e (ground arith);
          flagged = rw e (ground arith);
        },
      )
      | inr e ↦ (
        record g {
          regs = registers (bit_or level (2 ^ i)) dir ie (bit_or ifg (2 ^ i));
          last_state = bit_or g.last_state (2 ^ i);
          set_irq = true;
        },
        bit_or level (2 ^ i),
        bit_or ifg (2 ^ i),
        rw
            (
              e,
              set_level level dir ie ifg i small,
              set_ifg (bit_or level (2 ^ i)) dir ie ifg i small,
            )
            refl,
        refl,
        record {
          follows = set_here g.last_state i;
          shown = set_here level i;
          requested = rw e (ground arith);
          flagged = rw (e, set_here ifg i) (ground arith);
        },
      )
    ]
sample-Sampled i true false g level dir ie ifg small same =
    elim (Bool-cases (test_bit g.last_state i)) [
      | inl e ↦ (
        record g { regs = registers level dir ie ifg },
        level,
        ifg,
        rw e refl,
        refl,
        record {
          follows = e;
          shown = rw (same, e) refl;
          requested = rw e (ground arith);
          flagged = rw e (ground arith);
        },
      )
      | inr e ↦ (
        record g {
          regs = registers (bit_or level (2 ^ i)) dir ie ifg;
          last_state = bit_or g.last_state (2 ^ i);
        },
        bit_or level (2 ^ i),
        ifg,
        rw (e, set_level level dir ie ifg i small) refl,
        refl,
        record {
          follows = set_here g.last_state i;
          shown = set_here level i;
          requested = rw e (ground arith);
          flagged = rw e (ground arith);
        },
      )
    ]
sample-Sampled i false enabled g level dir ie ifg small same =
    elim (Bool-cases (test_bit g.last_state i)) [
      | inl e ↦ (
        record g {
          regs = registers (bit_and level (not_bits 32 (2 ^ i))) dir ie ifg;
          last_state = bit_and g.last_state (not_bits 32 (2 ^ i));
        },
        bit_and level (not_bits 32 (2 ^ i)),
        ifg,
        rw (e, clear_level level dir ie ifg i small) refl,
        refl,
        record {
          follows = clear_here g.last_state i small;
          shown = clear_here level i small;
          requested = ground arith;
          flagged = ground arith;
        },
      )
      | inr e ↦ (
        record g { regs = registers level dir ie ifg },
        level,
        ifg,
        rw e refl,
        refl,
        record {
          follows = e;
          shown = rw (same, e) refl;
          requested = ground arith;
          flagged = ground arith;
        },
      )
    ]
