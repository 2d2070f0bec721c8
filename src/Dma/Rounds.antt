-- ===== src/Dma/Rounds.antt =====
-- The rounds of a block transfer.
use native.Mathlib.Nat.{add_assoc}
use mathlib.Core.Path.{fun_ext}
use fused_checkmate.Base.{
  get_elem?-set_self, set_twice, set_same, ℕ, zero, suc, ◌+◌, ◌*◌, ◌^◌, ◌≤◌, ◌<◌, ◌≡◌, refl, sym,
  subst, ◌∙◌, ap, arith, Bool, true, false, some, List, [], ◌∷◌, length, get_elem?, set, ok,
}
use fused_checkmate.BusTarget.{BusPort}
use fused_checkmate.BusTarget.Cells.{cells, overwrite, length-cells}
use fused_checkmate.BusTarget.Contract.{IsMemory}
use fused_checkmate.RegisterFile.{RegisterFile}
use fused_checkmate.RegisterFile.Plain.{IsPlain, Keeps, write_plain}
use fused_checkmate.Dma.{Dma, ofs_sz, transfer, transfer_loop}
use fused_checkmate.Dma.Channel.{DmaChannel, unit_length, on_accept, on_timeout}
use fused_checkmate.Dma.Copy.{copied, Apart, copied_twice, Bytes-cells}
use fused_checkmate.Dma.Running.{
  running, finished, accept_more, accept_last, still_running, still_finished, shift, address_small,
}

module _ {S : Type 0} ⦃port : BusPort S⦄ (mem : IsMemory port) where
  open mem use {IsState, cell, covers, cell_byte, read_lem, write_lem}

  -- One transfer is a copy of one unit.
  transfer_lem :
      (len channel : ℕ) (c : DmaChannel) (d : Dma) (s : S)
      → c.t_source_address < 2 ^ 31
      → c.t_destination_address < 2 ^ 31
      → IsState s
      → covers c.t_source_address len ≡ true
      → covers c.t_destination_address len ≡ true
      → IsPlain (ofs_sz + channel * 0x10) d.regs
      → (regs : RegisterFile) × (s' : S) × (transfer len channel c d s
          ≡ ok (record d { regs = regs; channels = set d.channels channel (on_accept 2 c) }, s'))
        × Keeps d.regs regs
        × IsState s'
        × ((x : ℕ) → cell s' x ≡ copied (cell s) c.t_source_address c.t_destination_address len x)
  unfolding transfer copied
  transfer_lem len channel c d s low-a low-b good from to plain =
      let a = c.t_source_address in
      let b = c.t_destination_address in
      let (s₁, read, good₁, same) = read_lem s a len good from in
      let bytes = cells (cell s) a len in
      let long : covers b (length bytes) ≡ true = rw (length-cells (cell s) a len) to in
      let (s₂, written, good₂, after) =
        write_lem s₁ b bytes good₁ (Bytes-cells (cell s) a len (λ x. cell_byte s x good)) long in
      let (regs, stored, keeps) =
        write_plain (ofs_sz + channel * 0x10) (on_accept 2 c).size false d.regs plain in
      (
        regs,
        s₂,
        rw (address_small a low-a, address_small b low-b, read, written, stored) refl,
        keeps,
        good₂,
        λ x. after x ∙ ap (λ f. overwrite f b bytes x) (fun_ext same),
      )

  -- A round of the loop, for a channel that is not in a pause.
  round_lem :
      (r : Bool) (rounds : List Bool) (len channel : ℕ) (c : DmaChannel) (d : Dma) (s : S)
      {d' : Dma} {s' : S}
      → get_elem? d.channels channel ≡ some c
      → on_timeout c ≡ c
      → c.pending ≡ true
      → transfer len channel c d s ≡ ok (d', s')
      → transfer_loop (r ∷ rounds) len channel d s ≡ transfer_loop rounds len channel d' s'
  unfolding transfer_loop
  round_lem true rounds len channel c d s at still pending moved =
      rw (at, still, set_same d.channels channel c at, moved, pending) refl
  round_lem false rounds len channel c d s at still pending moved =
      rw (at, set_same d.channels channel c at, moved, pending) refl

  -- The end of the loop.
  end_lem :
      (r : Bool) (rounds : List Bool) (len channel : ℕ) (c : DmaChannel) (d : Dma) (s : S)
      → get_elem? d.channels channel ≡ some c
      → on_timeout c ≡ c
      → c.pending ≡ false
      → transfer_loop (r ∷ rounds) len channel d s ≡ ok (some (d, s))
  unfolding transfer_loop
  end_lem true rounds len channel c d s at still pending =
      rw (at, still, set_same d.channels channel c at, pending) refl
  end_lem false rounds len channel c d s at still pending =
      rw (at, set_same d.channels channel c at, pending) refl

  -- The units that the memory serves, from two addresses on.
  abbrev pub Served : ℕ → ℕ → ℕ → ℕ → Type 0
  Served len n a b =
      (i : ℕ) → i < n → (covers (a + i * len) len ≡ true) × (covers (b + i * len) len ≡ true)

  Served-first :
      (len n a b : ℕ) → Served len (suc n) a b → (covers a len ≡ true) × (covers b len ≡ true)
  Served-first len n a b h =
      let (from, to) = h 0 (omega arith) in
      let at-a : a + 0 * len ≡ a = omega arith in
      let at-b : b + 0 * len ≡ b = omega arith in
      (ap (λ x. covers x len) (sym at-a) ∙ from, ap (λ x. covers x len) (sym at-b) ∙ to)

  Served-rest : (len n a b : ℕ) → Served len (suc n) a b → Served len n (a + len) (b + len)
  Served-rest len n a b h i small =
      let (from, to) = h (suc i) (omega arith) in
      let next : suc i * len ≡ len + i * len = grind arith in
      let at-a : a + len + i * len ≡ a + suc i * len = omega (arith, next) in
      let at-b : b + len + i * len ≡ b + suc i * len = omega (arith, next) in
      (ap (λ x. covers x len) at-a ∙ from, ap (λ x. covers x len) at-b ∙ to)

  -- What the rounds of a block come to.
  pub record Copied (len channel n a b : ℕ) (c : DmaChannel) (rounds : List Bool) (d : Dma) (s : S)
      : Type 0 where
    pub regs : RegisterFile
    pub state : S
    pub runs :
        transfer_loop rounds len channel d s
        ≡ ok (
            some (
              record d {
                regs = regs;
                channels = set d.channels channel (finished c (a + n * len) (b + n * len));
              },
              state,
            ))
    pub keeps : Keeps d.regs regs
    pub good : IsState state
    pub bytes : (x : ℕ) → cell state x ≡ copied (cell s) a b (n * len) x

  module _ (c : DmaChannel) (len channel : ℕ) (sources : unit_length 2 c.source_bytes ≡ len)
      (destinations : unit_length 2 c.destination_bytes ≡ len) where
    -- The last round.
    last_round :
        (r r' : Bool) (rounds : List Bool) (a b : ℕ) (d : Dma) (s : S) {regs : RegisterFile}
        {s₁ : S}
        → a + len < 2 ^ 32
        → b + len < 2 ^ 32
        → get_elem? d.channels channel ≡ some (running c 1 a b)
        → transfer len channel (running c 1 a b) d s
          ≡ ok (
            record d {
              regs = regs;
              channels = set d.channels channel (on_accept 2 (running c 1 a b));
            },
            s₁,
          )
        → transfer_loop (r ∷ r' ∷ rounds) len channel d s
          ≡ ok (
              some (
                record d {
                  regs = regs;
                  channels = set d.channels channel (finished c (a + len) (b + len));
                },
                s₁,
              ))
    last_round r r' rounds a b d s {regs} {s₁} fits-a fits-b at moved =
        let last = accept_last c len sources destinations a b fits-a fits-b in
        let after = finished c (a + len) (b + len) in
        round_lem r (r' ∷ rounds) len channel (running c 1 a b) d s at (still_running c 1 a b) refl
          (moved ∙ rw last refl)
        ∙ end_lem r' rounds len channel after
            (record d { regs = regs; channels = set d.channels channel after }) s₁
            (get_elem?-set_self d.channels channel after (running c 1 a b) at)
            (still_finished c (a + len) (b + len)) refl

    -- A round before the last, and the others.
    one_more :
        (r : Bool) (rounds : List Bool) (n a b total : ℕ) (d : Dma) (s : S) {regs : RegisterFile}
        {s₁ : S}
        → total ≡ len + suc n * len
        → suc (suc n) < 2 ^ 32
        → a + len < 2 ^ 32
        → b + len < 2 ^ 32
        → Apart a b total
        → get_elem? d.channels channel ≡ some (running c (suc (suc n)) a b)
        → transfer len channel (running c (suc (suc n)) a b) d s
          ≡ ok (
            record d {
              regs = regs;
              channels = set d.channels channel (on_accept 2 (running c (suc (suc n)) a b));
            },
            s₁,
          )
        → Keeps d.regs regs
        → ((x : ℕ) → cell s₁ x ≡ copied (cell s) a b len x)
        → (rest : Copied len channel
            (suc n)
            (a + len)
            (b + len)
            c
            rounds
            (record d {
              regs = regs;
              channels = set d.channels channel (running c (suc n) (a + len) (b + len));
            })
            s₁)
        → (transfer_loop (r ∷ rounds) len channel d s
            ≡ ok (
                some (
                  record d {
                    regs = rest.regs;
                    channels = set d.channels channel (finished c (a + total) (b + total));
                  },
                  rest.state,
                )))
          × Keeps d.regs rest.regs
          × ((x : ℕ) → cell rest.state x ≡ copied (cell s) a b total x)
    one_more r rounds n a b total d s {regs} {s₁} sum small fits-a fits-b apart at moved keeps bytes
          rest =
        let now = running c (suc (suc n)) a b in
        let next = running c (suc n) (a + len) (b + len) in
        let more : on_accept 2 now ≡ next =
          accept_more c len sources destinations n a b small fits-a fits-b in
        (
          round_lem r rounds len channel now d s at (still_running c (suc (suc n)) a b) refl
                (moved ∙ rw more refl)
              ∙ rest.runs
              ∙ rw
                  (
                    set_twice d.channels channel next
                        (finished c (a + len + suc n * len) (b + len + suc n * len)),
                    sum,
                    add_assoc a len (suc n * len),
                    add_assoc b len (suc n * len),
                  )
                  refl,
          λ x p. rest.keeps x (keeps x p),
          rw sum (
              copied_twice (cell s) (cell s₁) (cell rest.state) a b len (suc n * len)
                (subst (Apart a b) sum apart) bytes rest.bytes),
        )

    pub loop_lem :
        (rounds : List Bool) (n a b : ℕ) (d : Dma) (s : S)
        → suc n < length rounds
        → suc n < 2 ^ 31
        → 0 < len
        → a + suc n * len ≤ 2 ^ 31
        → b + suc n * len ≤ 2 ^ 31
        → Apart a b (suc n * len)
        → Served len (suc n) a b
        → get_elem? d.channels channel ≡ some (running c (suc n) a b)
        → IsPlain (ofs_sz + channel * 0x10) d.regs
        → IsState s
        → Copied len channel (suc n) a b c rounds d s
    loop_lem [] n a b d s long small pos fits-a fits-b apart served at plain good = elim long [ ]
    loop_lem (r ∷ []) n a b d s long small pos fits-a fits-b apart served at plain good =
        absurd (omega (arith, long))
    loop_lem (r ∷ r' ∷ rounds) zero a b d s long small pos fits-a fits-b apart served at plain
          good =
        let one : 1 * len ≡ len = omega arith in
        let (from, to) = Served-first len 0 a b served in
        let (regs, s₁, moved, keeps, good₁, bytes) =
          transfer_lem len channel (running c 1 a b) d s (omega (arith, fits-a, one, pos))
            (omega (arith, fits-b, one, pos)) good from to plain in
        let runs =
          last_round r r' rounds a b d s (omega (arith, fits-a, one)) (omega (arith, fits-b, one))
            at moved in
        record {
          regs = regs;
          state = s₁;
          runs = rw one runs;
          keeps = keeps;
          good = good₁;
          bytes = rw one bytes;
        }
    loop_lem (r ∷ r' ∷ rounds) (suc n) a b d s long small pos fits-a fits-b apart served at plain
          good =
        let total : suc (suc n) * len ≡ len + suc n * len = grind arith in
        let room : 0 < suc n * len = grind arith in
        let (from, to) = Served-first len (suc n) a b served in
        let next = running c (suc n) (a + len) (b + len) in
        let (regs, s₁, moved, keeps, good₁, bytes) =
          transfer_lem len channel (running c (suc (suc n)) a b) d s
            (omega (arith, fits-a, total, pos)) (omega (arith, fits-b, total, pos)) good from to
            plain in
        let rest =
          loop_lem (r' ∷ rounds) n (a + len) (b + len)
            (record d { regs = regs; channels = set d.channels channel next }) s₁
            (omega (arith, long)) (omega (arith, small)) pos (omega (arith, fits-a, total))
            (omega (arith, fits-b, total))
            (shift a b len (suc n * len) (subst (Apart a b) total apart))
            (Served-rest len (suc n) a b served)
            (get_elem?-set_self d.channels channel next (running c (suc (suc n)) a b) at)
            (keeps (ofs_sz + channel * 0x10) plain) good₁ in
        let (runs, kept, all) =
          one_more r (r' ∷ rounds) n a b (suc (suc n) * len) d s total (omega (arith, small))
            (omega (arith, fits-a, total, room)) (omega (arith, fits-b, total, room)) apart at moved
            keeps bytes rest in
        record {
          regs = rest.regs;
          state = rest.state;
          runs = runs;
          keeps = kept;
          good = rest.good;
          bytes = all;
        }
