-- ===== src/GenericMemory/Tests.antt =====
-- Runs on small memories.
use fused_checkmate.Base.{◌≡◌, refl, arith, [], ◌∷◌, ok}
use fused_checkmate.BusTarget.Command.{read_command, write_command}
use fused_checkmate.GenericMemory.{
  store, load, transact, count_loop, count_set_bits, count_set_bits_array,
}
use fused_checkmate.GenericMemory.SetBits.{ones, count_loop-ones}

stored :
    transact write_command 1 (7 ∷ 8 ∷ []) (1 ∷ 2 ∷ 3 ∷ 4 ∷ []) ≡ ok (1 ∷ 7 ∷ 8 ∷ 4 ∷ [], 7 ∷ 8 ∷ [])
unfolding transact store
stored = refl

loaded :
    transact read_command 2 (0 ∷ 0 ∷ []) (1 ∷ 2 ∷ 3 ∷ 4 ∷ []) ≡ ok (1 ∷ 2 ∷ 3 ∷ 4 ∷ [], 3 ∷ 4 ∷ [])
unfolding transact load
loaded = refl

counted : count_set_bits_array (0xb5 ∷ 0xff ∷ 0 ∷ []) ≡ 13
unfolding count_set_bits_array count_set_bits count_loop
counted = refl

count_example : count_loop 64 0 0xb5 ≡ ones 8 0xb5
count_example = count_loop-ones 64 8 0xb5 (omega arith) (omega arith)
