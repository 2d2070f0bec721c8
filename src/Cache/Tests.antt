-- ===== src/Cache/Tests.antt =====
-- Runs of the theorems on small sets.
use fused_checkmate.Base.{
  ◌+◌, ◌%◌, ◌^◌, ◌<◌, ◌≡◌, ◌≢◌, refl, arith, true, false, List, [], ◌∷◌, ltb, ◌==◌, if◌then◌else◌,
}
use fused_checkmate.Base.{ℕ, suc, ok}
use fused_checkmate.BusTarget.{BusPort}
use fused_checkmate.Bus.Memories.{System, is_covered, in_entry}
use fused_checkmate.Bus.Memories.Sample.{sample_system, sample_port, sample-IsSystem, sample_memory}
use fused_checkmate.Cache.{Cache, geometry, create_sets}
use fused_checkmate.Cache.WritePolicy.{write_back}
use fused_checkmate.Cache.Transport.{IsCache}
use fused_checkmate.Cache.Refinement.{Access, run, answers, create-IsCache, run-answers}
use fused_checkmate.Cache.Refinement.Access.{load, save}
use fused_checkmate.Cache.Policy.{IsReplacement}
use fused_checkmate.Cache.Lru.{
  create, age, IsOrder, count-create, age-hit, lru_policy, lru-IsReplacement,
}
use fused_checkmate.Cache.Lru
use fused_checkmate.Cache.Lfu.{Lfu, Missed, miss-Missed}
use fused_checkmate.Cache.Lfu
use fused_checkmate.Cache.RoundRobin.{misses, misses_lem}
use fused_checkmate.Cache.RoundRobin
use fused_checkmate.Cache.PseudoRandom.{shift, shift_lives}

hit_example : age 1 (Lru.hit (create 4) 2 true) ≡ (
    if 1 == 2
    then 0
    else if ltb (age 1 (create 4)) (age 2 (create 4))
    then age 1 (create 4) + 1
    else age 1 (create 4))
hit_example = age-hit 4 2 1 (create 4) true (count-create 4) (omega arith)

abbrev used : Lfu
used = record { counters = 3 ∷ 1 ∷ 5 ∷ 1 ∷ []; saturation = 64; tie_breaker = false }

victim_example : Missed used (Lfu.miss used true 0).0 (Lfu.miss used true 0).2
victim_example = miss-Missed used true 0 (omega arith)

-- The last of the two lines that tie.
last_of_two : (Lfu.miss used true 0).2 ≡ 3
unfolding Lfu.miss Lfu.find_victim Lfu.first_least Lfu.scan Lfu.compare_counter Lfu.break_tie
last_of_two = refl

misses_example :
    ((RoundRobin.miss 4 (misses 4 7 2) true 0).2 ≡ (2 + suc 7) % 4)
    × ((RoundRobin.miss 4 (misses 4 7 2) true 0).0 ≡ (2 + suc 7) % 4)
misses_example = misses_lem 4 7 2 true 0 (omega arith) (omega arith)

shift_example : (shift 0xbeef ≢ 0) × (shift 0xbeef < 2 ^ 16)
shift_example = shift_lives 0xbeef (omega arith) (omega arith)

two_law : (law : IsReplacement lru_policy 2) × law.IsState (create 2)
two_law = lru-IsReplacement 2 (omega arith)

-- Two sets of two lines of two bytes, in front of the bus with two small memories.
instance abbrev port : BusPort System
port = sample_port

abbrev some_accesses : List Access
some_accesses =
    save 0x2400 (0x11 ∷ 0x22 ∷ []) ∷ load 0x2401 1 ∷ load 0xfff4 2 ∷ save 0xfff4 (0x33 ∷ []) ∷ []

run_example :
    (c : Cache (List ℕ) System) × (run
        (geometry 1 1 2 write_back)
        lru_policy
        (record {
          sets = create_sets (geometry 1 1 2 write_back) (create 2);
          lfsr = 0;
          memory = sample_system;
        })
        some_accesses
      ≡ ok (answers (sample_memory.cell sample_system) some_accesses, c))
unfolding is_covered in_entry
run_example =
    run-answers sample_memory 1 1 2 (omega arith) lru_policy two_law.0 (create 2) 0 sample_system
      some_accesses two_law.1 sample-IsSystem
      (
        (omega arith, refl, omega arith, omega arith, (omega arith, (omega arith, tt))),
        (
          (omega arith, refl, omega arith, omega arith),
          (
            (omega arith, refl, omega arith, omega arith),
            ((omega arith, refl, omega arith, omega arith, (omega arith, tt)), tt),
          ),
        ),
      )

created :
    IsCache sample_memory 1 1 2
      (omega arith)
      lru_policy
      two_law.0
      (record {
        sets = create_sets (geometry 1 1 2 write_back) (create 2);
        lfsr = 0;
        memory = sample_system;
      })
      (sample_memory.cell sample_system)
created =
    create-IsCache sample_memory 1 1 2 (omega arith) lru_policy two_law.0 (create 2) 0 sample_system
      two_law.1 sample-IsSystem
