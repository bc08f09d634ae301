-- ===== src/Speed/Tests.antt =====
-- The threads on a host whose clock takes a tick of 30 cycles between two readings.
use communication_speed.Prelude.{
  ℕ, ◌<◌, ◌+◌, ◌-◌, ◌*◌, ◌^◌, ◌%◌, ◌≡◌, refl, arith, [], ◌∷◌, ◌++◌, true, false, some, map, leb,
}
use communication_speed.Prelude.Int.{pos, minus_one, is_neg}
use communication_speed.Prelude.Exec.{returned, fault}
use communication_speed.Cache.{Buffer, chase}
use communication_speed.Speed.{
  Host, numa_freed, freed, no_numa, bad_option, size, smp_pcm_lines, smp_statistic, no_statistic,
  set_itercase, smptest, direct_walk, cas_walk, numatest, rounds, other,
}
use communication_speed.Speed.Programs.{ServesNodes, numa_thread, numatest_lem, smptest_lem}
use communication_speed.Speed.Counters.{
  CoreState, dump, as_int, get_l1_cache_hit, get_l2_cache_hit, get_l3_cache_hit,
}
use communication_speed.Speed.Counters.Counts.{advance, dump_lem}
use communication_speed.Speed.Draw.{permuate1, permuate1-chase}
use communication_speed.Speed.Walks.{cas_walk-direct_walk}
use communication_speed.Speed.Threads.{heap_report}

abbrev calm : Host
calm = record {
  cycle = λ k. 30 * k;
  counters = λ k. record { event0 = 100 * k; event1 = 90 * k; event2 = k; event3 = 0 };
  pcm = record { instance = true; program = λ events. minus_one };
  affinity = pos 0;
  numa_works = true;
  node_block = λ bytes node. some (λ i. node);
  heap_block = λ bytes. some (λ i. 7);
}

abbrev three : Buffer
three = record { size = 3; at = λ i. 1 }

cas_walk-three : cas_walk 5 three 0 ≡ direct_walk 5 three 0
cas_walk-three = cas_walk-direct_walk three (λ i. omega arith) 5 0

-- The second thread finds a clock that has gone on by the 16 readings of the first.
abbrev calm_later : Host
calm_later = record calm { cycle = λ k. 30 * (k + 16) }

abbrev on_both_nodes : ServesNodes calm
on_both_nodes = record {
  here = λ i. 0;
  there = λ i. 1;
  object = refl;
  bound = refl;
  block_here = refl;
  block_there = refl;
}

abbrev on_both_nodes_later : ServesNodes calm_later
on_both_nodes_later = record {
  here = λ i. 0;
  there = λ i. 1;
  object = refl;
  bound = refl;
  block_here = refl;
  block_there = refl;
}

numatest-calm :
    numatest calm calm_later (other ∷ rounds 10 ∷ [])
    ≡ returned (bad_option ∷ numa_thread calm 10 ++ numa_thread calm_later 10)
unfolding set_itercase
numatest-calm =
    numatest_lem calm calm_later (other ∷ rounds 10 ∷ []) refl on_both_nodes on_both_nodes_later

-- 2 ^ 32 rounds are none.
smptest_no_rounds : smptest calm calm (rounds 4294967296 ∷ []) ≡ fault
unfolding set_itercase
smptest_no_rounds =
    smptest_lem calm calm (rounds 4294967296 ∷ []) refl
      (record { words = λ i. 7; bound = refl; block = refl })
      (record { words = λ i. 7; bound = refl; block = refl })

smptest-calm :
    smptest calm calm_later (rounds 10 ∷ [])
    ≡ returned (
        (smp_pcm_lines calm ++ heap_report calm 10 smp_statistic freed)
        ++ heap_report calm_later 10 no_statistic (numa_freed size))
unfolding set_itercase
smptest-calm =
    smptest_lem calm calm_later (rounds 10 ∷ []) refl
      (record { words = λ i. 7; bound = refl; block = refl })
      (record { words = λ i. 7; bound = refl; block = refl })

-- Three indices drawn by a `rand` that counts.
drawn_walk :
    (array : Buffer) × (permuate1 (λ k. 1000 + 7 * k) three 3 ≡ returned array)
    × ((k : ℕ) × (k < 3) × (chase 5 array 0 ≡ returned k))
drawn_walk = permuate1-chase (λ k. 1000 + 7 * k) three 3 5 0 (omega arith) (omega arith)

-- A counter that goes over its 64 bits.
abbrev near_end : CoreState
near_end = record { event0 = 2 ^ 64 - 1; event1 = 2 ^ 64 - 1; event2 = 7; event3 = 0 }

dump-near_end :
    (dump near_end (advance near_end 3000000000 9 1 0) ≡ map as_int (9 ∷ 1 ∷ 0 ∷ 3000000000 ∷ []))
    × (get_l1_cache_hit near_end (advance near_end 3000000000 9 1 0)
        ≡ record { over = 9; under = 3000000000 })
    × (get_l2_cache_hit near_end (advance near_end 3000000000 9 1 0)
        ≡ record { over = 1; under = 3000000000 })
    × (get_l3_cache_hit near_end (advance near_end 3000000000 9 1 0)
        ≡ record { over = 0; under = 3000000000 })
    × (is_neg (as_int 3000000000) ≡ leb (2 ^ 31) (3000000000 % 2 ^ 32))
dump-near_end =
    dump_lem near_end 3000000000 9 1 0
      (record {
        event0 = omega arith;
        event1 = omega arith;
        event2 = omega arith;
        event3 = omega arith;
      })
      (omega arith) (omega arith) (omega arith) (omega arith)

no_numa_run :
    numatest (record calm { numa_works = false }) calm (other ∷ rounds 5 ∷ [])
    ≡ returned (bad_option ∷ no_numa ∷ [])
unfolding numatest
no_numa_run = refl
