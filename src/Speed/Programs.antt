-- ===== src/Speed/Programs.antt =====
-- The tests of mem/numatest.cpp and mem/smptest.cpp, from the command line to the end.
use communication_speed.Prelude.{
  ℕ, zero, suc, ◌*◌, ◌≤◌, ◌≡◌, refl, sym, arith, List, ◌++◌, true, false, some,
}
use communication_speed.Prelude.Int.{is_neg}
use communication_speed.Prelude.Exec.{Exec, returned, fault}
use communication_speed.Cache.{Buffer, word_size}
use communication_speed.Speed.Counters.{CoreState}
use communication_speed.Speed.{
  Host, Place, local, remote, Level, l1, Line, Walked, size, block, measure, measure_all, on_node,
  on_heap, direct_walk, numa_statistic, smp_statistic, no_statistic, numa_freed, freed, memthread,
  smpmemthread, Opt, set_itercase, complaints, itercase, numatest, smptest, numa_pcm_lines,
  smp_pcm_lines,
}
use communication_speed.Speed.Measures.{Rounds, direct_walk-Rounds, prepared}
use communication_speed.Speed.Threads.{
  node_report, heap_report, memthread-casthread_lem, smpmemthread-cassmpthread_lem,
}

module _ (host : Host) (walk : ℕ → Buffer → ℕ → Exec Walked)
    (report : CoreState → CoreState → List Line) (rounds : Rounds walk) where
  -- No rounds: the first measurement divides by 0.
  measure_zero :
      (place : Place) (level : Level) (k : ℕ) (b : Buffer)
      → size ≤ b.size
      → measure host 0 walk report place level k b ≡ fault
  unfolding measure
  measure_zero place level k b h =
      let p = prepared level b h in rw (p.fills, p.warms, rounds level p.array p.cycle 0) refl

  on_node_zero :
      (place : Place) (node k : ℕ) (words : ℕ → ℕ)
      → host.node_block (word_size * size) node ≡ some words
      → on_node host 0 walk report place node k ≡ fault
  unfolding on_node measure_all
  on_node_zero place node k words e =
      rw (e, measure_zero place l1 k (block (some words)) (omega arith)) refl

  on_heap_zero :
      (release : Line) (words : ℕ → ℕ)
      → host.heap_block (word_size * size) ≡ some words
      → on_heap host 0 walk report release ≡ fault
  unfolding on_heap measure_all
  on_heap_zero release words e =
      rw (e, measure_zero local l1 0 (block (some words)) (omega arith)) refl

-- The thread can be bound, the counter library gives its object and each node a block.
pub record ServesNodes (host : Host) : Type 0 where
  pub here : ℕ → ℕ
  pub there : ℕ → ℕ
  pub object : host.pcm.instance ≡ true
  pub bound : is_neg host.affinity ≡ false
  pub block_here : host.node_block (word_size * size) 0 ≡ some here
  pub block_there : host.node_block (word_size * size) 1 ≡ some there

-- The thread can be bound and the heap gives a block.
pub record ServesHeap (host : Host) : Type 0 where
  pub words : ℕ → ℕ
  pub bound : is_neg host.affinity ≡ false
  pub block : host.heap_block (word_size * size) ≡ some words

-- What a thread of `numatest` prints.
abbrev pub numa_thread : Host → ℕ → List Line
numa_thread host iter =
    numa_pcm_lines host ++ (node_report host iter local 0 0 ++ node_report host iter remote 1 4)

module _ (host later : Host) (opts : List Opt) where
  -- What the tests come to by the number of rounds.
  abbrev pub numa_outcome : ℕ → Exec (List Line)
  numa_outcome zero = fault
  numa_outcome (suc n) =
      returned (complaints opts ++ (numa_thread host (suc n) ++ numa_thread later (suc n)))

  abbrev pub smp_outcome : ℕ → Exec (List Line)
  smp_outcome zero = fault
  smp_outcome (suc n) = returned (
      complaints opts
      ++ ((smp_pcm_lines host ++ heap_report host (suc n) smp_statistic freed)
          ++ heap_report later (suc n) no_statistic (numa_freed size)))

  numa_threads :
      (iter : ℕ)
      → host.numa_works ≡ true
      → ServesNodes host
      → ServesNodes later
      → iter ≡ set_itercase opts itercase
      → numatest host later opts ≡ numa_outcome iter
  unfolding numatest memthread
  numa_threads zero works s t n =
      let first = on_node_zero host direct_walk numa_statistic direct_walk-Rounds local 0 0 in
      rw (sym n, s.bound, first s.here s.block_here, s.object, works) refl
  numa_threads (suc iter) works s t n =
      let lem = λ (h : Host) (v : ServesNodes h).
        memthread-casthread_lem h (suc iter) v.here v.there (omega arith) v.object v.bound
          v.block_here v.block_there in
      rw (sym n, (lem host s).0, (lem later t).1, (lem later t).0, works) refl

  smp_threads :
      (iter : ℕ)
      → host.numa_works ≡ true
      → ServesHeap host
      → ServesHeap later
      → iter ≡ set_itercase opts itercase
      → smptest host later opts ≡ smp_outcome iter
  unfolding smptest smpmemthread
  smp_threads zero works s t n =
      let first = on_heap_zero host direct_walk smp_statistic direct_walk-Rounds freed in
      rw (sym n, s.bound, first s.words s.block, works) refl
  smp_threads (suc iter) works s t n =
      let lem = λ (h : Host) (v : ServesHeap h).
        smpmemthread-cassmpthread_lem h (suc iter) v.words (omega arith) v.bound v.block in
      rw (sym n, (lem host s).0, (lem later t).1, works) refl

-- Where libnuma works and both threads find a counter library, a processor to be bound to and a
-- block on each node, the number of rounds that the command line leaves decides what `numatest`
-- comes to: with 0, as a multiple of 2 ^ 32 given by `-c` leaves it, the division by the rounds ends
-- the program; otherwise it prints the complaints about the options and then, for the walks by plain
-- reads and again for those by atomic operations, the full report of both nodes, of the same form,
-- with the costs and the counters that the thread has read.
pub numatest_lem :
    (host later : Host) (opts : List Opt)
    → host.numa_works ≡ true
    → ServesNodes host
    → ServesNodes later
    → numatest host later opts ≡ numa_outcome host later opts (set_itercase opts itercase)
numatest_lem host later opts works s t =
    numa_threads host later opts (set_itercase opts itercase) works s t refl

-- Where libnuma works and both threads can be bound and get a block, `smptest` ends in the division
-- by 0 where the command line leaves 0 rounds; otherwise it prints the complaints, then the report
-- by plain reads, with the counts of `dump` for each level, then the report by atomic operations,
-- without counts and with the block of `malloc` given to `numa_free`.
pub smptest_lem :
    (host later : Host) (opts : List Opt)
    → host.numa_works ≡ true
    → ServesHeap host
    → ServesHeap later
    → smptest host later opts ≡ smp_outcome host later opts (set_itercase opts itercase)
smptest_lem host later opts works s t =
    smp_threads host later opts (set_itercase opts itercase) works s t refl
