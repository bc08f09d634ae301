-- ===== src/Speed/Threads.antt =====
-- The threads of mem/numatest.cpp and mem/smptest.cpp from their start to their end.
use communication_speed.Prelude.{
  ℕ, ◌+◌, ◌*◌, ◌≤◌, ◌<◌, ◌≡◌, ◌∙◌, refl, ap, arith, List, [], ◌∷◌, ◌++◌, true, false, some,
}
use communication_speed.Prelude.Int.{is_neg}
use communication_speed.Prelude.Exec.{Exec, returned, ◌>>=◌}
use communication_speed.Cache.{Buffer, word_size}
use communication_speed.Speed.{
  Host, Place, local, remote, l1, l2, l3, me, Line, numa_allocated, malloced, numa_freed, freed,
  numa_statistic, smp_statistic, no_statistic, Walked, size, block, measure_all, on_node, on_heap,
  direct_walk, cas_walk, numa_pcm_lines, smp_pcm_lines, memthread, casthread, smpmemthread,
  cassmpthread,
}
use communication_speed.Speed.Counters.{CoreState}
use communication_speed.Speed.Measures.{
  Rounds, direct_walk-Rounds, cas_walk-Rounds, all_printed, measure_lem,
}

module _ (host : Host) (iter : ℕ) (walk : ℕ → Buffer → ℕ → Exec Walked)
    (report : CoreState → CoreState → List Line) (rounds : Rounds walk)
    (some_rounds : 0 < iter) where
  measure_all_lem :
      (place : Place) (k : ℕ) (b : Buffer)
      → size ≤ b.size
      → measure_all host iter walk report place k b
        ≡ returned (all_printed host iter report place k)
  unfolding measure_all
  measure_all_lem place k b h =
      let m = measure_lem host iter walk report rounds some_rounds place in
      let (a1, h1, e1) = m l1 k b h in
      let (a2, h2, e2) = m l2 (k + 1) a1 h1 in
      let (a3, h3, e3) = m l3 (k + 2) a2 h2 in
      let (a4, h4, e4) = m me (k + 3) a3 h3 in rw (e1, e2, e3, e4) refl

  on_node_lem :
      (place : Place) (node k : ℕ) (words : ℕ → ℕ)
      → host.node_block (word_size * size) node ≡ some words
      → on_node host iter walk report place node k
        ≡ returned (
            numa_allocated (word_size * size) node ∷ all_printed host iter report place k
            ++ numa_freed size ∷ [])
  unfolding on_node
  on_node_lem place node k words e =
      ap
        (λ b. measure_all host iter walk report place k (block b) >>= λ lines.
          returned (numa_allocated (word_size * size) node ∷ lines ++ numa_freed size ∷ []))
        e
      ∙ ap
          (λ m. m >>= λ lines.
            returned (numa_allocated (word_size * size) node ∷ lines ++ numa_freed size ∷ []))
          (measure_all_lem place k (block (some words)) (omega arith))

  on_heap_lem :
      (free : Line) {words : ℕ → ℕ}
      → host.heap_block (word_size * size) ≡ some words
      → on_heap host iter walk report free
        ≡ returned (malloced (word_size * size) ∷ all_printed host iter report local 0 ++ free ∷ [])
  unfolding on_heap
  on_heap_lem free {words} e =
      ap
        (λ b. measure_all host iter walk report local 0 (block b) >>= λ lines.
          returned (malloced (word_size * size) ∷ lines ++ free ∷ []))
        e
      ∙ ap (λ m. m >>= λ lines. returned (malloced (word_size * size) ∷ lines ++ free ∷ []))
          (measure_all_lem local 0 (block (some words)) (omega arith))

-- The lines about one node, and about the heap.
abbrev pub node_report : Host → ℕ → Place → ℕ → ℕ → List Line
node_report host iter place node k =
    numa_allocated (word_size * size) node ∷ all_printed host iter numa_statistic place k
    ++ numa_freed size ∷ []

abbrev pub heap_report : Host → ℕ → (CoreState → CoreState → List Line) → Line → List Line
heap_report host iter report free =
    malloced (word_size * size) ∷ all_printed host iter report local 0 ++ free ∷ []

-- Where the counter library gives its object, the thread can be bound and both nodes give a block, for any number of rounds but 0, both
-- threads of `numatest` return and print the same lines: for each node the allocation, the eight
-- lines of the four levels with the cycles per round and the index that the level's cycle gives, and
-- then the release of a quarter of the bytes allocated.
pub memthread-casthread_lem :
    (host : Host) (iter : ℕ) (here there : ℕ → ℕ)
    → 0 < iter
    → host.pcm.instance ≡ true
    → is_neg host.affinity ≡ false
    → host.node_block (word_size * size) 0 ≡ some here
    → host.node_block (word_size * size) 1 ≡ some there
    → (memthread host iter
        ≡ returned (
            numa_pcm_lines host
            ++ (node_report host iter local 0 0 ++ node_report host iter remote 1 4)))
      × (casthread host iter ≡ memthread host iter)
unfolding memthread casthread
memthread-casthread_lem host iter here there pos object bound e0 e1 =
    let d = on_node_lem host iter direct_walk numa_statistic direct_walk-Rounds pos in
    let c = on_node_lem host iter cas_walk numa_statistic cas_walk-Rounds pos in
    (
      rw (bound, d local 0 0 here e0, d remote 1 4 there e1, object) refl,
      rw
          (
            bound,
            d local 0 0 here e0,
            d remote 1 4 there e1,
            c local 0 0 here e0,
            c remote 1 4 there e1,
            object,
          )
          refl,
    )

-- Where the thread can be bound and the heap gives a block, for any number of rounds but 0, both
-- threads of `smptest` return with the lines of the four levels: the first with the counters' lines
-- and a `free`, the second without them and with a `numa_free` of the block that `malloc` gave.
pub smpmemthread-cassmpthread_lem :
    (host : Host) (iter : ℕ) (words : ℕ → ℕ)
    → 0 < iter
    → is_neg host.affinity ≡ false
    → host.heap_block (word_size * size) ≡ some words
    → (smpmemthread host iter
        ≡ returned (smp_pcm_lines host ++ heap_report host iter smp_statistic freed))
      × (cassmpthread host iter ≡ returned (heap_report host iter no_statistic (numa_freed size)))
unfolding smpmemthread cassmpthread
smpmemthread-cassmpthread_lem host iter words pos bound e = (
  rw (bound, on_heap_lem host iter direct_walk smp_statistic direct_walk-Rounds pos freed e) refl,
  rw (bound, on_heap_lem host iter cas_walk no_statistic cas_walk-Rounds pos (numa_freed size) e)
      refl,
)
