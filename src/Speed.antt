-- ===== src/Speed.antt =====
-- mem/numatest.cpp and mem/smptest.cpp: the threads that time the walks through the index arrays,
-- by plain reads and by atomic operations, on memory of one or two nodes. What a thread prints,
-- allocates and frees is a list of lines; the clocks, the counters and the allocators are the host's.
pub mod Counters
pub mod Walks
pub mod Measures
pub mod Threads
pub mod Programs
pub mod Draw
pub mod Barrier
mod Tests
use communication_speed.Prelude.{
  ℕ, zero, suc, ◌+◌, ◌-◌, ◌*◌, ◌/◌, ◌%◌, ◌^◌, List, [], ◌∷◌, ◌++◌, Bool, true, false, Option, none,
  some, ◌==◌, if◌then◌else◌, sub_u64, u32,
}
use communication_speed.Prelude.Int.{ℤ, is_neg, truthy}
use communication_speed.Prelude.Exec.{Exec, returned, fault, ◌>>=◌, ◌>>◌}
use communication_speed.Speed.Counters.{CoreState, Pcm, dump, initpcm}
use communication_speed.Atomic.{atomic_inc}
use communication_speed.Cache.{
  Buffer, load, store, Filled, Warmed, chase, l3_cache_size, word_size, l1h, l1ml2h, l2ml3h, l3m,
  warm_up_l1, warm_up_l2, warm_up_l3, warm_up_l4,
}

-- What a walk leaves: the array and the index it stopped at.
pub record Walked : Type 0 where
  pub array : Buffer
  pub index : ℕ

-- for (i = 0; i < iter; ++i) j = ptr[j];
unfoldable pub direct_walk : ℕ → Buffer → ℕ → Exec Walked
direct_walk iter ptr j = do j' ← chase iter ptr j; returned (record { array = ptr; index = j' })

-- --ptr[j]
unfoldable pub decrement : Buffer → ℕ → Exec Buffer
decrement ptr j = load ptr j >>= λ v. store ptr j ((v + 2 ^ 32 - 1) % 2 ^ 32)

-- atomic_inc(&ptr[j])
unfoldable pub increment : Buffer → ℕ → Exec Buffer
increment ptr j = load ptr j >>= λ v. store ptr j (atomic_inc 32 v).cell

-- for (i = 0; i < iter; ++i) { atomic_inc(&ptr[j]); --ptr[j]; j = ptr[j]; }
unfoldable pub cas_walk : ℕ → Buffer → ℕ → Exec Walked
cas_walk zero ptr j = returned (record { array = ptr; index = j })
cas_walk (suc iter) ptr j =
    increment ptr j >>= λ p1. decrement p1 j >>= λ p2. load p2 j >>= λ j'. cas_walk iter p2 j'

pub data Place : Type 0 where
  local remote : Place

pub data Level : Type 0 where
  l1 l2 l3 me : Level

-- The lines that a thread leaves: the warnings, the allocations with their bytes, the cost with the
-- last index, the counters before and after that the library's ratios are of, the counts that `dump`
-- prints, and the two ways to free.
pub data Line : Type 0 where
  no_numa no_pcm no_bind bad_option : Line
  numa_allocated : (bytes node : ℕ) → Line
  malloced : (bytes : ℕ) → Line
  cost : Place → Level → (cycles index : ℕ) → Line
  statistics : (before after : CoreState) → Line
  dumped : (counts : List ℤ) → Line
  numa_freed : (bytes : ℕ) → Line
  freed : Line

-- The k-th reading of the cycle counter and of the core's counters; the library that programs these;
-- what the call that binds the thread returns, and what numa_available says; what a fresh block holds, `none` for NULL.
pub record Host : Type 0 where
  pub cycle : ℕ → ℕ
  pub counters : ℕ → CoreState
  pub pcm : Pcm
  pub affinity : ℤ
  pub numa_works : Bool
  pub node_block : (bytes node : ℕ) → Option (ℕ → ℕ)
  pub heap_block : (bytes : ℕ) → Option (ℕ → ℕ)

-- const int32_t size = L3CacheSize * 32;
abbrev pub size : ℕ
size = l3_cache_size * 32

-- A block of that many words; NULL has no entry that may be accessed.
abbrev pub block : Option (ℕ → ℕ) → Buffer
block none = record { size = 0; at = λ i. 0 }
block (some words) = record { size = size; at = words }

abbrev pub fill_of : Level → Buffer → ℕ → Exec Filled
fill_of l1 = l1h
fill_of l2 = l1ml2h
fill_of l3 = l2ml3h
fill_of me = l3m

abbrev pub warm_of : Level → Buffer → ℕ → Exec Warmed
warm_of l1 = warm_up_l1
warm_of l2 = warm_up_l2
warm_of l3 = warm_up_l3
warm_of me = warm_up_l4

-- A division by zero ends the program.
abbrev pub divide : ℕ → ℕ → Exec ℕ
divide a zero = fault
divide a (suc b) = returned (a / suc b)

-- The array after a measurement, and the lines printed.
pub record Measured : Type 0 where
  pub array : Buffer
  pub lines : List Line

-- `outputDetailStatistic` of the two files; `cassmpthread` does not call it.
abbrev pub numa_statistic : CoreState → CoreState → List Line
numa_statistic before after = statistics before after ∷ []

abbrev pub smp_statistic : CoreState → CoreState → List Line
smp_statistic before after = dumped (dump before after) ∷ []

abbrev pub no_statistic : CoreState → CoreState → List Line
no_statistic before after = []

module _ (host : Host) (iter : ℕ) (walk : ℕ → Buffer → ℕ → Exec Walked)
    (report : CoreState → CoreState → List Line) where
  -- Fill, warm up, and time the walk: the k-th measurement of the thread.
  unfoldable pub measure : Place → Level → ℕ → Buffer → Exec Measured
  measure place level k ptr = do
    f ← fill_of level ptr size
    _ ← warm_of level f.array size
    w ← walk iter f.array 0
    c ← divide (sub_u64 (host.cycle (2 * k + 1)) (host.cycle (2 * k))) iter
    returned (record {
      array = w.array;
      lines =
          cost place level c w.index ∷ report (host.counters (2 * k)) (host.counters (2 * k + 1));
    })

  -- The four levels on one block.
  unfoldable pub measure_all : Place → ℕ → Buffer → Exec (List Line)
  measure_all place k ptr = do
    m1 ← measure place l1 k ptr
    m2 ← measure place l2 (k + 1) m1.array
    m3 ← measure place l3 (k + 2) m2.array
    m4 ← measure place me (k + 3) m3.array
    returned (m1.lines ++ m2.lines ++ m3.lines ++ m4.lines)

  -- numa_alloc_onnode, the measurements, numa_free(ptr, size)
  unfoldable pub on_node : Place → ℕ → ℕ → Exec (List Line)
  on_node place node k = do
    lines ← measure_all place k (block (host.node_block (word_size * size) node))
    returned (numa_allocated (word_size * size) node ∷ lines ++ numa_freed size ∷ [])

  -- malloc, the measurements, and how the block is freed
  unfoldable pub on_heap : Line → Exec (List Line)
  on_heap free = do
    lines ← measure_all local 0 (block (host.heap_block (word_size * size)))
    returned (malloced (word_size * size) ∷ lines ++ free ∷ [])

module _ (host : Host) where
  -- `program` may fail; the thread goes on.
  abbrev pub pcm_lines : ℤ → List Line
  pcm_lines code = if truthy code then no_pcm ∷ [] else []

  -- m->program(), and initpcm()
  abbrev pub numa_pcm_lines : List Line
  numa_pcm_lines = pcm_lines (host.pcm.program none)

  abbrev pub smp_pcm_lines : List Line
  smp_pcm_lines = pcm_lines (initpcm host.pcm)

  -- `m->cleanup()` and `m->program()` on NULL
  abbrev pub with_instance : Exec (List Line) → Exec (List Line)
  with_instance work = if host.pcm.instance then work else fault

  -- if (setAffinity(0) < 0) a warning, else the work
  abbrev pub bound : Exec (List Line) → Exec (List Line)
  bound work = if is_neg host.affinity then returned (no_bind ∷ []) else work

  abbrev pub two_nodes : ℕ → (ℕ → Buffer → ℕ → Exec Walked) → Exec (List Line)
  two_nodes iter walk = do
    here ← on_node host iter walk numa_statistic local 0 0
    there ← on_node host iter walk numa_statistic remote 1 4
    returned (here ++ there)

  unfoldable pub memthread : ℕ → Exec (List Line)
  memthread iter =
      with_instance
        (do lines ← bound (two_nodes iter direct_walk); returned (numa_pcm_lines ++ lines))

  unfoldable pub casthread : ℕ → Exec (List Line)
  casthread iter =
      with_instance (do lines ← bound (two_nodes iter cas_walk); returned (numa_pcm_lines ++ lines))

  unfoldable pub smpmemthread : ℕ → Exec (List Line)
  smpmemthread iter = do
    lines ← bound (on_heap host iter direct_walk smp_statistic freed)
    returned (smp_pcm_lines ++ lines)

  -- No counters here, and `numa_free` on a block of `malloc`.
  unfoldable pub cassmpthread : ℕ → Exec (List Line)
  cassmpthread iter = bound (on_heap host iter cas_walk no_statistic (numa_freed size))

-- The command line: `-c` sets ITERCASE, whose 32 bits are what the threads read.
pub data Opt : Type 0 where
  rounds : (n : ℕ) → Opt
  other : Opt

unfoldable pub set_itercase : List Opt → ℕ → ℕ
set_itercase [] itercase = itercase
set_itercase (rounds n ∷ opts) itercase = set_itercase opts (u32 n)
set_itercase (other ∷ opts) itercase = set_itercase opts itercase

abbrev pub complaints : List Opt → List Line
complaints [] = []
complaints (rounds n ∷ opts) = complaints opts
complaints (other ∷ opts) = bad_option ∷ complaints opts

-- int ITERCASE = 10240000;
abbrev pub itercase : ℕ
itercase = 10240000

-- The two threads run one after the other, as calls.
abbrev pub one_after_the_other : Exec (List Line) → Exec (List Line) → Exec (List Line)
one_after_the_other first second = do a ← first; b ← second; returned (a ++ b)

-- The tests, on the host as the first and as the second thread find it.
module _ (host later : Host) where
  -- if (-1 == numa_available()) a warning, else the work
  abbrev pub with_numa : Exec (List Line) → Exec (List Line)
  with_numa work = if host.numa_works then work else returned (no_numa ∷ [])

  unfoldable pub numatest : List Opt → Exec (List Line)
  numatest opts = do
    let iter = set_itercase opts itercase
    lines ← with_numa (one_after_the_other (memthread host iter) (casthread later iter))
    returned (complaints opts ++ lines)

  unfoldable pub smptest : List Opt → Exec (List Line)
  smptest opts = do
    let iter = set_itercase opts itercase
    lines ← with_numa (one_after_the_other (smpmemthread host iter) (cassmpthread later iter))
    returned (complaints opts ++ lines)
