-- ===== src/Cache.antt =====
-- mem/permutate.cpp: the index arrays whose pointer chase stays in one level of the cache, and the
-- warm-up loops that walk them. A C array is a buffer with a length; `size` is the parameter that
-- the callers pass beside the pointer.
pub mod Fill
pub mod Chase
pub mod Cycle
pub mod WarmUp
mod Tests
use communication_speed.Prelude.{
  ℕ, zero, suc, ◌+◌, ◌*◌, ◌/◌, ◌%◌, Bool, true, false, u32, ltb, ◌==◌, if◌then◌else◌,
}
use communication_speed.Prelude.Exec.{Exec, returned, fault, no_fuel, assert, ◌>>=◌, ◌>>◌}

abbrev pub cache_line_size : ℕ
cache_line_size = 64

abbrev pub l1_cache_size : ℕ
l1_cache_size = 16 * 1024

abbrev pub l2_cache_size : ℕ
l2_cache_size = 128 * 1024

abbrev pub l3_cache_size : ℕ
l3_cache_size = 3 * 1024 * 1024

abbrev pub warmup_round : ℕ
warmup_round = 100

-- sizeof(uint32_t)
abbrev pub word_size : ℕ
word_size = 4

-- A block of `uint32_t`; only indices below `size` are inside.
pub record Buffer : Type 0 where
  pub size : ℕ
  pub at : ℕ → ℕ

abbrev pub update : (ℕ → ℕ) → ℕ → ℕ → ℕ → ℕ
update f i v p = if p == i then v else f p

-- array[i]
unfoldable pub load : Buffer → ℕ → Exec ℕ
load b i = if ltb i b.size then returned (b.at i) else fault

-- array[i] = v
unfoldable pub store : Buffer → ℕ → ℕ → Exec Buffer
store b i v = if ltb i b.size then returned (record b { at = update b.at i v }) else fault

module _ (step ahead range : ℕ) where
  -- for (; i < range; i += step) array[i] = (i + ahead) % range;
  unfoldable pub fill : ℕ → ℕ → Buffer → Exec Buffer
  fill zero i b = no_fuel
  fill (suc fuel) i b = elim (ltb i range) [
    | true ↦ store b i (u32 (i + ahead) % range) >>= λ b'. fill fuel (u32 (i + step)) b'
    | false ↦ returned b
  ]

-- The number of `uint32_t` in a cache line: the `step` of the sparse fills.
abbrev pub line : ℕ
line = cache_line_size / word_size

abbrev pub l1_range : ℕ
l1_range = l1_cache_size / word_size

abbrev pub l2_range : ℕ
l2_range = l2_cache_size / word_size

abbrev pub l3_range : ℕ
l3_range = l3_cache_size / word_size

abbrev pub mem_range : ℕ
mem_range = l3_cache_size * 32 / word_size

-- What a fill returns to its caller: the range, with the array after the writes.
pub record Filled : Type 0 where
  pub range : ℕ
  pub array : Buffer

-- The four fills; one more unit of fuel than the range is enough (`Fill`).
unfoldable pub l1h : Buffer → ℕ → Exec Filled
l1h array size = do
  assert (ltb l1_range size)
  array' ← fill 1 1 l1_range (suc l1_range) 0 array
  returned (record { range = l1_range; array = array' })

unfoldable pub l1ml2h : Buffer → ℕ → Exec Filled
l1ml2h array size = do
  assert (ltb l2_range size)
  array' ← fill line (line * 5) l2_range (suc l2_range) 0 array
  returned (record { range = l2_range; array = array' })

unfoldable pub l2ml3h : Buffer → ℕ → Exec Filled
l2ml3h array size = do
  assert (ltb l3_range size)
  array' ← fill line (line * 5) l3_range (suc l3_range) 0 array
  returned (record { range = l3_range; array = array' })

unfoldable pub l3m : Buffer → ℕ → Exec Filled
l3m array size = do
  assert (ltb mem_range size)
  array' ← fill line (line * 5) mem_range (suc mem_range) 0 array
  returned (record { range = mem_range; array = array' })

-- for (i = 0; i < n; ++i) j = array[j];
unfoldable pub chase : ℕ → Buffer → ℕ → Exec ℕ
chase zero b j = returned j
chase (suc n) b j = load b j >>= λ j'. chase n b j'

-- What a warm-up comes to: an error message in the log, or the last index read.
pub data Warmed : Type 0 where
  too_small : Warmed
  warmed : ℕ → Warmed

abbrev warm_range : ℕ → Buffer → ℕ → Exec Warmed
warm_range range array size =
    if ltb size range
    then returned too_small
    else (chase (range * warmup_round) array 0 >>= λ j. returned (warmed j))

unfoldable pub warm_up_l1 : Buffer → ℕ → Exec Warmed
warm_up_l1 array size = warm_range l1_range array size

unfoldable pub warm_up_l2 : Buffer → ℕ → Exec Warmed
warm_up_l2 array size = warm_range l2_range array size

unfoldable pub warm_up_l3 : Buffer → ℕ → Exec Warmed
warm_up_l3 array size = warm_range l3_range array size

-- This one walks `size` rounds and tests nothing.
unfoldable pub warm_up_l4 : Buffer → ℕ → Exec Warmed
warm_up_l4 array size = chase size array 0 >>= λ j. returned (warmed j)
