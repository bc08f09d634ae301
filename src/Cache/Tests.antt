-- ===== src/Cache/Tests.antt =====
-- mem/permutate.cpp on one block of the callers' size, with an entry more than the largest range.
use communication_speed.Prelude.{◌*◌, ◌/◌, ◌%◌, ◌≡◌, arith}
use communication_speed.Prelude.Exec.{returned, ◌>>=◌}
use communication_speed.Cache.{
  Buffer, warmed, line, l1_range, l2_range, l3_range, mem_range, l3_cache_size, l1h, l1ml2h, l2ml3h,
  l3m, warm_up_l1, warm_up_l2, warm_up_l3, warm_up_l4,
}
use communication_speed.Cache.Cycle.{IsCycle, fills_are_cycles}
use communication_speed.Cache.WarmUp.{fill_then_warm_up}

-- L3CacheSize * 32 entries, as the callers allocate
abbrev block : Buffer
block = record { size = l3_cache_size * 32; at = λ i. 0 }

cycles_block :
    ((array : Buffer) × (l1h block (l3_cache_size * 32)
        ≡ returned (record { range = l1_range; array = array }))
      × IsCycle 1 1 l1_range array)
    × ((array : Buffer) × (l1ml2h block (l3_cache_size * 32)
          ≡ returned (record { range = l2_range; array = array }))
        × IsCycle line 5 (l2_range / line) array)
    × ((array : Buffer) × (l2ml3h block (l3_cache_size * 32)
          ≡ returned (record { range = l3_range; array = array }))
        × IsCycle line 5 (l3_range / line) array)
    × ((array : Buffer) × (l3m block (l3_cache_size * 32)
          ≡ returned (record { range = mem_range; array = array }))
        × IsCycle line 5 (mem_range / line) array)
cycles_block = fills_are_cycles block (l3_cache_size * 32) (omega arith) (omega arith)

warm_up_block :
    ((l1h block (l3_cache_size * 32) >>= λ f. warm_up_l1 f.array (l3_cache_size * 32))
      ≡ returned (warmed 0))
    × ((l1ml2h block (l3_cache_size * 32) >>= λ f. warm_up_l2 f.array (l3_cache_size * 32))
        ≡ returned (warmed 0))
    × ((l2ml3h block (l3_cache_size * 32) >>= λ f. warm_up_l3 f.array (l3_cache_size * 32))
        ≡ returned (warmed 0))
    × ((l3m block (l3_cache_size * 32) >>= λ f. warm_up_l4 f.array (l3_cache_size * 32))
        ≡ returned (warmed (line * (5 * (l3_cache_size * 32) % (mem_range / line)))))
warm_up_block = fill_then_warm_up block (l3_cache_size * 32) (omega arith) (omega arith)
