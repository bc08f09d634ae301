-- ===== src/Cache/WarmUp.antt =====
-- The warm-up loops of mem/permutate.cpp after the fills.
use communication_speed.Prelude.{
  ℕ, ◌*◌, ◌/◌, ◌%◌, ◌<◌, ◌≤◌, ◌≡◌, ◌∙◌, ap, arith, ltb, le→ltb, if◌then◌else◌,
}
use communication_speed.Prelude.Exec.{returned, ◌>>=◌}
use communication_speed.Cache.{
  Buffer, too_small, warmed, line, l1_range, l2_range, l3_range, mem_range, l1h, l1ml2h, l2ml3h,
  l3m, warmup_round, chase, warm_up_l1, warm_up_l2, warm_up_l3, warm_up_l4,
}
use communication_speed.Cache.Cycle.{
  IsCycle, l1h-IsCycle, l1ml2h-IsCycle, l2ml3h-IsCycle, l3m-IsCycle,
}

-- A warm-up of `rounds` rounds on a cycle reads no entry out of range.
chase-warmed :
    {width stride n : ℕ} {array : Buffer}
    → IsCycle width stride n array
    → (rounds : ℕ)
    → (chase rounds array 0 >>= λ j. returned (warmed j))
      ≡ returned (warmed (width * (stride * rounds % n)))
chase-warmed c rounds = ap (λ m. m >>= λ j. returned (warmed j)) (c.visits rounds)

-- On a buffer of at least `size` entries, with `size` above the range that is filled, each fill
-- followed by its warm-up returns, so no access was out of range; the first three warm-ups end at
-- entry 0, the last at the line that is `5 * size` lines on.
pub fill_then_warm_up :
    (b : Buffer) (size : ℕ)
    → size ≤ b.size
    → mem_range < size
    → ((l1h b size >>= λ f. warm_up_l1 f.array size) ≡ returned (warmed 0))
      × ((l1ml2h b size >>= λ f. warm_up_l2 f.array size) ≡ returned (warmed 0))
      × ((l2ml3h b size >>= λ f. warm_up_l3 f.array size) ≡ returned (warmed 0))
      × ((l3m b size >>= λ f. warm_up_l4 f.array size)
          ≡ returned (warmed (line * (5 * size % (mem_range / line)))))
unfolding warm_up_l1 warm_up_l2 warm_up_l3 warm_up_l4
fill_then_warm_up b size s h =
    let (a1, e1, c1) = l1h-IsCycle b size s (omega arith) in
    let (a2, e2, c2) = l1ml2h-IsCycle b size s (omega arith) in
    let (a3, e3, c3) = l2ml3h-IsCycle b size s (omega arith) in
    let (a4, e4, c4) = l3m-IsCycle b size s h in
    (
      ap (λ m. m >>= λ f. warm_up_l1 f.array size) e1
          ∙ enough l1_range a1 (omega arith)
          ∙ chase-warmed c1 (l1_range * warmup_round),
      ap (λ m. m >>= λ f. warm_up_l2 f.array size) e2
          ∙ enough l2_range a2 (omega arith)
          ∙ chase-warmed c2 (l2_range * warmup_round),
      ap (λ m. m >>= λ f. warm_up_l3 f.array size) e3
          ∙ enough l3_range a3 (omega arith)
          ∙ chase-warmed c3 (l3_range * warmup_round),
      ap (λ m. m >>= λ f. warm_up_l4 f.array size) e4 ∙ chase-warmed c4 size,
    )
  where
    enough :
        (range : ℕ) (a : Buffer)
        → range ≤ size
        → (if ltb size range
            then returned too_small
            else (chase (range * warmup_round) a 0 >>= λ j. returned (warmed j)))
          ≡ (chase (range * warmup_round) a 0 >>= λ j. returned (warmed j))
    enough range a le = rw (le→ltb size range le)
