-- ===== src/Cache/Cycle.antt =====
-- The pointer chase through the arrays that the fills of mem/permutate.cpp leave.
use communication_speed.Prelude.{
  ℕ, suc, ◌+◌, ◌*◌, ◌/◌, ◌%◌, ◌<◌, ◌≤◌, ◌≡◌, ◌≢◌, ◌∙◌, sym, ap, arith,
}
use communication_speed.Prelude.Exec.{returned, returned-injective}
use communication_speed.Cache.{
  Buffer, load, chase, line, l1_range, l2_range, l3_range, mem_range, l1h, l1ml2h, l2ml3h, l3m,
}
use communication_speed.Cache.Fill.{filled, l1h_lem, l1ml2h_lem, l2ml3h_lem, l3m_lem}
use communication_speed.Cache.Chase.{load-filled, chase_along}

-- From entry 0 the chase reads the multiples of `width` below `width * n`, `stride` of them further
-- at each step; it meets each one within `n` steps, and entry 0 not before `n`.
pub record IsCycle (width stride n : ℕ) (array : Buffer) : Type 0 where
  pub visits : (t : ℕ) → chase t array 0 ≡ returned (width * (stride * t % n))
  pub covers : (c : ℕ) → c < n → (t : ℕ) × (t < n) × (chase t array 0 ≡ returned (width * c))
  pub fresh : (t : ℕ) → 0 < t → t < n → chase t array 0 ≢ returned 0

at_start : (width stride n : ℕ) → width * (stride * 0 % n) ≡ 0
at_start width stride n = let e : stride * 0 % n ≡ 0 = omega arith in rw e (omega arith)

module _ (width stride n inverse : ℕ) (inside : (c : ℕ) → width * (c % n) < width * n)
    (aligned : (c : ℕ) → width * c % width ≡ 0)
    (next : (t : ℕ)
      → (width * (stride * t % n) + width * stride) % (width * n) ≡ width * (stride * suc t % n))
    (solves : (c : ℕ) → c < n → stride * (inverse * c % n) % n ≡ c)
    (below : (c : ℕ) → inverse * c % n < n)
    (first : (t : ℕ) → 0 < t → t < n → width * (stride * t % n) ≢ 0) where
  -- Where the chase stands after `t` steps.
  abbrev at : ℕ → ℕ
  at t = width * (stride * t % n)

  visits_lem :
      (b : Buffer)
      → width * n ≤ b.size
      → (t : ℕ)
      → chase t (filled width (width * stride) (width * n) 0 b) 0
        ≡ returned (width * (stride * t % n))
  visits_lem b s t =
      let array : Buffer = filled width (width * stride) (width * n) 0 b in
      let leads : (k : ℕ) → load array (at k) ≡ returned (at (suc k)) = λ k.
        load-filled width (width * stride) (width * n) b (at k) (aligned (stride * k % n))
          (inside (stride * k)) s
        ∙ ap returned (next k) in
      ap (λ j. chase t array j) (sym (at_start width stride n))
      ∙ chase_along array at leads t 0
      ∙ ap (λ k. returned (at k)) (omega arith)

  pub filled-IsCycle :
      (b : Buffer)
      → width * n ≤ b.size
      → IsCycle width stride n (filled width (width * stride) (width * n) 0 b)
  filled-IsCycle b s = record {
    visits = visits_lem b s;
    covers = λ c lt. (
      inverse * c % n,
      below c,
      visits_lem b s (inverse * c % n) ∙ ap (λ k. returned (width * k)) (solves c lt),
    );
    fresh = λ t p lt e. first t p lt (returned-injective (sym (visits_lem b s t) ∙ e));
  }

-- On a buffer of at least `size` entries, with `size` above the first level's range, `l1h` returns
-- the range and an array whose chase from entry 0 takes the entries below the range one by one,
-- meets each, and comes back to entry 0 only after the whole range.
pub l1h-IsCycle :
    (b : Buffer) (size : ℕ)
    → size ≤ b.size
    → l1_range < size
    → (array : Buffer) × (l1h b size ≡ returned (record { range = l1_range; array = array }))
      × IsCycle 1 1 l1_range array
l1h-IsCycle b size s h = (
  filled 1 1 l1_range 0 b,
  l1h_lem b size s h,
  filled-IsCycle 1 1 l1_range 1 (λ c. omega arith) (λ c. omega arith) (λ t. omega arith)
      (λ c lt. omega arith) (λ c. omega arith) (λ t p lt. omega arith) b (omega arith),
)

-- On a buffer of at least `size` entries, with `size` above the second level's range, `l1ml2h`
-- returns the range and an array whose chase from entry 0 goes five cache lines on at each step,
-- meets every line of the range, and comes back to entry 0 only after as many steps as lines.
pub l1ml2h-IsCycle :
    (b : Buffer) (size : ℕ)
    → size ≤ b.size
    → l2_range < size
    → (array : Buffer) × (l1ml2h b size ≡ returned (record { range = l2_range; array = array }))
      × IsCycle line 5 (l2_range / line) array
l1ml2h-IsCycle b size s h = (
  filled line (line * 5) l2_range 0 b,
  l1ml2h_lem b size s h,
  filled-IsCycle line 5 (l2_range / line) 1229 (λ c. omega arith) (λ c. omega arith)
      (λ t. omega arith) (λ c lt. omega arith) (λ c. omega arith) (λ t p lt. omega arith) b
      (omega arith),
)

-- On a buffer of at least `size` entries, with `size` above the third level's range, `l2ml3h`
-- returns the range and an array whose chase from entry 0 goes five cache lines on at each step,
-- meets every line of the range, and comes back to entry 0 only after as many steps as lines.
pub l2ml3h-IsCycle :
    (b : Buffer) (size : ℕ)
    → size ≤ b.size
    → l3_range < size
    → (array : Buffer) × (l2ml3h b size ≡ returned (record { range = l3_range; array = array }))
      × IsCycle line 5 (l3_range / line) array
l2ml3h-IsCycle b size s h = (
  filled line (line * 5) l3_range 0 b,
  l2ml3h_lem b size s h,
  filled-IsCycle line 5 (l3_range / line) 19661 (λ c. omega arith) (λ c. omega arith)
      (λ t. omega arith) (λ c lt. omega arith) (λ c. omega arith) (λ t p lt. omega arith) b
      (omega arith),
)

-- On a buffer of at least `size` entries, with `size` above the memory range, `l3m` returns the
-- range and an array whose chase from entry 0 goes five cache lines on at each step, meets every
-- line of the range, and comes back to entry 0 only after as many steps as lines.
pub l3m-IsCycle :
    (b : Buffer) (size : ℕ)
    → size ≤ b.size
    → mem_range < size
    → (array : Buffer) × (l3m b size ≡ returned (record { range = mem_range; array = array }))
      × IsCycle line 5 (mem_range / line) array
l3m-IsCycle b size s h = (
  filled line (line * 5) mem_range 0 b,
  l3m_lem b size s h,
  filled-IsCycle line 5 (mem_range / line) 314573 (λ c. omega arith) (λ c. omega arith)
      (λ t. omega arith) (λ c lt. omega arith) (λ c. omega arith) (λ t p lt. omega arith) b
      (omega arith),
)

-- On a buffer of at least `size` entries, with `size` above the memory range, each fill returns its
-- range and an array whose chase from entry 0 is one cycle: `l1h` takes the entries below the first
-- level's range one by one, and `l1ml2h`, `l2ml3h` and `l3m` go five cache lines on at each step,
-- meet every line of their range, and come back to entry 0 only after as many steps as lines.
pub fills_are_cycles :
    (b : Buffer) (size : ℕ)
    → size ≤ b.size
    → mem_range < size
    → ((array : Buffer) × (l1h b size ≡ returned (record { range = l1_range; array = array }))
        × IsCycle 1 1 l1_range array)
      × ((array : Buffer) × (l1ml2h b size ≡ returned (record { range = l2_range; array = array }))
          × IsCycle line 5 (l2_range / line) array)
      × ((array : Buffer) × (l2ml3h b size ≡ returned (record { range = l3_range; array = array }))
          × IsCycle line 5 (l3_range / line) array)
      × ((array : Buffer) × (l3m b size ≡ returned (record { range = mem_range; array = array }))
          × IsCycle line 5 (mem_range / line) array)
fills_are_cycles b size s h = (
  l1h-IsCycle b size s (omega arith),
  l1ml2h-IsCycle b size s (omega arith),
  l2ml3h-IsCycle b size s (omega arith),
  l3m-IsCycle b size s h,
)
