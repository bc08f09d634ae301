-- ===== src/Clock/Readings.antt =====
-- clock.h: the cycle counter, and the time of day.
use communication_speed.Prelude.{
  ℕ, ◌+◌, ◌*◌, ◌/◌, ◌%◌, ◌^◌, ◌<◌, ◌≡◌, ◌∙◌, ◌↔◌, ◌⊎◌, ap, arith, bit_or, u64, ◌<<<◌,
}
use communication_speed.Prelude.Or.{bit_or-eq-add}

-- `rdtsc` leaves the halves of the counter in two registers.
unfoldable pub get_cycle_count : ℕ → ℕ → ℕ
get_cycle_count lo hi = bit_or lo (u64 (hi <<< 32))

-- val.tv_sec * 1000000 + val.tv_usec, for a time from 1970 on
unfoldable pub get_time_of_ms : ℕ → ℕ → ℕ
get_time_of_ms sec usec = u64 (sec * 1000000 + usec)

joined : (lo hi : ℕ) → lo < 2 ^ 32 → hi < 2 ^ 32 → get_cycle_count lo hi ≡ lo + hi * 2 ^ 32
unfolding get_cycle_count
joined lo hi l h =
    let e : u64 (hi <<< 32) ≡ hi * 2 ^ 32 = omega arith in
    ap (bit_or lo) e ∙ bit_or-eq-add 32 lo hi l

-- Where the registers hold 32 bits each, as `rdtsc` leaves them, the count has both in its halves
-- and fits 64 bits; a later counter, compared half by half, gives a larger count.
cycle_count_halves :
    (lo hi lo' hi' : ℕ)
    → lo < 2 ^ 32
    → hi < 2 ^ 32
    → lo' < 2 ^ 32
    → hi' < 2 ^ 32
    → (get_cycle_count lo hi % 2 ^ 32 ≡ lo)
      × (get_cycle_count lo hi / 2 ^ 32 ≡ hi)
      × (get_cycle_count lo hi < 2 ^ 64)
      × ((get_cycle_count lo hi < get_cycle_count lo' hi')
          ↔ ((hi < hi') ⊎ ((hi ≡ hi') × (lo < lo'))))
cycle_count_halves lo hi lo' hi' l h l' h' =
    let e = joined lo hi l h in
    let e' = joined lo' hi' l' h' in
    (omega (arith, e), omega (arith, e), omega (arith, e), grind (arith, e, e'))

-- On a time from 1970 on that fits a word in microseconds, `getTimeOfMs` gives microseconds: the
-- milliseconds are its thousandth part.
get_time_of_ms-div :
    (sec usec : ℕ)
    → usec < 1000000
    → sec * 1000000 + usec < 2 ^ 64
    → (get_time_of_ms sec usec / 1000 ≡ sec * 1000 + usec / 1000)
      × (get_time_of_ms sec usec / 1000000 ≡ sec)
unfolding get_time_of_ms
get_time_of_ms-div sec usec h fits = omega arith
