-- ===== src/Clock/Tests.antt =====
-- clock.h and clc/MyClock.cpp on fixed times.
use communication_speed.Prelude.{ℕ, ◌≡◌, refl, arith, List, [], ◌∷◌}
use communication_speed.Prelude.Int.{pos, ◌≤ℤ◌, ◌-ℤ◌, ◌+ℤ◌, scale}
use communication_speed.Clock.Stopwatch
use communication_speed.Clock.Stopwatch.{
  Timeval, MyClock, new_clock, interval, get_time_by_usec, get_time_by_msec, get_time_by_sec,
}
use communication_speed.Clock.Stopwatch.Runs.{
  Op, stop, resume, end, apply, run, ticks, instant, instants, watch, run_refines,
}
use communication_speed.Clock.Stopwatch.Bounds.{last_instant, elapsed_bounds}

abbrev at : ℕ → ℕ → Timeval
at sec usec = record { sec = pos sec; usec = pos usec }

abbrev fresh : MyClock
fresh = new_clock (at 0 0) (at 0 0)

-- Two measured spells: 1.5 s, and 0.25 s across a second's end.
abbrev spells : List (Op Timeval)
spells = stop (at 11 600000) ∷ resume (at 20 900000) ∷ end (at 21 150000) ∷ []

spells_shown : get_time_by_usec (run spells (Stopwatch.begin (at 10 100000) fresh)) ≡ pos 1750000
unfolding get_time_by_usec run apply Stopwatch.begin Stopwatch.stop Stopwatch.resume Stopwatch.end
    interval scale ◌-ℤ◌ ◌+ℤ◌
spells_shown = refl

run_refines-spells :
    get_time_by_usec (run spells fresh) ≡ (ticks (instants spells) (watch fresh)).shown
run_refines-spells = run_refines spells fresh

spells_bounds :
    (pos 0 ≤ℤ get_time_by_usec (run spells (Stopwatch.begin (at 10 100000) fresh)))
    × (get_time_by_usec (run spells (Stopwatch.begin (at 10 100000) fresh))
        ≤ℤ last_instant (instant (at 10 100000)) (instants spells) -ℤ instant (at 10 100000))
unfolding instant scale ◌+ℤ◌
spells_bounds = elapsed_bounds (at 10 100000) spells fresh (omega arith)
