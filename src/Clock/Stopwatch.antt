-- ===== src/Clock/Stopwatch.antt =====
-- clc/MyClock.cpp and clc/MyClock.h: a stopwatch on `gettimeofday`. An operation takes the time that
-- the call stored; a `long` is an integer, and `Bounds` says when one holds it.
pub mod Runs
pub mod Bounds
use communication_speed.Prelude.{ℕ, Option, none, some}
use communication_speed.Prelude.Int.{ℤ, pos, ◌+ℤ◌, ◌-ℤ◌, scale, divide_by}

-- struct timeval
pub record Timeval : Type 0 where
  pub sec : ℤ
  pub usec : ℤ

pub record MyClock : Type 0 where
  pub m_begin : Timeval
  pub m_end : Timeval
  pub time_by_usec : ℤ

-- `new MyClock()`: the constructor sets the sum alone.
abbrev pub new_clock : Timeval → Timeval → MyClock
new_clock b e = record { m_begin = b; m_end = e; time_by_usec = pos 0 }

-- The one instance, made at the first call. `b` and `e` are what fresh memory holds.
unfoldable pub get_instance : Timeval → Timeval → Option MyClock → MyClock
get_instance b e none = new_clock b e
get_instance b e (some c) = c

unfoldable pub begin : Timeval → MyClock → MyClock
begin now c = record c { m_begin = now; time_by_usec = pos 0 }

-- 1000000 * (end.sec - begin.sec) + end.usec - begin.usec
unfoldable pub interval : Timeval → Timeval → ℤ
interval b e = scale 1000000 (e.sec -ℤ b.sec) +ℤ e.usec -ℤ b.usec

unfoldable pub stop : Timeval → MyClock → MyClock
stop now c = record c { m_end = now; time_by_usec = c.time_by_usec +ℤ interval c.m_begin now }

unfoldable pub resume : Timeval → MyClock → MyClock
resume now c = record c { m_begin = now }

unfoldable pub end : Timeval → MyClock → MyClock
end now c = record c { m_end = now; time_by_usec = c.time_by_usec +ℤ interval c.m_begin now }

unfoldable pub get_time_by_sec : MyClock → ℤ
get_time_by_sec c = divide_by 1000000 c.time_by_usec

unfoldable pub get_time_by_msec : MyClock → ℤ
get_time_by_msec c = divide_by 1000 c.time_by_usec

unfoldable pub get_time_by_usec : MyClock → ℤ
get_time_by_usec c = c.time_by_usec
