-- ===== src/Clock.antt =====
-- The clocks: clock.h, and the stopwatch of clc/MyClock.cpp.
pub mod Stopwatch
pub mod Readings
mod Tests
