-- ===== src/Clock/Stopwatch/Runs.antt =====
-- Sequences of stopwatch operations, and the same on plain instants in microseconds.
use communication_speed.Prelude.{◌+◌, ◌*◌, ◌≡◌, refl, ap, ◌∙◌, arith, List, [], ◌∷◌}
use communication_speed.Prelude.Int.{ℤ, pos, pos_part, neg_part, ◌+ℤ◌, ◌-ℤ◌, scale, int_laws}
use communication_speed.Clock.Stopwatch
use communication_speed.Clock.Stopwatch.{Timeval, MyClock, interval, get_time_by_usec}

-- The operations that a program makes, each with its time.
pub data Op (T : Type 0) : Type 0 where
  begin stop resume end : T → Op T

unfoldable pub apply : Op Timeval → MyClock → MyClock
apply (begin t) c = Stopwatch.begin t c
apply (stop t) c = Stopwatch.stop t c
apply (resume t) c = Stopwatch.resume t c
apply (end t) c = Stopwatch.end t c

unfoldable pub run : List (Op Timeval) → MyClock → MyClock
run [] c = c
run (o ∷ os) c = run os (apply o c)

-- A stopwatch in the abstract: the instant from which it runs, and the time that it shows.
pub record Watch : Type 0 where
  pub since : ℤ
  pub shown : ℤ

abbrev pub tick : Op ℤ → Watch → Watch
tick (begin t) w = record { since = t; shown = pos 0 }
tick (stop t) w = record w { shown = w.shown +ℤ (t -ℤ w.since) }
tick (resume t) w = record w { since = t }
tick (end t) w = record w { shown = w.shown +ℤ (t -ℤ w.since) }

unfoldable pub ticks : List (Op ℤ) → Watch → Watch
ticks [] w = w
ticks (o ∷ os) w = ticks os (tick o w)

-- The instant of a time, in microseconds.
unfoldable pub instant : Timeval → ℤ
instant t = scale 1000000 t.sec +ℤ t.usec

abbrev pub instant_of : Op Timeval → Op ℤ
instant_of (begin t) = begin (instant t)
instant_of (stop t) = stop (instant t)
instant_of (resume t) = resume (instant t)
instant_of (end t) = end (instant t)

abbrev pub instants : List (Op Timeval) → List (Op ℤ)
instants [] = []
instants (o ∷ os) = instant_of o ∷ instants os

abbrev pub watch : MyClock → Watch
watch c = record { since = instant c.m_begin; shown = c.time_by_usec }

scale_parts :
    (x : ℤ)
    → pos_part (scale 1000000 x) + 1000000 * neg_part x
      ≡ neg_part (scale 1000000 x) + 1000000 * pos_part x
unfolding scale
scale_parts x = ground arith

-- The interval as the code writes it is the difference of the instants.
interval-eq : (b e : Timeval) → interval b e ≡ instant e -ℤ instant b
unfolding interval instant
interval-eq b e =
    omega (int_laws, scale_parts (e.sec -ℤ b.sec), scale_parts e.sec, scale_parts b.sec)

watch-apply : (o : Op Timeval) (c : MyClock) → watch (apply o c) ≡ tick (instant_of o) (watch c)
unfolding apply Stopwatch.begin Stopwatch.stop Stopwatch.resume Stopwatch.end
watch-apply (begin t) c = refl
watch-apply (stop t) c =
    ap (λ d. record { since = instant c.m_begin; shown = c.time_by_usec +ℤ d })
      (interval-eq c.m_begin t)
watch-apply (resume t) c = refl
watch-apply (end t) c =
    ap (λ d. record { since = instant c.m_begin; shown = c.time_by_usec +ℤ d })
      (interval-eq c.m_begin t)

watch-run :
    (os : List (Op Timeval)) (c : MyClock) → watch (run os c) ≡ ticks (instants os) (watch c)
unfolding run ticks
watch-run [] c = refl
watch-run (o ∷ os) c = watch-run os (apply o c) ∙ ap (ticks (instants os)) (watch-apply o c)

-- After any operations on any clock, `getTimeByUSec` gives what the abstract stopwatch shows after
-- the same operations on the instants in microseconds, each interval the difference of two of them.
pub run_refines :
    (os : List (Op Timeval)) (c : MyClock)
    → get_time_by_usec (run os c) ≡ (ticks (instants os) (watch c)).shown
unfolding get_time_by_usec
run_refines os c = ap (λ w. w.shown) (watch-run os c)
