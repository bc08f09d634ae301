-- ===== src/Clock/Stopwatch/Bounds.antt =====
-- What a stopwatch can show when its operations alternate and time does not run backwards, and how
-- its three units agree.
use communication_speed.Prelude.{
  ◌+◌, ◌*◌, ◌≡◌, ◌<◌, refl, ap, arith, List, [], ◌∷◌, Bool, true, false,
}
use communication_speed.Prelude.Int.{
  ℤ, pos, pos_part, neg_part, ◌+ℤ◌, ◌-ℤ◌, ◌≤ℤ◌, divide_by, int_laws,
}
use communication_speed.Clock.Stopwatch
use communication_speed.Clock.Stopwatch.{
  Timeval, MyClock, get_time_by_usec, get_time_by_msec, get_time_by_sec,
}
use communication_speed.Clock.Stopwatch.Runs.{
  Op, begin, stop, resume, end, run, ticks, instant, instants, watch, run_refines,
}

-- The operations alternate: a running watch is stopped or ended, a stopped one is resumed; and no
-- instant is before the last.
abbrev pub Alternates : Bool → ℤ → List (Op ℤ) → Type 0
Alternates running last [] = Unit
Alternates true last (stop t ∷ os) = (last ≤ℤ t) × Alternates false t os
Alternates true last (end t ∷ os) = (last ≤ℤ t) × Alternates false t os
Alternates false last (resume t ∷ os) = (last ≤ℤ t) × Alternates true t os
Alternates running last (o ∷ os) = ⊥

-- The instant of the last operation.
abbrev pub last_instant : ℤ → List (Op ℤ) → ℤ
last_instant last [] = last
last_instant last (begin t ∷ os) = last_instant t os
last_instant last (stop t ∷ os) = last_instant t os
last_instant last (resume t ∷ os) = last_instant t os
last_instant last (end t ∷ os) = last_instant t os

-- What is shown grows, by no more than the time that goes by.
abbrev Grows : ℤ → ℤ → ℤ → ℤ → Type 0
Grows shown last shown' last' =
    (last ≤ℤ last') × (shown ≤ℤ shown') × (shown' -ℤ shown ≤ℤ last' -ℤ last)

Grows-same : (s l : ℤ) → Grows s l s l
Grows-same s l = omega int_laws

Grows-stop :
    (s l since t s' l' : ℤ)
    → since ≡ l
    → l ≤ℤ t
    → Grows (s +ℤ (t -ℤ since)) t s' l'
    → Grows s l s' l'
Grows-stop s l since t s' l' e h g = omega (int_laws, ap pos_part e, ap neg_part e)

Grows-resume : (s l t s' l' : ℤ) → l ≤ℤ t → Grows s t s' l' → Grows s l s' l'
Grows-resume s l t s' l' h g = omega int_laws

ticks-Grows :
    (os : List (Op ℤ)) (running : Bool) (l since s : ℤ)
    → (running ≡ true → since ≡ l)
    → Alternates running l os
    → Grows s l (ticks os (record { since = since; shown = s })).shown (last_instant l os)
unfolding ticks
ticks-Grows [] running l since s e a = Grows-same s l
ticks-Grows (begin t ∷ os) true l since s e a = absurd a
ticks-Grows (begin t ∷ os) false l since s e a = absurd a
ticks-Grows (stop t ∷ os) true l since s e (h, a) =
    Grows-stop s l since t _ _ (e refl) h
      (ticks-Grows os false t since (s +ℤ (t -ℤ since)) (λ f. cc) a)
ticks-Grows (stop t ∷ os) false l since s e a = absurd a
ticks-Grows (end t ∷ os) true l since s e (h, a) =
    Grows-stop s l since t _ _ (e refl) h
      (ticks-Grows os false t since (s +ℤ (t -ℤ since)) (λ f. cc) a)
ticks-Grows (end t ∷ os) false l since s e a = absurd a
ticks-Grows (resume t ∷ os) true l since s e a = absurd a
ticks-Grows (resume t ∷ os) false l since s e (h, a) =
    Grows-resume s l t _ _ h (ticks-Grows os true t t s (λ f. refl) a)

-- After `begin`, where the operations alternate between stopping and resuming and no time is before
-- the last, `getTimeByUSec` gives at least 0 and at most the microseconds from the first time to the
-- last.
pub elapsed_bounds :
    (start : Timeval) (os : List (Op Timeval)) (c : MyClock)
    → Alternates true (instant start) (instants os)
    → (pos 0 ≤ℤ get_time_by_usec (run os (Stopwatch.begin start c)))
      × (get_time_by_usec (run os (Stopwatch.begin start c))
          ≤ℤ last_instant (instant start) (instants os) -ℤ instant start)
unfolding Stopwatch.begin
elapsed_bounds start os c a =
    let b : MyClock = record c { m_begin = start; time_by_usec = pos 0 } in
    let e : get_time_by_usec (run os b) ≡ (ticks (instants os) (watch b)).shown =
      run_refines os b in
    let g = ticks-Grows (instants os) true (instant start) (instant start) (pos 0) (λ f. refl) a in
    omega (int_laws, ap pos_part e, ap neg_part e, g.0, g.1, g.2)

-- The three readings of any clock agree: milliseconds and seconds are the microseconds divided
-- towards 0, the seconds are also the milliseconds so divided, and what the seconds leave out of the
-- microseconds is less than one second, on either side of 0.
units_agree :
    (c : MyClock)
    → (get_time_by_sec c ≡ divide_by 1000 (get_time_by_msec c))
      × (get_time_by_msec c ≡ divide_by 1000 (get_time_by_usec c))
      × (pos_part (get_time_by_usec c) < 1000000 * pos_part (get_time_by_sec c) + 1000000)
      × (neg_part (get_time_by_usec c) < 1000000 * neg_part (get_time_by_sec c) + 1000000)
unfolding get_time_by_sec get_time_by_msec get_time_by_usec
units_agree c = (ground arith, ground arith, ground arith, ground arith)
