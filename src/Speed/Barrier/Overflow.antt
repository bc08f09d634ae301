-- ===== src/Speed/Barrier/Overflow.antt =====
-- How far the writer's loop goes.
use mathlib.Core.Path.{subst}
use communication_speed.Prelude.{
  ℕ, zero, suc, ◌+◌, ◌*◌, ◌^◌, ◌<◌, ◌≡◌, ◌∙◌, refl, ap, arith, [], false,
}
use communication_speed.Prelude.Int.{ℤ, pos, is_neg}
use communication_speed.Speed.Barrier.{
  raise_first, raise_second, overflowed, State, bound_writer, raised_first, raised_second, write,
  Reaches, begins, writes, settled,
}
use communication_speed.Speed.Barrier.Order.{raise_to, raise_overflows, raise_second_fits}

-- Before round `k`, and within it, with a reader that does not run.
abbrev before : ℕ → State
before k = record settled { mem1 = pos (10 * k + 1); mem2 = pos (10 * k + 2); writer = raise_first }

abbrev within : ℕ → State
within k = record settled {
  mem1 = pos (10 * k + 11);
  mem2 = pos (10 * k + 2);
  writer = raise_second;
}

module _ (run_on : ℕ → ℤ) where
  write_to :
      {s s' : State}
      → write run_on s.writer s ≡ s'
      → Reaches run_on settled s
      → Reaches run_on settled s'
  write_to e r = subst (Reaches run_on settled) e (writes r)

  climbs_within :
      (k : ℕ)
      → 10 * k + 11 < 2 ^ 31
      → Reaches run_on settled (before k)
      → Reaches run_on settled (within k)
  unfolding write raised_first
  climbs_within k h r =
      write_to {s = before k}
        (ap (λ x. raised_first run_on x (before k))
          (raise_to (pos (10 * k + 1)) (10 * k + 1) (10 * k + 11) refl (omega arith) h))
        r

  climbs :
      (k : ℕ) → is_neg (run_on 0) ≡ false → 10 * k + 1 < 2 ^ 31 → Reaches run_on settled (before k)
  unfolding write bound_writer raised_second
  climbs zero b h = write_to {s = settled} (ap (λ x. bound_writer run_on x settled) b) begins
  climbs (suc k) b h =
      write_to {s = within k}
        (ap (λ x. raised_second run_on x (within k))
            (raise_second_fits (pos (10 * k + 2)) k refl (omega arith))
          ∙ (λ i. record (before (suc k)) { mem1 = one_more i }))
        (climbs_within k (omega arith) (climbs k b (omega arith)))
    where
      one_more : pos (10 * k + 11) ≡ pos (10 * suc k + 1)
      one_more = ap pos (omega arith)

-- Where the thread can be bound, some order of the steps after the two stores leads the loop of the
-- writer, which has no end, to an addition that an `int` cannot hold, before anything is printed.
pub barrier_overflows :
    (run_on : ℕ → ℤ)
    → is_neg (run_on 0) ≡ false
    → (s : State) × Reaches run_on settled s × (s.writer ≡ overflowed) × (s.printed ≡ [])
unfolding write raised_first
barrier_overflows run_on b =
    let k : ℕ = 214748364 in
    (
      record (before k) { writer = overflowed },
      write_to run_on {s = before k}
          (ap (λ x. raised_first run_on x (before k)) (raise_overflows (10 * k + 1) (omega arith)))
          (climbs run_on k b (omega arith)),
      refl,
      refl,
    )
