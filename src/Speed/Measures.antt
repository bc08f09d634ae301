-- ===== src/Speed/Measures.antt =====
-- One measurement of mem/numatest.cpp and mem/smptest.cpp: the fill, the warm-up and the walk.
use communication_speed.Prelude.{
  ℕ, suc, ◌+◌, ◌*◌, ◌/◌, ◌%◌, ◌^◌, ◌≤◌, ◌<◌, ◌≡◌, ◌∙◌, refl, sym, ap, arith, List, ◌∷◌, ◌++◌,
  sub_u64,
}
use communication_speed.Prelude.Exec.{Exec, returned, ◌>>=◌, returned-injective}
use communication_speed.Cache.{
  Buffer, Warmed, warmed, line, l1_range, l2_range, l3_range, mem_range,
}
use communication_speed.Cache.Fill.{filled, l1h_lem, l1ml2h_lem, l2ml3h_lem, l3m_lem}
use communication_speed.Cache.Cycle.{
  IsCycle, l1h-IsCycle, l1ml2h-IsCycle, l2ml3h-IsCycle, l3m-IsCycle,
}
use communication_speed.Cache.WarmUp.{fill_then_warm_up}
use communication_speed.Speed.{
  Host, Level, l1, l2, l3, me, Place, Line, cost, Walked, size, fill_of, warm_of, divide, measure,
  direct_walk, cas_walk,
}
use communication_speed.Speed.Counters.{CoreState}
use communication_speed.Speed.Walks.{Small, same_walk}

-- The cycle of each level: how wide a stop is, how many stops one step goes on, how many there are.
abbrev pub width : Level → ℕ
width l1 = 1
width _ = line

abbrev pub stride : Level → ℕ
stride l1 = 1
stride _ = 5

abbrev pub count : Level → ℕ
count l1 = l1_range
count l2 = l2_range / line
count l3 = l3_range / line
count me = mem_range / line

abbrev pub stop : Level → ℕ → ℕ
stop level iter = width level * (stride level * iter % count level)

pub record Prepared (level : Level) (b : Buffer) : Type 0 where
  pub range : ℕ
  pub array : Buffer
  pub last : Warmed
  pub fills : fill_of level b size ≡ returned (record { range = range; array = array })
  pub warms : warm_of level array size ≡ returned last
  pub cycle : IsCycle (width level) (stride level) (count level) array
  pub large : size ≤ array.size

prepare :
    (level : Level) (b closed_form : Buffer) (range : ℕ) (last : Warmed)
    → fill_of level b size ≡ returned (record { range = range; array = closed_form })
    → size ≤ closed_form.size
    → (fill_of level b size >>= λ f. warm_of level f.array size) ≡ returned last
    → (array : Buffer) × (fill_of level b size ≡ returned (record { range = range; array = array }))
      × IsCycle (width level) (stride level) (count level) array
    → Prepared level b
prepare level b closed_form range last known room warm (array, e, c) =
    let same : closed_form.size ≡ array.size =
      ap (λ f. f.array.size) (returned-injective (sym known ∙ e)) in
    record {
      range = range;
      array = array;
      last = last;
      fills = e;
      warms = sym (ap (λ m. m >>= λ f. warm_of level f.array size) e) ∙ warm;
      cycle = c;
      large = omega (arith, room, same);
    }

pub prepared : (level : Level) (b : Buffer) → size ≤ b.size → Prepared level b
prepared l1 b h =
    prepare l1 b (filled 1 1 l1_range 0 b) l1_range (warmed 0) (l1h_lem b size h (omega arith)) h
      (fill_then_warm_up b size h (omega arith)).0 (l1h-IsCycle b size h (omega arith))
prepared l2 b h =
    prepare l2 b (filled line (line * 5) l2_range 0 b) l2_range (warmed 0)
      (l1ml2h_lem b size h (omega arith)) h (fill_then_warm_up b size h (omega arith)).1
      (l1ml2h-IsCycle b size h (omega arith))
prepared l3 b h =
    prepare l3 b (filled line (line * 5) l3_range 0 b) l3_range (warmed 0)
      (l2ml3h_lem b size h (omega arith)) h (fill_then_warm_up b size h (omega arith)).2
      (l2ml3h-IsCycle b size h (omega arith))
prepared me b h =
    prepare me b (filled line (line * 5) mem_range 0 b) mem_range
      (warmed (line * (5 * size % (mem_range / line)))) (l3m_lem b size h (omega arith)) h
      (fill_then_warm_up b size h (omega arith)).3 (l3m-IsCycle b size h (omega arith))

stop-lt : (level : Level) (t : ℕ) → stop level t < 2 ^ 32
stop-lt l1 t = omega arith
stop-lt l2 t = omega arith
stop-lt l3 t = omega arith
stop-lt me t = omega arith

-- A walk that goes round the cycles of the four levels.
abbrev pub Rounds : (ℕ → Buffer → ℕ → Exec Walked) → Type 0
Rounds walk =
    (level : Level) (array : Buffer)
    → IsCycle (width level) (stride level) (count level) array
    → (iter : ℕ) → walk iter array 0 ≡ returned (record { array = array; index = stop level iter })

pub direct_walk-Rounds : Rounds direct_walk
unfolding direct_walk
direct_walk-Rounds level array c iter =
    ap (λ m. m >>= λ j. returned (record { array = array; index = j })) (c.visits iter)

cycle-Small :
    (level : Level) (array : Buffer)
    → IsCycle (width level) (stride level) (count level) array
    → Small array 0
cycle-Small level array c t v e =
    let same : stop level (suc t) ≡ v = returned-injective (sym (c.visits (suc t)) ∙ e) in
    omega (arith, stop-lt level (suc t), same)

pub cas_walk-Rounds : Rounds cas_walk
cas_walk-Rounds level array c iter =
    same_walk iter array 0 (cycle-Small level array c) ∙ direct_walk-Rounds level array c iter

-- What the k-th measurement of a thread prints, and what four in a row print.
module _ (host : Host) (iter : ℕ) (report : CoreState → CoreState → List Line) where
  abbrev pub printed : Place → Level → ℕ → List Line
  printed place level k =
      cost place level (sub_u64 (host.cycle (2 * k + 1)) (host.cycle (2 * k)) / iter)
        (stop level iter)
      ∷ report (host.counters (2 * k)) (host.counters (2 * k + 1))

  abbrev pub all_printed : Place → ℕ → List Line
  all_printed place k =
      printed place l1 k
      ++ printed place l2 (k + 1)
      ++ printed place l3 (k + 2)
      ++ printed place me (k + 3)

module _ (host : Host) (iter : ℕ) (walk : ℕ → Buffer → ℕ → Exec Walked)
    (report : CoreState → CoreState → List Line) (rounds : Rounds walk)
    (some_rounds : 0 < iter) where
  divides : (a iter : ℕ) → 0 < iter → divide a iter ≡ returned (a / iter)
  divides a iter h = ground arith

  pub measure_lem :
      (place : Place) (level : Level) (k : ℕ) (b : Buffer)
      → size ≤ b.size
      → (array : Buffer) × (size ≤ array.size)
        × (measure host iter walk report place level k b
            ≡ returned (record { array = array; lines = printed host iter report place level k }))
  unfolding measure
  measure_lem place level k b h =
      let p = prepared level b h in
      (
        p.array,
        p.large,
        rw
            (
              p.fills,
              p.warms,
              rounds level p.array p.cycle iter,
              divides (sub_u64 (host.cycle (2 * k + 1)) (host.cycle (2 * k))) iter some_rounds,
            )
            refl,
      )
