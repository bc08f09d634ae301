-- ===== src/Speed/Counters/Counts.antt =====
-- What is printed of counters that have gone on.
use communication_speed.Prelude.{ℕ, ◌+◌, ◌%◌, ◌^◌, ◌<◌, ◌≡◌, arith, [], ◌∷◌, sub_u64, map, leb}
use communication_speed.Prelude.Int.{is_neg}
use communication_speed.Speed.Counters.{
  CoreState, as_int, dump, get_l1_cache_hit, get_l2_cache_hit, get_l3_cache_hit,
}

-- The counters after these many more loads and hits, as words of 64 bits.
abbrev pub advance : CoreState → (loads l1 l2 l3 : ℕ) → CoreState
advance a loads l1 l2 l3 = record {
  event0 = (a.event0 + loads) % 2 ^ 64;
  event1 = (a.event1 + l1) % 2 ^ 64;
  event2 = (a.event2 + l2) % 2 ^ 64;
  event3 = (a.event3 + l3) % 2 ^ 64;
}

advanced : (x d : ℕ) → x < 2 ^ 64 → d < 2 ^ 64 → sub_u64 ((x + d) % 2 ^ 64) x ≡ d
advanced x d h k = omega arith

-- The counters of a reading are words of 64 bits.
pub record IsReading (a : CoreState) : Type 0 where
  pub event0 : a.event0 < 2 ^ 64
  pub event1 : a.event1 < 2 ^ 64
  pub event2 : a.event2 < 2 ^ 64
  pub event3 : a.event3 < 2 ^ 64

as_int-is_neg : (d : ℕ) → is_neg (as_int d) ≡ leb (2 ^ 31) (d % 2 ^ 32)
unfolding as_int
as_int-is_neg d = ground arith

-- After less than 2 ^ 64 loads and hits of each level since a reading, also where a counter has gone
-- over its 64 bits, `dump` prints the hits and the loads as `int`, and the three ratios have the
-- hits of their level over the loads; the loads are printed as a negative number exactly where their
-- lower 32 bits are at least 2 ^ 31.
pub dump_lem :
    (a : CoreState) (loads l1 l2 l3 : ℕ)
    → IsReading a
    → loads < 2 ^ 64
    → l1 < 2 ^ 64
    → l2 < 2 ^ 64
    → l3 < 2 ^ 64
    → (dump a (advance a loads l1 l2 l3) ≡ map as_int (l1 ∷ l2 ∷ l3 ∷ loads ∷ []))
      × (get_l1_cache_hit a (advance a loads l1 l2 l3) ≡ record { over = l1; under = loads })
      × (get_l2_cache_hit a (advance a loads l1 l2 l3) ≡ record { over = l2; under = loads })
      × (get_l3_cache_hit a (advance a loads l1 l2 l3) ≡ record { over = l3; under = loads })
      × (is_neg (as_int loads) ≡ leb (2 ^ 31) (loads % 2 ^ 32))
unfolding dump get_l1_cache_hit get_l2_cache_hit get_l3_cache_hit
dump_lem a loads l1 l2 l3 r h0 h1 h2 h3 =
    let e0 = advanced a.event0 loads r.event0 h0 in
    let e1 = advanced a.event1 l1 r.event1 h1 in
    let e2 = advanced a.event2 l2 r.event2 h2 in
    let e3 = advanced a.event3 l3 r.event3 h3 in
    (
      (λ i. as_int (e1 i) ∷ as_int (e2 i) ∷ as_int (e3 i) ∷ as_int (e0 i) ∷ []),
      (λ i. record { over = e1 i; under = e0 i }),
      (λ i. record { over = e2 i; under = e0 i }),
      (λ i. record { over = e3 i; under = e0 i }),
      as_int-is_neg loads,
    )
