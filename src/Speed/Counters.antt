-- ===== src/Speed/Counters.antt =====
-- mem/mypcm.cpp and mem/mypcm.h: the four events that the counters are set to, and what is printed
-- of two readings of them. The library that programs and reads the counters is a parameter.
pub mod Counts
use communication_speed.Prelude.{
  ℕ, ◌-◌, ◌%◌, ◌^◌, List, [], ◌∷◌, Bool, Option, some, ltb, sub_u64, if◌then◌else◌,
}
use communication_speed.Prelude.Int.{ℤ, pos, negsuc, minus_one}

-- The counters that `class CoreState` makes visible, of 64 bits each.
pub record CoreState : Type 0 where
  pub event0 : ℕ
  pub event1 : ℕ
  pub event2 : ℕ
  pub event3 : ℕ

-- PCM::CustomCoreEventDescription
pub record CoreEvent : Type 0 where
  pub event_number : ℕ
  pub umask_value : ℕ

-- Whether `getInstance` returns an object, and what `program` returns, for the default events and
-- for events of the caller's.
pub record Pcm : Type 0 where
  pub instance : Bool
  pub program : Option (List CoreEvent) → ℤ

-- A quotient of two counts, which the code computes as a double.
pub record Quotient : Type 0 where
  pub over : ℕ
  pub under : ℕ

unfoldable pub get_l1_cache_hit : CoreState → CoreState → Quotient
get_l1_cache_hit a b = record {
  over = sub_u64 b.event1 a.event1;
  under = sub_u64 b.event0 a.event0;
}

unfoldable pub get_l2_cache_hit : CoreState → CoreState → Quotient
get_l2_cache_hit a b = record {
  over = sub_u64 b.event2 a.event2;
  under = sub_u64 b.event0 a.event0;
}

unfoldable pub get_l3_cache_hit : CoreState → CoreState → Quotient
get_l3_cache_hit a b = record {
  over = sub_u64 b.event3 a.event3;
  under = sub_u64 b.event0 a.event0;
}

-- What `%d` prints of a number of 64 bits: its lower half as an `int`.
unfoldable pub as_int : ℕ → ℤ
as_int n = let x = n % 2 ^ 32 in if ltb x (2 ^ 31) then pos x else negsuc (2 ^ 32 - x - 1)

-- The four numbers printed: the hits of the three levels, and the loads.
unfoldable pub dump : CoreState → CoreState → List ℤ
dump a b =
    as_int (sub_u64 b.event1 a.event1)
    ∷ as_int (sub_u64 b.event2 a.event2)
    ∷ as_int (sub_u64 b.event3 a.event3)
    ∷ as_int (sub_u64 b.event0 a.event0)
    ∷ []

-- para[0] to para[3]: the loads, and the hits of the three levels.
abbrev pub para : List CoreEvent
para =
    record { event_number = 0xD0; umask_value = 0x01 }
    ∷ record { event_number = 0xD1; umask_value = 0x01 }
    ∷ record { event_number = 0xD1; umask_value = 0x02 }
    ∷ record { event_number = 0xD1; umask_value = 0x04 }
    ∷ []

unfoldable pub initpcm : Pcm → ℤ
initpcm p = if p.instance then p.program (some para) else minus_one
