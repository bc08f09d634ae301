-- ===== src/Speed/Barrier/Tests.antt =====
-- The two threads step by step.
use communication_speed.Prelude.{ℕ, ◌≡◌, refl, [], ◌∷◌}
use communication_speed.Prelude.Int.{ℤ, pos}
use communication_speed.Speed.Barrier.{
  bind_writer, overflowed, State, values, bound_reader, write, read, Reaches, begins, writes, reads,
  started, settled,
}
use communication_speed.Speed.Barrier.Order.{Cells, barrier-Cells}
use communication_speed.Speed.Barrier.Overflow.{barrier_overflows}

abbrev both_bound : ℕ → ℤ
both_bound node = pos 0

-- A turn of each thread.
abbrev turn_writer : State → State
turn_writer s = write both_bound s.writer s

abbrev turn_reader : ℤ → State → State
turn_reader seen s = read both_bound seen s.reader s

-- The two stores, with the reader bound between them.
stored_in_order : Cells bind_writer (pos 1) (pos 2)
unfolding write read bound_reader
stored_in_order =
    barrier-Cells both_bound (pos 7) (pos 9)
      (turn_writer (turn_reader (pos 0) (turn_writer (started (pos 7) (pos 9)))))
      (writes (reads (pos 0) (writes begins)))

barrier_overflows_bound :
    (s : State) × Reaches both_bound settled s × (s.writer ≡ overflowed) × (s.printed ≡ [])
barrier_overflows_bound = barrier_overflows both_bound refl

-- A reader that runs first prints what its loads gave.
unset_printed :
    (turn_reader (pos 0) (
      turn_reader
        (pos 9)
        (turn_reader (pos 7) (turn_reader (pos 0) (started (pos 7) (pos 9)))))).printed
    ≡ values (pos 7) (pos 9) ∷ []
unfolding read bound_reader
unset_printed = refl
