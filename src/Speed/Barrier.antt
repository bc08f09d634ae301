-- ===== src/Speed/Barrier.antt =====
-- `barrierThread1` and `barrierThread2` of mem/numatest.cpp: the writer raises two integers by 10
-- in turn, the reader reads both and prints them. The cells are plain variables, so that C++ promises
-- nothing of what the reader finds in them: the value that a load of the reader gives is an argument
-- of its step. The cells in the state are as the writer has them, which alone writes them, in the
-- order of its program. The steps of the two threads come in any order. The calls that start the
-- threads are commented out in the source.
pub mod Order
pub mod Overflow
mod Tests
use communication_speed.Prelude.{
  ℕ, ◌^◌, List, [], ◌∷◌, Bool, true, false, Option, none, some, ltb, if◌then◌else◌,
}
use communication_speed.Prelude.Int.{ℤ, pos, is_neg, ◌+ℤ◌, pos_part}

-- The next step of `barrierThread1`. An addition that an `int` cannot hold ends in `overflowed`.
pub data Writer : Type 0 where
  store_first store_second bind_writer raise_first raise_second writer_left overflowed : Writer

-- The next step of `barrierThread2`, with the locals `x` and `y` once they are read.
pub data Reader : Type 0 where
  bind_reader read_first : Reader
  read_second : (x : ℤ) → Reader
  print : (x y : ℤ) → Reader
  reader_left : Reader

pub data Printed : Type 0 where
  bind_failure : Printed
  values : (x y : ℤ) → Printed

-- *mem1 and *mem2 as the writer has them, where the threads stand, and the lines printed, the last one first.
pub record State : Type 0 where
  pub mem1 : ℤ
  pub mem2 : ℤ
  pub writer : Writer
  pub reader : Reader
  pub printed : List Printed

-- x + 10 as an `int`
unfoldable pub raise : ℤ → Option ℤ
raise x = let y = x +ℤ pos 10 in if ltb (pos_part y) (2 ^ 31) then some y else none

-- numa_run_on_node(node)
module _ (run_on : ℕ → ℤ) where
  -- if (numa_run_on_node(0) < 0) a warning, else the loop
  unfoldable pub bound_writer : Bool → State → State
  bound_writer true s = record s { writer = writer_left; printed = bind_failure ∷ s.printed }
  bound_writer false s = record s { writer = raise_first }

  unfoldable pub bound_reader : Bool → State → State
  bound_reader true s = record s { reader = reader_left; printed = bind_failure ∷ s.printed }
  bound_reader false s = record s { reader = read_first }

  -- (*mem1) += 10; (*mem2) += 10;
  unfoldable pub raised_first : Option ℤ → State → State
  raised_first none s = record s { writer = overflowed }
  raised_first (some x) s = record s { mem1 = x; writer = raise_second }

  unfoldable pub raised_second : Option ℤ → State → State
  raised_second none s = record s { writer = overflowed }
  raised_second (some x) s = record s { mem2 = x; writer = raise_first }

  unfoldable pub write : Writer → State → State
  write store_first s = record s { mem1 = pos 1; writer = store_second }
  write store_second s = record s { mem2 = pos 2; writer = bind_writer }
  write bind_writer s = bound_writer (is_neg (run_on 0)) s
  write raise_first s = raised_first (raise s.mem1) s
  write raise_second s = raised_second (raise s.mem2) s
  write writer_left s = record s { writer = writer_left }
  write overflowed s = record s { writer = overflowed }

  -- `seen` is what the load gives, where the step has one.
  unfoldable pub read : ℤ → Reader → State → State
  read seen bind_reader s = bound_reader (is_neg (run_on 1)) s
  read seen read_first s = record s { reader = read_second seen }
  read seen (read_second x) s = record s { reader = print x seen }
  read seen (print x y) s = record s { reader = read_first; printed = values x y ∷ s.printed }
  read seen reader_left s = record s { reader = reader_left }

  -- The states that the two threads reach from `old`, their steps in any order, the loads of the
  -- reader giving anything.
  pub data Reaches (old : State) : State → Type 0 where
    begins : Reaches old old
    writes : {s : State} → Reaches old s → Reaches old (write s.writer s)
    reads : {s : State} → (seen : ℤ) → Reaches old s → Reaches old (read seen s.reader s)

-- The two blocks of `malloc` hold anything.
abbrev pub started : ℤ → ℤ → State
started x y = record {
  mem1 = x;
  mem2 = y;
  writer = store_first;
  reader = bind_reader;
  printed = [];
}

-- The writer has made its two stores, the reader has not begun.
abbrev pub settled : State
settled = record {
  mem1 = pos 1;
  mem2 = pos 2;
  writer = bind_writer;
  reader = bind_reader;
  printed = [];
}
