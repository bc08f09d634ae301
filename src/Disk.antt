-- ===== src/Disk.antt =====
-- disk/Generate.cpp and disk/Generate.h: a record of random bytes, and the program that writes it to
-- a file a number of times and prints how long that took.
pub mod Record
pub mod Written
pub mod Run
mod Tests
use communication_speed.Prelude.{
  ℕ, zero, suc, ◌-◌, ◌*◌, ◌%◌, ◌^◌, ltb, List, [], ◌∷◌, Bool, true, false, ◌==◌, if◌then◌else◌,
}
use communication_speed.Prelude.Int.{ℤ, pos, negsuc, is_neg, truthy, to_nat, scale, ◌-ℤ◌}
use communication_speed.Prelude.Io.{
  Event, Answers, Ended, done, exited, asserted, fault, spin, Io, ◌>>=◌, ◌>>◌, pure, assert, ask,
}

-- m_SIZE
abbrev pub m_size : ℕ
m_size = 4096

-- What is printed: the help, the errors, the seconds taken, and the performance as the two numbers
-- that are divided in floating point.
pub data Message : Type 0 where
  help open_error write_error : Message
  consumed : (file_size seconds : ℤ) → Message
  performance : (dividend divisor : ℤ) → Message

pub data Call : Type 0 where
  posix_memalign : (alignment size : ℕ) → Call
  rand open_raw gettimeofday : Call
  write : (fd : ℤ) → (bytes : List ℕ) → Call
  close : (fd : ℤ) → Call
  delete : (p : ℕ) → Call
  print : Message → Call

-- The value returned, and the number stored: a pointer, or the seconds of the time.
pub record Reply : Type 0 where
  pub code : ℤ
  pub stored : ℕ

abbrev pub Trace : Type 0
Trace = List (Event Call Reply)

abbrev pub Program : Type 0 → Type 0
Program A = Io (Event Call Reply) A

-- The options that `getopt` finds; the number is the `long` that `strtol` made of the text.
pub data Opt : Type 0 where
  opt_f opt_s : (n : ℤ) → Opt
  unknown : Opt

-- The conversion of a `long` to `int`, on the number modulo 2 ^ 32.
abbrev signed : ℕ → ℤ
signed m = if ltb m (2 ^ 31) then pos m else negsuc (2 ^ 32 - m - 1)

unfoldable pub to_int : ℤ → ℤ
to_int (pos n) = signed (n % 2 ^ 32)
to_int (negsuc n) = signed (2 ^ 32 - 1 - n % 2 ^ 32)

-- wcode == gen.getSize()
abbrev pub whole : ℤ → Bool
whole (pos n) = n == m_size
whole _ = false

module _ (answer : Answers Call Reply) where
  abbrev pub say : Message → Program (Unit {0})
  say m = do ask answer (print m); pure tt

  -- Generate::Generate: what the call returns is not looked at; `none` of the members is the size.
  unfoldable pub new_generate : Program Reply
  new_generate = ask answer (posix_memalign 512 m_size)

  -- for (i = 0; i < m_SIZE; ++i) m_buf[i] = rand() % 255;
  unfoldable pub random_bytes : ℕ → Program (List ℕ)
  random_bytes zero = pure []
  random_bytes (suc n) = do r ← ask answer rand; rest ← random_bytes n; pure (r.stored % 255 ∷ rest)

  -- Generate::genRecord. Where no block was given, the pointer was never set.
  unfoldable pub gen_record : Reply → Program (List ℕ)
  gen_record buf = elim (truthy buf.code) [ true ↦ fault | false ↦ random_bytes m_size ]

  -- `-s` sets a variable that nothing reads.
  unfoldable pub read_options : List Opt → ℤ → Program ℤ
  read_options [] file_size = pure file_size
  read_options (opt_f n ∷ opts) file_size = read_options opts (to_int n)
  read_options (opt_s n ∷ opts) file_size = read_options opts file_size
  read_options (unknown ∷ opts) file_size = say help >> exited

  -- for (i = 0; i < fileSize; ++i), with its break
  unfoldable pub write_records : ℕ → ℤ → List ℕ → Program (Unit {0})
  write_records zero fd text = pure tt
  write_records (suc n) fd text = ask answer (write fd text) >>= λ r. elim (is_neg r.code) [
    | true ↦ say write_error
    | false ↦ assert (whole r.code) >> write_records n fd text
  ]

  -- The two lines, as `printf` gets them.
  unfoldable pub report : ℤ → ℤ → Program (Unit {0})
  report file_size seconds = do
    say (consumed file_size seconds)
    say (performance (scale m_size file_size) (scale (1024 * 1024) seconds))

  abbrev pub check_open : ℤ → Program (Unit {0})
  check_open fd = elim (is_neg fd) as (λ _. Program (Unit {0})) [
    | true ↦ say open_error >> exited
    | false ↦ pure tt
  ]

  -- From the opened file to the end of the body; the destructor of `gen` is the last call. There is
  -- no `return` at that end: what C++ leaves undefined, the value that the caller gets, has no place
  -- here, and `done` says that the end of the body was reached.
  unfoldable pub write_file : ℤ → Reply → ℤ → Program (Unit {0})
  write_file file_size buf fd = do
    text ← gen_record buf
    begin ← ask answer gettimeofday
    write_records (to_nat file_size) fd text
    end ← ask answer gettimeofday
    report file_size (pos end.stored -ℤ pos begin.stored)
    ask answer (close fd)
    ask answer (delete buf.stored)
    pure tt

  unfoldable pub diskmain : List Opt → Program (Unit {0})
  diskmain opts = do
    file_size ← read_options opts (pos 20)
    buf ← new_generate
    fd ← ask answer open_raw
    check_open fd.code
    write_file file_size buf fd.code
