-- ===== src/Net/Client.antt =====
-- net/Network.cpp: `clientThread`, and `netmain`, which chooses between the two sides.
pub mod Rounds
pub mod Whole
pub mod Unconnected
use communication_speed.Prelude.{
  ℕ, zero, suc, List, [], ◌∷◌, length, Bool, true, false, Option, none, some,
}
use communication_speed.Prelude.Int.{ℤ, pos, is_neg, divide_by}
use communication_speed.Prelude.Io.{Event, Answers, Io, ◌>>=◌, ◌>>◌, pure, ask, Ended}
use communication_speed.Clock.Stopwatch
use communication_speed.Clock.Stopwatch.{Timeval, MyClock, get_instance, get_time_by_usec}
use communication_speed.Net.{
  Message, connect_error, connected, recv_error, time_cost, time_cost_percase, Call, socket,
  connect, new_chars, read, write, send, close, gettimeofday, Reply, Program, put, starts, hello,
  terminated, the_text, say,
}
use communication_speed.Net.Server.{server_thread}

-- TESTCASE
abbrev pub testcase : ℕ
testcase = 100000

-- The buffer and the clock between two rounds.
pub record Client : Type 0 where
  pub buf : List ℕ
  pub clock : MyClock

module _ (answer : Answers Call Reply) where
  -- if (strcmp(buf, "hello world") != 0) perror("recv error");
  abbrev pub complain_unless : Bool → Program (Unit {0})
  complain_unless true = pure tt
  complain_unless false = say answer recv_error

  -- A round from the call of `read` on, which is given the length of the text.
  unfoldable pub check_answer : ℤ → Client → Timeval → ℕ → Program Client
  check_answer fd c begin size = do
    r ← ask answer (read fd size)
    end ← ask answer gettimeofday
    let buf = put r.bytes c.buf
    complain_unless (starts (terminated hello) buf)
    pure (record { buf = buf; clock = Stopwatch.stop end.time (Stopwatch.resume begin c.clock) })

  -- A round from the call of `write` on. The buffer is the same at both calls of `strlen`.
  unfoldable pub send_and_check : ℤ → Client → Timeval → List ℕ → Program Client
  send_and_check fd c begin text = send answer fd text >> check_answer fd c begin (length text)

  -- One round of the loop.
  unfoldable pub round : ℤ → Client → Program Client
  round fd c = do
    begin ← ask answer gettimeofday
    text ← the_text c.buf
    send_and_check fd c begin.time text

  unfoldable pub rounds : ℕ → ℤ → Client → Program Client
  rounds zero fd c = pure c
  rounds (suc n) fd c = round fd c >>= rounds n fd

  abbrev pub say_connected : ℤ → Program (Unit {0})
  say_connected result = elim (is_neg result) as (λ _. Program (Unit {0})) [
    | true ↦ say answer connect_error
    | false ↦ say answer connected
  ]

  -- From the end of the rounds on.
  unfoldable pub conclude : ℤ → Client → Program ℤ
  conclude fd c = do
    ask answer (close fd)
    say answer (time_cost (get_time_by_usec c.clock))
    say answer (time_cost_percase (divide_by testcase (get_time_by_usec c.clock)))
    pure (pos 0)

  -- From the buffer on. `m_ins` is the instance of the clock before the call; `b` and `e` are what
  -- fresh memory holds where a new clock is made.
  unfoldable pub measure : ℤ → Timeval → Timeval → Option MyClock → Program ℤ
  measure fd b e m_ins = do
    fresh ← ask answer (new_chars 64)
    begin ← ask answer gettimeofday
    end ← ask answer gettimeofday
    let clock = Stopwatch.stop end.time (Stopwatch.begin begin.time (get_instance b e m_ins))
    c ← rounds testcase fd (record { buf = put (terminated hello) fresh.bytes; clock = clock })
    conclude fd c

  unfoldable pub client_thread : Timeval → Timeval → Option MyClock → Program ℤ
  client_thread b e m_ins = do
    s ← ask answer socket
    result ← ask answer (connect s.code)
    say_connected result.code
    measure s.code b e m_ins

  -- An option, known or not, starts the client; its text is not looked at.
  unfoldable pub netmain : ℕ → Timeval → Timeval → Option MyClock → Bool → Program ℤ
  netmain fuel b e m_ins any_option =
      elim any_option as (λ _. Program ℤ) [
        | true ↦ client_thread b e m_ins
        | false ↦ server_thread answer fuel
      ]
      >>= λ rc. pure (pos 0)
