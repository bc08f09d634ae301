-- ===== src/Net.antt =====
-- net/Network.cpp: a server that sends back what it reads, and a client that times the round trips.
-- Here are the calls, the texts and buffers, and the choice between the two sides.
mod Texts
pub mod Server
pub mod Client
mod Served
mod Tests
use communication_speed.Prelude.{
  ℕ, zero, suc, ◌==◌, List, [], ◌∷◌, ◌++◌, length, drop, Bool, true, false, ◌&&◌, Option, none,
  some, map,
}
use communication_speed.Prelude.Int.{ℤ}
use communication_speed.Prelude.Io.{
  Event, Answers, Io, ◌>>=◌, ◌>>◌, pure, ask, Ended, fault, killed, done,
}
use communication_speed.Prelude.Text.{codes}
use communication_speed.Clock.Stopwatch.{Timeval}

pub data Message : Type 0 where
  socket_error bind_error listen_error listen_ok thread_error thread_id : Message
  connect_error connected recv_error : Message
  time_cost time_cost_percase : (usec : ℤ) → Message

pub data Call : Type 0 where
  socket gettimeofday : Call
  setsockopt : (fd : ℤ) → Call
  bind : (fd : ℤ) → Call
  listen : (fd : ℤ) (backlog : ℕ) → Call
  pthread_create pthread_join : Call
  accept : (fd : ℤ) → Call
  connect : (fd : ℤ) → Call
  new_chars : (size : ℕ) → Call
  read : (fd : ℤ) (size : ℕ) → Call
  write : (fd : ℤ) (bytes : List ℕ) → Call
  close : (fd : ℤ) → Call
  print : Message → Call

-- The value returned; the bytes that `read` stored, or that fresh memory holds; the time stored; and
-- whether `write` found its connection broken or never made.
pub record Reply : Type 0 where
  pub code : ℤ
  pub bytes : List ℕ
  pub time : Timeval
  pub broken : Bool

abbrev pub Trace : Type 0
Trace = List (Event Call Reply)

abbrev pub Program : Type 0 → Type 0
Program A = Io (Event Call Reply) A

-- Bytes stored at the start of a buffer.
abbrev pub put : List ℕ → List ℕ → List ℕ
put bytes buf = bytes ++ drop (length bytes) buf

abbrev cons_some : ℕ → Option (List ℕ) → Option (List ℕ)
cons_some b none = none
cons_some b (some bs) = some (b ∷ bs)

-- The text in a buffer, `strlen` bytes; `none` where `strlen` reads behind the buffer.
unfoldable pub text_of : List ℕ → Option (List ℕ)
text_of [] = none
text_of (zero ∷ buf) = some []
text_of (suc b ∷ buf) = cons_some (suc b) (text_of buf)

abbrev pub starts : List ℕ → List ℕ → Bool
starts [] buf = true
starts (b ∷ bs) [] = false
starts (b ∷ bs) (c ∷ buf) = b == c && starts bs buf

-- "hello world"
abbrev pub hello : List ℕ
hello = codes "hello world"

-- The text with the zero behind it, as `strcpy` stores it and `strcmp` compares it.
abbrev pub terminated : List ℕ → List ℕ
terminated text = text ++ 0 ∷ []

-- What a call of `strlen` on a buffer yields to the code.
abbrev pub or_fault : Option (List ℕ) → Program (List ℕ)
or_fault none = fault
or_fault (some text) = pure text

abbrev pub the_text : List ℕ → Program (List ℕ)
the_text buf = or_fault (text_of buf)

abbrev pub say : Answers Call Reply → Message → Program (Unit {0})
say answer m = do ask answer (print m); pure tt

-- Where a write finds no connection, the signal SIGPIPE, which the program leaves as it is, ends the
-- process.
abbrev pub unless_broken : Bool → Program (Unit {0})
unless_broken true t = killed t
unless_broken false t = done tt t

-- write(fd, text, strlen(text)), on a socket
abbrev pub send : Answers Call Reply → ℤ → List ℕ → Program (Unit {0})
send answer fd text = ask answer (write fd text) >>= λ r. unless_broken r.broken
