-- ===== src/Net/Tests.antt =====
-- net/Network.cpp on fixed answers of the operating system.
use communication_speed.Prelude.{
  ℕ, ◌<◌, ◌≡◌, refl, ap, arith, List, [], ◌∷◌, length, true, false, Option, none, some,
}
use communication_speed.Prelude.Int.{
  ℤ, pos, minus_one, divide_by, ◌≤ℤ◌, ◌+ℤ◌, ◌-ℤ◌, scale, pos_part, neg_part, int_laws,
}
use communication_speed.Prelude.Io.{Event, Answers, Ended, ask, done, spin, killed, Post}
use communication_speed.Clock.Stopwatch.{Timeval, new_clock}
use communication_speed.Clock.Stopwatch.Runs.{instant}
use communication_speed.Net.{
  Call, connect, new_chars, read, write, gettimeofday, Reply, Trace, text_of, unless_broken, hello,
  terminated,
}
use communication_speed.Net.Texts.{NoZero, hello-NoZero}
use communication_speed.Net.Server.{handle, receive_handler, server_thread}
use communication_speed.Net.Server.Echo
use communication_speed.Net.Server.Echo.{
  zeros, sent_as, Calm, after_read, handle_sends, receive_handler_echoes,
}
use communication_speed.Net.Server.Ends.{Others, server_thread_ends}
use communication_speed.Net.Client.{Client, round, send_and_check, check_answer, client_thread}
use communication_speed.Net.Client.Rounds.{story, first_time, last_time, Monotone, Parts}
use communication_speed.Net.Served.{Round, served_client_measures}
use communication_speed.Net.Client.Unconnected.{client_unconnected}
use communication_speed.Net.Client.Whole.{Measured, client_thread_measures, client_cost_bounds}

abbrev noon : Timeval
noon = record { sec = pos 43200; usec = pos 0 }

abbrev reply : ℤ → List ℕ → Reply
reply code bytes = record { code = code; bytes = bytes; time = noon; broken = false }

-- A peer that sends "hi" each time; fresh memory holds the text "xysecret".
abbrev leaky : Answers Call Reply
leaky t (new_chars n) = reply (pos 0) (120 ∷ 121 ∷ 115 ∷ 101 ∷ 99 ∷ 114 ∷ 101 ∷ 116 ∷ 0 ∷ 0 ∷ [])
leaky t (read fd n) = reply (pos 2) (104 ∷ 105 ∷ [])
leaky t _ = reply (pos 0) []

two_NoZero : (b c : ℕ) → 0 < b → 0 < c → NoZero (b ∷ c ∷ [])
two_NoZero b c h h' = (h, (h', tt))

hi_NoZero : NoZero (104 ∷ 105 ∷ [])
hi_NoZero = two_NoZero 104 105 (omega arith) (omega arith)

secret_NoZero : NoZero (115 ∷ 101 ∷ 99 ∷ 114 ∷ 101 ∷ 116 ∷ [])
secret_NoZero =
    (omega arith, (omega arith, (omega arith, (omega arith, (omega arith, (omega arith, tt))))))

secret_sent :
    (after : Trace) × (handle leaky (pos 4) [] ≡ unless_broken false after)
    × (Echo.story after
        ≡ sent_as Echo.nothing (104 ∷ 105 ∷ []) (104 ∷ 105 ∷ 115 ∷ 101 ∷ 99 ∷ 114 ∷ 101 ∷ 116 ∷ []))
unfolding Echo.story
secret_sent =
    handle_sends leaky (pos 4) [] (120 ∷ 121 ∷ []) (115 ∷ 101 ∷ 99 ∷ 114 ∷ 101 ∷ 116 ∷ []) (0 ∷ [])
      refl refl hi_NoZero secret_NoZero

-- A peer that sends "hi" each time, and zeros in fresh memory.
abbrev clean : Answers Call Reply
clean t (new_chars n) = reply (pos 0) (zeros 128)
clean t (read fd n) = reply (pos 2) (104 ∷ 105 ∷ [])
clean t _ = reply (pos 0) []

three_echoes :
    (after : Trace) × (receive_handler clean 3 (pos 4) [] ≡ spin after)
    × ((Echo.story after).sent ≡ (Echo.story after).got)
    × ((Echo.story after).blocks ≡ 3)
    × (length (Echo.story after).got ≡ 3)
three_echoes =
    receive_handler_echoes clean 3 (pos 4)
      (λ t. refl, λ t fd. hi_NoZero, λ t fd. omega arith, λ t fd bytes. refl)

clean_server :
    Post
      (λ c t. (c ≡ minus_one) × (Echo.story t ≡ Echo.nothing))
      (Others 2)
      (server_thread clean 2 [])
clean_server = server_thread_ends clean 2

-- What a round of the server's handler sends back for a message, with zeros in fresh memory.
abbrev served : List ℕ → Answers Call Reply
served message t (new_chars n) = reply (pos 0) (zeros 128)
served message t (read fd n) = reply (pos 0) message
served message t _ = reply (pos 0) []

abbrev last_written : Trace → List ℕ
last_written [] = []
last_written (e ∷ t) = written e.call
  where
    written : Call → List ℕ
    written (write fd bytes) = bytes
    written _ = []

abbrev trace_of : Ended (Event Call Reply) (Unit {0}) → Trace
trace_of (done a t) = t
trace_of _ = []

abbrev sent_back : Ended (Event Call Reply) (Unit {0}) → List ℕ
sent_back (done a t) = last_written t
sent_back _ = []

-- The client's peer is the server: a read answers what the handler sends for the text written last.
abbrev through_server : Answers Call Reply
through_server t (read fd n) =
    reply (pos 11) (sent_back (handle (served (last_written t)) (pos 4) []))
through_server t _ = reply (pos 3) []

served_Parts : Parts through_server
unfolding handle text_of ask
served_Parts t fd r = refl

served_measured :
    Measured through_server noon noon none (client_thread through_server noon noon none [])
served_measured =
    client_thread_measures through_server noon noon none served_Parts (λ t fd bytes. refl)

-- The server as the peer again, and each reading of the time ten microseconds after the last.
abbrev after_last : Option ℤ → Timeval
after_last none = noon
after_last (some x) = record { sec = pos 0; usec = x +ℤ pos 10 }

abbrev timed : Answers Call Reply
timed t gettimeofday = record (reply (pos 0) []) { time = after_last (last_time t) }
timed t c = through_server t c

abbrev shown_or : ℤ → Option ℤ → ℤ
shown_or d none = d
shown_or d (some x) = x

after_last_le : (o : Option ℤ) (x : ℤ) → o ≡ some x → x ≤ℤ instant (after_last o)
unfolding instant scale
after_last_le none x e = cc
after_last_le (some y) x e =
    let same : y ≡ x = ap (shown_or y) e in omega (int_laws, ap pos_part same, ap neg_part same)

timed_Monotone : Monotone timed
timed_Monotone t x e = after_last_le (last_time t) x e

timed_Parts : Parts timed
timed_Parts t fd r = served_Parts t fd r

timed_cost :
    (after : Trace) × (cost first last : ℤ) × (client_thread timed noon noon none []
      ≡ done (pos 0) after)
    × ((story after).costs ≡ divide_by 100000 cost ∷ cost ∷ [])
    × (first_time after ≡ some first)
    × (last_time after ≡ some last)
    × (pos 0 ≤ℤ cost)
    × (cost ≤ℤ last -ℤ first)
timed_cost = client_cost_bounds timed noon noon none timed_Parts (λ t fd bytes. refl) timed_Monotone

greeted : Calm (served hello)
greeted = (λ t. refl, λ t fd. hello-NoZero, λ t fd. omega arith, λ t fd bytes. refl)

greeted_round : Round
unfolding handle text_of ask
greeted_round = record {
  server = served hello;
  fd = pos 4;
  before = [];
  after = trace_of (handle (served hello) (pos 4) []);
  calm = greeted;
  got = refl;
  returns = refl;
}

served_by_handler : Measured timed noon noon none (client_thread timed noon noon none [])
unfolding greeted_round handle text_of ask Echo.story
served_by_handler =
    served_client_measures timed noon noon none (λ t fd r. (greeted_round, refl))
      (λ t fd bytes. refl)

-- A connection that is refused: every call on the socket fails.
abbrev refused : Answers Call Reply
refused t (connect fd) = reply minus_one []
refused t (read fd n) = reply minus_one []
refused t (write fd bytes) = record (reply minus_one []) { broken = true }
refused t _ = reply (pos 3) []

refused_killed :
    (after : Trace) × (client_thread refused noon noon none [] ≡ killed after)
    × ((story after).sent ≡ hello ∷ [])
    × ((story after).costs ≡ [])
    × ((story after).closed ≡ 0)
    × (length (story after).times ≡ 3)
refused_killed = client_unconnected refused noon noon none (λ t fd. refl)

-- A peer that answers "by": the rounds to come send what is then in the buffer.
abbrev parting : Answers Call Reply
parting t (read fd n) = reply (pos 2) (98 ∷ 121 ∷ 0 ∷ [])
parting t _ = reply (pos 0) []

abbrev errors_of : Ended (Event Call Reply) Client → ℕ
errors_of (done c t) = (story t).errors
errors_of _ = 0

complains :
    errors_of
      (round parting (pos 3) (record { buf = terminated hello; clock = new_clock noon noon }) [])
    ≡ 1
unfolding round send_and_check check_answer text_of ask story
complains = refl
