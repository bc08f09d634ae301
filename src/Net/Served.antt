-- ===== src/Net/Served.antt =====
-- The client of net/Network.cpp against the handler of the server in it.
use communication_speed.Prelude.{ℕ, ◌≡◌, ◌∙◌, sym, ap, List, [], ◌∷◌, length, true, Option}
use mathlib.Core.Path.{subst}
use communication_speed.Prelude.Int.{ℤ}
use communication_speed.Prelude.Io.{
  Event, Answers, Ended, done, exited, asserted, fault, killed, spin,
}
use communication_speed.Clock.Stopwatch.{Timeval, MyClock}
use communication_speed.Net.{Call, read, write, Reply, Trace, starts, hello}
use communication_speed.Net.Server.{handle}
use communication_speed.Net.Server.Echo.{story, message_at, Calm, handle_echoes}
use communication_speed.Net.Client.{client_thread}
use communication_speed.Net.Client.Rounds.{Unbroken}
use communication_speed.Net.Client.Whole.{Measured, client_thread_measures}

-- The text sent last.
abbrev pub last_sent : List (List ℕ) → List ℕ
last_sent [] = []
last_sent (text ∷ texts) = text

-- A round of a calm server that has read the greeting, and that gets to its end.
pub record Round : Type 0 where
  pub server : Answers Call Reply
  pub fd : ℤ
  pub before : Trace
  pub after : Trace
  pub calm : Calm server
  pub got : message_at server fd before ≡ hello
  pub returns : handle server fd before ≡ done tt after

trace_or : Trace → Ended (Event Call Reply) (Unit {0}) → Trace
trace_or t (done a t') = t'
trace_or t (exited t') = t
trace_or t (asserted t') = t
trace_or t (fault t') = t
trace_or t (killed t') = t
trace_or t (spin t') = t

sends_back : (r : Round) → last_sent (story r.after).sent ≡ hello
unfolding trace_or
sends_back r =
    let echo = handle_echoes r.server r.fd r.before r.calm in
    let same : r.after ≡ echo.0 = ap (trace_or []) (sym r.returns ∙ echo.1) in
    ap (λ t. last_sent (story t).sent) same ∙ ap (λ s. last_sent s.sent) echo.2 ∙ r.got

-- Each read of the client after a greeting gets what a round of the server sends, or a first part of
-- it, that round having read the greeting.
abbrev pub ServedBy : Answers Call Reply → Type 0
ServedBy answer =
    (t : Trace) (fd : ℤ) (r : Reply)
    → (o : Round) × (starts
          (answer (record { call = write fd hello; reply = r } ∷ t) (read fd (length hello))).bytes
          (last_sent (story o.after).sent)
        ≡ true)

-- Where the client's peer is the server's handler, with zeros in its fresh memory, each read of the
-- client gets what a round of the handler that has read the greeting sends, or a first part of it,
-- and no write finds its connection broken, `clientThread` returns 0 whatever the other calls
-- answer, with every round timed, no "recv error" printed, the socket closed once, and the cost of
-- the spells between sending and receiving shown.
pub served_client_measures :
    (answer : Answers Call Reply) (b e : Timeval) (m_ins : Option MyClock)
    → ServedBy answer
    → Unbroken answer
    → Measured answer b e m_ins (client_thread answer b e m_ins [])
served_client_measures answer b e m_ins served whole =
    client_thread_measures answer b e m_ins
      (λ t fd r.
        let (o, s) = served t fd r in
        subst
          (λ text.
            starts
              (answer (record { call = write fd hello; reply = r } ∷ t)
                (read fd (length hello))).bytes
              text
            ≡ true)
          (sends_back o) s)
      whole
