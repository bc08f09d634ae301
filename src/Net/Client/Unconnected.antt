-- ===== src/Net/Client/Unconnected.antt =====
-- `clientThread` on a socket that has no connection.
use communication_speed.Prelude.{ℕ, suc, ◌≡◌, ◌∙◌, ap, List, [], ◌∷◌, drop, length, true, Option}
use communication_speed.Prelude.Int.{ℤ}
use communication_speed.Prelude.Io.{Answers, killed, ◌>>=◌, ◌>>◌, bind_ended, ask}
use communication_speed.Clock.Stopwatch
use communication_speed.Clock.Stopwatch.{Timeval, MyClock, get_instance}
use communication_speed.Net.{
  Call, socket, connect, new_chars, write, gettimeofday, Reply, Trace, put, starts, hello,
  terminated, or_fault, unless_broken,
}
use communication_speed.Net.Texts.{starts-append, text_of-starts, hello-NoZero}
use communication_speed.Net.Client.{
  Client, send_and_check, check_answer, round, rounds, conclude, measure, client_thread,
}
use communication_speed.Net.Client.Rounds.{Story, nothing, story}
use communication_speed.Net.Client.Whole.{say_connected_lem}

module _ (answer : Answers Call Reply) where
  -- A write of the greeting finds no connection.
  abbrev pub Unconnected : Type 0
  Unconnected = (t : Trace) (fd : ℤ) → (answer t (write fd hello)).broken ≡ true

  -- The events of a round up to its write.
  abbrev written : ℤ → Trace → Trace
  written fd t =
      let t1 : Trace = record { call = gettimeofday; reply = answer t gettimeofday } ∷ t in
      record { call = write fd hello; reply = answer t1 (write fd hello) } ∷ t1

  round_killed :
      (fd : ℤ) (c : Client) (t : Trace)
      → Unconnected
      → starts (terminated hello) c.buf ≡ true
      → round answer fd c t ≡ killed (written fd t)
  unfolding round send_and_check ask
  round_killed fd c t none_made greeting =
      let begin : Timeval = (answer t gettimeofday).time in
      let t1 : Trace = record { call = gettimeofday; reply = answer t gettimeofday } ∷ t in
      ap (λ o. (or_fault o >>= send_and_check answer fd c begin) t1)
        (text_of-starts hello c.buf hello-NoZero greeting)
      ∙ ap (λ b. (unless_broken b >> check_answer answer fd c begin (length hello)) (written fd t))
          (none_made t1 fd)

  rounds_killed :
      (n : ℕ) (fd : ℤ) (c : Client) (t : Trace)
      → Unconnected
      → starts (terminated hello) c.buf ≡ true
      → rounds answer (suc n) fd c t ≡ killed (written fd t)
  unfolding rounds
  rounds_killed n fd c t none_made greeting =
      ap (λ r. bind_ended r (rounds answer n fd)) (round_killed fd c t none_made greeting)

  -- Where the writes of the greeting find no connection, as after a `connect` that failed, whatever
  -- the other calls answer, `clientThread` does not return: the first write, of the one greeting that
  -- is sent, ends the process, after three readings of the time, with no cost printed and the socket
  -- not closed.
  pub client_unconnected :
      (b e : Timeval) (m_ins : Option MyClock)
      → Unconnected
      → (after : Trace) × (client_thread answer b e m_ins [] ≡ killed after)
        × ((story after).sent ≡ hello ∷ [])
        × ((story after).costs ≡ [])
        × ((story after).closed ≡ 0)
        × (length (story after).times ≡ 3)
  unfolding client_thread measure ask story
  client_unconnected b e m_ins none_made =
      let t1 : Trace = record { call = socket; reply = answer [] socket } ∷ [] in
      let fd : ℤ = (answer [] socket).code in
      let t2 : Trace = record { call = connect fd; reply = answer t1 (connect fd) } ∷ t1 in
      let said = say_connected_lem answer (answer t1 (connect fd)).code t2 in
      let t : Trace = said.0 in
      let fresh : Reply = answer t (new_chars 64) in
      let t3 : Trace = record { call = new_chars 64; reply = fresh } ∷ t in
      let begin : Timeval = (answer t3 gettimeofday).time in
      let t4 : Trace = record { call = gettimeofday; reply = answer t3 gettimeofday } ∷ t3 in
      let end : Timeval = (answer t4 gettimeofday).time in
      let t5 : Trace = record { call = gettimeofday; reply = answer t4 gettimeofday } ∷ t4 in
      let buf : List ℕ = put (terminated hello) fresh.bytes in
      let clock : MyClock = Stopwatch.stop end (Stopwatch.begin begin (get_instance b e m_ins)) in
      let quiet : story t ≡ nothing = said.2 in
      (
        written fd t5,
        ap (λ r. bind_ended r (λ u. measure answer fd b e m_ins)) said.1
            ∙ ap (λ r. bind_ended r (conclude answer fd))
                (rounds_killed 99999 fd (record { buf = buf; clock = clock }) t5 none_made
                  (starts-append (terminated hello) (drop 12 fresh.bytes))),
        ap {A = Story} (λ s. hello ∷ s.sent) quiet,
        ap {A = Story} (λ s. s.costs) quiet,
        ap {A = Story} (λ s. s.closed) quiet,
        ap {A = Story} (λ s. suc (suc (suc (length s.times)))) quiet,
      )
