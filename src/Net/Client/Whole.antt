-- ===== src/Net/Client/Whole.antt =====
-- `clientThread` as a whole.
use communication_speed.Prelude.{
  ℕ, suc, ◌≡◌, ◌∙◌, refl, sym, ap, List, [], ◌∷◌, drop, length, true, false, Option, none, some,
}
use mathlib.Core.Path.{subst}
use communication_speed.Prelude.Int.{ℤ, pos, is_neg, divide_by, ◌≤ℤ◌, ◌-ℤ◌}
use communication_speed.Prelude.Io.{Event, Answers, Ended, done, bind_ended, ask}
use communication_speed.Clock.Stopwatch
use communication_speed.Clock.Stopwatch.{Timeval, MyClock, get_instance, get_time_by_usec}
use communication_speed.Clock.Stopwatch.Runs.{Op, stop, apply, run, instant, instants}
use communication_speed.Clock.Stopwatch.Bounds.{Alternates, last_instant, elapsed_bounds}
use communication_speed.Net.{
  connect_error, connected, time_cost, time_cost_percase, Call, socket, connect, new_chars, close,
  gettimeofday, print, Reply, Trace, Program, put, hello, terminated, say,
}
use communication_speed.Net.Texts.{starts-append}
use communication_speed.Net.Client.{testcase, say_connected, conclude, measure, client_thread}
use communication_speed.Net.Client.Rounds.{
  Spell, ops_of, times_of, Story, nothing, story, last_time, first_time, or_time, Monotone, Parts,
  Unbroken, greetings, Went, rounds-Went,
}

or_time-none : (o : Option ℤ) → or_time o none ≡ o
or_time-none none = refl
or_time-none (some x) = refl

module _ (answer : Answers Call Reply) where
  -- A run that returns 0: the two readings of the time before the rounds, the spells that the clock
  -- measured in the rounds, which are the other readings, and the cost shown at the end.
  pub record Measured (b e : Timeval) (m_ins : Option MyClock) (r : Ended (Event Call Reply) ℤ)
      : Type 0 where
    pub begin : Timeval
    pub end : Timeval
    pub spells : List Spell
    pub number : length spells ≡ testcase
    pub after : Trace
    pub cost : ℤ
    pub returns : r ≡ done (pos 0) after
    pub shown :
        cost
        ≡ get_time_by_usec
            (run (stop end ∷ ops_of spells) (Stopwatch.begin begin (get_instance b e m_ins)))
    pub now_story : story after ≡ record {
      sent = greetings testcase [];
      errors = 0;
      costs = divide_by testcase cost ∷ cost ∷ [];
      times = times_of spells (end ∷ begin ∷ []);
      closed = 1;
    }
    pub first : first_time after ≡ some (instant begin)
    pub alternates :
        Monotone answer
        → Alternates true (instant begin) (instants (stop end ∷ ops_of spells))
          × (last_time after
              ≡ some (last_instant (instant begin) (instants (stop end ∷ ops_of spells))))

  measure_lem :
      (fd : ℤ) (b e : Timeval) (m_ins : Option MyClock) (t : Trace)
      → Parts answer
      → Unbroken answer
      → story t ≡ nothing
      → first_time t ≡ none
      → Measured b e m_ins (measure answer fd b e m_ins t)
  unfolding measure conclude ask run apply story last_time first_time
  measure_lem fd b e m_ins t parts whole quiet q =
      let fresh : Reply = answer t (new_chars 64) in
      let t1 : Trace = record { call = new_chars 64; reply = fresh } ∷ t in
      let begin : Timeval = (answer t1 gettimeofday).time in
      let t2 : Trace = record { call = gettimeofday; reply = answer t1 gettimeofday } ∷ t1 in
      let end : Timeval = (answer t2 gettimeofday).time in
      let t3 : Trace = record { call = gettimeofday; reply = answer t2 gettimeofday } ∷ t2 in
      let buf : List ℕ = put (terminated hello) fresh.bytes in
      let clock : MyClock = Stopwatch.stop end (Stopwatch.begin begin (get_instance b e m_ins)) in
      let w : Went answer testcase fd (record { buf = buf; clock = clock }) t3 =
        rounds-Went answer testcase fd _ t3 parts whole
          (starts-append (terminated hello) (drop 12 fresh.bytes)) in
      let cost : ℤ = get_time_by_usec (run (ops_of w.spells) clock) in
      let t4 : Trace = record { call = close fd; reply = answer w.after (close fd) } ∷ w.after in
      let t5 : Trace =
        record { call = print (time_cost cost); reply = answer t4 (print (time_cost cost)) } ∷ t4 in
      let last : Call = print (time_cost_percase (divide_by testcase cost)) in
      record {
        begin = begin;
        end = end;
        spells = w.spells;
        number = w.number;
        after = record { call = last; reply = answer t5 last } ∷ t5;
        cost = cost;
        returns = ap (λ r. bind_ended r (conclude answer fd)) w.returns;
        shown = refl;
        now_story =
            ap {A = Story}
              (λ s. record s {
                costs = divide_by testcase cost ∷ cost ∷ s.costs;
                closed = suc s.closed;
              })
              (w.now_story
                ∙ ap {A = Story}
                    (λ s. record s {
                      sent = greetings testcase s.sent;
                      times = times_of w.spells (end ∷ begin ∷ s.times);
                    })
                    quiet);
        first =
            ap (λ o. or_time (or_time (or_time o none) none) none)
              (w.same_first (instant begin) (
                ap
                  (λ o.
                    or_time (or_time (or_time o none) (some (instant begin))) (some (instant end)))
                  q));
        alternates = λ m. let a = w.alternates m (instant end) refl in ((m t2 _ refl, a.0), a.1);
      }

  -- Whatever `connect` answered, it is said, and nothing else happens.
  pub say_connected_lem :
      (code : ℤ) (t : Trace)
      → (t' : Trace) × (say_connected answer code t ≡ done tt t')
        × (story t' ≡ story t)
        × (first_time t' ≡ first_time t)
  unfolding ask story first_time
  say_connected_lem code t =
      elim (is_neg code)
        as (λ g.
          (t' : Trace) × ((elim g as (λ _. Program (Unit {0})) [
            | true ↦ say answer connect_error
            | false ↦ say answer connected
          ])
              t
            ≡ done tt t')
          × (story t' ≡ story t)
          × (first_time t' ≡ first_time t)) [
            | true ↦ (
              record { call = print connect_error; reply = answer t (print connect_error) } ∷ t,
              refl,
              refl,
              or_time-none (first_time t),
            )
            | false ↦ (
              record { call = print connected; reply = answer t (print connected) } ∷ t,
              refl,
              refl,
              or_time-none (first_time t),
            )
          ]

  -- Where each read after a greeting answers with it, a first part of it, or nothing, as an echo does
  -- and as a read that fails does, and no write finds its connection broken or never made,
  -- `clientThread` returns 0, whatever the other calls answer: it has sent the greeting once for each of the `TESTCASE` rounds, printed no "recv error"
  -- and closed the socket once. The times read are one at which the clock begins, one at which it
  -- stops, and two for each round, at which it is resumed and stopped; the cost printed is what
  -- a stopwatch shows after these operations, and the other number is that cost divided by the
  -- rounds.
  pub client_thread_measures :
      (b e : Timeval) (m_ins : Option MyClock)
      → Parts answer
      → Unbroken answer
      → Measured b e m_ins (client_thread answer b e m_ins [])
  unfolding client_thread ask story first_time
  client_thread_measures b e m_ins parts whole =
      let t1 : Trace = record { call = socket; reply = answer [] socket } ∷ [] in
      let fd : ℤ = (answer [] socket).code in
      let t2 : Trace = record { call = connect fd; reply = answer t1 (connect fd) } ∷ t1 in
      let said = say_connected_lem (answer t1 (connect fd)).code t2 in
      subst (Measured b e m_ins)
        (sym (ap (λ r. bind_ended r (λ u. measure answer fd b e m_ins)) said.1))
        (measure_lem fd b e m_ins said.0 parts whole said.2 said.3)

  -- Where each read after a greeting answers with it, a first part of it, or nothing, no write finds
  -- its connection broken or never made, and no reading of the time is before the last, `clientThread` returns 0 and prints one cost and that cost divided by
  -- the rounds; the cost is at least 0 and at most the microseconds from the first reading of the
  -- time to the last.
  pub client_cost_bounds :
      (b e : Timeval) (m_ins : Option MyClock)
      → Parts answer
      → Unbroken answer
      → Monotone answer
      → (after : Trace) × (cost first last : ℤ) × (client_thread answer b e m_ins []
          ≡ done (pos 0) after)
        × ((story after).costs ≡ divide_by testcase cost ∷ cost ∷ [])
        × (first_time after ≡ some first)
        × (last_time after ≡ some last)
        × (pos 0 ≤ℤ cost)
        × (cost ≤ℤ last -ℤ first)
  client_cost_bounds b e m_ins parts whole mono =
      let m : Measured b e m_ins (client_thread answer b e m_ins []) =
        client_thread_measures b e m_ins parts whole in
      let a = m.alternates mono in
      let os : List (Op Timeval) = stop m.end ∷ ops_of m.spells in
      let last : ℤ = last_instant (instant m.begin) (instants os) in
      let within =
        subst (λ c. (pos 0 ≤ℤ c) × (c ≤ℤ last -ℤ instant m.begin)) (sym m.shown)
          (elapsed_bounds m.begin os (get_instance b e m_ins) a.0) in
      (
        m.after,
        m.cost,
        instant m.begin,
        last,
        m.returns,
        ap (λ s. s.costs) m.now_story,
        m.first,
        a.1,
        within.0,
        within.1,
      )
