-- ===== src/Net/Client/Rounds.antt =====
-- One round of the client with an unchanged greeting in its buffer, and a number of rounds.
use communication_speed.Prelude.{
  ℕ, zero, suc, ◌≡◌, ◌∙◌, refl, ap, List, [], ◌∷◌, length, true, false, Option, none, some,
}
use communication_speed.Prelude.Int.{ℤ, ◌≤ℤ◌}
use communication_speed.Prelude.Io.{Answers, done, ◌>>=◌, ◌>>◌, pure, bind_ended, ask}
use communication_speed.Clock.Stopwatch
use communication_speed.Clock.Stopwatch.{Timeval, MyClock}
use communication_speed.Clock.Stopwatch.Runs.{Op, resume, stop, apply, run, instant, instants}
use communication_speed.Clock.Stopwatch.Bounds.{Alternates, last_instant}
use communication_speed.Net.{
  Message, recv_error, time_cost, time_cost_percase, Call, read, write, close, gettimeofday, print,
  Reply, Trace, put, starts, hello, terminated, or_fault, unless_broken,
}
use communication_speed.Net.Texts.{put-starts, starts-starts, text_of-starts, hello-NoZero}
use communication_speed.Net.Client.{
  Client, complain_unless, send_and_check, check_answer, round, rounds,
}

-- What happened: the texts sent, the last first; how often the text that came back was not the
-- greeting; the costs printed and the times read, the last first; how often a socket was closed.
pub record Story : Type 0 where
  pub sent : List (List ℕ)
  pub errors : ℕ
  pub costs : List ℤ
  pub times : List Timeval
  pub closed : ℕ

abbrev pub nothing : Story
nothing = record { sent = []; errors = 0; costs = []; times = []; closed = 0 }

abbrev pub note_message : Message → Story → Story
note_message recv_error s = record s { errors = suc s.errors }
note_message (time_cost c) s = record s { costs = c ∷ s.costs }
note_message (time_cost_percase c) s = record s { costs = c ∷ s.costs }
note_message _ s = s

abbrev pub note : Call → Reply → Story → Story
note (write fd bytes) r s = record s { sent = bytes ∷ s.sent }
note (close fd) r s = record s { closed = suc s.closed }
note gettimeofday r s = record s { times = r.time ∷ s.times }
note (print m) r s = note_message m s
note _ r s = s

unfoldable pub story : Trace → Story
story [] = nothing
story (e ∷ t) = note e.call e.reply (story t)

-- The times at which a round resumed and stopped the clock.
pub record Spell : Type 0 where
  pub from : Timeval
  pub to : Timeval

abbrev pub ops_of : List Spell → List (Op Timeval)
ops_of [] = []
ops_of (s ∷ ss) = resume s.from ∷ stop s.to ∷ ops_of ss

-- The times of the spells before other times, the last first.
abbrev pub times_of : List Spell → List Timeval → List Timeval
times_of [] l = l
times_of (s ∷ ss) l = times_of ss (s.to ∷ s.from ∷ l)

abbrev pub note_time : Call → Reply → Option ℤ → Option ℤ
note_time gettimeofday r x = some (instant r.time)
note_time _ r x = x

-- The instant of the last reading of the time.
unfoldable pub last_time : Trace → Option ℤ
last_time [] = none
last_time (e ∷ t) = note_time e.call e.reply (last_time t)

abbrev pub or_time : Option ℤ → Option ℤ → Option ℤ
or_time none y = y
or_time (some x) y = some x

-- The instant of the first reading of the time.
unfoldable pub first_time : Trace → Option ℤ
first_time [] = none
first_time (e ∷ t) = or_time (first_time t) (note_time e.call e.reply none)

-- `n` greetings before the others
unfoldable pub greetings : ℕ → List (List ℕ) → List (List ℕ)
greetings zero l = l
greetings (suc n) l = greetings n (hello ∷ l)

module _ (answer : Answers Call Reply) where
  -- No reading of the time is before the last.
  abbrev pub Monotone : Type 0
  Monotone = (t : Trace) (x : ℤ) → last_time t ≡ some x → x ≤ℤ instant (answer t gettimeofday).time

  -- Each read after a greeting was sent answers with the greeting, a first part of it, or nothing.
  abbrev pub Parts : Type 0
  Parts =
      (t : Trace) (fd : ℤ) (r : Reply)
      → starts
          (answer (record { call = write fd hello; reply = r } ∷ t) (read fd (length hello))).bytes
          hello
        ≡ true

  -- No write finds its connection broken or never made.
  abbrev pub Unbroken : Type 0
  Unbroken = (t : Trace) (fd : ℤ) (bytes : List ℕ) → (answer t (write fd bytes)).broken ≡ false

  pub record Rounded (fd : ℤ) (c : Client) (t : Trace) : Type 0 where
    pub begin : Timeval
    pub end : Timeval
    pub after : Trace
    pub returns :
        round answer fd c t
        ≡ done (record c { clock = Stopwatch.stop end (Stopwatch.resume begin c.clock) }) after
    pub same_story :
        story after
        ≡ record (story t) { sent = hello ∷ (story t).sent; times = end ∷ begin ∷ (story t).times }
    pub same_first : (x : ℤ) → first_time t ≡ some x → first_time after ≡ some x
    pub not_before :
        Monotone
        → (x : ℤ) → last_time t ≡ some x
        → (x ≤ℤ instant begin)
          × (instant begin ≤ℤ instant end)
          × (last_time after ≡ some (instant end))

  pub round-Rounded :
      (fd : ℤ) (c : Client) (t : Trace)
      → Parts
      → Unbroken
      → starts (terminated hello) c.buf ≡ true
      → Rounded fd c t
  unfolding round send_and_check check_answer ask story last_time first_time
  round-Rounded fd c t parts whole greeting =
      let begin : Timeval = (answer t gettimeofday).time in
      let t1 : Trace = record { call = gettimeofday; reply = answer t gettimeofday } ∷ t in
      let t2 : Trace = record { call = write fd hello; reply = answer t1 (write fd hello) } ∷ t1 in
      let r : Reply = answer t2 (read fd (length hello)) in
      let t3 : Trace = record { call = read fd (length hello); reply = r } ∷ t2 in
      let end : Timeval = (answer t3 gettimeofday).time in
      let after : Trace = record { call = gettimeofday; reply = answer t3 gettimeofday } ∷ t3 in
      let clock : MyClock = Stopwatch.stop end (Stopwatch.resume begin c.clock) in
      let same : put r.bytes c.buf ≡ c.buf = put-starts r.bytes c.buf (
        starts-starts r.bytes hello (0 ∷ []) c.buf (parts t1 fd (answer t1 (write fd hello)))
          greeting) in
      record {
        begin = begin;
        end = end;
        after = after;
        returns =
            ap (λ o. (or_fault o >>= send_and_check answer fd c begin) t1)
              (text_of-starts hello c.buf hello-NoZero greeting)
            ∙ ap (λ b. (unless_broken b >> check_answer answer fd c begin (length hello)) t2)
                (whole t1 fd hello)
            ∙ ap
                (λ buf.
                  (complain_unless answer (starts (terminated hello) buf)
                      >> pure (record { buf = buf; clock = clock }))
                    after)
                same
            ∙ ap (λ g. (complain_unless answer g >> pure (record c { clock = clock })) after)
                greeting;
        same_story = refl;
        same_first = λ x e.
            ap
              (λ o.
                or_time (or_time (or_time (or_time o (some (instant begin))) none) none)
                  (some (instant end)))
              e;
        not_before = λ m x e. (m t x e, m t3 _ refl, refl);
      }

  -- `n` rounds: the spells that the clock measured, and what was sent.
  pub record Went (n : ℕ) (fd : ℤ) (c : Client) (t : Trace) : Type 0 where
    pub spells : List Spell
    pub number : length spells ≡ n
    pub after : Trace
    pub returns :
        rounds answer n fd c t ≡ done (record c { clock = run (ops_of spells) c.clock }) after
    pub now_story : story after ≡ record (story t) {
      sent = greetings n (story t).sent;
      times = times_of spells (story t).times;
    }
    pub same_first : (x : ℤ) → first_time t ≡ some x → first_time after ≡ some x
    pub alternates :
        Monotone
        → (x : ℤ) → last_time t ≡ some x
        → Alternates false x (instants (ops_of spells))
          × (last_time after ≡ some (last_instant x (instants (ops_of spells))))

  pub rounds-Went :
      (n : ℕ) (fd : ℤ) (c : Client) (t : Trace)
      → Parts
      → Unbroken
      → starts (terminated hello) c.buf ≡ true
      → Went n fd c t
  unfolding rounds run apply greetings
  rounds-Went zero fd c t parts whole greeting = record {
    spells = [];
    number = refl;
    after = t;
    returns = refl;
    now_story = refl;
    same_first = λ x e. e;
    alternates = λ m x e. (tt, e);
  }
  rounds-Went (suc n) fd c t parts whole greeting =
      let r : Rounded fd c t = round-Rounded fd c t parts whole greeting in
      let c' : Client = record c {
        clock = Stopwatch.stop r.end (Stopwatch.resume r.begin c.clock);
      } in
      let w : Went n fd c' r.after = rounds-Went n fd c' r.after parts whole greeting in
      record {
        spells = record { from = r.begin; to = r.end } ∷ w.spells;
        number = ap suc w.number;
        after = w.after;
        returns = ap (λ e. bind_ended e (rounds answer n fd)) r.returns ∙ w.returns;
        now_story =
            w.now_story
            ∙ ap {A = Story}
                (λ s. record s { sent = greetings n s.sent; times = times_of w.spells s.times })
                r.same_story;
        same_first = λ x e. w.same_first x (r.same_first x e);
        alternates = λ m x e.
            let b = r.not_before m x e in
            let a = w.alternates m (instant r.end) b.2 in ((b.0, (b.1, a.0)), a.1);
      }
