-- ===== src/Rdma/Socket/Poll.antt =====
-- `poll_completion`: the end of its loop, and the code it returns.
use communication_speed.Prelude.{
  ℕ, zero, suc, ◌+◌, ◌≤◌, ◌≡◌, ◌≢◌, ◌⊎◌, inl, inr, ◌∙◌, refl, ap, arith, List, length, ◌∷◌, Bool,
  true, false, not, ◌&&◌, ltb, ◌==◌, le→ltb, Bool-cases, sub_u64,
}
use communication_speed.Prelude.Int.{ℤ, pos, negsuc, truthy, is_pos}
use communication_speed.Rdma.Types.{Reply, Event, poll_cq, gettimeofday}
use communication_speed.Rdma.Machine.{Env, World, Run, M, bind_run, ok, pure, ext}
use communication_speed.Rdma.Socket.{msec, max_poll_cq_timeout, poll_loop, polled, poll_completion}

-- What the code says of the last reply of the queue: 0 for a completion with success, 1 otherwise.
abbrev pub Told : Env → Reply → ℤ → Type 0
Told env p rc =
    ((rc ≡ pos 0) × ((is_pos p.code ≡ true) × (p.stored ≡ env.wc_success)))
    ⊎ ((rc ≡ pos 1) × ((is_pos p.code ≡ false) ⊎ (p.stored ≢ env.wc_success)))

pub polled-Told : (env : Env) (code : ℤ) (p : Reply) → p.code ≡ code → Told env p (polled env p)
polled-Told env (pos zero) p e = inr (rw e refl, inl (ap is_pos e))
polled-Told env (negsuc n) p e = inr (rw e refl, inl (ap is_pos e))
polled-Told env (pos (suc n)) p e = elim (Bool-cases (p.stored == env.wc_success)) [
  | inl t ↦ inl (rw (e, t) refl, (ap is_pos e, grind arith))
  | inr t ↦ inr (rw (e, t) refl, inr (λ same. grind arith))
]

and_false : (b : Bool) → (b && false) ≡ false
and_false true = refl
and_false false = refl

module _ (env : Env) (cq start : ℕ) where
  -- One round: the poll, then the clock.
  abbrev pub poll : World → Reply
  poll w = env.answer w.trace (poll_cq cq)

  abbrev pub after_poll : World → World
  after_poll w = record w { trace = record { call = poll_cq cq; reply = poll w } ∷ w.trace }

  abbrev pub time : World → Reply
  time w = env.answer (after_poll w).trace gettimeofday

  abbrev pub after_round : World → World
  after_round w = record w {
    trace = record { call = gettimeofday; reply = time w } ∷ (after_poll w).trace;
  }

  abbrev pub goes_on : World → Bool
  goes_on w =
      not (truthy (poll w).code)
      && ltb (sub_u64 (msec env (time w)) start) (max_poll_cq_timeout env)

  abbrev next : ℕ → World → Bool → Run Reply
  next fuel w b =
      (elim b as (λ _. M Reply) [ true ↦ poll_loop env fuel cq start | false ↦ pure (poll w) ])
        (after_round w)

  pub round_over :
      (fuel : ℕ) (w : World)
      → goes_on w ≡ false
      → poll_loop env (suc fuel) cq start w ≡ ok (poll w) (after_round w)
  unfolding poll_loop ext
  round_over fuel w e = ap (next fuel w) e

  pub round_on :
      (fuel : ℕ) (w : World)
      → goes_on w ≡ true
      → poll_loop env (suc fuel) cq start w ≡ poll_loop env fuel cq start (after_round w)
  unfolding poll_loop ext
  round_on fuel w e = ap (next fuel w) e

  -- Where the clock says that the time is over, the loop does not go on.
  pub time_over :
      (w : World) → max_poll_cq_timeout env ≤ sub_u64 (msec env (time w)) start → goes_on w ≡ false
  time_over w h =
      ap (λ b. not (truthy (poll w).code) && b)
        (le→ltb (sub_u64 (msec env (time w)) start) (max_poll_cq_timeout env) h)
      ∙ and_false (not (truthy (poll w).code))

  -- The loop ends with the reply of its last poll, and the trace holds that poll and the time.
  abbrev pub Polled : Run Reply → Type 0
  Polled r =
      (p : Reply) × (w' : World) × (t : List Event) × (now : Reply) × (r ≡ ok p w')
      × (w'.trace
          ≡ record { call = gettimeofday; reply = now }
            ∷ record { call = poll_cq cq; reply = p }
            ∷ t)

  Polled-over :
      (fuel : ℕ) (w : World) → goes_on w ≡ false → Polled (poll_loop env (suc fuel) cq start w)
  Polled-over fuel w e = (poll w, after_round w, w.trace, time w, round_over fuel w e, refl)

  Polled-on :
      (fuel : ℕ) (w : World)
      → goes_on w ≡ true
      → Polled (poll_loop env fuel cq start (after_round w))
      → Polled (poll_loop env (suc fuel) cq start w)
  Polled-on fuel w e (p, w', t, now, returns, traced) =
      (p, w', t, now, round_on fuel w e ∙ returns, traced)

  module _ (bound : ℕ)
      (late : (t : List Event)
        → bound ≤ length t
        → max_poll_cq_timeout env ≤ sub_u64 (msec env (env.answer t gettimeofday)) start) where
    too_late : (w : World) → bound ≤ length w.trace → goes_on w ≡ false
    too_late w h =
        let h' : bound ≤ length (after_poll w).trace = omega (arith, h) in
        time_over w (late (after_poll w).trace h')

    poll_loop_total :
        (fuel : ℕ) (w : World)
        → bound ≤ length w.trace + fuel
        → Polled (poll_loop env (suc fuel) cq start w)
    poll_loop_total zero w h = Polled-over zero w (too_late w (omega arith))
    poll_loop_total (suc fuel) w h = elim (Bool-cases (goes_on w)) [
      | inl e ↦ Polled-on (suc fuel) w e (poll_loop_total fuel (after_round w) (omega arith))
      | inr e ↦ Polled-over (suc fuel) w e
    ]

-- Where two seconds have gone by on the clock once `bound` calls have been made, `poll_completion`
-- returns within one round more than `bound`. Its code is 0 where the last poll gave a completion
-- with success, and 1 where it gave none, an error, or a completion of another status.
pub poll_completion_total :
    (env : Env) (bound : ℕ) (w : World)
    → ((t : List Event)
        → bound ≤ length t
        → max_poll_cq_timeout env
          ≤ sub_u64
              (msec env (env.answer t gettimeofday))
              (msec env (env.answer w.trace gettimeofday)))
    → (p : Reply) × (rc : ℤ) × (w' : World) × (t : List Event) × (now : Reply) × (poll_completion
          env
          (suc bound)
          w
        ≡ ok rc w')
      × (w'.trace
          ≡ record { call = gettimeofday; reply = now }
            ∷ record { call = poll_cq w.res.cq; reply = p }
            ∷ t)
      × Told env p rc
unfolding poll_completion ext
poll_completion_total env bound w late =
    let first : Reply = env.answer w.trace gettimeofday in
    let w1 : World = record w { trace = record { call = gettimeofday; reply = first } ∷ w.trace } in
    let (p, w', t, now, returns, traced) =
      poll_loop_total env w.res.cq (msec env first) bound late bound w1 (omega arith) in
    (
      p,
      polled env p,
      w',
      t,
      now,
      ap (λ r. bind_run r (λ q. pure (polled env q))) returns,
      traced,
      polled-Told env p.code p refl,
    )
