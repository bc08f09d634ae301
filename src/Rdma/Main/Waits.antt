-- ===== src/Rdma/Main/Waits.antt =====
-- The waits of `rcmain`, for a completion and for the other side, by the phases that they lead
-- through.
use mathlib.Core.Path.{subst}
use communication_speed.Prelude.{
  ℕ, zero, suc, ◌+◌, ◌<◌, ◌≡◌, ◌⊎◌, inl, inr, refl, sym, ap, arith, List, ◌∷◌, true, false, not,
  ◌&&◌, ltb, take, sub_u64, if◌then◌else◌, Bool-cases,
}
use communication_speed.Prelude.Int.{ℤ, pos, negsuc, truthy, is_pos, to_nat}
use communication_speed.Rdma.Types.{Resources, Reply, Event, write, read, gettimeofday, poll_cq}
use communication_speed.Rdma.Machine.{Env, World, ◌>>=◌, pure, ext}
use communication_speed.Rdma.Socket.{
  sync_loop, sock_sync_data, overwrite, equals, less, msec, max_poll_cq_timeout, poll_loop, polled,
  poll_completion,
}
use communication_speed.Rdma.Socket.Poll.{polled-Told}
use communication_speed.Rdma.Stops.{going, is_pos-to_nat}
use communication_speed.Rdma.Main.{meet, start}
use communication_speed.Rdma.Main.Protocol.{Side, Phase, Completes, Next, Follows, leads, waiting}
use communication_speed.Rdma.Main.Phases.{
  Ending, Ending-bind, Ending-choose, Ending-assert, Tried, Now,
}

is_one : (code : ℤ) → equals code 1 ≡ true → code ≡ pos 1
is_one (pos n) e = ap pos (grind arith)
is_one (negsuc n) e = cc

module _ (env : Env) (side : Side) (old : List Event) where
  -- The world of a loop, whose resources are those at its start.
  abbrev At : Resources → Phase → World → Type 0
  At r p w = Follows env r side old w.trace p × (w.res ≡ r)

  At-Now : (r : Resources) (p : Phase) (w : World) → At r p w → Now env side old p w
  At-Now r p w (f, e) = subst (λ v. Follows env v side old w.trace p) (sym e) f

  module _ (r : Resources) (p q : Phase) where
    -- The loop has failed; or nothing is read yet; or the byte is there.
    Reading : ℤ → ℕ → World → Type 0
    Reading rc total w =
        (truthy rc ≡ true)
        ⊎ ((truthy rc ≡ false) × (((total ≡ 0) × At r p w) ⊎ ((0 < total) × At r q w)))

    Reading-first :
        (rc : ℤ) (total : ℕ) (w : World)
        → Reading rc total w
        → (truthy rc ≡ false) × (total < 1)
        → At r p w
    unfolding Reading
    Reading-first rc total w (inl t) (c, l) = cc
    Reading-first rc total w (inr (c', inl (z, a))) (c, l) = a
    Reading-first rc total w (inr (c', inr (z, a))) (c, l) = absurd (omega (arith, z, l))

    Reading-last :
        (rc : ℤ) (total : ℕ) (w : World)
        → Reading rc total w
        → (not (truthy rc) && ltb total 1) ≡ false
        → Tried (Now env side old q) rc w
    unfolding Reading
    Reading-last rc total w (inl t) b = inl t
    Reading-last rc total w (inr (c, inl (z, a))) b = cc
    Reading-last rc total w (inr (c, inr (z, a))) b = inr (c, At-Now r q w a)

    module _
        (meets : (reply : Reply)
          → is_pos reply.code ≡ true
          → Next env r side p (record { call = read r.sock 1; reply = reply }) q) where
      sync_loop-Ending :
          (fuel : ℕ) (rc : ℤ) (total : ℕ) (remote : List ℕ) (w : World)
          → Reading rc total w
          → Ending
              (λ s. Tried (Now env side old q) s.rc)
              (sync_loop env fuel r.sock 1 rc total remote w)
      unfolding sync_loop Reading ext
      sync_loop-Ending zero rc total remote w h = tt
      sync_loop-Ending (suc fuel) rc total remote w h =
          let reply = env.answer w.trace (read r.sock 1) in
          let w1 : World = record w {
            trace = record { call = read r.sock 1; reply = reply } ∷ w.trace;
          } in
          let got = overwrite (take (to_nat reply.code) reply.bytes) remote in
          Ending-choose (λ s. Tried (Now env side old q) s.rc) (not (truthy rc) && ltb total 1)
            (ext env (read r.sock 1) >>= λ x. elim (is_pos x.code) [
              | true ↦
                  sync_loop env fuel r.sock 1 rc (total + to_nat x.code)
                    (overwrite (take (to_nat x.code) x.bytes) remote)
              | false ↦ sync_loop env fuel r.sock 1 x.code total remote
            ])
            (pure (record { rc = rc; remote = remote })) w
            (λ b.
              let (c, l) = going rc total 1 b in
              let (f, e) = Reading-first rc total w h (c, l) in
              Ending-choose (λ s. Tried (Now env side old q) s.rc) (is_pos reply.code) _ _ w1
                (λ b'.
                  let some_bytes = is_pos-to_nat reply.code b' in
                  sync_loop-Ending fuel rc (total + to_nat reply.code) got w1
                    (inr (c, inr (omega arith, (leads (meets reply b') f, e)))))
                (λ b'.
                  sync_loop-Ending fuel reply.code total remote w1
                    (elim (Bool-cases (truthy reply.code)) [
                      | inl t ↦ inl t
                      | inr t ↦ inr (t, inl (omega arith, (waiting refl f, e)))
                    ])))
            (λ b. Reading-last rc total w h b)

      -- The bytes go out, and the sides meet.
      sock_sync_data-Ending :
          (before : Phase) (fuel : ℕ) (text remote : List ℕ) (w : World)
          → ((reply : Reply)
              → reply.code ≡ pos 1
              → Next env r side before (record { call = write r.sock text; reply = reply }) p)
          → At r before w
          → Ending
              (λ s. Tried (Now env side old q) s.rc)
              (sock_sync_data env fuel r.sock 1 text remote w)
      unfolding sock_sync_data ext Reading
      sock_sync_data-Ending before fuel text remote w offers (f, e) =
          let reply = env.answer w.trace (write r.sock text) in
          let w1 : World = record w {
            trace = record { call = write r.sock text; reply = reply } ∷ w.trace;
          } in
          let first : ℤ → ℤ = λ c. if less c 1 then c else pos 0 in
          Ending-assert (λ s. Tried (Now env side old q) s.rc) (equals reply.code 1)
            (sync_loop env fuel r.sock 1 (first reply.code) 0 remote) w1
            λ b.
              let one = is_one reply.code b in
              sync_loop-Ending fuel (first reply.code) 0 remote w1
                (inr (ap (λ c. truthy (first c)) one, inl (refl, (leads (offers reply one) f, e))))

  module _ (r : Resources) (p q : Phase)
      (completes : (reply : Reply)
        → Completes env reply
        → Next env r side p (record { call = poll_cq r.cq; reply = reply }) q) where
    -- The last poll says what the code returned is.
    last_poll :
        (reply now : Reply) (w : World)
        → At r p w
        → Tried (Now env side old q) (polled env reply) (record w {
          trace =
              record { call = gettimeofday; reply = now }
              ∷ record { call = poll_cq r.cq; reply = reply }
              ∷ w.trace;
        })
    last_poll reply now w (f, e) = elim (polled-Told env reply.code reply refl) [
      | inl (z, c) ↦ inr (
        ap truthy z,
        At-Now r q
            (record w {
              trace =
                  record { call = gettimeofday; reply = now }
                  ∷ record { call = poll_cq r.cq; reply = reply }
                  ∷ w.trace;
            })
            (waiting refl (leads (completes reply c) f), e),
      )
      | inr (z, c) ↦ inl (ap truthy z)
    ]

    poll_loop-Ending :
        (fuel start : ℕ) (w : World)
        → At r p w
        → Ending (λ x. Tried (Now env side old q) (polled env x)) (poll_loop env fuel r.cq start w)
    unfolding poll_loop ext
    poll_loop-Ending zero start w h = tt
    poll_loop-Ending (suc fuel) start w h =
        let reply = env.answer w.trace (poll_cq r.cq) in
        let polled_event : Event = record { call = poll_cq r.cq; reply = reply } in
        let now = env.answer (polled_event ∷ w.trace) gettimeofday in
        let w1 : World = record w {
          trace = record { call = gettimeofday; reply = now } ∷ polled_event ∷ w.trace;
        } in
        Ending-choose (λ x. Tried (Now env side old q) (polled env x))
          (not (truthy reply.code) && ltb (sub_u64 (msec env now) start) (max_poll_cq_timeout env))
          (poll_loop env fuel r.cq start) (pure reply) w1
          (λ b. poll_loop-Ending fuel start w1 (waiting refl (waiting refl h.0), h.1))
          (λ b. last_poll reply now w h)

  -- `poll_completion` and `meet` on the resources of the world.
  pub poll-Ending :
      (p q : Phase) (fuel : ℕ) (w : World)
      → ((reply : Reply)
          → Completes env reply
          → Next env w.res side p (record { call = poll_cq w.res.cq; reply = reply }) q)
      → Now env side old p w
      → Ending (Tried (Now env side old q)) (poll_completion env fuel w)
  unfolding poll_completion ext
  poll-Ending p q fuel w completes f =
      let first = env.answer w.trace gettimeofday in
      let w1 : World = record w {
        trace = record { call = gettimeofday; reply = first } ∷ w.trace;
      } in
      Ending-bind (λ x. Tried (Now env side old q) (polled env x)) (Tried (Now env side old q))
        (poll_loop env fuel w.res.cq (msec env first) w1) (λ x. pure (polled env x))
        (poll_loop-Ending w.res p q completes fuel (msec env first) w1 (waiting refl f, refl))
        (λ x w2 t. t)

  pub meet-Ending :
      (before p q : Phase) (fuel : ℕ) (text : List ℕ) (w : World)
      → ((reply : Reply)
          → reply.code ≡ pos 1
          → Next env w.res side before (record { call = write w.res.sock text; reply = reply }) p)
      → ((reply : Reply)
          → is_pos reply.code ≡ true
          → Next env w.res side p (record { call = read w.res.sock 1; reply = reply }) q)
      → Now env side old before w
      → Ending (Tried (Now env side old q)) (meet env fuel text w)
  unfolding meet
  meet-Ending before p q fuel text w offers meets f =
      Ending-bind (λ s. Tried (Now env side old q) s.rc) (Tried (Now env side old q))
        (sock_sync_data env fuel w.res.sock 1 text (env.uninit 1) w) (λ s. pure s.rc)
        (sock_sync_data-Ending w.res p q meets before fuel text (env.uninit 1) w offers (f, refl))
        (λ s w1 t. t)
