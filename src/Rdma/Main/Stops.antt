-- ===== src/Rdma/Main/Stops.antt =====
-- The fuel that a run of `rcmain` needs, and the codes that it returns.
use communication_speed.Prelude.{
  ℕ, ◌+◌, ◌*◌, ◌≤◌, ◌<◌, ◌≡◌, ◌≢◌, ◌⊎◌, inl, inr, refl, List, ◌++◌, Bool, true, false, Option, none,
  some, length, sub_u64, if◌then◌else◌,
}
use communication_speed.Prelude.Text.{codes}
use communication_speed.Prelude.Int.{ℤ, pos, truthy, is_neg}
use communication_speed.Rdma.Types.{
  Call, Event, Config, default_config, wr_send, rdma_write, rdma_read, strcpy, read, gettimeofday,
  destroy_qp, dereg_mr, free, destroy_cq, dealloc_pd, close_device, close,
}
use communication_speed.Rdma.Machine.{
  Env, World, Run, ok, exit, abort, spin, M, bind_run, ◌>>◌, pure, ext,
}
use communication_speed.Rdma.Socket.{sock_sync_data, msec, max_poll_cq_timeout, poll_completion}
use communication_speed.Rdma.Post.{send}
use communication_speed.Rdma.Create.{resources_create}
use communication_speed.Rdma.Create.Stops.{resources_create-Stops}
use communication_speed.Rdma.Connect.{con_data_size, connect_qp}
use communication_speed.Rdma.Connect.Stops.{send-Stops, connect_qp-Stops, byte-Stops}
use communication_speed.Rdma.Destroy.{held, give_up, free_up, resources_destroy}
use communication_speed.Rdma.Options.{Opt, configure}
use communication_speed.Rdma.Main.{
  rdma_msg_r, rdma_msg_w, need, meet, send_message, put_text, offer_text, read_and_write, main_body,
  main_exit, run_main, start, run_configured, rcmain,
}
use communication_speed.Rdma.Stops.{
  One, Stopped, Stops, Stops-bind, Stops-then, Stops-fail_if, Stops-ext, poll_completion-Stops,
}

-- A run that ended: with 0 or 1, or with an assertion.
abbrev pub Done : Run ℤ → Type 0
Done (ok rc w) = (rc ≡ pos 0) ⊎ (rc ≡ pos 1)
Done (exit rc w) = ⊥
Done (abort w) = Unit
Done (spin w) = ⊥

abbrev pub Never : ℤ → Type 0
Never rc = ⊥

module _ (env : Env) where
  give_up-Stops : (b : Bool) (c : Call) (rc : ℤ) → Stops Never (give_up env b c rc)
  unfolding give_up
  give_up-Stops false c rc = λ w. tt
  give_up-Stops true c rc = Stops-bind Never (ext env c) _ (Stops-ext env Never c) (λ r w. tt)

  free_up-Stops : (b : Bool) (p : ℕ) → Stops Never (free_up env b p)
  unfolding free_up
  free_up-Stops false p = λ w. tt
  free_up-Stops true p =
      Stops-then Never (ext env (free p)) _ (Stops-ext env Never (free p)) (λ w. tt)

  pub resources_destroy-Stops : Stops Never (resources_destroy env)
  unfolding resources_destroy
  resources_destroy-Stops w =
      let r = w.res in
      let gone = λ (p : ℕ). held env p in
      let step =
        λ (b : Bool) (c : Call) (rc : ℤ) (f : ℤ → M ℤ) (k : (rc' : ℤ) → Stops Never (f rc')).
          Stops-bind Never (give_up env b c rc) f (give_up-Stops b c rc) k in
      step (gone r.qp) (destroy_qp r.qp) (pos 0) _
        (λ rc1. step (gone r.mr) (dereg_mr r.mr) rc1 _ λ rc2.
          Stops-then Never (free_up env (gone r.buf) r.buf) _ (free_up-Stops (gone r.buf) r.buf) (
            step (gone r.cq) (destroy_cq r.cq) rc2 _ λ rc3.
              step (gone r.pd) (dealloc_pd r.pd) rc3 _ λ rc4.
                step (gone r.ib_ctx) (close_device r.ib_ctx) rc4 _
                  λ rc5. give_up-Stops (if is_neg r.sock then false else true) (close r.sock) rc5))
        w

  main_exit-Done :
      (fuel : ℕ) (rc : ℤ) (w : World) → (rc ≡ pos 0) ⊎ (rc ≡ pos 1) → Done (main_exit env fuel rc w)
  unfolding main_exit
  main_exit-Done fuel rc w e = go (resources_destroy env w) (resources_destroy-Stops w)
    where
      choose :
          (b : Bool) → ((if b then pos 1 else rc) ≡ pos 0) ⊎ ((if b then pos 1 else rc) ≡ pos 1)
      choose true = inr refl
      choose false = e

      go :
          (r : Run ℤ)
          → Stopped Never r
          → Done (bind_run r (λ d. pure (if truthy d then pos 1 else rc)))
      go (ok d w') h = choose (truthy d)
      go (exit d w') h = h
      go (abort w') h = tt
      go (spin w') h = h

module _ (env : Env) (fuel rounds : ℕ) (enough : con_data_size < fuel)
    (enough_rounds : rounds < fuel)
    (open_still : (t : List Event) (sock : ℤ) (size : ℕ)
      → (env.answer t (read sock size)).code ≢ pos 0)
    (late : (t recent : List Event)
      → length recent ≡ 2 * rounds + 2
      → max_poll_cq_timeout env
        ≤ sub_u64
            (msec env (env.answer (recent ++ t) gettimeofday))
            (msec env (env.answer t gettimeofday))) where
  need-Stops : (m : M ℤ) → Stops One m → Stops One (need env fuel m)
  need-Stops m h = Stops-bind One m _ h λ rc. Stops-fail_if One (truthy rc) (pos 1) refl

  -- A step of the program, then the others.
  need_then :
      (m : M ℤ) (n : M (Unit {0})) → Stops One m → Stops One n → Stops One (need env fuel m >> n)
  need_then m n h k = Stops-then One (need env fuel m) n (need-Stops m h) k

  poll-Stops : Stops One (poll_completion env fuel)
  poll-Stops = poll_completion-Stops env One rounds late fuel enough_rounds

  meet-Stops : (text : List ℕ) → Stops One (meet env fuel text)
  unfolding meet
  meet-Stops text w =
      Stops-bind One (sock_sync_data env fuel w.res.sock 1 text (env.uninit 1)) _
        (byte-Stops env fuel enough open_still One text w.res.sock) (λ s w'. tt) w

  put_text-Stops : (text : List ℕ) → Stops One (put_text env fuel text)
  put_text-Stops text w =
      Stops-then One (ext env (strcpy w.res.buf text)) _ (Stops-ext env One (strcpy w.res.buf text))
        (λ w'. tt) w

  send_message-Stops : (server : Option (List ℕ)) → Stops One (send_message env fuel server)
  send_message-Stops none = need-Stops (send env wr_send) (send-Stops env One wr_send)
  send_message-Stops (some s) = λ w. tt

  offer_text-Stops : (server : Option (List ℕ)) → Stops One (offer_text env fuel server)
  offer_text-Stops none = put_text-Stops rdma_msg_r
  offer_text-Stops (some s) = λ w. tt

  read_and_write-Stops : (server : Option (List ℕ)) → Stops One (read_and_write env fuel server)
  read_and_write-Stops none = λ w. tt
  read_and_write-Stops (some s) = need_then (send env rdma_read) _ (send-Stops env One rdma_read) (
      need_then (poll_completion env fuel) _ poll-Stops (
        Stops-then One (put_text env fuel rdma_msg_w) _ (put_text-Stops rdma_msg_w) (
          need_then (send env rdma_write) _ (send-Stops env One rdma_write)
            (need-Stops (poll_completion env fuel) poll-Stops))))

  main_body-Stops : Stops One (main_body env fuel)
  unfolding main_body
  main_body-Stops w =
      let server = w.config.server_name in
      need_then (resources_create env) _ (resources_create-Stops env One)
        (need_then (connect_qp env fuel) _ (connect_qp-Stops env fuel enough open_still One) (
          Stops-then One (send_message env fuel server) _ (send_message-Stops server) (
            need_then (poll_completion env fuel) _ poll-Stops (
              Stops-then One (offer_text env fuel server) _ (offer_text-Stops server) (
                need_then (meet env fuel (codes "R")) _ (meet-Stops (codes "R")) (
                  Stops-then One (read_and_write env fuel server) _ (read_and_write-Stops server)
                    (need-Stops (meet env fuel (codes "W")) (meet-Stops (codes "W")))))))))
        w

  run_main-Done : (w : World) → Done (run_main env fuel w)
  unfolding run_main
  run_main-Done w = go (main_body env fuel w) (main_body-Stops w)
    where
      go :
          (r : Run (Unit {0}))
          → Stopped One r
          → Done (elim r [
            | ok _ w' ↦ main_exit env fuel (pos 0) w'
            | exit rc w' ↦ main_exit env fuel rc w'
            | abort w' ↦ abort w'
            | spin w' ↦ spin w'
          ])
      go (ok u w') h = main_exit-Done env fuel (pos 0) w' (inl refl)
      go (exit rc w') h = main_exit-Done env fuel rc w' (inr h)
      go (abort w') h = tt
      go (spin w') h = h

  run_configured-Done : (c : Option Config) → Done (run_configured env fuel c)
  run_configured-Done none = inr refl
  run_configured-Done (some c) = run_main-Done (start env fuel c)

-- Where no read answers 0, as none does while the peer keeps the connection open, where two
-- seconds have gone by when the clock is asked `2 * rounds + 2` calls after it was asked first,
-- and with more fuel than the 40 bytes of the connection data and than `rounds`, every run of
-- `rcmain` ends, whatever else the calls answer, a signal at a write apart: it returns 0 or 1, or
-- an assertion ends it.
pub rcmain_total :
    (env : Env) (fuel rounds : ℕ) (opts : List Opt) (args : List (List ℕ))
    → con_data_size < fuel
    → rounds < fuel
    → ((t : List Event) (sock : ℤ) (size : ℕ) → (env.answer t (read sock size)).code ≢ pos 0)
    → ((t recent : List Event)
        → length recent ≡ 2 * rounds + 2
        → max_poll_cq_timeout env
          ≤ sub_u64
              (msec env (env.answer (recent ++ t) gettimeofday))
              (msec env (env.answer t gettimeofday)))
    → Done (rcmain env fuel opts args)
unfolding rcmain
rcmain_total env fuel rounds opts args enough enough_rounds open_still late =
    run_configured-Done env fuel rounds enough enough_rounds open_still late
      (configure opts args default_config)
