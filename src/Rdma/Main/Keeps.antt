-- ===== src/Rdma/Main/Keeps.antt =====
-- The functions between `resources_create` and `main_exit`, for the invariant of the resources.
use communication_speed.Prelude.{
  ℕ, zero, suc, ◌≡◌, refl, ap, List, Bool, true, false, not, ◌&&◌, Option, none, some, arith, ltb,
  sub_u64, if◌then◌else◌,
}
use communication_speed.Prelude.Text.{codes}
use communication_speed.Prelude.Int.{ℤ, pos, truthy, is_neg}
use communication_speed.Rdma.Types.{
  Call, Opcode, ConData, Config, Reply, read, write, poll_cq, gettimeofday, post_send, post_recv,
  modify_qp, query_gid,
}
use communication_speed.Rdma.Machine.{
  Env, World, M, ◌>>=◌, ◌>>◌, pure, fail_if, ext, get_res, get_config,
}
use communication_speed.Rdma.Socket.{
  sock_sync_data, poll_loop, poll_completion, polled, msec, max_poll_cq_timeout,
}
use communication_speed.Rdma.Post.{send, receive, send_wr, buf_sge}
use communication_speed.Rdma.Qp.{
  modify_qp_to_init, modify_qp_rtr, modify_qp_rts, init_attr, init_mask, rtr_attr, rtr_mask,
  rts_attr, rts_mask,
}
use communication_speed.Rdma.Connect.{
  put_remote, zeros, con_data_size, con_bytes, con_of_bytes, local_con_data, remote_con_data,
  gid_at, own_gid, exchange, client_receive, raise_qp, connect_body, connect_qp,
}
use communication_speed.Rdma.Stays.{
  Stays, Stays-bind, Stays-then, Stays-pure, Stays-fail_own, Stays-fail_one, Stays-choose,
  Stays-catch, sock_sync_data-Stays,
}
use communication_speed.Rdma.Create.Counts.{Handle, acquired, returned, tally, opened, closed, held}
use communication_speed.Rdma.Create.Owns.{Owns, tally-none}

-- The invariant between the functions: no list is held.
pub record Kept (d : Handle → ℕ) (w : World) : Type 0 where
  pub owns : Owns d w
  pub no_list : w.dev_list ≡ 0

-- The code keeps the invariant, whichever way it ends.
abbrev pub Keeps : {A : Type 0} → (Handle → ℕ) → M A → Type 0
Keeps d m = Stays (Kept d) m

module _ (env : Env) (d : Handle → ℕ) where
  -- A call that is about no handle.
  pub Keeps-ext :
      (c : Call) → ((r : Reply) → acquired c r ≡ none) → returned c ≡ none → Keeps d (ext env c)
  unfolding ext opened closed held
  Keeps-ext c a b w g =
      let r = env.answer w.trace c in
      record {
        owns = λ h. omega (arith, g.owns h, tally-none h, ap (tally h) (a r), ap (tally h) b);
        no_list = g.no_list;
      }

  poll_loop-Keeps : (fuel cq start : ℕ) → Keeps d (poll_loop env fuel cq start)
  unfolding poll_loop acquired returned
  poll_loop-Keeps zero cq start = λ w g. tt
  poll_loop-Keeps (suc fuel) cq start =
      Stays-bind (Kept d) (ext env (poll_cq cq)) _ (Keeps-ext (poll_cq cq) (λ r. refl) refl) λ p.
        Stays-bind (Kept d) (ext env gettimeofday) _ (Keeps-ext gettimeofday (λ r. refl) refl) λ t.
          Stays-choose (Kept d)
            (not (truthy p.code) && ltb (sub_u64 (msec env t) start) (max_poll_cq_timeout env))
            (poll_loop env fuel cq start) (pure p) (poll_loop-Keeps fuel cq start)
            (Stays-pure (Kept d) p)

  pub get_res-Keeps : Keeps d get_res
  get_res-Keeps w g = g

  get_config-Keeps : Keeps d get_config
  get_config-Keeps w g = g

  put_remote-Keeps : (c : ConData) → Keeps d (put_remote c)
  unfolding held
  put_remote-Keeps c w g = record { owns = g.owns; no_list = g.no_list }

  pub sock_sync_data-Keeps :
      (fuel : ℕ) (sock : ℤ) (size : ℕ) (bytes remote : List ℕ)
      → Keeps d (sock_sync_data env fuel sock size bytes remote)
  unfolding acquired returned
  sock_sync_data-Keeps =
      sock_sync_data-Stays env (Kept d) (λ sock size. Keeps-ext (read sock size) (λ r. refl) refl)
        (λ sock bytes. Keeps-ext (write sock bytes) (λ r. refl) refl)

  pub poll_completion-Keeps : (fuel : ℕ) → Keeps d (poll_completion env fuel)
  unfolding poll_completion acquired returned
  poll_completion-Keeps fuel = Stays-bind (Kept d) get_res _ get_res-Keeps λ r.
      Stays-bind (Kept d) (ext env gettimeofday) _ (Keeps-ext gettimeofday (λ r. refl) refl) λ t.
        Stays-bind (Kept d) (poll_loop env fuel r.cq (msec env t)) _
          (poll_loop-Keeps fuel r.cq (msec env t)) (λ p. Stays-pure (Kept d) (polled env p))

  -- A call that returns its code.
  call-Keeps :
      (c : Call)
      → ((r : Reply) → acquired c r ≡ none)
      → returned c ≡ none
      → Keeps d (ext env c >>= λ r. pure r.code)
  call-Keeps c a b =
      Stays-bind (Kept d) (ext env c) _ (Keeps-ext c a b) (λ r. Stays-pure (Kept d) r.code)

  pub send-Keeps : (o : Opcode) → Keeps d (send env o)
  unfolding send acquired returned
  send-Keeps o =
      Stays-bind (Kept d) get_res _ get_res-Keeps
        λ r. call-Keeps (post_send r.qp (send_wr env r o)) (λ x. refl) refl

  receive-Keeps : Keeps d (receive env)
  unfolding receive acquired returned
  receive-Keeps =
      Stays-bind (Kept d) get_res _ get_res-Keeps
        λ r. call-Keeps (post_recv r.qp (buf_sge env r)) (λ x. refl) refl

  init-Keeps : (qp : ℕ) → Keeps d (modify_qp_to_init env qp)
  unfolding modify_qp_to_init acquired returned
  init-Keeps qp =
      Stays-bind (Kept d) get_config _ get_config-Keeps
        λ c. call-Keeps (modify_qp qp (init_attr c) init_mask) (λ x. refl) refl

  rtr-Keeps : (qp n lid : ℕ) (gid : List ℕ) → Keeps d (modify_qp_rtr env qp n lid gid)
  unfolding modify_qp_rtr acquired returned
  rtr-Keeps qp n lid gid =
      Stays-bind (Kept d) get_config _ get_config-Keeps
        λ c. call-Keeps (modify_qp qp (rtr_attr c n lid gid) rtr_mask) (λ x. refl) refl

  rts-Keeps : (qp : ℕ) → Keeps d (modify_qp_rts env qp)
  unfolding modify_qp_rts acquired returned
  rts-Keeps qp = call-Keeps (modify_qp qp rts_attr rts_mask) (λ x. refl) refl

  gid_at-Keeps : (b : Bool) (c : Config) → Keeps d (gid_at env b c)
  unfolding acquired returned
  gid_at-Keeps true c = Stays-pure (Kept d) (zeros 16)
  gid_at-Keeps false c = Stays-bind (Kept d) get_res _ get_res-Keeps λ r.
      Stays-bind (Kept d) (ext env (query_gid r.ib_ctx c.ib_port c.gid_idx)) _
        (Keeps-ext (query_gid r.ib_ctx c.ib_port c.gid_idx) (λ x. refl) refl)
        λ g.
          Stays-then (Kept d) (fail_if (truthy g.code) g.code) _ (Stays-fail_own (Kept d) g.code)
            (Stays-pure (Kept d) g.bytes)

  exchange-Keeps : (fuel : ℕ) → Keeps d (exchange env fuel)
  unfolding exchange own_gid
  exchange-Keeps fuel =
      Stays-bind (Kept d) (own_gid env) _
        (Stays-bind (Kept d) get_config _ get_config-Keeps λ c. gid_at-Keeps (is_neg c.gid_idx) c)
        λ my_gid. Stays-bind (Kept d) get_res _ get_res-Keeps λ r.
          Stays-bind (Kept d)
            (sock_sync_data env fuel r.sock con_data_size
              (con_bytes (local_con_data env r my_gid) (env.uninit 6)) (env.uninit con_data_size))
            _
            (sock_sync_data-Keeps fuel r.sock con_data_size
              (con_bytes (local_con_data env r my_gid) (env.uninit 6)) (env.uninit con_data_size))
            λ s.
              Stays-then (Kept d) (fail_if (is_neg s.rc) (pos 1)) _
                (Stays-fail_one (Kept d) (is_neg s.rc))
                (Stays-then {B = ConData} (Kept d)
                  (put_remote (remote_con_data env (con_of_bytes s.remote)))
                  (pure (remote_con_data env (con_of_bytes s.remote)))
                  (put_remote-Keeps (remote_con_data env (con_of_bytes s.remote)))
                  (Stays-pure (Kept d) (remote_con_data env (con_of_bytes s.remote))))

  client_receive-Keeps : (server : Option (List ℕ)) → Keeps d (client_receive env server)
  client_receive-Keeps none = Stays-pure (Kept d) (pos 0)
  client_receive-Keeps (some s) = receive-Keeps

  -- A call whose code, where it is not 0, ends the function.
  checked-Keeps :
      {A : Type 0} (m : M ℤ) (n : M A)
      → Keeps d m
      → Keeps d n
      → Keeps d (m >>= λ rc. fail_if (truthy rc) rc >> n)
  checked-Keeps m n h k =
      Stays-bind (Kept d) m _ h
        λ rc. Stays-then (Kept d) (fail_if (truthy rc) rc) n (Stays-fail_own (Kept d) rc) k

  raise_qp-Keeps : (c : ConData) → Keeps d (raise_qp env c)
  unfolding raise_qp
  raise_qp-Keeps remote = Stays-bind (Kept d) get_res _ get_res-Keeps λ r.
      Stays-bind (Kept d) get_config _ get_config-Keeps λ c.
        checked-Keeps (modify_qp_to_init env r.qp) _ (init-Keeps r.qp) (
          checked-Keeps (client_receive env c.server_name) _ (client_receive-Keeps c.server_name) (
            checked-Keeps (modify_qp_rtr env r.qp remote.qp_num remote.lid remote.gid) _
              (rtr-Keeps r.qp remote.qp_num remote.lid remote.gid)
              (Stays-bind (Kept d) (modify_qp_rts env r.qp) _ (rts-Keeps r.qp)
                λ rc. Stays-fail_own (Kept d) rc)))

  pub connect_qp-Keeps : (fuel : ℕ) → Keeps d (connect_qp env fuel)
  unfolding connect_qp connect_body
  connect_qp-Keeps fuel = Stays-catch (Kept d) (connect_body env fuel) (
      Stays-bind (Kept d) (exchange env fuel) _ (exchange-Keeps fuel) λ remote.
        Stays-then (Kept d) (raise_qp env remote) _ (raise_qp-Keeps remote) (
          Stays-bind (Kept d) get_res _ get_res-Keeps λ r.
            Stays-bind (Kept d) (sock_sync_data env fuel r.sock 1 (codes "Q") (env.uninit 1)) _
              (sock_sync_data-Keeps fuel r.sock 1 (codes "Q") (env.uninit 1))
              (λ s. Stays-pure (Kept d) (if truthy s.rc then pos 1 else pos 0))))
