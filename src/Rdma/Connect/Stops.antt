-- ===== src/Rdma/Connect/Stops.antt =====
-- The fuel that `connect_qp` needs.
use communication_speed.Prelude.{ℕ, ◌<◌, ◌≢◌, arith, List, Bool, true, false, Option, none, some}
use communication_speed.Prelude.Text.{codes}
use communication_speed.Prelude.Int.{ℤ, pos, truthy, is_neg}
use communication_speed.Rdma.Types.{
  Event, ConData, Config, Opcode, read, query_gid, post_send, post_recv, modify_qp,
}
use communication_speed.Rdma.Machine.{Env, M, ◌>>=◌, ◌>>◌, fail_if, ext}
use communication_speed.Rdma.Socket.{sock_sync_data}
use communication_speed.Rdma.Post.{send, receive, send_wr, buf_sge}
use communication_speed.Rdma.Qp.{
  modify_qp_to_init, modify_qp_rtr, modify_qp_rts, init_attr, init_mask, rtr_attr, rtr_mask,
  rts_attr, rts_mask,
}
use communication_speed.Rdma.Connect.{
  con_data_size, con_bytes, local_con_data, gid_at, own_gid, exchange, client_receive, raise_qp,
  connect_body, connect_qp,
}
use communication_speed.Rdma.Stops.{
  Any, Stops, Stops-bind, Stops-then, Stops-fail_if, Stops-catch, Stops-ext, Stops-code,
  sock_sync_data-Stops,
}

module _ (env : Env) (X : ℤ → Type 0) where
  pub send-Stops : (o : Opcode) → Stops X (send env o)
  unfolding send
  send-Stops o w = Stops-code env X (post_send w.res.qp (send_wr env w.res o)) w

  receive-Stops : Stops X (receive env)
  unfolding receive
  receive-Stops w = Stops-code env X (post_recv w.res.qp (buf_sge env w.res)) w

  init-Stops : (qp : ℕ) → Stops X (modify_qp_to_init env qp)
  unfolding modify_qp_to_init
  init-Stops qp w = Stops-code env X (modify_qp qp (init_attr w.config) init_mask) w

  rtr-Stops : (qp n lid : ℕ) (gid : List ℕ) → Stops X (modify_qp_rtr env qp n lid gid)
  unfolding modify_qp_rtr
  rtr-Stops qp n lid gid w =
      Stops-code env X (modify_qp qp (rtr_attr w.config n lid gid) rtr_mask) w

  rts-Stops : (qp : ℕ) → Stops X (modify_qp_rts env qp)
  unfolding modify_qp_rts
  rts-Stops qp = Stops-code env X (modify_qp qp rts_attr rts_mask)

  client_receive-Stops : (server : Option (List ℕ)) → Stops X (client_receive env server)
  client_receive-Stops none = λ w. tt
  client_receive-Stops (some s) = receive-Stops

module _ (env : Env) where
  gid_at-Stops : (b : Bool) (c : Config) → Stops Any (gid_at env b c)
  gid_at-Stops true c w = tt
  gid_at-Stops false c w =
      Stops-bind Any (ext env (query_gid w.res.ib_ctx c.ib_port c.gid_idx)) _
        (Stops-ext env Any (query_gid w.res.ib_ctx c.ib_port c.gid_idx))
        (λ g.
          Stops-then Any (fail_if (truthy g.code) g.code) _
            (Stops-fail_if Any (truthy g.code) g.code tt) (λ w'. tt))
        w

  own_gid-Stops : Stops Any (own_gid env)
  unfolding own_gid
  own_gid-Stops w = gid_at-Stops (is_neg w.config.gid_idx) w.config w

  -- A call whose code, where it is not 0, ends the function.
  checked-Stops :
      {A : Type 0} (m : M ℤ) (n : M A)
      → Stops Any m
      → Stops Any n
      → Stops Any (m >>= λ rc. fail_if (truthy rc) rc >> n)
  checked-Stops m n h k =
      Stops-bind Any m _ h
        λ rc. Stops-then Any (fail_if (truthy rc) rc) n (Stops-fail_if Any (truthy rc) rc tt) k

  raise_qp-Stops : (c : ConData) → Stops Any (raise_qp env c)
  unfolding raise_qp
  raise_qp-Stops remote w =
      let qp = w.res.qp in
      checked-Stops (modify_qp_to_init env qp) _ (init-Stops env Any qp)
        (checked-Stops (client_receive env w.config.server_name) _
          (client_receive-Stops env Any w.config.server_name)
          (checked-Stops (modify_qp_rtr env qp remote.qp_num remote.lid remote.gid) _
            (rtr-Stops env Any qp remote.qp_num remote.lid remote.gid)
            (Stops-bind Any (modify_qp_rts env qp) _ (rts-Stops env Any qp)
              λ rc. Stops-fail_if Any (truthy rc) rc tt)))
        w

  module _ (fuel : ℕ) (enough : con_data_size < fuel)
      (open_still : (t : List Event) (sock : ℤ) (size : ℕ)
        → (env.answer t (read sock size)).code ≢ pos 0) where
    exchange-Stops : Stops Any (exchange env fuel)
    unfolding exchange
    exchange-Stops = Stops-bind Any (own_gid env) _ own_gid-Stops λ my_gid w.
        let mine = con_bytes (local_con_data env w.res my_gid) (env.uninit 6) in
        Stops-bind Any
          (sock_sync_data env fuel w.res.sock con_data_size mine (env.uninit con_data_size)) _
          (sock_sync_data-Stops env Any open_still fuel w.res.sock con_data_size mine
            (env.uninit con_data_size) enough)
          (λ s.
            Stops-then Any (fail_if (is_neg s.rc) (pos 1)) _
              (Stops-fail_if Any (is_neg s.rc) (pos 1) tt) (λ w'. tt))
          w

    -- An exchange of one byte.
    pub byte-Stops :
        (X : ℤ → Type 0) (text : List ℕ) (sock : ℤ)
        → Stops X (sock_sync_data env fuel sock 1 text (env.uninit 1))
    byte-Stops X text sock =
        sock_sync_data-Stops env X open_still fuel sock 1 text (env.uninit 1) (omega arith)

    pub connect_qp-Stops : (X : ℤ → Type 0) → Stops X (connect_qp env fuel)
    unfolding connect_qp connect_body
    connect_qp-Stops X = Stops-catch X Any (connect_body env fuel) (
        Stops-bind Any (exchange env fuel) _ exchange-Stops λ remote.
          Stops-then Any (raise_qp env remote) _ (raise_qp-Stops remote) λ w.
            Stops-bind Any (sock_sync_data env fuel w.res.sock 1 (codes "Q") (env.uninit 1)) _
              (byte-Stops Any (codes "Q") w.res.sock) (λ s w'. tt) w)
