-- ===== src/Rdma/Connect/Raises.antt =====
-- The steps of `connect_qp` through the states of the queue pair, whatever its calls answer.
use communication_speed.Prelude.{
  ℕ, ◌≡◌, inl, inr, refl, List, Bool, true, false, Bool-cases, Option, none, some, if◌then◌else◌,
}
use communication_speed.Prelude.Int.{ℤ, pos, truthy, is_neg}
use communication_speed.Rdma.Types.{
  QpState, reset, init, rtr, rts, ConData, Call, Event, Config, zero_ah, read, write, query_gid,
  post_recv,
}
use communication_speed.Rdma.Machine.{Env, World, Run, ok, exit, abort, spin, M, pure, fail_if, ext}
use communication_speed.Rdma.Stays.{
  Stays, Stays-bind, Stays-then, Stays-pure, Stays-fail_own, sock_sync_data-Stays,
}
use communication_speed.Rdma.Create.Owns.{Ends, Ends-bind}
use communication_speed.Rdma.Socket.{sock_sync_data}
use communication_speed.Rdma.Post.{receive, buf_sge}
use communication_speed.Rdma.Qp.{
  modify_qp_to_init, modify_qp_rtr, modify_qp_rts, init_attr, init_mask, rtr_ah, rtr_attr, rtr_mask,
  rts_attr, rts_mask, to_u8,
}
use communication_speed.Rdma.Connect.{gid_at, client_receive, raise_qp}
use communication_speed.Rdma.Connect.States.{
  to_init, to_rtr, to_rts, At, Somewhere, Fresh, Tried, At-Somewhere, other-At, other-Fresh,
  modify-Tried, fail-Ends, checked-Ends,
}

rtr_ah-dlid : (c : Config) (lid : ℕ) (gid : List ℕ) → (rtr_ah c lid gid).dlid ≡ lid
rtr_ah-dlid c lid gid = by_sign (is_neg c.gid_idx)
  where
    by_sign :
        (b : Bool)
        → (if b then record zero_ah { dlid = lid; port_num = to_u8 c.ib_port } else record zero_ah {
          is_global = 1;
          dlid = lid;
          port_num = 1;
          dgid = gid;
          hop_limit = 1;
          sgid_index = to_u8 c.gid_idx;
        }).dlid
          ≡ lid
    by_sign true = refl
    by_sign false = refl

pub Ends-mono :
    {A : Type 0} (P P' : A → World → Type 0) {E E' : World → Type 0} (r : Run A)
    → Ends P E r
    → ((a : A) (w : World) → P a w → P' a w)
    → ((w : World) → E w → E' w)
    → Ends P' E' r
Ends-mono P P' (ok a w) h k l = k a w h
Ends-mono P P' (exit rc w) h k l = (h.0, l w h.1)
Ends-mono P P' (abort w) h k l = tt
Ends-mono P P' (spin w) h k l = tt

module _ (env : Env) (old : List Event) (came : ConData → Type 0) where
  Tried-same :
      (peer : ConData) (s : QpState) (rc : ℤ) (w : World)
      → At old came peer s w
      → Tried old came peer s s rc w
  Tried-same peer s rc w h = elim (Bool-cases (truthy rc)) [
    | inl b ↦ inl (b, h)
    | inr b ↦ inr (b, h)
  ]

  receive-At : (peer : ConData) → Stays (At old came peer init) (receive env)
  unfolding receive
  receive-At peer w h =
      let call : Call = post_recv w.res.qp (buf_sge env w.res) in
      Stays-bind (At old came peer init) (ext env call) _
        (other-At old came env peer init call refl) (λ r. Stays-pure (At old came peer init) r.code)
        w h

  client_receive-At :
      (peer : ConData) (server : Option (List ℕ))
      → Stays (At old came peer init) (client_receive env server)
  client_receive-At peer none = Stays-pure (At old came peer init) (pos 0)
  client_receive-At peer (some server) = receive-At peer

  pub raise_qp-Ends :
      (peer : ConData) (w : World)
      → At old came peer reset w
      → Ends (λ _. At old came peer rts) (Somewhere old came) (raise_qp env peer w)
  unfolding raise_qp modify_qp_to_init modify_qp_rtr modify_qp_rts
  raise_qp-Ends peer w h =
      let qp : ℕ = w.res.qp in
      let c : Config = w.config in
      checked-Ends old came (λ _. At old came peer rts) peer reset init (modify_qp_to_init env qp) _
        w (modify-Tried old came env qp (init_attr c) init_mask w (to_init refl) h)
        λ w1 h1.
          checked-Ends old came (λ _. At old came peer rts) peer init init
            (client_receive env c.server_name) _ w1
            (Ends-mono (λ _. At old came peer init) (Tried old came peer init init)
              (client_receive env c.server_name w1) (client_receive-At peer c.server_name w1 h1)
              (λ rc w'. Tried-same peer init rc w') (At-Somewhere old came peer init))
            λ w2 h2.
              checked-Ends old came (λ _. At old came peer rts) peer init rtr
                (modify_qp_rtr env qp peer.qp_num peer.lid peer.gid) _ w2
                (modify-Tried old came env qp (rtr_attr w2.config peer.qp_num peer.lid peer.gid)
                  rtr_mask w2 (to_rtr refl refl (rtr_ah-dlid w2.config peer.lid peer.gid)) h2)
                λ w3 h3.
                  Ends-bind (Tried old came peer rtr rts) _ (Somewhere old came)
                    (modify_qp_rts env qp w3) _
                    (modify-Tried old came env qp rts_attr rts_mask w3 (to_rts refl) h3)
                    λ rc w4 g. fail-Ends old came peer rtr rts rc (truthy rc) w4 refl g

  pub socket-At :
      (peer : ConData) (s : QpState) (fuel : ℕ) (sock : ℤ) (size : ℕ) (bytes remote : List ℕ)
      → Stays (At old came peer s) (sock_sync_data env fuel sock size bytes remote)
  socket-At peer s =
      sock_sync_data-Stays env (At old came peer s)
        (λ sock size. other-At old came env peer s (read sock size) refl)
        (λ sock bytes. other-At old came env peer s (write sock bytes) refl)

  pub socket-Fresh :
      (fuel : ℕ) (sock : ℤ) (size : ℕ) (bytes remote : List ℕ)
      → Stays (Fresh old came) (sock_sync_data env fuel sock size bytes remote)
  socket-Fresh =
      sock_sync_data-Stays env (Fresh old came)
        (λ sock size. other-Fresh old came env (read sock size) refl)
        (λ sock bytes. other-Fresh old came env (write sock bytes) refl)

  pub gid_at-Fresh : (b : Bool) (c : Config) → Stays (Fresh old came) (gid_at env b c)
  gid_at-Fresh true c w h = h
  gid_at-Fresh false c w h =
      let call : Call = query_gid w.res.ib_ctx c.ib_port c.gid_idx in
      Stays-bind (Fresh old came) (ext env call) _ (other-Fresh old came env call refl)
        (λ g.
          Stays-then (Fresh old came) (fail_if (truthy g.code) g.code) (pure g.bytes)
            (Stays-fail_own (Fresh old came) g.code) (Stays-pure (Fresh old came) g.bytes))
        w h

  pub Fresh-Ends :
      {A : Type 0} (m : M A) (w : World)
      → Stays (Fresh old came) m
      → Fresh old came w
      → Ends (λ _. Fresh old came) (Somewhere old came) (m w)
  Fresh-Ends m w k h =
      Ends-mono (λ _. Fresh old came) (λ _. Fresh old came) (m w) (k w h) (λ a w' g. g)
        (λ w' g. (reset, g w'.res.remote_props, inl refl))
