-- ===== src/Rdma/Connect/Order.antt =====
-- The order in which `connect_qp` takes the queue pair through its states.
use communication_speed.Prelude.{ℕ, ◌≡◌, ◌⊎◌, inl, inr, refl, List, true}
use communication_speed.Prelude.Text.{codes}
use communication_speed.Prelude.Int.{ℤ, pos, truthy, is_neg}
use communication_speed.Rdma.Types.{QpState, reset, rts, ConData, Event}
use communication_speed.Rdma.Machine.{Env, World, Run, ok, exit, abort, spin, M, fail_if}
use communication_speed.Rdma.Stays.{Stays-fail_one}
use communication_speed.Rdma.Create.Owns.{Ends, Ends-bind}
use communication_speed.Rdma.Socket.{Synced, sock_sync_data}
use communication_speed.Rdma.Connect.{
  con_data_size, con_bytes, local_con_data, remote_con_data, con_of_bytes, gid_at, own_gid,
  exchange, raise_qp, connect_body, connect_qp,
}
use communication_speed.Rdma.Connect.Raises.{
  Ends-mono, raise_qp-Ends, socket-At, socket-Fresh, gid_at-Fresh, Fresh-Ends,
}
use communication_speed.Rdma.Connect.Came.{Came, Ends-after}
use communication_speed.Rdma.Connect.States.{
  Reaches, start, At, Somewhere, Fresh, At-Reaches, At-Came, At-Somewhere,
}

module _ (env : Env) (old : List Event) where
  exchange-Ends :
      (fuel : ℕ) (w : World)
      → Fresh old (Came env fuel w) w
      → Ends
          (λ remote. At old (Came env fuel w) remote reset)
          (Somewhere old (Came env fuel w))
          (exchange env fuel w)
  unfolding exchange own_gid remote_con_data con_of_bytes
  exchange-Ends fuel w h =
      let P : ConData → World → Type 0 = λ remote. At old (Came env fuel w) remote reset in
      Ends-after (λ _. Fresh old (Came env fuel w)) P (Somewhere old (Came env fuel w))
        (gid_at env (is_neg w.config.gid_idx) w.config w) _
        (Fresh-Ends env old (Came env fuel w) (gid_at env (is_neg w.config.gid_idx) w.config) w
          (gid_at-Fresh env old (Came env fuel w) (is_neg w.config.gid_idx) w.config) h)
        λ my_gid w1 e1 h1.
          let bytes : List ℕ = con_bytes (local_con_data env w1.res my_gid) (env.uninit 6) in
          let sync : M Synced =
            sock_sync_data env fuel w1.res.sock con_data_size bytes (env.uninit con_data_size) in
          Ends-after (λ _. Fresh old (Came env fuel w)) P (Somewhere old (Came env fuel w))
            (sync w1) _
            (Fresh-Ends env old (Came env fuel w) sync w1
              (socket-Fresh env old (Came env fuel w) fuel w1.res.sock con_data_size bytes
                (env.uninit con_data_size))
              h1)
            λ s w2 e2 h2.
              Ends-bind (λ _. Fresh old (Came env fuel w)) P (Somewhere old (Came env fuel w))
                (fail_if (is_neg s.rc) (pos 1) w2) _
                (Fresh-Ends env old (Came env fuel w) (fail_if (is_neg s.rc) (pos 1)) w2
                  (Stays-fail_one (Fresh old (Came env fuel w)) (is_neg s.rc)) h2)
                λ u w3 h3. (
                  h3 _,
                  refl,
                  record {
                    gid = my_gid;
                    asking = w1;
                    synced = s;
                    after = w2;
                    asked = e1;
                    exchanged = e2;
                    addr_came = refl;
                    rkey_came = refl;
                    qp_num_came = refl;
                    lid_came = refl;
                    gid_came = refl;
                  },
                )

  -- A code other than 0, or the pair is ready to send.
  abbrev Returned : (fuel : ℕ) → World → ℤ → World → Type 0
  Returned fuel w rc w' =
      (s : QpState) × Reaches w'.res.remote_props old w'.trace s
      × ((s ≡ reset) ⊎ Came env fuel w w'.res.remote_props)
      × ((truthy rc ≡ true) ⊎ (s ≡ rts))

  connect_body-Ends :
      (fuel : ℕ) (w : World)
      → Fresh old (Came env fuel w) w
      → Ends (Returned fuel w) (Somewhere old (Came env fuel w)) (connect_body env fuel w)
  unfolding connect_body
  connect_body-Ends fuel w h =
      Ends-bind (λ remote. At old (Came env fuel w) remote reset) (Returned fuel w)
        (Somewhere old (Came env fuel w)) (exchange env fuel w) _ (exchange-Ends fuel w h)
        λ remote w1 h1.
          Ends-bind (λ _. At old (Came env fuel w) remote rts) (Returned fuel w)
            (Somewhere old (Came env fuel w)) (raise_qp env remote w1) _
            (raise_qp-Ends env old (Came env fuel w) remote w1 h1)
            λ u w2 h2.
              let sync : M Synced =
                sock_sync_data env fuel w2.res.sock 1 (codes "Q") (env.uninit 1) in
              Ends-bind (λ _. At old (Came env fuel w) remote rts) (Returned fuel w)
                (Somewhere old (Came env fuel w)) (sync w2) _
                (Ends-mono (λ _. At old (Came env fuel w) remote rts)
                  (λ _. At old (Came env fuel w) remote rts) (sync w2)
                  (socket-At env old (Came env fuel w) remote rts fuel w2.res.sock 1 (codes "Q")
                    (env.uninit 1) w2 h2)
                  (λ s w' g. g) (At-Somewhere old (Came env fuel w) remote rts))
                λ s w3 h3. (
                  rts,
                  At-Reaches old (Came env fuel w) remote rts w3 h3,
                  inr (At-Came old (Came env fuel w) remote rts w3 h3),
                  inr refl,
                )

catch-Ends :
    (P : ℤ → World → Type 0) (E : World → Type 0) (r : Run ℤ)
    → Ends P E r
    → ((rc : ℤ) (w : World) → truthy rc ≡ true → E w → P rc w)
    → Ends P
        (λ _. ⊥)
        (elim r [
          | ok rc w' ↦ ok rc w'
          | exit rc w' ↦ ok rc w'
          | abort w' ↦ abort w'
          | spin w' ↦ spin w'
        ])
catch-Ends P E (ok rc w) h k = h
catch-Ends P E (exit rc w) h k = k rc w h.0 h.1
catch-Ends P E (abort w) h k = tt
catch-Ends P E (spin w) h k = tt

-- Where `connect_qp` returns, whatever its calls answered, each transition that it asked for was
-- allowed in the state of a new pair in which it was asked for, to INIT, to RTR towards the stored
-- queue pair number and local identifier, to RTS. Where any was carried out, each field stored is what
-- the byte-order functions make of its bytes, as the exchange has left them in its buffer. The pair is in RTS, or the code returned is not 0. Runs that an assertion ends or that
-- lack fuel are left out.
pub connect_qp_order :
    (env : Env) (fuel : ℕ) (w : World)
    → Ends
        (λ rc w'.
          (s : QpState) × Reaches w'.res.remote_props w.trace w'.trace s
          × ((s ≡ reset) ⊎ Came env fuel w w'.res.remote_props)
          × ((truthy rc ≡ true) ⊎ (s ≡ rts)))
        (λ _. ⊥)
        (connect_qp env fuel w)
unfolding connect_qp
connect_qp_order env fuel w =
    catch-Ends _ _ (connect_body env fuel w) (connect_body-Ends env w.trace fuel w (λ peer. start))
      λ rc w' t h. (h.0, h.1, h.2, inl t)
