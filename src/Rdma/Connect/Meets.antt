-- ===== src/Rdma/Connect/Meets.antt =====
-- `connect_qp` of two sides of which each gets what the other writes.
use mathlib.Core.Path.{subst}
use communication_speed.Prelude.{
  ℕ, suc, ◌≡◌, ◌⊎◌, inl, inr, ◌∙◌, refl, sym, ap, List, true, length, take-all, if◌then◌else◌,
}
use communication_speed.Prelude.Text.{codes}
use communication_speed.Prelude.Int.{ℤ, pos, truthy, is_neg}
use communication_speed.Rdma.Types.{ConData, Resources, QpState, reset, rts}
use communication_speed.Rdma.Machine.{Env, World, ok, fail_if}
use communication_speed.Rdma.Socket.{Synced, sock_sync_data}
use communication_speed.Rdma.Connect.{
  con_data_size, con_bytes, con_of_bytes, local_con_data, remote_con_data, own_gid, exchange,
  raise_qp, connect_body, connect_qp,
}
use communication_speed.Rdma.Connect.Wire.{Agree, Fits, own_data, remote_con_data-local_con_data}
use communication_speed.Rdma.Connect.Bytes.{length-con_bytes}
use communication_speed.Rdma.Connect.States.{Reaches}
use communication_speed.Rdma.Connect.Came.{Came}
use communication_speed.Rdma.Connect.Order.{connect_qp_order}
use communication_speed.Rdma.Create.Owns.{Ends}
use communication_speed.Rdma.Connect.Gives.{
  Gives, Gives-bind, Gives-catch, Gives-ok, Gives-fail_if, Serves, raise-Gives, sync-Gives,
  gid-Gives, last-Gives,
}

-- The exchange, and the pair that is set up with what it brought.
module _ (env peer : Env) (rp : Resources) (gid padding : List ℕ) (w : World) where
  abbrev theirs : List ℕ
  theirs = con_bytes (local_con_data peer rp gid) padding

  abbrev met : Resources
  met = record (w.res) { remote_props = own_data peer rp gid }

  module _ (agree : Agree peer env) (fits : Fits (own_data peer rp gid))
      (padded : length padding ≡ 6) (s : Serves env w.res.sock theirs) where
    length-theirs : length theirs ≡ con_data_size
    unfolding local_con_data
    length-theirs =
        length-con_bytes (local_con_data peer rp gid) padding
          (ap length (take-all 16 gid fits.gid) ∙ fits.gid) padded

    length-ours :
        (my_gid : List ℕ)
        → length my_gid ≡ 16
        → length (con_bytes (local_con_data env w.res my_gid) (env.uninit 6)) ≡ con_data_size
    unfolding local_con_data
    length-ours my_gid l =
        length-con_bytes (local_con_data env w.res my_gid) (env.uninit 6)
          (ap length (take-all 16 my_gid l) ∙ l) (s.uninit 6)

    -- What the exchange comes to.
    abbrev Met : ConData → World → Type 0
    Met remote w' = (remote ≡ own_data peer rp gid) × (w'.res ≡ met)

    exchange-Gives : (fuel : ℕ) → Gives Met (exchange env (suc (suc fuel)) w)
    unfolding exchange own_gid
    exchange-Gives fuel =
        Gives-bind (λ g w'. (length g ≡ 16) × (w'.res ≡ w.res)) Met (own_gid env w) _
          (gid-Gives env w.res.sock theirs s w.res (is_neg w.config.gid_idx) w.config w refl)
          λ my_gid w1 (l, h1).
            let sync = λ (r : Resources).
              sock_sync_data env (suc (suc fuel)) r.sock con_data_size
                (con_bytes (local_con_data env r my_gid) (env.uninit 6)) (env.uninit con_data_size)
                w1 in
            let got = λ (x : Synced) (w' : World).
              (x.rc ≡ pos 0) × (x.remote ≡ theirs) × (w'.res ≡ w.res) in
            let synced : Gives got (sync w1.res) =
              subst (λ r. Gives got (sync r)) (sym h1)
                (sync-Gives env w.res.sock theirs s w.res 39 fuel
                  (con_bytes (local_con_data env w.res my_gid) (env.uninit 6))
                  (env.uninit con_data_size) (λ b. b ≡ theirs) w1 (length-ours my_gid l)
                  (s.uninit con_data_size) (λ t. (s.sends t).0)
                  (λ t. ap length (s.sends t).1 ∙ length-theirs) (λ t. (s.sends t).1) h1) in
            Gives-bind got Met (sync w1.res) _ synced λ x w2 (e, b, h2).
              Gives-bind (λ _ w'. w'.res ≡ w.res) Met (fail_if (is_neg x.rc) (pos 1) w2) _
                (Gives-fail_if (λ w'. w'.res ≡ w.res) (is_neg x.rc) (pos 1) w2 (ap is_neg e) h2)
                λ u w3 h3.
                  let learnt : remote_con_data env (con_of_bytes x.remote) ≡ own_data peer rp gid =
                    ap (λ m. remote_con_data env (con_of_bytes m)) b
                    ∙ remote_con_data-local_con_data peer env rp gid padding agree fits in
                  (learnt, λ i. record (h3 i) { remote_props = learnt i })

    connect_body-Gives :
        (fuel : ℕ)
        → Gives (λ rc w'. (rc ≡ pos 0) × (w'.res ≡ met)) (connect_body env (suc (suc fuel)) w)
    unfolding connect_body
    connect_body-Gives fuel =
        let End = λ (rc : ℤ) (w' : World). (rc ≡ pos 0) × (w'.res ≡ met) in
        let got = λ (x : Synced) (w' : World). (x.rc ≡ pos 0) × Unit {0} × (w'.res ≡ met) in
        Gives-bind Met End (exchange env (suc (suc fuel)) w) _ (exchange-Gives fuel)
          λ remote w1 (e, h1).
            Gives-bind (λ _ w'. w'.res ≡ met) End (raise_qp env remote w1) _
              (raise-Gives env w.res.sock theirs s met remote w1 h1)
              λ u w2 h2.
                let sync = λ (r : Resources).
                  sock_sync_data env (suc (suc fuel)) r.sock 1 (codes "Q") (env.uninit 1) w2 in
                let synced : Gives got (sync w2.res) =
                  subst (λ r. Gives got (sync r)) (sym h2)
                    (last-Gives env w.res.sock theirs s met fuel w2 h2) in
                Gives-bind got End (sync w2.res) _ synced
                  λ x w3 (e, _, h3). (ap (λ c. if truthy c then pos 1 else pos 0) e, h3)

    connect-Gives :
        (fuel : ℕ)
        → Gives (λ rc w'. (rc ≡ pos 0) × (w'.res ≡ met)) (connect_qp env (suc (suc fuel)) w)
    unfolding connect_qp
    connect-Gives fuel =
        Gives-catch (λ rc w'. (rc ≡ pos 0) × (w'.res ≡ met)) (connect_body env (suc (suc fuel)) w)
          (connect_body-Gives fuel)

-- What `connect_qp_order` says of a return.
abbrev Returned : Env → ℕ → World → ℤ → World → Type 0
Returned env fuel w rc w' =
    (state : QpState) × Reaches w'.res.remote_props w.trace w'.trace state
    × ((state ≡ reset) ⊎ Came env fuel w w'.res.remote_props)
    × ((truthy rc ≡ true) ⊎ (state ≡ rts))

-- Where a side gets what its peer writes for connection data in range, all at once, the byte orders
-- of the two agree, and no call fails, `connect_qp` returns 0 with the peer's own buffer address,
-- key, queue pair number, local identifier and gid stored; the pair, if it was new, is then ready to
-- send, its transitions asked for in order and towards the peer's own number and identifier.
pub connect_qp_meets :
    (env peer : Env) (rp : Resources) (gid padding : List ℕ) (w : World) (fuel : ℕ)
    → Agree peer env
    → Fits (own_data peer rp gid)
    → length padding ≡ 6
    → Serves env w.res.sock (con_bytes (local_con_data peer rp gid) padding)
    → (w' : World) × (connect_qp env (suc (suc fuel)) w ≡ ok (pos 0) w')
      × (w'.res ≡ record (w.res) { remote_props = own_data peer rp gid })
      × Reaches (own_data peer rp gid) w.trace w'.trace rts
connect_qp_meets env peer rp gid padding w fuel agree fits padded s =
    let run = connect_qp env (suc (suc fuel)) w in
    let (rc, w', e, (zero_rc, h)) =
      Gives-ok run (connect-Gives env peer rp gid padding w agree fits padded s fuel) in
    let returns : run ≡ ok (pos 0) w' = e ∙ ap (λ c. ok c w') zero_rc in
    let (state, reached, _, done) : Returned env (suc (suc fuel)) w (pos 0) w' =
      subst (Ends (Returned env (suc (suc fuel)) w) (λ _. ⊥)) returns
        (connect_qp_order env (suc (suc fuel)) w) in
    let ready : state ≡ rts = elim done [ inl t ↦ cc | inr t ↦ t ] in
    (
      w',
      returns,
      h,
      subst (λ p. Reaches p w.trace w'.trace rts) (ap (λ r. r.remote_props) h)
          (subst (Reaches w'.res.remote_props w.trace w'.trace) ready reached),
    )
