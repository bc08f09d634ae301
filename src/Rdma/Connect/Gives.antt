-- ===== src/Rdma/Connect/Gives.antt =====
-- The parts of `connect_qp` where no call fails.
use mathlib.Core.Path.{subst}
use communication_speed.Prelude.{
  ℕ, suc, ◌≡◌, ◌∙◌, refl, sym, ap, List, ◌∷◌, Bool, true, false, Option, none, some, length,
}
use communication_speed.Prelude.Text.{codes}
use communication_speed.Prelude.Int.{ℤ, pos, truthy}
use communication_speed.Rdma.Types.{
  ConData, Config, Resources, Call, Event, QpAttr, Mask, Sge, read, write, query_gid, post_recv,
  modify_qp,
}
use communication_speed.Rdma.Machine.{
  Env, World, Run, ok, exit, abort, spin, M, bind_run, ◌>>=◌, ◌>>◌, pure, fail_if, ext,
}
use communication_speed.Rdma.Socket.{sock_sync_data}
use communication_speed.Rdma.Socket.Sync.{after, sock_sync_data_whole}
use communication_speed.Rdma.Post.{receive, buf_sge}
use communication_speed.Rdma.Qp.{
  modify_qp_to_init, modify_qp_rtr, modify_qp_rts, init_attr, init_mask, rtr_attr, rtr_mask,
  rts_attr, rts_mask,
}
use communication_speed.Rdma.Connect.{con_data_size, gid_at, client_receive, raise_qp}

-- A run that goes on, with a value and a world in `P`.
abbrev pub Gives : {A : Type 0} → (A → World → Type 0) → Run A → Type 0
Gives P (ok a w) = P a w
Gives P (exit rc w) = ⊥
Gives P (abort w) = ⊥
Gives P (spin w) = ⊥

pub Gives-bind :
    {A B : Type 0} (P : A → World → Type 0) (Q : B → World → Type 0) (r : Run A) (f : A → M B)
    → Gives P r
    → ((a : A) (w : World) → P a w → Gives Q (f a w))
    → Gives Q (bind_run r f)
Gives-bind P Q (ok a w) f h k = k a w h
Gives-bind P Q (exit rc w) f h k = absurd h
Gives-bind P Q (abort w) f h k = absurd h
Gives-bind P Q (spin w) f h k = absurd h

pub Gives-catch :
    (P : ℤ → World → Type 0) (r : Run ℤ)
    → Gives P r
    → Gives P (elim r [
      | ok rc w' ↦ ok rc w'
      | exit rc w' ↦ ok rc w'
      | abort w' ↦ abort w'
      | spin w' ↦ spin w'
    ])
Gives-catch P (ok rc w) h = h
Gives-catch P (exit rc w) h = absurd h
Gives-catch P (abort w) h = h
Gives-catch P (spin w) h = h

pub Gives-ok :
    {A : Type 0} {P : A → World → Type 0} (r : Run A)
    → Gives P r
    → (a : A) × (w : World) × (r ≡ ok a w) × P a w
Gives-ok (ok a w) h = (a, w, refl, h)
Gives-ok (exit rc w) h = absurd h
Gives-ok (abort w) h = absurd h
Gives-ok (spin w) h = absurd h

-- How the calls of `connect_qp` answer when all goes well, `theirs` being what the peer writes.
pub record Serves (env : Env) (sock : ℤ) (theirs : List ℕ) : Type 0 where
  pub uninit : (n : ℕ) → length (env.uninit n) ≡ n
  pub gid :
      (t : List Event) (ctx : ℕ) (port index : ℤ)
      → ((env.answer t (query_gid ctx port index)).code ≡ pos 0)
        × (length (env.answer t (query_gid ctx port index)).bytes ≡ 16)
  pub takes :
      (t : List Event) (bytes : List ℕ)
      → (env.answer t (write sock bytes)).code ≡ pos (length bytes)
  pub sends :
      (t : List Event)
      → ((env.answer t (read sock con_data_size)).code ≡ pos con_data_size)
        × ((env.answer t (read sock con_data_size)).bytes ≡ theirs)
  pub meets :
      (t : List Event)
      → ((env.answer t (read sock 1)).code ≡ pos 1)
        × (length (env.answer t (read sock 1)).bytes ≡ 1)
  pub modifies :
      (t : List Event) (qp : ℕ) (a : QpAttr) (m : List Mask)
      → (env.answer t (modify_qp qp a m)).code ≡ pos 0
  pub receives : (t : List Event) (qp : ℕ) (s : Sge) → (env.answer t (post_recv qp s)).code ≡ pos 0

-- A check that is passed.
pub Gives-fail_if :
    (P : World → Type 0) (b : Bool) (rc : ℤ) (w : World)
    → b ≡ false
    → P w
    → Gives (λ _. P) (fail_if b rc w)
Gives-fail_if P true rc w e h = cc
Gives-fail_if P false rc w e h = h

module _ (env : Env) (sock : ℤ) (theirs : List ℕ) (s : Serves env sock theirs) (r : Resources) where
  abbrev pub Same : World → Type 0
  Same w = w.res ≡ r

  -- A call that returns 0 and leaves the resources.
  abbrev pub Done : ℤ → World → Type 0
  Done rc w = (rc ≡ pos 0) × Same w

  call-Gives :
      (c : Call) (w : World)
      → ((t : List Event) → (env.answer t c).code ≡ pos 0)
      → Same w
      → Gives Done ((ext env c >>= λ x. pure x.code) w)
  unfolding ext
  call-Gives c w e h = (e w.trace, h)

  -- A code that is 0 lets the function go on.
  checked-Gives :
      {A : Type 0} (Q : A → World → Type 0) (m : M ℤ) (n : M A) (w : World)
      → Gives Done (m w)
      → ((w' : World) → Same w' → Gives Q (n w'))
      → Gives Q ((m >>= λ rc. fail_if (truthy rc) rc >> n) w)
  checked-Gives Q m n w h k = Gives-bind Done Q (m w) _ h λ rc w1 (e, h1).
      Gives-bind (λ _. Same) Q (fail_if (truthy rc) rc w1) _
        (Gives-fail_if Same (truthy rc) rc w1 (ap truthy e) h1) (λ _ w2 h2. k w2 h2)

  client-Gives :
      (server : Option (List ℕ)) (w : World) → Same w → Gives Done (client_receive env server w)
  unfolding receive
  client-Gives none w h = (refl, h)
  client-Gives (some name) w h =
      call-Gives (post_recv w.res.qp (buf_sge env w.res)) w
        (λ t. s.receives t w.res.qp (buf_sge env w.res)) h

  pub raise-Gives :
      (remote : ConData) (w : World) → Same w → Gives (λ _. Same) (raise_qp env remote w)
  unfolding raise_qp modify_qp_to_init modify_qp_rtr modify_qp_rts
  raise-Gives remote w h =
      let qp = w.res.qp in
      let step = λ (w' : World) (a : QpAttr) (m : List Mask) (h' : Same w').
        call-Gives (modify_qp qp a m) w' (λ t. s.modifies t qp a m) h' in
      checked-Gives (λ _. Same) (modify_qp_to_init env qp) _ w
        (step w (init_attr w.config) init_mask h)
        λ w1 h1.
          checked-Gives (λ _. Same) (client_receive env w.config.server_name) _ w1
            (client-Gives w.config.server_name w1 h1)
            λ w2 h2.
              checked-Gives (λ _. Same) (modify_qp_rtr env qp remote.qp_num remote.lid remote.gid) _
                w2 (step w2 (rtr_attr w2.config remote.qp_num remote.lid remote.gid) rtr_mask h2)
                λ w3 h3.
                  Gives-bind Done (λ _. Same) (modify_qp_rts env qp w3) _
                    (step w3 rts_attr rts_mask h3)
                    (λ rc w4 (e, h4). Gives-fail_if Same (truthy rc) rc w4 (ap truthy e) h4)

  -- An exchange whose first read brings all.
  pub sync-Gives :
      (n fuel : ℕ) (bytes remote : List ℕ) (Good : List ℕ → Type 0) (w : World)
      → length bytes ≡ suc n
      → length remote ≡ suc n
      → ((t : List Event) → (env.answer t (read sock (suc n))).code ≡ pos (suc n))
      → ((t : List Event) → length (env.answer t (read sock (suc n))).bytes ≡ suc n)
      → ((t : List Event) → Good (env.answer t (read sock (suc n))).bytes)
      → Same w
      → Gives
          (λ x w'. (x.rc ≡ pos 0) × Good x.remote × Same w')
          (sock_sync_data env (suc (suc fuel)) sock (suc n) bytes remote w)
  sync-Gives n fuel bytes remote Good w l lr code len good h =
      let w1 = after env sock (suc n) (write sock bytes) w in
      let reply = env.answer w1.trace (read sock (suc n)) in
      let e =
        sock_sync_data_whole env sock n fuel bytes remote w w1 reply
          (s.takes w.trace bytes ∙ ap pos l) refl refl (code w1.trace) (len w1.trace) lr in
      subst (Gives (λ x w'. (x.rc ≡ pos 0) × Good x.remote × Same w')) (sym e)
        (refl, good w1.trace, h)

  pub gid-Gives :
      (b : Bool) (c : Config) (w : World)
      → Same w
      → Gives (λ g w'. (length g ≡ 16) × Same w') (gid_at env b c w)
  unfolding ext
  gid-Gives true c w h = (refl, h)
  gid-Gives false c w h =
      let q = query_gid w.res.ib_ctx c.ib_port c.gid_idx in
      let answer = env.answer w.trace q in
      let w1 : World = record w { trace = record { call = q; reply = answer } ∷ w.trace } in
      let (e, l) = s.gid w.trace w.res.ib_ctx c.ib_port c.gid_idx in
      Gives-bind (λ _. Same) (λ g w'. (length g ≡ 16) × Same w')
        (fail_if (truthy answer.code) answer.code w1) _
        (Gives-fail_if Same (truthy answer.code) answer.code w1 (ap truthy e) h)
        (λ u w2 h2. (l, h2))

  -- The sockets meet once more.
  pub last-Gives :
      (fuel : ℕ) (w : World)
      → Same w
      → Gives
          (λ x w'. (x.rc ≡ pos 0) × Unit {0} × Same w')
          (sock_sync_data env (suc (suc fuel)) sock 1 (codes "Q") (env.uninit 1) w)
  last-Gives fuel w h =
      sync-Gives 0 fuel (codes "Q") (env.uninit 1) (λ _. Unit) w refl (s.uninit 1)
        (λ t. (s.meets t).0) (λ t. (s.meets t).1) (λ t. tt) h
