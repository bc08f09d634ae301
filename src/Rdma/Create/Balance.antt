-- ===== src/Rdma/Create/Balance.antt =====
-- `resources_create` as a whole, for the invariant of the resources.
use communication_speed.Prelude.{ℕ, ◌≡◌, arith, List, Option, zero, suc}
use communication_speed.Prelude.Int.{ℤ, pos, negsuc, minus_one}
use communication_speed.Rdma.Machine.{
  Env, World, Run, ok, exit, abort, spin, M, bind_run, pure, ◌>>◌,
}
use communication_speed.Rdma.Create.{
  connect_socket, open_ib_device, query_ib_port, make_pd, make_cq, make_buf, fill_buf, make_mr,
  make_qp, create_stages, resources_create, end_of_create, give_all_back,
}
use communication_speed.Rdma.Create.Counts.{
  Handle, k_list, k_ctx, k_pd, k_cq, k_buf, k_mr, k_qp, opened, closed, held,
}
use communication_speed.Rdma.Create.Owns.{
  Ends, Ends-bind, strays, Owns, Unset, Stage, tally_null, tally_no_sock,
}
use communication_speed.Rdma.Create.Back.{Released, give_all_back-Ends}
use communication_speed.Rdma.Create.Devices.{connect_socket-Ends, open_ib_device-Ends}
use communication_speed.Rdma.Create.Stages.{
  query_ib_port-Ends, make_pd-Ends, make_cq-Ends, make_buf-Ends, fill_buf-Ends, make_mr-Ends,
  make_qp-Ends,
}

-- One stage, then the others.
step :
    (d : Handle → ℕ) (P : World → Type 0) (m f : M (Unit {0})) (w : World)
    → Ends (λ _. P) (Owns d) (m w)
    → ((w : World) → P w → Ends (λ _. Stage 0 d) (Owns d) (f w))
    → Ends (λ _. Stage 0 d) (Owns d) (bind_run (m w) (λ _. f))
step d P m f w h k = Ends-bind (λ _. P) (λ _. Stage 0 d) (Owns d) (m w) (λ _. f) h (λ _ w p. k w p)

module _ (env : Env) where
  -- The stages from a given one on.
  abbrev from_mr : M (Unit {0})
  from_mr = make_mr env >> make_qp env

  abbrev from_fill : M (Unit {0})
  from_fill = fill_buf env >> from_mr

  abbrev from_buf : M (Unit {0})
  from_buf = make_buf env >> from_fill

  abbrev from_cq : M (Unit {0})
  from_cq = make_cq env >> from_buf

  abbrev from_pd : M (Unit {0})
  from_pd = make_pd env >> from_cq

  abbrev from_query : M (Unit {0})
  from_query = query_ib_port env >> from_pd

  abbrev from_open : M (Unit {0})
  from_open = open_ib_device env >> from_query

  from_open-Ends :
      (d : Handle → ℕ) (w : World) → Stage 6 d w → Ends (λ _. Stage 0 d) (Owns d) (from_open w)
  from_open-Ends d w s =
      step d (Stage 5 d) (open_ib_device env) from_query w (open_ib_device-Ends env d w s) λ w s.
        step d (Stage 5 d) (query_ib_port env) from_pd w (query_ib_port-Ends env d w s) λ w s.
          step d (Stage 4 d) (make_pd env) from_cq w (make_pd-Ends env d w s) λ w s.
            step d (Stage 3 d) (make_cq env) from_buf w (make_cq-Ends env d w s) λ w s.
              step d (Stage 2 d) (make_buf env) from_fill w (make_buf-Ends env d w s) λ w s.
                step d (Stage 2 d) (fill_buf env) from_mr w (fill_buf-Ends env d w s) λ w s.
                  step d (Stage 1 d) (make_mr env) (make_qp env) w (make_mr-Ends env d w s)
                    λ w s. make_qp-Ends env d w s

  -- The state that `resources_init` leaves, with nothing acquired before.
  pub record Initial (w : World) : Type 0 where
    pub nothing : (h : Handle) → opened h w.trace ≡ closed h w.trace
    pub unset : Unset 6 w
    pub no_sock : w.res.sock ≡ minus_one
    pub no_list : w.dev_list ≡ 0

  create_stages-Ends :
      (w : World)
      → Initial w
      → let d = strays w.config.server_name in Ends (λ _. Stage 0 d) (Owns d) (create_stages env w)
  unfolding create_stages held
  create_stages-Ends w i =
      step (strays w.config.server_name) (Stage 6 (strays w.config.server_name))
        (connect_socket env) from_open w
        (connect_socket-Ends env w
          (λ h. omega (
            arith,
            i.nothing h,
            tally_no_sock h i.no_sock,
            tally_null h k_list i.no_list,
            tally_null h k_ctx i.unset.0,
            tally_null h k_pd i.unset.1.0,
            tally_null h k_cq i.unset.1.1.0,
            tally_null h k_buf i.unset.1.1.1.0,
            tally_null h k_mr i.unset.1.1.1.1.0,
            tally_null h k_qp i.unset.1.1.1.1.1.0,
          ))
          i.unset i.no_sock i.no_list)
        (λ w' s. from_open-Ends (strays w.config.server_name) w' s)

  -- What is known at the end, by the value returned.
  abbrev pub Outcome : Option (List ℕ) → ℤ → World → Type 0
  Outcome server (pos zero) w = Stage 0 (strays server) w
  Outcome server rc w = Released (strays server) w

  -- From the initial state: where `resources_create` returns 0, each handle acquired and not given
  -- back is held by a field; where it returns another value, the same holds, every field but the
  -- device context's is cleared, and so everything else was given back. In client mode descriptor 0
  -- is closed once more than it was opened. A run that an assertion ends is left out.
  pub resources_create_lem :
      (w : World)
      → Initial w
      → Ends (Outcome w.config.server_name) (λ _. ⊥) (resources_create env w)
  unfolding resources_create
  resources_create_lem w i = finish (create_stages env w) (create_stages-Ends w i)
    where
      server : Option (List ℕ)
      server = w.config.server_name

      d : Handle → ℕ
      d = strays server

      give_back_and : (rc : ℤ) → M ℤ
      give_back_and rc = give_all_back env >> pure rc

      back :
          (rc : ℤ) (w' : World)
          → Owns d w'
          → ((v : World) → Released d v → Outcome server rc v)
          → Ends (Outcome server) (λ _. ⊥) (give_back_and rc w')
      back rc w' o f =
          Ends-bind {A = Unit {0}} {B = ℤ} (λ _. Released d) (Outcome server) (λ _. ⊥)
            (give_all_back env w') (λ _. pure rc) (give_all_back-Ends env (λ _. ⊥) d w' o)
            (λ _ v p. f v p)

      finish :
          (r : Run (Unit {0}))
          → Ends (λ _. Stage 0 d) (Owns d) r
          → Ends (Outcome server) (λ _. ⊥) (end_of_create env r)
      finish (ok _ w') s = s
      finish (exit (pos zero) w') s = cc (s.0)
      finish (exit (pos (suc n)) w') s = back (pos (suc n)) w' s.1 (λ v p. p)
      finish (exit (negsuc n) w') s = back (negsuc n) w' s.1 (λ v p. p)
      finish (abort w') s = tt
      finish (spin w') s = tt
