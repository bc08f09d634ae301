-- ===== src/Rdma/Create/Stages.antt =====
-- The stages of `resources_create` from the port on, for the invariant of the resources.
use communication_speed.Prelude.{ℕ, refl, List, Option, none, some, arith}
use communication_speed.Prelude.Int.{pos}
use communication_speed.Rdma.Machine.{Env, World, ext}
use communication_speed.Rdma.Create.{
  query_ib_port, make_pd, make_cq, make_buf, fill_buf, load_msg, make_mr, make_qp,
}
use communication_speed.Rdma.Create.Counts.{
  Handle, k_pd, k_cq, k_buf, k_mr, k_qp, acquired, returned, opened, closed, held,
}
use communication_speed.Rdma.Create.Owns.{
  Ends, Ends-bind, Ends-check, Owns, tally-none, tally_null, Stage,
}

module _ (env : Env) (d : Handle → ℕ) where
  pub query_ib_port-Ends :
      (w : World) → Stage 5 d w → Ends (λ _. Stage 5 d) (Owns d) (query_ib_port env w)
  unfolding query_ib_port ext opened closed held acquired returned
  query_ib_port-Ends w s = Ends-check 5 d _ (pos 1) _ refl (record {
    owns = λ h. omega (arith, s.owns h, tally-none h);
    unset = s.unset;
    no_list = s.no_list;
  })

  pub make_pd-Ends : (w : World) → Stage 5 d w → Ends (λ _. Stage 4 d) (Owns d) (make_pd env w)
  unfolding make_pd ext opened closed held acquired returned
  make_pd-Ends w s = Ends-check 4 d _ (pos 1) _ refl (record {
    owns = λ h. omega (arith, s.owns h, tally-none h, tally_null h k_pd s.unset.0);
    unset = s.unset.1;
    no_list = s.no_list;
  })

  pub make_cq-Ends : (w : World) → Stage 4 d w → Ends (λ _. Stage 3 d) (Owns d) (make_cq env w)
  unfolding make_cq ext opened closed held acquired returned
  make_cq-Ends w s = Ends-check 3 d _ (pos 1) _ refl (record {
    owns = λ h. omega (arith, s.owns h, tally-none h, tally_null h k_cq s.unset.0);
    unset = s.unset.1;
    no_list = s.no_list;
  })

  pub make_buf-Ends : (w : World) → Stage 3 d w → Ends (λ _. Stage 2 d) (Owns d) (make_buf env w)
  unfolding make_buf ext opened closed held acquired returned
  make_buf-Ends w s = Ends-check 2 d _ (pos 1) _ refl (record {
    owns = λ h. omega (arith, s.owns h, tally-none h, tally_null h k_buf s.unset.0);
    unset = s.unset.1;
    no_list = s.no_list;
  })

  pub make_mr-Ends : (w : World) → Stage 2 d w → Ends (λ _. Stage 1 d) (Owns d) (make_mr env w)
  unfolding make_mr ext opened closed held acquired returned
  make_mr-Ends w s = Ends-check 1 d _ (pos 1) _ refl (record {
    owns = λ h. omega (arith, s.owns h, tally-none h, tally_null h k_mr s.unset.0);
    unset = s.unset.1;
    no_list = s.no_list;
  })

  pub make_qp-Ends : (w : World) → Stage 1 d w → Ends (λ _. Stage 0 d) (Owns d) (make_qp env w)
  unfolding make_qp ext opened closed held acquired returned
  make_qp-Ends w s = Ends-check 0 d _ (pos 1) _ refl (record {
    owns = λ h. omega (arith, s.owns h, tally-none h, tally_null h k_qp s.unset.0);
    unset = s.unset.1;
    no_list = s.no_list;
  })

  load_msg-Ends :
      (b : ℕ) (server : Option (List ℕ)) (w : World)
      → Stage 2 d w
      → Ends (λ _. Stage 2 d) (Owns d) (load_msg env b server w)
  unfolding ext opened closed held acquired returned
  load_msg-Ends b none w s = record {
    owns = λ h. omega (arith, s.owns h, tally-none h);
    unset = s.unset;
    no_list = s.no_list;
  }
  load_msg-Ends b (some server) w s = record {
    owns = λ h. omega (arith, s.owns h, tally-none h);
    unset = s.unset;
    no_list = s.no_list;
  }

  pub fill_buf-Ends : (w : World) → Stage 2 d w → Ends (λ _. Stage 2 d) (Owns d) (fill_buf env w)
  unfolding fill_buf ext opened closed held acquired returned
  fill_buf-Ends w s =
      Ends-bind (λ _. Stage 2 d) (λ _. Stage 2 d) (Owns d) _ _
        (load_msg-Ends w.res.buf w.config.server_name _ (record {
          owns = λ h. omega (arith, s.owns h, tally-none h);
          unset = s.unset;
          no_list = s.no_list;
        }))
        (λ _ w' s'. s')
