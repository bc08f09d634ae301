-- ===== src/Rdma/Destroy.antt =====
-- `resources_destroy`: every resource that is held is given back, whatever the calls before it
-- returned; the result is 1 if one of them failed. No field is cleared.
use communication_speed.Prelude.{ℕ, Bool, true, false, ◌==◌, if◌then◌else◌}
use communication_speed.Prelude.Int.{ℤ, pos, is_neg, truthy}
use communication_speed.Rdma.Types.{
  Call, destroy_qp, dereg_mr, free, destroy_cq, dealloc_pd, close_device, close,
}
use communication_speed.Rdma.Machine.{Env, M, ◌>>=◌, ◌>>◌, pure, ext, get_res}

module _ (env : Env) where
  -- if( held ) if( call ) rc = 1;
  unfoldable pub give_up : Bool → Call → ℤ → M ℤ
  give_up false call rc = pure rc
  give_up true call rc = do r ← ext env call; pure (if truthy r.code then pos 1 else rc)

  -- if( res->buf ) free(res->buf);
  unfoldable pub free_up : Bool → ℕ → M (Unit {0})
  free_up false p = pure tt
  free_up true p = do ext env (free p); pure tt

  abbrev pub held : ℕ → Bool
  held p = if p == 0 then false else true

  unfoldable pub resources_destroy : M ℤ
  resources_destroy = do
    r ← get_res
    rc ← give_up (held r.qp) (destroy_qp r.qp) (pos 0)
    rc ← give_up (held r.mr) (dereg_mr r.mr) rc
    free_up (held r.buf) r.buf
    rc ← give_up (held r.cq) (destroy_cq r.cq) rc
    rc ← give_up (held r.pd) (dealloc_pd r.pd) rc
    rc ← give_up (held r.ib_ctx) (close_device r.ib_ctx) rc
    give_up (if is_neg r.sock then false else true) (close r.sock) rc
