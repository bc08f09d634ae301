-- ===== src/Rdma/Main/Balance.antt =====
-- `resources_destroy`, and a whole run of `rcmain`, for the invariant of the resources.
use mathlib.Core.Path.{subst}
use communication_speed.Prelude.{
  ℕ, ◌+◌, ◌≡◌, refl, sym, ap, arith, List, Bool, true, false, Option, none, some, if◌then◌else◌,
}
use communication_speed.Prelude.Int.{ℤ, pos, negsuc, truthy, is_neg}
use communication_speed.Rdma.Types.{
  Config, default_config, Call, Reply, destroy_qp, dereg_mr, destroy_cq, dealloc_pd, close_device,
  close,
}
use communication_speed.Rdma.Machine.{Env, World, Run, ok, exit, abort, spin, pure, ext}
use communication_speed.Rdma.Create.Counts.{
  Handle, Kind, k_qp, k_mr, k_buf, k_cq, k_pd, k_ctx, k_list, pointer, descriptor, acquired,
  returned, tally, opened, closed,
}
use communication_speed.Rdma.Create.Counts as Counts
use communication_speed.Rdma.Create.Balance.{Initial}
use communication_speed.Rdma.Options.{Opt, configure}
use communication_speed.Rdma.Main.{main_body, main_exit, run_main, start, run_configured, rcmain}
use communication_speed.Rdma.Main.Body.{main_body-Ends}
use communication_speed.Rdma.Main.Keeps.{Kept}
use communication_speed.Rdma.Create.Owns.{Ends, Ends-bind, strays, tally-none, tally_null}
use communication_speed.Rdma.Destroy.{give_up, free_up, held, resources_destroy}

-- All was given back but what `rest` counts.
abbrev Left : (d rest : Handle → ℕ) → World → Type 0
Left d rest w = (h : Handle) → opened h w.trace + d h ≡ closed h w.trace + rest h

null_of : (env : Env) (p : ℕ) → held env p ≡ false → p ≡ 0
null_of env p e = ground arith

no_socket :
    (s : ℤ) (h : Handle) → (if is_neg s then false else true) ≡ false → tally h (descriptor s) ≡ 0
no_socket (pos n) h e = cc
no_socket (negsuc n) h e = tally-none h

module _ (env : Env) (d : Handle → ℕ) where
  give_up-Ends :
      (rest : Handle → ℕ) (g : Option Handle) (b : Bool) (call : Call) (rc : ℤ)
      → ((r : Reply) → acquired call r ≡ none)
      → returned call ≡ g
      → (b ≡ false → (h : Handle) → tally h g ≡ 0)
      → (w : World) → Left d (λ h. tally h g + rest h) w
      → Ends (λ _. Left d rest) (λ _. ⊥) (give_up env b call rc w)
  unfolding give_up ext opened closed
  give_up-Ends rest g false call rc a e z w l = λ h. omega (arith, l h, z refl h)
  give_up-Ends rest g true call rc a e z w l = λ h.
      omega (arith, l h, tally-none h, ap (tally h) (a (env.answer w.trace call)), ap (tally h) e)

  free_up-Ends :
      (rest : Handle → ℕ) (b : Bool) (p : ℕ)
      → (b ≡ false → (h : Handle) → tally h (pointer k_buf p) ≡ 0)
      → (w : World) → Left d (λ h. tally h (pointer k_buf p) + rest h) w
      → Ends (λ _. Left d rest) (λ _. ⊥) (free_up env b p w)
  unfolding free_up ext opened closed acquired returned
  free_up-Ends rest false p z w l = λ h. omega (arith, l h, z refl h)
  free_up-Ends rest true p z w l = λ h. omega (arith, l h, tally-none h)

  no_pointer : (k : Kind) (p : ℕ) → held env p ≡ false → (h : Handle) → tally h (pointer k p) ≡ 0
  no_pointer k p e h = tally_null h k (null_of env p e)

  resources_destroy-Ends :
      (w : World) → Kept d w → Ends (λ _. Left d (λ h. 0)) (λ _. ⊥) (resources_destroy env w)
  unfolding resources_destroy acquired returned Counts.held
  resources_destroy-Ends w g =
      let r = w.res in
      let n7 : Handle → ℕ = λ h. tally h (descriptor r.sock) + 0 in
      let n6 : Handle → ℕ = λ h. tally h (pointer k_ctx r.ib_ctx) + n7 h in
      let n5 : Handle → ℕ = λ h. tally h (pointer k_pd r.pd) + n6 h in
      let n4 : Handle → ℕ = λ h. tally h (pointer k_cq r.cq) + n5 h in
      let n3 : Handle → ℕ = λ h. tally h (pointer k_buf r.buf) + n4 h in
      let n2 : Handle → ℕ = λ h. tally h (pointer k_mr r.mr) + n3 h in
      Ends-bind (λ _. Left d n2) (λ _. Left d (λ h. 0)) (λ _. ⊥)
        (give_up env (held env r.qp) (destroy_qp r.qp) (pos 0) w) _
        (give_up-Ends n2 (pointer k_qp r.qp) (held env r.qp) (destroy_qp r.qp) (pos 0) (λ x. refl)
          refl (no_pointer k_qp r.qp) w
          (λ h. omega (arith, g.owns h, tally_null h k_list g.no_list)))
        λ rc w l.
          Ends-bind (λ _. Left d n3) (λ _. Left d (λ h. 0)) (λ _. ⊥)
            (give_up env (held env r.mr) (dereg_mr r.mr) rc w) _
            (give_up-Ends n3 (pointer k_mr r.mr) (held env r.mr) (dereg_mr r.mr) rc (λ x. refl) refl
              (no_pointer k_mr r.mr) w l)
            λ rc w l.
              Ends-bind (λ _. Left d n4) (λ _. Left d (λ h. 0)) (λ _. ⊥)
                (free_up env (held env r.buf) r.buf w) _
                (free_up-Ends n4 (held env r.buf) r.buf (no_pointer k_buf r.buf) w l)
                λ _ w l.
                  Ends-bind (λ _. Left d n5) (λ _. Left d (λ h. 0)) (λ _. ⊥)
                    (give_up env (held env r.cq) (destroy_cq r.cq) rc w) _
                    (give_up-Ends n5 (pointer k_cq r.cq) (held env r.cq) (destroy_cq r.cq) rc
                      (λ x. refl) refl (no_pointer k_cq r.cq) w l)
                    λ rc w l.
                      Ends-bind (λ _. Left d n6) (λ _. Left d (λ h. 0)) (λ _. ⊥)
                        (give_up env (held env r.pd) (dealloc_pd r.pd) rc w) _
                        (give_up-Ends n6 (pointer k_pd r.pd) (held env r.pd) (dealloc_pd r.pd) rc
                          (λ x. refl) refl (no_pointer k_pd r.pd) w l)
                        λ rc w l.
                          Ends-bind (λ _. Left d n7) (λ _. Left d (λ h. 0)) (λ _. ⊥)
                            (give_up env (held env r.ib_ctx) (close_device r.ib_ctx) rc w) _
                            (give_up-Ends n7 (pointer k_ctx r.ib_ctx) (held env r.ib_ctx)
                              (close_device r.ib_ctx) rc (λ x. refl) refl
                              (no_pointer k_ctx r.ib_ctx) w l)
                            λ rc w l.
                              give_up-Ends (λ h. 0) (descriptor r.sock)
                                (if is_neg r.sock then false else true) (close r.sock) rc
                                (λ x. refl) refl (λ e h. no_socket r.sock h e) w l

module _ (env : Env) (fuel : ℕ) (d : Handle → ℕ) where
  -- What every way through the program is to end in.
  abbrev Settled : ℤ → World → Type 0
  Settled rc = Left d (λ h. 0)

  main_exit-Ends : (rc : ℤ) (w : World) → Kept d w → Ends Settled (λ _. ⊥) (main_exit env fuel rc w)
  unfolding main_exit
  main_exit-Ends rc w g =
      Ends-bind Settled Settled (λ _. ⊥) (resources_destroy env w)
        (λ x. pure (if truthy x then pos 1 else rc)) (resources_destroy-Ends env d w g)
        (λ _ w' l. l)

  end_of_main :
      (r : Run (Unit {0}))
      → Ends (λ _. Kept d) (Kept d) r
      → Ends Settled
          (λ _. ⊥)
          (elim r [
            | ok _ w' ↦ main_exit env fuel (pos 0) w'
            | exit rc w' ↦ main_exit env fuel rc w'
            | abort w' ↦ abort w'
            | spin w' ↦ spin w'
          ])
  end_of_main (ok _ w') g = main_exit-Ends (pos 0) w' g
  end_of_main (exit rc w') g = main_exit-Ends rc w' g.1
  end_of_main (abort w') g = tt
  end_of_main (spin w') g = tt

start-Initial : (env : Env) (fuel : ℕ) (c : Config) → Initial env (start env fuel c)
unfolding opened closed
start-Initial env fuel c = record {
  nothing = λ h. refl;
  unset = (refl, (refl, (refl, (refl, (refl, (refl, tt))))));
  no_sock = refl;
  no_list = refl;
}

Ends-map :
    (P Q : ℤ → World → Type 0) (r : Run ℤ)
    → ((rc : ℤ) (w : World) → P rc w → Q rc w)
    → Ends P (λ _. ⊥) r
    → Ends Q (λ _. ⊥) r
Ends-map P Q (ok rc w) f h = f rc w h
Ends-map P Q (exit rc w) f h = absurd h.1
Ends-map P Q (abort w) f h = tt
Ends-map P Q (spin w) f h = tt

-- Each handle was given back as often as it was acquired, the strays apart.
abbrev pub Balanced : (Handle → ℕ) → ℤ → World → Type 0
Balanced d rc w = (h : Handle) → opened h w.trace + d h ≡ closed h w.trace

-- Where the command line is accepted, with configuration `c`, a run of `rcmain` that ends, with any
-- code and whatever its calls answered, has given back each handle as often as it acquired it, but
-- for descriptor 0, which in client mode it has closed once more. Runs that an assertion ends, and
-- runs that have not ended within the fuel of their loops, are left out.
pub rcmain_balance :
    (env : Env) (fuel : ℕ) (opts : List Opt) (args : List (List ℕ)) (c : Config)
    → configure opts args default_config ≡ some c
    → Ends (Balanced (strays c.server_name)) (λ _. ⊥) (rcmain env fuel opts args)
unfolding rcmain run_main
rcmain_balance env fuel opts args c e =
    let d = strays c.server_name in
    let w0 = start env fuel c in
    subst (λ o. Ends (Balanced d) (λ _. ⊥) (run_configured env fuel o)) (sym e)
      (Ends-map (Settled env fuel d) (Balanced d) (run_main env fuel w0)
        (λ rc w l h. omega (arith, l h))
        (end_of_main env fuel d (main_body env fuel w0)
          (main_body-Ends env fuel w0 (start-Initial env fuel c))))
