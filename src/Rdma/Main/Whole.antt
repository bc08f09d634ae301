-- ===== src/Rdma/Main/Whole.antt =====
-- That `rcmain` returns 0 only after the whole protocol.
use mathlib.Core.Path.{subst}
use communication_speed.Prelude.{
  ℕ, zero, suc, ◌≡◌, ◌⊎◌, inl, inr, refl, sym, List, some, if◌then◌else◌,
}
use communication_speed.Prelude.Int.{ℤ, pos, negsuc, truthy}
use communication_speed.Rdma.Types.{Config, default_config}
use communication_speed.Rdma.Machine.{
  Env, World, Run, ok, exit, abort, spin, M, bind_run, ◌>>◌, pure, fail_if, catch,
}
use communication_speed.Rdma.Create.{resources_create}
use communication_speed.Rdma.Create.Owns.{Ends}
use communication_speed.Rdma.Create.Stops.{resources_create-Stops}
use communication_speed.Rdma.Connect.{connect_body, connect_qp}
use communication_speed.Rdma.Destroy.{resources_destroy}
use communication_speed.Rdma.Options.{Opt, configure}
use communication_speed.Rdma.Stops.{Stopped}
use communication_speed.Rdma.Main.{
  need, main_body, main_exit, run_main, start, run_configured, rcmain,
}
use communication_speed.Rdma.Main.Stops.{Never, resources_destroy-Stops}
use communication_speed.Rdma.Main.Protocol.{side_of, w_met, Follows}
use communication_speed.Rdma.Main.Phases.{Ending}
use communication_speed.Rdma.Main.Talks.{talk, talk-Ending}

Ending-mono :
    {A : Type 0} (P Q : A → World → Type 0) (r : Run A)
    → Ending P r
    → ((a : A) (w : World) → P a w → Q a w)
    → Ending Q r
Ending-mono P Q (ok a w) h k = k a w h
Ending-mono P Q (exit rc w) h k = h
Ending-mono P Q (abort w) h k = tt
Ending-mono P Q (spin w) h k = tt

module _ (env : Env) (fuel : ℕ) where
  -- A run that does not jump.
  abbrev StaysIn : Run ℤ → Type 0
  StaysIn (exit rc w) = ⊥
  StaysIn _ = Unit

  in_of : (r : Run ℤ) → Stopped Never r → StaysIn r
  in_of (ok rc w) h = tt
  in_of (exit rc w) h = h
  in_of (abort w) h = tt
  in_of (spin w) h = tt

  catch_in : (m : M ℤ) (w : World) → StaysIn (catch m w)
  catch_in m w = go (m w)
    where
      go :
          (r : Run ℤ)
          → StaysIn (elim r [
            | ok rc w' ↦ ok rc w'
            | exit rc w' ↦ ok rc w'
            | abort w' ↦ abort w'
            | spin w' ↦ spin w'
          ])
      go (ok rc w') = tt
      go (exit rc w') = tt
      go (abort w') = tt
      go (spin w') = tt

  -- A function that is called first: the rest runs where it has returned 0.
  first_need :
      (P : World → Type 0) (m : M ℤ) (n : M (Unit {0})) (w : World)
      → StaysIn (m w)
      → ((w' : World) → m w ≡ ok (pos 0) w' → Ending (λ _. P) (n w'))
      → Ending (λ _. P) ((need env fuel m >> n) w)
  first_need P m n w h k = go (m w) h (λ w' e. k w' e)
    where
      go :
          (r : Run ℤ)
          → StaysIn r
          → ((w' : World) → r ≡ ok (pos 0) w' → Ending (λ _. P) (n w'))
          → Ending (λ _. P) (bind_run (bind_run r (λ rc. fail_if (truthy rc) (pos 1))) (λ _. n))
      go (ok (pos zero) w') h k = k w' refl
      go (ok (pos (suc x)) w') h k = refl
      go (ok (negsuc x) w') h k = refl
      go (exit rc w') h k = absurd h
      go (abort w') h k = tt
      go (spin w') h k = tt

  -- From `w`, the resources are created and the sides connected, and from there on the protocol has
  -- led through all its phases to the world `w'`.
  abbrev pub Completed : World → World → Type 0
  Completed w w' =
      (w1 : World) × (w2 : World) × (resources_create env w ≡ ok (pos 0) w1)
      × (connect_qp env fuel w1 ≡ ok (pos 0) w2)
      × Follows env w'.res (side_of w.config.server_name) w2.trace w'.trace w_met

  main_body-Completed : (w : World) → Ending (λ _. Completed w) (main_body env fuel w)
  unfolding main_body connect_qp
  main_body-Completed w =
      let server = w.config.server_name in
      first_need (Completed w) (resources_create env)
        (need env fuel (connect_qp env fuel) >> talk env fuel server) w
        (in_of (resources_create env w) (resources_create-Stops env Never w))
        λ w1 e1.
          first_need (Completed w) (connect_qp env fuel) (talk env fuel server) w1
            (catch_in (connect_body env fuel) w1)
            λ w2 e2.
              Ending-mono (λ _ w'. Follows env w'.res (side_of server) w2.trace w'.trace w_met)
                (λ _. Completed w) (talk env fuel server w2) (talk-Ending env fuel server w2)
                (λ u w3 f. (w1, w2, e1, e2, f))

  -- 1, or 0 after all of this and a clean-up in which nothing failed.
  abbrev pub Whole : World → ℤ → World → Type 0
  Whole w rc w' =
      (rc ≡ pos 1)
      ⊎ ((rc ≡ pos 0)
          × ((w3 : World) × Completed w w3 × (resources_destroy env w3 ≡ ok (pos 0) w')))

  exit_ends :
      (P : ℤ → World → Type 0) (rc : ℤ) (w : World)
      → ((w' : World) → P (pos 1) w')
      → ((w' : World) → resources_destroy env w ≡ ok (pos 0) w' → P rc w')
      → Ends P (λ _. ⊥) (main_exit env fuel rc w)
  unfolding main_exit
  exit_ends P rc w one whole =
      go (resources_destroy env w) (resources_destroy-Stops env w) (λ w' e. whole w' e)
    where
      go :
          (r : Run ℤ)
          → Stopped Never r
          → ((w' : World) → r ≡ ok (pos 0) w' → P rc w')
          → Ends P (λ _. ⊥) (bind_run r (λ d. pure (if truthy d then pos 1 else rc)))
      go (ok (pos zero) w') h k = k w' refl
      go (ok (pos (suc n)) w') h k = one w'
      go (ok (negsuc n) w') h k = one w'
      go (exit d w') h k = absurd h
      go (abort w') h k = tt
      go (spin w') h k = tt

  run_main-Whole : (w : World) → Ends (Whole w) (λ _. ⊥) (run_main env fuel w)
  unfolding run_main
  run_main-Whole w = go (main_body env fuel w) (main_body-Completed w)
    where
      go :
          (r : Run (Unit {0}))
          → Ending (λ _. Completed w) r
          → Ends
              (Whole w)
              (λ _. ⊥)
              (elim r [
                | ok _ w' ↦ main_exit env fuel (pos 0) w'
                | exit rc w' ↦ main_exit env fuel rc w'
                | abort w' ↦ abort w'
                | spin w' ↦ spin w'
              ])
      go (ok u w3) h =
          exit_ends (Whole w) (pos 0) w3 (λ w'. inl refl) (λ w' e. inr (refl, (w3, h, e)))
      go (exit rc w3) h = exit_ends (Whole w) rc w3 (λ w'. inl refl) (λ w' e. inl h)
      go (abort w') h = tt
      go (spin w') h = tt

-- Where the command line is accepted, with configuration `c`, a run of `rcmain` that returns gives
-- 1; or it gives 0, `resources_create`, `connect_qp` and `resources_destroy` have returned 0, and
-- between the last two, whatever the calls answered, the side has gone through its protocol in
-- order, each work request, text and offer once, with only polls, reads and the clock between: a
-- server has sent its message, put its text into its buffer and met the client twice; a client has
-- received a message, met the server, read into its buffer, put its own text there, written it, and
-- met the server again; each work request was followed by a completion with success before the next
-- step; runs that an assertion ends or that lack fuel are left out.
pub rcmain-Whole :
    (env : Env) (fuel : ℕ) (opts : List Opt) (args : List (List ℕ)) (c : Config)
    → configure opts args default_config ≡ some c
    → Ends (Whole env fuel (start env fuel c)) (λ _. ⊥) (rcmain env fuel opts args)
unfolding rcmain
rcmain-Whole env fuel opts args c e =
    subst (λ o. Ends (Whole env fuel (start env fuel c)) (λ _. ⊥) (run_configured env fuel o))
      (sym e) (run_main-Whole env fuel (start env fuel c))
