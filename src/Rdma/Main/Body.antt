-- ===== src/Rdma/Main/Body.antt =====
-- The body of `rcmain` step by step, for the invariant of the resources.
use communication_speed.Prelude.{ℕ, zero, suc, refl, List, Option, none, some}
use communication_speed.Prelude.Text.{codes}
use communication_speed.Prelude.Int.{ℤ, pos, negsuc, truthy}
use communication_speed.Rdma.Types.{wr_send, rdma_read, rdma_write, strcpy}
use communication_speed.Rdma.Machine.{
  Env, World, Run, ok, exit, abort, spin, M, ◌>>◌, fail_if, ext, get_res,
}
use communication_speed.Rdma.Socket.{sock_sync_data, poll_completion}
use communication_speed.Rdma.Post.{send}
use communication_speed.Rdma.Connect.{connect_qp}
use communication_speed.Rdma.Create.{resources_create}
use communication_speed.Rdma.Create.Counts.{Handle, acquired, returned}
use communication_speed.Rdma.Create.Owns.{Ends, Ends-bind, strays}
use communication_speed.Rdma.Create.Balance.{Initial, Outcome, resources_create_lem}
use communication_speed.Rdma.Main.{
  need, meet, send_message, put_text, offer_text, read_and_write, main_body, rdma_msg_r, rdma_msg_w,
}
use communication_speed.Rdma.Stays.{Stays-bind, Stays-then, Stays-pure, Stays-fail_one}
use communication_speed.Rdma.Main.Keeps.{
  Kept, Keeps, Keeps-ext, sock_sync_data-Keeps, poll_completion-Keeps, send-Keeps, connect_qp-Keeps,
  get_res-Keeps,
}

module _ (env : Env) (fuel : ℕ) (d : Handle → ℕ) where
  need-Keeps : (m : M ℤ) → Keeps d m → Keeps d (need env fuel m)
  need-Keeps m h = Stays-bind (Kept d) m _ h λ rc. Stays-fail_one (Kept d) (truthy rc)

  meet-Keeps : (text : List ℕ) → Keeps d (meet env fuel text)
  unfolding meet
  meet-Keeps text = Stays-bind (Kept d) get_res _ (get_res-Keeps env d) λ r.
      Stays-bind (Kept d) (sock_sync_data env fuel r.sock 1 text (env.uninit 1)) _
        (sock_sync_data-Keeps env d fuel r.sock 1 text (env.uninit 1)) λ s. Stays-pure (Kept d) s.rc

  put_text-Keeps : (text : List ℕ) → Keeps d (put_text env fuel text)
  unfolding acquired returned
  put_text-Keeps text = Stays-bind (Kept d) get_res _ (get_res-Keeps env d) λ r.
      Stays-then (Kept d) (ext env (strcpy r.buf text)) _
        (Keeps-ext env d (strcpy r.buf text) (λ x. refl) refl) (Stays-pure (Kept d) tt)

  send_message-Keeps : (server : Option (List ℕ)) → Keeps d (send_message env fuel server)
  send_message-Keeps none = need-Keeps (send env wr_send) (send-Keeps env d wr_send)
  send_message-Keeps (some s) = Stays-pure (Kept d) tt

  offer_text-Keeps : (server : Option (List ℕ)) → Keeps d (offer_text env fuel server)
  offer_text-Keeps none = put_text-Keeps rdma_msg_r
  offer_text-Keeps (some s) = Stays-pure (Kept d) tt

  -- A step of the program, then the others.
  need_then-Keeps :
      (m : M ℤ) (n : M (Unit {0})) → Keeps d m → Keeps d n → Keeps d (need env fuel m >> n)
  need_then-Keeps m n h k = Stays-then (Kept d) (need env fuel m) n (need-Keeps m h) k

  read_and_write-Keeps : (server : Option (List ℕ)) → Keeps d (read_and_write env fuel server)
  read_and_write-Keeps none = Stays-pure (Kept d) tt
  read_and_write-Keeps (some s) =
      need_then-Keeps (send env rdma_read) _ (send-Keeps env d rdma_read) (
        need_then-Keeps (poll_completion env fuel) _ (poll_completion-Keeps env d fuel) (
          Stays-then (Kept d) (put_text env fuel rdma_msg_w) _ (put_text-Keeps rdma_msg_w) (
            need_then-Keeps (send env rdma_write) _ (send-Keeps env d rdma_write)
              (need-Keeps (poll_completion env fuel) (poll_completion-Keeps env d fuel)))))

  -- Everything behind `resources_create`.
  abbrev after_create : Option (List ℕ) → M (Unit {0})
  after_create server =
      need env fuel (connect_qp env fuel)
      >> (send_message env fuel server
          >> (need env fuel (poll_completion env fuel)
              >> (offer_text env fuel server
                  >> (need env fuel (meet env fuel (codes "R"))
                      >> (read_and_write env fuel server
                          >> need env fuel (meet env fuel (codes "W")))))))

  after_create-Keeps : (server : Option (List ℕ)) → Keeps d (after_create server)
  after_create-Keeps server =
      need_then-Keeps (connect_qp env fuel) _ (connect_qp-Keeps env d fuel) (
        Stays-then (Kept d) (send_message env fuel server) _ (send_message-Keeps server) (
          need_then-Keeps (poll_completion env fuel) _ (poll_completion-Keeps env d fuel) (
            Stays-then (Kept d) (offer_text env fuel server) _ (offer_text-Keeps server) (
              need_then-Keeps (meet env fuel (codes "R")) _ (meet-Keeps (codes "R")) (
                Stays-then (Kept d) (read_and_write env fuel server) _ (read_and_write-Keeps server)
                  (need-Keeps (meet env fuel (codes "W")) (meet-Keeps (codes "W"))))))))

module _ (env : Env) (fuel : ℕ) where
  weaken :
      {A : Type 0} (P : A → World → Type 0) (E : World → Type 0) (r : Run A)
      → Ends P (λ _. ⊥) r
      → Ends P E r
  weaken P E (ok a w) h = h
  weaken P E (exit rc w) h = absurd h.1
  weaken P E (abort w) h = tt
  weaken P E (spin w) h = tt

  after_outcome :
      (server : Option (List ℕ)) (rc : ℤ) (w : World)
      → Outcome env server rc w
      → Ends (λ _. Kept (strays server)) (Kept (strays server)) (fail_if (truthy rc) (pos 1) w)
  after_outcome server (pos zero) w o = record { owns = o.owns; no_list = o.no_list }
  after_outcome server (pos (suc n)) w o = (refl, record { owns = o.owns; no_list = o.list })
  after_outcome server (negsuc n) w o = (refl, record { owns = o.owns; no_list = o.list })

  pub main_body-Ends :
      (w : World)
      → Initial env w
      → let d = strays w.config.server_name in Ends (λ _. Kept d) (Kept d) (main_body env fuel w)
  unfolding main_body
  main_body-Ends w i =
      let server = w.config.server_name in
      let d = strays server in
      Ends-bind {B = Unit {0}} (λ _. Kept d) (λ _. Kept d) (Kept d)
        (need env fuel (resources_create env) w) (λ _. after_create env fuel d server)
        (Ends-bind (Outcome env server) (λ _. Kept d) (Kept d) (resources_create env w)
          (λ rc. fail_if (truthy rc) (pos 1))
          (weaken (Outcome env server) (Kept d) (resources_create env w)
            (resources_create_lem env w i))
          (λ rc w' o. after_outcome server rc w' o))
        (λ _ w' g. after_create-Keeps env fuel d server w' g)
