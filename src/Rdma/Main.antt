-- ===== src/Rdma/Main.antt =====
-- `rcmain`: the message, the read and the write of the remote buffer, with the meetings of the two
-- sides between them, and the clean-up that every way through the program ends with.
pub mod Stops
mod Tests
pub mod Protocol
pub mod Phases
pub mod Waits
pub mod Talks
pub mod Whole
pub mod Keeps
pub mod Body
pub mod Balance
use communication_speed.Prelude.{ℕ, List, [], Option, none, some, if◌then◌else◌}
use communication_speed.Prelude.Text.{codes}
use communication_speed.Prelude.Int.{ℤ, pos, truthy}
use communication_speed.Rdma.Types.{Config, default_config, wr_send, rdma_write, rdma_read, strcpy}
use communication_speed.Rdma.Machine.{
  Env, World, Run, ok, exit, abort, spin, M, ◌>>=◌, ◌>>◌, pure, fail_if, ext, get_res, get_config,
}
use communication_speed.Rdma.Socket.{sock_sync_data, poll_completion}
use communication_speed.Rdma.Post.{send}
use communication_speed.Rdma.Create.{resources_init, resources_create}
use communication_speed.Rdma.Connect.{connect_qp}
use communication_speed.Rdma.Destroy.{resources_destroy}
use communication_speed.Rdma.Options.{Opt, configure}

-- RDMAMSGR and RDMAMSGW
abbrev pub rdma_msg_r : List ℕ
rdma_msg_r = codes "RDMA read operation"

abbrev pub rdma_msg_w : List ℕ
rdma_msg_w = codes "RDMA write opertion"

module _ (env : Env) (fuel : ℕ) where
  -- if( f ) goto main_exit; with `rc` 1
  abbrev pub need : M ℤ → M (Unit {0})
  need m = m >>= λ rc. fail_if (truthy rc) (pos 1)

  -- sock_sync_data(res.sock, 1, text, &temp_char)
  unfoldable pub meet : List ℕ → M ℤ
  meet text = do r ← get_res; s ← sock_sync_data env fuel r.sock 1 text (env.uninit 1); pure s.rc

  -- The server sends its message.
  abbrev pub send_message : Option (List ℕ) → M (Unit {0})
  send_message none = need (send env wr_send)
  send_message (some server) = pure tt

  -- strcpy(res.buf, text)
  abbrev pub put_text : List ℕ → M (Unit {0})
  put_text text = do r ← get_res; ext env (strcpy r.buf text); pure tt

  abbrev pub offer_text : Option (List ℕ) → M (Unit {0})
  offer_text none = put_text rdma_msg_r
  offer_text (some server) = pure tt

  -- The client reads the server's buffer, and writes it.
  abbrev pub read_and_write : Option (List ℕ) → M (Unit {0})
  read_and_write none = pure tt
  read_and_write (some server) = do
    need (send env rdma_read)
    need (poll_completion env fuel)
    put_text rdma_msg_w
    need (send env rdma_write)
    need (poll_completion env fuel)

  -- From `resources_create` to `rc = 0`.
  unfoldable pub main_body : M (Unit {0})
  main_body = do
    c ← get_config
    need (resources_create env)
    need (connect_qp env fuel)
    send_message c.server_name
    need (poll_completion env fuel)
    offer_text c.server_name
    need (meet (codes "R"))
    read_and_write c.server_name
    need (meet (codes "W"))

  -- What stands behind `main_exit`.
  unfoldable pub main_exit : ℤ → M ℤ
  main_exit rc = do d ← resources_destroy env; pure (if truthy d then pos 1 else rc)

  unfoldable pub run_main : M ℤ
  run_main w = elim (main_body w) [
    | ok _ w' ↦ main_exit (pos 0) w'
    | exit rc w' ↦ main_exit rc w'
    | abort w' ↦ abort w'
    | spin w' ↦ spin w'
  ]

  abbrev pub start : Config → World
  start c = record { trace = []; config = c; res = resources_init; dev_list = 0 }

  -- A refused command line returns 1 before any call.
  abbrev pub run_configured : Option Config → Run ℤ
  run_configured none = ok (pos 1) (start default_config)
  run_configured (some c) = run_main (start c)

  unfoldable pub rcmain : List Opt → List (List ℕ) → Run ℤ
  rcmain opts args = run_configured (configure opts args default_config)
