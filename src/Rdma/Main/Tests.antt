-- ===== src/Rdma/Main/Tests.antt =====
-- A run of `rcmain` with a clock on which a second goes by with each call.
use communication_speed.Prelude.{
  refl, ◌+◌, ◌*◌, ◌≤◌, ◌≡◌, arith, List, ◌∷◌, ◌++◌, [], Option, none, some, length, length-append,
  sub_u64,
}
use communication_speed.Prelude.Text.{codes}
use communication_speed.Prelude.Int.{ℤ, pos}
use communication_speed.Rdma.Types.{
  Call, Reply, Event, read, write, gettimeofday, poll_cq, get_device_name, Config, default_config,
}
use communication_speed.Rdma.Machine.{Env, Run, ok, ext}
use communication_speed.Rdma.Connect.{
  zeros, connect_qp, connect_body, exchange, own_gid, raise_qp, to_memory, of_memory, con_bytes,
  con_of_bytes, local_con_data, remote_con_data,
}
use communication_speed.Rdma.Post.{send, receive}
use communication_speed.Rdma.Qp.{modify_qp_to_init, modify_qp_rtr, modify_qp_rts}
use communication_speed.Rdma.Destroy.{give_up, free_up, resources_destroy}
use communication_speed.Rdma.Create.{
  resources_create, create_stages, connect_socket, open_ib_device, list_devices, default_device,
  search_device, open_found, drop_list, query_ib_port, make_pd, make_cq, make_buf, fill_buf,
  make_mr, make_qp,
}
use communication_speed.Rdma.Create.Owns.{Ends}
use communication_speed.Rdma.Options.{configure, read_options, read_arguments}
use communication_speed.Rdma.Main.Whole.{Whole, rcmain-Whole}
use communication_speed.Rdma.Socket.{
  sock_connect, connected, sock_sync_data, sync_loop, poll_completion, poll_loop, msec,
  max_poll_cq_timeout,
}
use communication_speed.Rdma.Main.{start, meet, main_body, main_exit, run_main, rcmain}
use communication_speed.Rdma.Main.Stops.{Done, rcmain_total}
use communication_speed.Rdma.Tests.{env_of, reply, succeed}

-- A peer that keeps the connection open.
abbrev steady : List Event → Call → Reply
steady t gettimeofday = reply (pos 0) (length t)
steady t (read fd size) = reply (pos 1) 0
steady t (write fd bytes) = reply (pos (length bytes)) 0
steady t c = succeed t c

steady_late :
    (t recent : List Event)
    → length recent ≡ 2 * 1 + 2
    → max_poll_cq_timeout (env_of steady)
      ≤ sub_u64
          (msec (env_of steady) (steady (recent ++ t) gettimeofday))
          (msec (env_of steady) (steady t gettimeofday))
steady_late t recent h = omega (arith, length-append recent t, h)

rcmain-steady : Done (rcmain (env_of steady) 100 [] (codes "server" ∷ []))
rcmain-steady =
    rcmain_total (env_of steady) 100 1 [] (codes "server" ∷ []) (omega arith) (omega arith)
      (λ t sock size e. cc) steady_late

-- The client of a server with which all goes well.
abbrev helpful : List Event → Call → Reply
helpful t gettimeofday = reply (pos 0) (length t)
helpful t (read fd size) = record { code = pos size; value = 0; stored = 0; bytes = zeros size }
helpful t (write fd bytes) = reply (pos (length bytes)) 0
helpful t (poll_cq cq) = record (reply (pos 1) 0) { stored = 0 }
helpful t (get_device_name list i) = record (reply (pos 0) 64) { bytes = codes "mlx4_0" }
helpful t c = succeed t c

abbrev good : Env
good = record (env_of helpful) { uninit = zeros }

abbrev code_of : Run ℤ → Option ℤ
code_of (ok rc w) = some rc
code_of _ = none

abbrev client_config : Config
client_config = record default_config { server_name = some (codes "server") }

returns_zero : code_of (rcmain good 100 [] (codes "server" ∷ [])) ≡ some (pos 0)
unfolding rcmain run_main main_body main_exit meet resources_create create_stages connect_socket
    sock_connect connected open_ib_device list_devices default_device search_device open_found
    drop_list query_ib_port make_pd make_cq make_buf fill_buf make_mr make_qp connect_qp
    connect_body exchange own_gid raise_qp sock_sync_data sync_loop receive send modify_qp_to_init
    modify_qp_rtr modify_qp_rts local_con_data remote_con_data con_bytes con_of_bytes to_memory
    of_memory ext poll_completion poll_loop resources_destroy give_up free_up configure read_options
    read_arguments
returns_zero = refl

rcmain-good :
    Ends
      (Whole good 100 (start good 100 client_config))
      (λ _. ⊥)
      (rcmain good 100 [] (codes "server" ∷ []))
unfolding configure read_options read_arguments
rcmain-good = rcmain-Whole good 100 [] (codes "server" ∷ []) client_config refl
