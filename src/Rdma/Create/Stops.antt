-- ===== src/Rdma/Create/Stops.antt =====
-- `resources_create` runs no loop but the search of the devices, which takes no fuel.
use communication_speed.Prelude.{
  u16, ℕ, zero, suc, List, Bool, true, false, not, ◌||◌, Option, none, some, ◌==◌,
}
use communication_speed.Prelude.Int.{ℤ, pos, is_neg, truthy, minus_one, is_pos}
use communication_speed.Rdma.Types.{
  Call, get_device_list, get_device_name, open_device, free_device_list, query_port, alloc_pd,
  create_cq, malloc, memset, reg_mr, create_qp, socket, connect, bind, listen, accept, close,
  destroy_qp, dereg_mr, free, destroy_cq, dealloc_pd, strcpy,
}
use communication_speed.Rdma.Machine.{
  Env, World, Run, ok, exit, abort, spin, M, ◌>>=◌, ◌>>◌, pure, fail_if, when, assert, ext,
}
use communication_speed.Rdma.Socket.{connected, sock_connect}
use communication_speed.Rdma.Post.{msg_size}
use communication_speed.Rdma.Qp.{all_access}
use communication_speed.Rdma.Create.{
  connect_socket, default_device, is_named, search_device, found, list_devices, open_found,
  drop_list, open_ib_device, query_ib_port, make_pd, make_cq, make_buf, load_msg, fill_buf, make_mr,
  qp_init_attr, make_qp, give_back, back_qp, back_mr, back_buf, back_cq, back_pd, back_dev_list,
  back_sock, give_all_back, create_stages, end_of_create, resources_create, put_pd, put_cq, put_qp,
  put_mr, put_buf, put_dev_list, put_sock, msg,
}
use communication_speed.Rdma.Stops.{
  Any, Stopped, Stops, Stops-bind, Stops-then, Stops-fail_if, Stops-assert, Stops-choose, Stops-if,
  Stops-ext,
}

module _ (env : Env) (X : ℤ → Type 0) where
  -- A call, then code that needs no fuel.
  call_then : {A : Type 0} (c : Call) (n : M A) → Stops X n → Stops X (ext env c >> n)
  call_then c n k = Stops-then X (ext env c) n (Stops-ext env X c) k

  stage : (m n : M (Unit {0})) → Stops X m → Stops X n → Stops X (m >> n)
  stage m n h k = Stops-then X m n h k

  give_back-Stops :
      (p : ℕ) (c : Call) (clear : M (Unit {0})) → Stops X clear → Stops X (give_back env p c clear)
  give_back-Stops p c clear h = go (not (p == 0))
    where
      go : (b : Bool) → Stops X (when b (ext env c >> clear))
      go true = call_then c clear h
      go false = λ w. tt

  back_sock-Stops : Stops X (back_sock env)
  unfolding back_sock
  back_sock-Stops w = go (not (is_neg w.res.sock)) w
    where
      go : (b : Bool) → Stops X (when b (ext env (close w.res.sock) >> put_sock minus_one))
      go true = call_then (close w.res.sock) _ (λ w'. tt)
      go false = λ w'. tt

  give_all_back-Stops : Stops X (give_all_back env)
  unfolding give_all_back back_qp back_mr back_buf back_cq back_pd back_dev_list
  give_all_back-Stops =
      stage (back_qp env) _
        (λ w. give_back-Stops w.res.qp (destroy_qp w.res.qp) (put_qp 0) (λ _. tt) w)
        (stage (back_mr env) _
          (λ w. give_back-Stops w.res.mr (dereg_mr w.res.mr) (put_mr 0) (λ _. tt) w)
          (stage (back_buf env) _
            (λ w. give_back-Stops w.res.buf (free w.res.buf) (put_buf 0) (λ _. tt) w)
            (stage (back_cq env) _
              (λ w. give_back-Stops w.res.cq (destroy_cq w.res.cq) (put_cq 0) (λ _. tt) w)
              (stage (back_pd env) _
                (λ w. give_back-Stops w.res.pd (dealloc_pd w.res.pd) (put_pd 0) (λ _. tt) w)
                (stage (back_dev_list env) _
                  (λ w.
                    give_back-Stops w.dev_list (free_device_list w.dev_list) (put_dev_list 0)
                      (λ _. tt) w)
                  back_sock-Stops)))))

module _ (env : Env) where
  connected-Stops : (sockfd tmp : ℤ) → Stops Any (connected env sockfd tmp)
  unfolding connected
  connected-Stops sockfd tmp =
      Stops-if Any (is_neg tmp) _ _ (call_then env Any (close sockfd) _ (λ w. tt)) (λ w. tt)

  sock_connect-Stops :
      (server : Option (List ℕ)) (port : ℕ) → Stops Any (sock_connect env server port)
  unfolding sock_connect
  sock_connect-Stops (some name) port =
      Stops-bind Any (ext env socket) _ (Stops-ext env Any socket) λ s.
        Stops-bind Any (ext env (connect s.code name (u16 port))) _
          (Stops-ext env Any (connect s.code name (u16 port)))
          λ tmp.
            Stops-bind Any (connected env s.code tmp.code) _ (connected-Stops s.code tmp.code)
              λ fd. call_then env Any (close (pos 0)) _ (λ w. tt)
  sock_connect-Stops none port = Stops-bind Any (ext env socket) _ (Stops-ext env Any socket) λ l.
      Stops-then Any (assert (is_pos l.code)) _ (Stops-assert Any (is_pos l.code)) (
        call_then env Any (bind l.code (u16 port)) _ (
          call_then env Any (listen l.code 1) _ (
            Stops-bind Any (ext env (accept l.code)) _ (Stops-ext env Any (accept l.code))
              λ a. call_then env Any (close l.code) _ (λ w. tt))))

  connect_socket-Stops : Stops Any (connect_socket env)
  unfolding connect_socket
  connect_socket-Stops w =
      Stops-bind Any (sock_connect env w.config.server_name w.config.tcp_port) _
        (sock_connect-Stops w.config.server_name w.config.tcp_port)
        (λ s w'.
          Stops-fail_if Any (is_neg s) minus_one tt
            (record w' { res = record (w'.res) { sock = s } }))
        w

  -- The search with the devices that are left.
  default_device-Stops :
      (list i : ℕ) (name : Option (List ℕ)) → Stops Any (default_device env list i name)
  unfolding default_device
  default_device-Stops list i (some name) = λ w. tt
  default_device-Stops list i none =
      Stops-bind Any (ext env (get_device_name list i)) _
        (Stops-ext env Any (get_device_name list i)) (λ n w. tt)

  search_device-Stops : (list left i : ℕ) → Stops Any (search_device env list left i)
  unfolding search_device
  search_device-Stops list zero i = λ w. tt
  search_device-Stops list (suc left) i = λ w.
      Stops-then Any (default_device env list i w.config.dev_name) _
        (default_device-Stops list i w.config.dev_name)
        (Stops-bind Any (ext env (get_device_name list i)) _
          (Stops-ext env Any (get_device_name list i))
          λ n w'.
            Stops-choose Any (is_named env n.bytes w'.config.dev_name) (pure (some i))
              (search_device env list left (suc i)) (λ _ w''. tt)
              (λ _. search_device-Stops list left (suc i)) w')
        w

  open_found-Stops : (i : ℕ) → Stops Any (open_found env i)
  unfolding open_found
  open_found-Stops i w =
      Stops-bind Any (ext env (open_device w.dev_list i)) _
        (Stops-ext env Any (open_device w.dev_list i))
        (λ x w'. Stops-fail_if Any (x.value == 0) (pos 1) tt _) w

  found-Stops : (d : Option ℕ) → Stops Any (found env d)
  found-Stops none w = tt
  found-Stops (some i) w = tt

  list_devices-Stops : Stops Any (list_devices env)
  unfolding list_devices
  list_devices-Stops =
      Stops-bind Any (ext env get_device_list) _ (Stops-ext env Any get_device_list) λ l w.
        Stops-then Any (fail_if (l.value == 0 || l.stored == 0) (pos 1)) _
          (Stops-fail_if Any (l.value == 0 || l.stored == 0) (pos 1) tt) (λ w'. tt) _

  open_ib_device-Stops : Stops Any (open_ib_device env)
  unfolding open_ib_device drop_list ext
  open_ib_device-Stops = Stops-bind Any (list_devices env) _ list_devices-Stops λ n w.
      Stops-bind Any (search_device env w.dev_list n 0) _ (search_device-Stops w.dev_list n 0)
        (λ d.
          Stops-bind Any (found env d) _ (found-Stops d)
            λ i. Stops-then Any (open_found env i) _ (open_found-Stops i) (λ w'. tt))
        w

  -- A call whose answer is stored and tested.
  tested :
      (c : Call) (put : ℕ → M (Unit {0}))
      → ((v : ℕ) (b : Bool) → Stops Any (put v >> fail_if b (pos 1)))
      → (test : ℕ → Bool)
      → Stops Any (ext env c >>= λ x. put x.value >> fail_if (test x.value) (pos 1))
  tested c put h test =
      Stops-bind Any (ext env c) _ (Stops-ext env Any c) (λ x. h x.value (test x.value))

  query_ib_port-Stops : Stops Any (query_ib_port env)
  unfolding query_ib_port
  query_ib_port-Stops w =
      let c = query_port w.res.ib_ctx w.config.ib_port in
      Stops-bind Any (ext env c) _ (Stops-ext env Any c)
        (λ q w'. Stops-fail_if Any (truthy q.code) (pos 1) tt _) w

  make_pd-Stops : Stops Any (make_pd env)
  unfolding make_pd
  make_pd-Stops w =
      tested (alloc_pd w.res.ib_ctx) (λ v. put_pd v) (λ v b w'. Stops-fail_if Any b (pos 1) tt _)
        (λ v. v == 0) w

  make_cq-Stops : Stops Any (make_cq env)
  unfolding make_cq
  make_cq-Stops w =
      tested (create_cq w.res.ib_ctx 1) (λ v. put_cq v) (λ v b w'. Stops-fail_if Any b (pos 1) tt _)
        (λ v. v == 0) w

  make_buf-Stops : Stops Any (make_buf env)
  unfolding make_buf
  make_buf-Stops =
      tested (malloc msg_size) (λ v. put_buf v) (λ v b w'. Stops-fail_if Any b (pos 1) tt _)
        (λ v. v == 0)

  fill_buf-Stops : Stops Any (fill_buf env)
  unfolding fill_buf
  fill_buf-Stops w =
      call_then env Any (memset w.res.buf msg_size) _
        (Stops-bind Any (load_msg env w.res.buf w.config.server_name) _
          (load w.res.buf w.config.server_name) (λ x w'. tt))
        w
    where
      load : (b : ℕ) (server : Option (List ℕ)) → Stops Any (load_msg env b server)
      load b none = call_then env Any (strcpy b msg) _ (Stops-ext env Any (strcpy b msg))
      load b (some s) = Stops-ext env Any (memset b msg_size)

  make_mr-Stops : Stops Any (make_mr env)
  unfolding make_mr
  make_mr-Stops w =
      tested (reg_mr w.res.pd w.res.buf msg_size all_access) (λ v. put_mr v)
        (λ v b w'. Stops-fail_if Any b (pos 1) tt _) (λ v. v == 0) w

  make_qp-Stops : Stops Any (make_qp env)
  unfolding make_qp
  make_qp-Stops w =
      tested (create_qp w.res.pd (qp_init_attr env w.res.cq)) (λ v. put_qp v)
        (λ v b w'. Stops-fail_if Any b (pos 1) tt _) (λ v. v == 0) w

  create_stages-Stops : Stops Any (create_stages env)
  unfolding create_stages
  create_stages-Stops = stage env Any (connect_socket env) _ connect_socket-Stops (
      stage env Any (open_ib_device env) _ open_ib_device-Stops (
        stage env Any (query_ib_port env) _ query_ib_port-Stops (
          stage env Any (make_pd env) _ make_pd-Stops (
            stage env Any (make_cq env) _ make_cq-Stops (
              stage env Any (make_buf env) _ make_buf-Stops (
                stage env Any (fill_buf env) _ fill_buf-Stops
                  (stage env Any (make_mr env) _ make_mr-Stops make_qp-Stops)))))))

  -- Behind the exit label no jump is left.
  pub resources_create-Stops : (X : ℤ → Type 0) → Stops X (resources_create env)
  unfolding resources_create
  resources_create-Stops X w = go (create_stages env w) (create_stages-Stops w)
    where
      back : (rc : ℤ) (w' : World) → Stopped X ((give_all_back env >> pure rc) w')
      back rc w' = Stops-then X (give_all_back env) _ (give_all_back-Stops env X) (λ w''. tt) w'

      go : (r : Run (Unit {0})) → Stopped Any r → Stopped X (end_of_create env r)
      go (ok u w') h = tt
      go (exit rc w') h = Stops-if X (truthy rc) _ _ (back rc) (λ w''. tt) w'
      go (abort w') h = tt
      go (spin w') h = h
