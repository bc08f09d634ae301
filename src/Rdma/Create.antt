-- ===== src/Rdma/Create.antt =====
-- `resources_init` and `resources_create`, the latter in the order of its stages; each stage may
-- jump to the exit label, which gives back what was acquired.
pub mod Counts
pub mod Owns
pub mod Devices
pub mod Stages
pub mod Back
pub mod Balance
pub mod Stops
use communication_speed.Prelude.{
  ℕ, zero, suc, ◌+◌, List, [], ◌∷◌, ◌++◌, Bool, true, false, not, ◌||◌, Option, none, some, ◌==◌,
  if◌then◌else◌,
}
use communication_speed.Prelude.Text.{codes, same_text}
use communication_speed.Prelude.Int.{ℤ, pos, is_neg, truthy, minus_one}
use communication_speed.Rdma.Types.{
  Config, Resources, no_con_data, Call, Reply, get_device_list, get_device_name, open_device,
  free_device_list, query_port, alloc_pd, create_cq, malloc, memset, strcpy, free, reg_mr, QpInit,
  create_qp, destroy_qp, dereg_mr, destroy_cq, dealloc_pd, close,
}
use communication_speed.Rdma.Machine.{
  Env, World, Run, ok, exit, abort, spin, M, ◌>>=◌, ◌>>◌, pure, fail, fail_if, when, ext, get_res,
  get_config, set_config,
}
use communication_speed.Rdma.Socket.{sock_connect}
use communication_speed.Rdma.Post.{msg_size}
use communication_speed.Rdma.Qp.{all_access}

-- After `memset(res, 0, sizeof(*res))`, with the socket set to -1.
abbrev pub resources_init : Resources
resources_init = record {
  port_lid = 0;
  remote_props = no_con_data;
  ib_ctx = 0;
  pd = 0;
  cq = 0;
  qp = 0;
  mr = 0;
  buf = 0;
  sock = minus_one;
}

-- MSG
abbrev pub msg : List ℕ
msg = codes "SEND operation" ++ 9 ∷ []

-- res->field = value
module _ (v : ℕ) (w : World) where
  abbrev pub put_ctx : Run (Unit {0})
  put_ctx = ok tt (record w { res = record (w.res) { ib_ctx = v } })

  abbrev pub put_pd : Run (Unit {0})
  put_pd = ok tt (record w { res = record (w.res) { pd = v } })

  abbrev pub put_cq : Run (Unit {0})
  put_cq = ok tt (record w { res = record (w.res) { cq = v } })

  abbrev pub put_qp : Run (Unit {0})
  put_qp = ok tt (record w { res = record (w.res) { qp = v } })

  abbrev pub put_mr : Run (Unit {0})
  put_mr = ok tt (record w { res = record (w.res) { mr = v } })

  abbrev pub put_buf : Run (Unit {0})
  put_buf = ok tt (record w { res = record (w.res) { buf = v } })

  abbrev pub put_lid : Run (Unit {0})
  put_lid = ok tt (record w { res = record (w.res) { port_lid = v } })

  abbrev pub put_dev_list : Run (Unit {0})
  put_dev_list = ok tt (record w { dev_list = v })

abbrev pub put_sock : ℤ → M (Unit {0})
put_sock s w = ok tt (record w { res = record (w.res) { sock = s } })

abbrev pub get_dev_list : M ℕ
get_dev_list w = ok w.dev_list w

module _ (env : Env) where
  unfoldable pub connect_socket : M (Unit {0})
  connect_socket = do
    c ← get_config
    s ← sock_connect env c.server_name c.tcp_port
    put_sock s
    fail_if (is_neg s) minus_one

  -- if(!config.dev_name) config.dev_name = strdup(ibv_get_device_name(dev_list[i]))
  unfoldable pub default_device : ℕ → ℕ → Option (List ℕ) → M (Unit {0})
  default_device list i (some name) = pure tt
  default_device list i none = do
    n ← ext env (get_device_name list i)
    c ← get_config
    set_config (record c { dev_name = some n.bytes })

  abbrev pub is_named : List ℕ → Option (List ℕ) → Bool
  is_named name none = false
  is_named name (some dev_name) = same_text name dev_name

  -- The search from device `i` on, with the devices that are left.
  unfoldable pub search_device : ℕ → ℕ → ℕ → M (Option ℕ)
  search_device list zero i = pure none
  search_device list (suc left) i = do
    c ← get_config
    default_device list i c.dev_name
    n ← ext env (get_device_name list i)
    c' ← get_config
    elim (is_named n.bytes c'.dev_name) [
      | true ↦ pure (some i)
      | false ↦ search_device list left (suc i)
    ]

  -- ib_dev is found, or the function gives up.
  abbrev pub found : Option ℕ → M ℕ
  found none = fail (pos 1)
  found (some i) = pure i

  unfoldable pub list_devices : M ℕ
  list_devices = do
    l ← ext env get_device_list
    put_dev_list l.value
    fail_if (l.value == 0 || l.stored == 0) (pos 1)
    pure l.stored

  unfoldable pub open_found : ℕ → M (Unit {0})
  open_found i = do
    list ← get_dev_list
    x ← ext env (open_device list i)
    put_ctx x.value
    fail_if (x.value == 0) (pos 1)

  unfoldable pub drop_list : M (Unit {0})
  drop_list = do list ← get_dev_list; ext env (free_device_list list); put_dev_list 0

  unfoldable pub open_ib_device : M (Unit {0})
  open_ib_device = do
    n ← list_devices
    list ← get_dev_list
    d ← search_device list n 0
    i ← found d
    open_found i
    drop_list

  unfoldable pub query_ib_port : M (Unit {0})
  query_ib_port = do
    c ← get_config
    r ← get_res
    q ← ext env (query_port r.ib_ctx c.ib_port)
    put_lid q.stored
    fail_if (truthy q.code) (pos 1)

  unfoldable pub make_pd : M (Unit {0})
  make_pd = do
    r ← get_res
    p ← ext env (alloc_pd r.ib_ctx)
    put_pd p.value
    fail_if (p.value == 0) (pos 1)

  unfoldable pub make_cq : M (Unit {0})
  make_cq = do
    r ← get_res
    q ← ext env (create_cq r.ib_ctx 1)
    put_cq q.value
    fail_if (q.value == 0) (pos 1)

  unfoldable pub make_buf : M (Unit {0})
  make_buf = do b ← ext env (malloc msg_size); put_buf b.value; fail_if (b.value == 0) (pos 1)

  -- The server copies its message in, twice; the client clears the buffer once more.
  abbrev pub load_msg : ℕ → Option (List ℕ) → M Reply
  load_msg b none = do ext env (strcpy b msg); ext env (strcpy b msg)
  load_msg b (some server) = ext env (memset b msg_size)

  unfoldable pub fill_buf : M (Unit {0})
  fill_buf = do
    r ← get_res
    c ← get_config
    ext env (memset r.buf msg_size)
    load_msg r.buf c.server_name
    pure tt

  unfoldable pub make_mr : M (Unit {0})
  make_mr = do
    r ← get_res
    m ← ext env (reg_mr r.pd r.buf msg_size all_access)
    put_mr m.value
    fail_if (m.value == 0) (pos 1)

  abbrev pub qp_init_attr : ℕ → QpInit
  qp_init_attr cq = record {
    send_cq = cq;
    recv_cq = cq;
    sq_sig_all = 1;
    max_send_wr = 1;
    max_recv_wr = 1;
    max_send_sge = 1;
    max_recv_sge = 1;
  }

  unfoldable pub make_qp : M (Unit {0})
  make_qp = do
    r ← get_res
    q ← ext env (create_qp r.pd (qp_init_attr r.cq))
    put_qp q.value
    fail_if (q.value == 0) (pos 1)

  -- if( p ) { call; p = NULL; }
  abbrev pub give_back : ℕ → Call → M (Unit {0}) → M (Unit {0})
  give_back p call clear = when (not (p == 0)) (do ext env call; clear)

  unfoldable pub back_qp : M (Unit {0})
  back_qp = do r ← get_res; give_back r.qp (destroy_qp r.qp) (put_qp 0)

  unfoldable pub back_mr : M (Unit {0})
  back_mr = do r ← get_res; give_back r.mr (dereg_mr r.mr) (put_mr 0)

  unfoldable pub back_buf : M (Unit {0})
  back_buf = do r ← get_res; give_back r.buf (free r.buf) (put_buf 0)

  unfoldable pub back_cq : M (Unit {0})
  back_cq = do r ← get_res; give_back r.cq (destroy_cq r.cq) (put_cq 0)

  unfoldable pub back_pd : M (Unit {0})
  back_pd = do r ← get_res; give_back r.pd (dealloc_pd r.pd) (put_pd 0)

  unfoldable pub back_dev_list : M (Unit {0})
  back_dev_list = do list ← get_dev_list; give_back list (free_device_list list) (put_dev_list 0)

  unfoldable pub back_sock : M (Unit {0})
  back_sock = do
    r ← get_res
    when (not (is_neg r.sock)) (do ext env (close r.sock); put_sock minus_one)

  -- What stands behind the exit label under `if( rc )`.
  unfoldable pub give_all_back : M (Unit {0})
  give_all_back = do back_qp; back_mr; back_buf; back_cq; back_pd; back_dev_list; back_sock

  unfoldable pub create_stages : M (Unit {0})
  create_stages = do
    connect_socket
    open_ib_device
    query_ib_port
    make_pd
    make_cq
    make_buf
    fill_buf
    make_mr
    make_qp

  -- The exit label.
  abbrev pub end_of_create : Run (Unit {0}) → Run ℤ
  end_of_create (ok _ w) = ok (pos 0) w
  end_of_create (exit rc w) = (if truthy rc then (do give_all_back; pure rc) else pure rc) w
  end_of_create (abort w) = abort w
  end_of_create (spin w) = spin w

  unfoldable pub resources_create : M ℤ
  resources_create w = end_of_create (create_stages w)
