-- ===== src/Rdma/Types.antt =====
-- The structs of rdma/rc_example.c, and the calls that it makes of the sockets and the verbs.
-- A pointer is a number, 0 for NULL. Flag sets of the verbs library are lists of their names.
use communication_speed.Prelude.{ℕ, List, [], Option, none}
use communication_speed.Prelude.Int.{ℤ, pos, minus_one}

-- struct config_t
pub record Config : Type 0 where
  pub dev_name : Option (List ℕ)
  pub server_name : Option (List ℕ)
  pub tcp_port : ℕ
  pub ib_port : ℤ
  pub gid_idx : ℤ

abbrev pub default_config : Config
default_config = record {
  dev_name = none;
  server_name = none;
  tcp_port = 19875;
  ib_port = pos 1;
  gid_idx = minus_one;
}

-- struct cm_con_data_t
pub record ConData : Type 0 where
  pub addr : ℕ
  pub rkey : ℕ
  pub qp_num : ℕ
  pub lid : ℕ
  pub gid : List ℕ

abbrev pub no_con_data : ConData
no_con_data = record { addr = 0; rkey = 0; qp_num = 0; lid = 0; gid = [] }

-- struct resources; of `port_attr` the program uses the local identifier.
pub record Resources : Type 0 where
  pub port_lid : ℕ
  pub remote_props : ConData
  pub ib_ctx : ℕ
  pub pd : ℕ
  pub cq : ℕ
  pub qp : ℕ
  pub mr : ℕ
  pub buf : ℕ
  pub sock : ℤ

pub data Access : Type 0 where
  local_write remote_read remote_write : Access

pub data Opcode : Type 0 where
  wr_send rdma_write rdma_read : Opcode

pub data QpState : Type 0 where
  reset init rtr rts : QpState

pub data Mtu : Type 0 where
  mtu_none mtu_256 : Mtu

pub data Mask : Type 0 where
  m_state m_pkey_index m_port m_access_flags m_av m_path_mtu m_dest_qpn m_rq_psn : Mask
  m_max_dest_rd_atomic m_min_rnr_timer m_timeout m_retry_cnt m_rnr_retry m_sq_psn : Mask
  m_max_qp_rd_atomic : Mask

-- struct ibv_ah_attr, with its global route
pub record AhAttr : Type 0 where
  pub is_global : ℕ
  pub dlid : ℕ
  pub sl : ℕ
  pub src_path_bits : ℕ
  pub port_num : ℕ
  pub dgid : List ℕ
  pub flow_label : ℕ
  pub hop_limit : ℕ
  pub sgid_index : ℕ
  pub traffic_class : ℕ

-- struct ibv_qp_attr
pub record QpAttr : Type 0 where
  pub qp_state : QpState
  pub port_num : ℕ
  pub pkey_index : ℕ
  pub qp_access_flags : List Access
  pub path_mtu : Mtu
  pub dest_qp_num : ℕ
  pub rq_psn : ℕ
  pub max_dest_rd_atomic : ℕ
  pub min_rnr_timer : ℕ
  pub ah_attr : AhAttr
  pub timeout : ℕ
  pub retry_cnt : ℕ
  pub rnr_retry : ℕ
  pub sq_psn : ℕ
  pub max_rd_atomic : ℕ

-- After `memset(&attr, 0, sizeof(attr))`.
abbrev pub zero_ah : AhAttr
zero_ah = record {
  is_global = 0;
  dlid = 0;
  sl = 0;
  src_path_bits = 0;
  port_num = 0;
  dgid = [];
  flow_label = 0;
  hop_limit = 0;
  sgid_index = 0;
  traffic_class = 0;
}

abbrev pub zero_attr : QpAttr
zero_attr = record {
  qp_state = reset;
  port_num = 0;
  pkey_index = 0;
  qp_access_flags = [];
  path_mtu = mtu_none;
  dest_qp_num = 0;
  rq_psn = 0;
  max_dest_rd_atomic = 0;
  min_rnr_timer = 0;
  ah_attr = zero_ah;
  timeout = 0;
  retry_cnt = 0;
  rnr_retry = 0;
  sq_psn = 0;
  max_rd_atomic = 0;
}

-- struct ibv_qp_init_attr of a reliable connection
pub record QpInit : Type 0 where
  pub send_cq : ℕ
  pub recv_cq : ℕ
  pub sq_sig_all : ℕ
  pub max_send_wr : ℕ
  pub max_recv_wr : ℕ
  pub max_send_sge : ℕ
  pub max_recv_sge : ℕ

-- struct ibv_sge
pub record Sge : Type 0 where
  pub addr : ℕ
  pub length : ℕ
  pub lkey : ℕ

-- struct ibv_send_wr with its one entry, signalled
pub record SendWr : Type 0 where
  pub sge : Sge
  pub opcode : Opcode
  pub remote_addr : ℕ
  pub rkey : ℕ

pub data Call : Type 0 where
  socket gettimeofday get_device_list : Call
  connect : (fd : ℤ) → (host : List ℕ) → (port : ℕ) → Call
  bind : (fd : ℤ) → (port : ℕ) → Call
  listen : (fd : ℤ) → (backlog : ℕ) → Call
  accept close : (fd : ℤ) → Call
  write : (fd : ℤ) → (bytes : List ℕ) → Call
  read : (fd : ℤ) → (size : ℕ) → Call
  malloc : (size : ℕ) → Call
  free : (p : ℕ) → Call
  memset : (p : ℕ) → (size : ℕ) → Call
  strcpy : (p : ℕ) → (text : List ℕ) → Call
  get_device_name open_device : (list : ℕ) → (i : ℕ) → Call
  free_device_list : (list : ℕ) → Call
  query_port : (ctx : ℕ) → (port : ℤ) → Call
  query_gid : (ctx : ℕ) → (port index : ℤ) → Call
  alloc_pd : (ctx : ℕ) → Call
  create_cq : (ctx : ℕ) → (size : ℕ) → Call
  reg_mr : (pd buf size : ℕ) → (access : List Access) → Call
  create_qp : (pd : ℕ) → QpInit → Call
  destroy_qp dereg_mr destroy_cq dealloc_pd close_device : (p : ℕ) → Call
  modify_qp : (qp : ℕ) → QpAttr → List Mask → Call
  poll_cq : (cq : ℕ) → Call
  post_send : (qp : ℕ) → SendWr → Call
  post_recv : (qp : ℕ) → Sge → Call

-- What a call gives back: the value returned, as an `int` or as a pointer, and what it stores
-- through its pointer arguments: a number (the devices found, the status of the completion, the
-- identifier of the port, the microseconds) and bytes (the data read, a name, a gid). Of
-- `gettimeofday` the seconds are `value`.
pub record Reply : Type 0 where
  pub code : ℤ
  pub value : ℕ
  pub stored : ℕ
  pub bytes : List ℕ

pub record Event : Type 0 where
  pub call : Call
  pub reply : Reply
