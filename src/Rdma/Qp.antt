-- ===== src/Rdma/Qp.antt =====
-- The three transitions of the queue pair.
use communication_speed.Prelude.{ℕ, ◌-◌, ◌%◌, ◌^◌, List, [], ◌∷◌, if◌then◌else◌}
use communication_speed.Prelude.Int.{ℤ, pos, negsuc, is_neg}
use communication_speed.Rdma.Types.{
  Config, QpAttr, AhAttr, zero_attr, zero_ah, Access, local_write, remote_read, remote_write, init,
  rtr, rts, mtu_256, Mask, m_state, m_pkey_index, m_port, m_access_flags, m_av, m_path_mtu,
  m_dest_qpn, m_rq_psn, m_max_dest_rd_atomic, m_min_rnr_timer, m_timeout, m_retry_cnt, m_rnr_retry,
  m_sq_psn, m_max_qp_rd_atomic, modify_qp,
}
use communication_speed.Rdma.Machine.{Env, M, ◌>>=◌, pure, ext, get_config}

abbrev pub all_access : List Access
all_access = local_write ∷ remote_read ∷ remote_write ∷ []

-- The conversion of an `int` to `uint8_t`.
abbrev pub to_u8 : ℤ → ℕ
to_u8 (pos n) = n % 2 ^ 8
to_u8 (negsuc n) = 2 ^ 8 - 1 - n % 2 ^ 8

abbrev pub init_attr : Config → QpAttr
init_attr c = record zero_attr {
  qp_state = init;
  port_num = to_u8 c.ib_port;
  pkey_index = 0;
  qp_access_flags = all_access;
}

-- The address of the peer, with the global route if a gid index is set.
abbrev pub rtr_ah : Config → ℕ → List ℕ → AhAttr
rtr_ah c dlid dgid =
    if is_neg c.gid_idx
    then record zero_ah { dlid = dlid; port_num = to_u8 c.ib_port }
    else record zero_ah {
      is_global = 1;
      dlid = dlid;
      port_num = 1;
      dgid = dgid;
      hop_limit = 1;
      sgid_index = to_u8 c.gid_idx;
    }

abbrev pub rtr_attr : Config → ℕ → ℕ → List ℕ → QpAttr
rtr_attr c remote_qpn dlid dgid = record zero_attr {
  qp_state = rtr;
  path_mtu = mtu_256;
  dest_qp_num = remote_qpn;
  rq_psn = 0;
  max_dest_rd_atomic = 1;
  min_rnr_timer = 0x12;
  ah_attr = rtr_ah c dlid dgid;
}

abbrev pub rts_attr : QpAttr
rts_attr = record zero_attr {
  qp_state = rts;
  timeout = 0x12;
  retry_cnt = 6;
  rnr_retry = 0;
  sq_psn = 0;
  max_rd_atomic = 1;
}

abbrev pub init_mask : List Mask
init_mask = m_state ∷ m_pkey_index ∷ m_port ∷ m_access_flags ∷ []

abbrev pub rtr_mask : List Mask
rtr_mask =
    m_state ∷ m_av ∷ m_path_mtu ∷ m_dest_qpn ∷ m_rq_psn ∷ m_max_dest_rd_atomic ∷ m_min_rnr_timer
    ∷ []

abbrev pub rts_mask : List Mask
rts_mask = m_state ∷ m_timeout ∷ m_retry_cnt ∷ m_rnr_retry ∷ m_sq_psn ∷ m_max_qp_rd_atomic ∷ []

module _ (env : Env) where
  unfoldable pub modify_qp_to_init : ℕ → M ℤ
  modify_qp_to_init qp = do
    c ← get_config
    r ← ext env (modify_qp qp (init_attr c) init_mask)
    pure r.code

  unfoldable pub modify_qp_rtr : ℕ → ℕ → ℕ → List ℕ → M ℤ
  modify_qp_rtr qp remote_qpn dlid dgid = do
    c ← get_config
    r ← ext env (modify_qp qp (rtr_attr c remote_qpn dlid dgid) rtr_mask)
    pure r.code

  unfoldable pub modify_qp_rts : ℕ → M ℤ
  modify_qp_rts qp = do r ← ext env (modify_qp qp rts_attr rts_mask); pure r.code
