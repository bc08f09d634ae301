-- ===== src/Rdma/Connect.antt =====
-- `connect_qp`: the two sides exchange their connection data over the socket, take the queue pair
-- through its states, and meet at the socket once more.
pub mod Wire
pub mod Bytes
mod Tests
pub mod Gives
pub mod Meets
pub mod States
pub mod Came
pub mod Raises
pub mod Order
pub mod Stops
use communication_speed.Prelude.{
  ℕ, zero, suc, ◌+◌, ◌*◌, ◌/◌, ◌%◌, List, [], ◌∷◌, ◌++◌, Bool, true, false, Option, none, some,
  take, drop, if◌then◌else◌,
}
use communication_speed.Prelude.Text.{codes}
use communication_speed.Prelude.Int.{ℤ, pos, is_neg, truthy}
use communication_speed.Rdma.Types.{ConData, Config, Resources, query_gid}
use communication_speed.Rdma.Machine.{
  Env, M, ok, ◌>>=◌, ◌>>◌, pure, fail_if, ext, get_res, get_config, catch,
}
use communication_speed.Rdma.Socket.{sock_sync_data}
use communication_speed.Rdma.Post.{receive}
use communication_speed.Rdma.Qp.{modify_qp_to_init, modify_qp_rtr, modify_qp_rts}

-- The bytes in memory of an unsigned integer of `n` bytes, the lowest first, and back.
unfoldable pub to_memory : ℕ → ℕ → List ℕ
to_memory zero x = []
to_memory (suc n) x = x % 256 ∷ to_memory n (x / 256)

unfoldable pub of_memory : List ℕ → ℕ
of_memory [] = 0
of_memory (b ∷ bs) = b + 256 * of_memory bs

-- sizeof(struct cm_con_data_t): 8 + 4 + 4 + 2 + 16 bytes of fields, then 6 of padding
abbrev pub con_data_size : ℕ
con_data_size = 40

-- A `cm_con_data_t` in memory, with its padding.
unfoldable pub con_bytes : ConData → List ℕ → List ℕ
con_bytes c padding =
    to_memory 8 c.addr
    ++ (to_memory 4 c.rkey ++ (to_memory 4 c.qp_num ++ (to_memory 2 c.lid ++ (c.gid ++ padding))))

unfoldable pub con_of_bytes : List ℕ → ConData
con_of_bytes bs = record {
  addr = of_memory (take 8 bs);
  rkey = of_memory (take 4 (drop 8 bs));
  qp_num = of_memory (take 4 (drop 12 bs));
  lid = of_memory (take 2 (drop 16 bs));
  gid = take 16 (drop 18 bs);
}

-- htonll and ntohll swap the bytes, as the first branch of the `#if` at the top of the file says.
abbrev pub htonll : Env → ℕ → ℕ
htonll env x = env.bswap_64 x

abbrev pub ntohll : Env → ℕ → ℕ
ntohll env x = env.bswap_64 x

-- local_con_data
unfoldable pub local_con_data : Env → Resources → List ℕ → ConData
local_con_data env r my_gid = record {
  addr = htonll env r.buf;
  rkey = env.htonl (env.rkey_of r.mr);
  qp_num = env.htonl (env.qp_num_of r.qp);
  lid = env.htons r.port_lid;
  gid = take 16 my_gid;
}

-- remote_con_data, from tmp_con_data
unfoldable pub remote_con_data : Env → ConData → ConData
remote_con_data env tmp = record {
  addr = ntohll env tmp.addr;
  rkey = env.ntohl tmp.rkey;
  qp_num = env.ntohl tmp.qp_num;
  lid = env.ntohs tmp.lid;
  gid = tmp.gid;
}

abbrev pub zeros : ℕ → List ℕ
zeros zero = []
zeros (suc n) = 0 ∷ zeros n

abbrev pub put_remote : ConData → M (Unit {0})
put_remote c w = ok tt (record w { res = record (w.res) { remote_props = c } })

module _ (env : Env) where
  -- The gid of the port, or zeros if no gid index is set.
  abbrev pub gid_at : Bool → Config → M (List ℕ)
  gid_at true c = pure (zeros 16)
  gid_at false c = do
    r ← get_res
    g ← ext env (query_gid r.ib_ctx c.ib_port c.gid_idx)
    fail_if (truthy g.code) g.code
    pure g.bytes

  unfoldable pub own_gid : M (List ℕ)
  own_gid = do c ← get_config; gid_at (is_neg c.gid_idx) c

  -- The exchange of the connection data.
  unfoldable pub exchange : ℕ → M ConData
  exchange fuel = do
    my_gid ← own_gid
    r ← get_res
    s ←
        sock_sync_data env fuel r.sock con_data_size
          (con_bytes (local_con_data env r my_gid) (env.uninit 6)) (env.uninit con_data_size)
    fail_if (is_neg s.rc) (pos 1)
    let remote = remote_con_data env (con_of_bytes s.remote)
    put_remote remote
    pure remote

  -- if( config.server_name ) post_recv(res)
  abbrev pub client_receive : Option (List ℕ) → M ℤ
  client_receive none = pure (pos 0)
  client_receive (some server) = receive env

  unfoldable pub raise_qp : ConData → M (Unit {0})
  raise_qp remote = do
    r ← get_res
    c ← get_config
    rc ← modify_qp_to_init env r.qp
    fail_if (truthy rc) rc
    rc ← client_receive c.server_name
    fail_if (truthy rc) rc
    rc ← modify_qp_rtr env r.qp remote.qp_num remote.lid remote.gid
    fail_if (truthy rc) rc
    rc ← modify_qp_rts env r.qp
    fail_if (truthy rc) rc

  unfoldable pub connect_body : ℕ → M ℤ
  connect_body fuel = do
    remote ← exchange fuel
    raise_qp remote
    r ← get_res
    s ← sock_sync_data env fuel r.sock 1 (codes "Q") (env.uninit 1)
    pure (if truthy s.rc then pos 1 else pos 0)

  unfoldable pub connect_qp : ℕ → M ℤ
  connect_qp fuel = catch (connect_body fuel)
