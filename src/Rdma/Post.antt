-- ===== src/Rdma/Post.antt =====
-- The posting of work requests.
use communication_speed.Prelude.{ℕ}
use communication_speed.Prelude.Int.{ℤ}
use communication_speed.Rdma.Types.{Resources, Opcode, wr_send, Sge, SendWr, post_send, post_recv}
use communication_speed.Rdma.Machine.{Env, M, ◌>>=◌, pure, ext, get_res}

abbrev pub msg_size : ℕ
msg_size = 64

-- The one scatter entry of both requests: the whole buffer.
abbrev pub buf_sge : Env → Resources → Sge
buf_sge env r = record { addr = r.buf; length = msg_size; lkey = env.lkey_of r.mr }

-- The request as the code fills it in: the remote address and key only if it is not a send.
abbrev pub send_wr : Env → Resources → Opcode → SendWr
send_wr env r wr_send = record { sge = buf_sge env r; opcode = wr_send; remote_addr = 0; rkey = 0 }
send_wr env r opcode = record {
  sge = buf_sge env r;
  opcode = opcode;
  remote_addr = r.remote_props.addr;
  rkey = r.remote_props.rkey;
}

module _ (env : Env) where
  unfoldable pub send : Opcode → M ℤ
  send opcode = do r ← get_res; rc ← ext env (post_send r.qp (send_wr env r opcode)); pure rc.code

  unfoldable pub receive : M ℤ
  receive = do r ← get_res; rc ← ext env (post_recv r.qp (buf_sge env r)); pure rc.code
