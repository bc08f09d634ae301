-- ===== src/Rdma/Connect/Came.antt =====
-- What the peer sent, as `connect_qp` found it in the buffer of the exchange.
use communication_speed.Prelude.{ℕ, ◌≡◌, refl, List, take, drop}
use communication_speed.Rdma.Types.{ConData}
use communication_speed.Rdma.Machine.{Env, World, Run, M, ok, exit, abort, spin, bind_run}
use communication_speed.Rdma.Create.Owns.{Ends}
use communication_speed.Rdma.Socket.{Synced, sock_sync_data}
use communication_speed.Rdma.Connect.{con_data_size, con_bytes, of_memory, local_con_data, own_gid}

-- The exchange of a call in the world `w` has returned, and each field of `peer` is what the byte-order
-- functions make of the number that its bytes in the buffer are, the lowest byte first.
pub record Came (env : Env) (fuel : ℕ) (w : World) (peer : ConData) : Type 0 where
  pub gid : List ℕ
  pub asking : World
  pub synced : Synced
  pub after : World
  pub asked : own_gid env w ≡ ok gid asking
  pub exchanged :
      sock_sync_data env fuel asking.res.sock con_data_size
        (con_bytes (local_con_data env asking.res gid) (env.uninit 6))
        (env.uninit con_data_size)
        asking
      ≡ ok synced after
  pub addr_came : peer.addr ≡ env.bswap_64 (of_memory (take 8 synced.remote))
  pub rkey_came : peer.rkey ≡ env.ntohl (of_memory (take 4 (drop 8 synced.remote)))
  pub qp_num_came : peer.qp_num ≡ env.ntohl (of_memory (take 4 (drop 12 synced.remote)))
  pub lid_came : peer.lid ≡ env.ntohs (of_memory (take 2 (drop 16 synced.remote)))
  pub gid_came : peer.gid ≡ take 16 (drop 18 synced.remote)

-- The second part of a sequence knows of what the first part returned.
pub Ends-after :
    {A B : Type 0} (P : A → World → Type 0) (Q : B → World → Type 0) (E : World → Type 0)
    (r : Run A) (f : A → M B)
    → Ends P E r
    → ((a : A) (w : World) → r ≡ ok a w → P a w → Ends Q E (f a w))
    → Ends Q E (bind_run r f)
Ends-after P Q E (ok a w) f h k = k a w refl h
Ends-after P Q E (exit rc w) f h k = h
Ends-after P Q E (abort w) f h k = tt
Ends-after P Q E (spin w) f h k = tt
