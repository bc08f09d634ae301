-- ===== src/Rdma/Socket.antt =====
-- The socket operations of rdma/rc_example.c, and the wait for a completion. Loops take fuel;
-- `Sync` and `Poll` say when it is enough.
pub mod Sync
pub mod Poll
use communication_speed.Prelude.{
  ℕ, zero, suc, ◌+◌, ◌*◌, ◌/◌, List, ◌++◌, Bool, true, false, not, ◌&&◌, Option, none, some, ltb,
  ◌==◌, if◌then◌else◌, length, take, drop, u16, u64, sub_u64,
}
use communication_speed.Prelude.Int.{ℤ, pos, negsuc, is_neg, is_pos, truthy, minus_one, to_nat}
use communication_speed.Rdma.Types.{
  Reply, socket, connect, bind, listen, accept, close, write, read, gettimeofday, poll_cq,
}
use communication_speed.Rdma.Machine.{Env, M, ◌>>=◌, ◌>>◌, pure, assert, ext, get_res, spin}

-- rc == n
abbrev pub equals : ℤ → ℕ → Bool
equals (pos k) n = k == n
equals (negsuc k) n = false

-- rc < n
abbrev pub less : ℤ → ℕ → Bool
less (pos k) n = ltb k n
less (negsuc k) n = true

-- What a read stores at the start of the buffer that is passed to it.
abbrev pub overwrite : List ℕ → List ℕ → List ℕ
overwrite chunk buf = chunk ++ drop (length chunk) buf

-- What `sock_sync_data` returns, and the bytes of `remote_data` after it.
pub record Synced : Type 0 where
  pub rc : ℤ
  pub remote : List ℕ

module _ (env : Env) where
  -- if( (tmp = connect(...)) < 0 ) { close(sockfd); sockfd = -1; }
  unfoldable pub connected : ℤ → ℤ → M ℤ
  connected sockfd tmp =
      if is_neg tmp then (do ext env (close sockfd); pure minus_one) else pure sockfd

  -- `listenfd` is 0 in client mode, and is closed in both modes; `htons` takes 16 bits of the port, whose
  -- order of bytes is left out.
  unfoldable pub sock_connect : Option (List ℕ) → ℕ → M ℤ
  sock_connect (some servername) port = do
    s ← ext env socket
    tmp ← ext env (connect s.code servername (u16 port))
    sockfd ← connected s.code tmp.code
    ext env (close (pos 0))
    pure sockfd
  sock_connect none port = do
    l ← ext env socket
    assert (is_pos l.code)
    ext env (bind l.code (u16 port))
    ext env (listen l.code 1)
    a ← ext env (accept l.code)
    ext env (close l.code)
    pure a.code

  -- while(!rc && total_read_bytes < xfer_size)
  unfoldable pub sync_loop : ℕ → ℤ → ℕ → ℤ → ℕ → List ℕ → M Synced
  sync_loop zero sock size rc total remote = spin
  sync_loop (suc fuel) sock size rc total remote = elim (not (truthy rc) && ltb total size) [
    | true ↦ ext env (read sock size) >>= λ r. elim (is_pos r.code) [
      | true ↦
          sync_loop fuel sock size rc (total + to_nat r.code)
            (overwrite (take (to_nat r.code) r.bytes) remote)
      | false ↦ sync_loop fuel sock size r.code total remote
    ]
    | false ↦ pure (record { rc = rc; remote = remote })
  ]

  -- `remote` is what `remote_data` holds at the call.
  unfoldable pub sock_sync_data : ℕ → ℤ → ℕ → List ℕ → List ℕ → M Synced
  sock_sync_data fuel sock xfer_size local_data remote = do
    w ← ext env (write sock local_data)
    assert (equals w.code xfer_size)
    sync_loop fuel sock xfer_size (if less w.code xfer_size then w.code else pos 0) 0 remote

  -- (tv_sec * 1000) + (tv_usec / 1000), as an unsigned long
  abbrev pub msec : Reply → ℕ
  msec t = u64 (t.value * 1000 + t.stored / 1000)

  abbrev pub max_poll_cq_timeout : ℕ
  max_poll_cq_timeout = 2000

  -- do { poll } while (nothing was polled and the time is not over)
  unfoldable pub poll_loop : ℕ → ℕ → ℕ → M Reply
  poll_loop zero cq start = spin
  poll_loop (suc fuel) cq start = do
    p ← ext env (poll_cq cq)
    t ← ext env gettimeofday
    elim (not (truthy p.code) && ltb (sub_u64 (msec t) start) max_poll_cq_timeout) [
      | true ↦ poll_loop fuel cq start
      | false ↦ pure p
    ]

  -- 0 for a completion with success, 1 for an error, a timeout, or another status
  abbrev pub polled : Reply → ℤ
  polled p =
      if is_neg p.code
      then pos 1
      else if truthy p.code
      then (if p.stored == env.wc_success then pos 0 else pos 1)
      else pos 1

  unfoldable pub poll_completion : ℕ → M ℤ
  poll_completion fuel = do
    r ← get_res
    t ← ext env gettimeofday
    p ← poll_loop fuel r.cq (msec t)
    pure (polled p)
