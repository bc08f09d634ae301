-- ===== src/Rdma/Tests.antt =====
-- rdma/rc_example.c on concrete environments.
use communication_speed.Prelude.{
  ℕ, ◌≡◌, ◌≤◌, length, sub_u64, ◌⊎◌, refl, arith, List, [], ◌∷◌, Option, none, some, true, ◌*◌, ◌+◌,
  ◌%◌, ◌/◌,
}
use communication_speed.Prelude.Text.{codes}
use communication_speed.Prelude.Int.{ℤ, pos, minus_one, is_neg, truthy}
use communication_speed.Rdma.Types.{
  Config, default_config, Resources, Call, Reply, Event, socket, accept, create_qp, write, read,
  gettimeofday, poll_cq, QpState, reset, rts,
}
use communication_speed.Rdma.Machine.{Env, World, Run, ok, spin, ext}
use communication_speed.Rdma.Socket.{
  Synced, sync_loop, sock_sync_data, msec, max_poll_cq_timeout, poll_completion,
}
use communication_speed.Rdma.Post.{receive}
use communication_speed.Rdma.Qp.{modify_qp_to_init, modify_qp_rtr, modify_qp_rts}
use communication_speed.Rdma.Socket.Poll.{Told, poll_completion_total}
use communication_speed.Rdma.Socket.Sync.{
  after, sock_sync_data_total, sock_sync_data_spins, sock_sync_data_whole, sock_sync_data_pieces,
}
use communication_speed.Rdma.Connect.{
  connect_qp, connect_body, exchange, own_gid, raise_qp, to_memory, of_memory, zeros, con_bytes,
  con_of_bytes, local_con_data, remote_con_data,
}
use communication_speed.Rdma.Connect.States.{Reaches}
use communication_speed.Rdma.Connect.Came.{Came}
use communication_speed.Rdma.Connect.Order.{connect_qp_order}
use communication_speed.Rdma.Connect.Wire.{own_data, remote_con_data-local_con_data}
use communication_speed.Rdma.Create.{resources_init, resources_create}
use communication_speed.Rdma.Create.Counts.{opened, closed}
use communication_speed.Rdma.Create.Owns.{Ends, strays}
use communication_speed.Rdma.Options.{configure, read_options, read_arguments}
use communication_speed.Rdma.Options.{Opt, port, ib_port, gid_idx}
use communication_speed.Rdma.Options.Accepts.{
  AllTaken, AtMostOne, with_options, first_argument, configure_lem,
}
use communication_speed.Rdma.Main.{rcmain}
use communication_speed.Rdma.Main.Balance.{Balanced, rcmain_balance}
use communication_speed.Rdma.Create.Balance.{Outcome, resources_create_lem}

abbrev pub reply : ℤ → ℕ → Reply
reply code value = record { code = code; value = value; stored = 1; bytes = [] }

-- Descriptors 3 and 4; every pointer is 64, and there is one device.
abbrev pub succeed : List Event → Call → Reply
succeed t socket = reply (pos 3) 0
succeed t (accept fd) = reply (pos 4) 0
succeed t c = reply (pos 0) 64

-- The last acquisition fails.
abbrev no_qp : List Event → Call → Reply
no_qp t (create_qp pd attr) = reply (pos 0) 0
no_qp t c = succeed t c

abbrev pub env_of : (List Event → Call → Reply) → Env
env_of answer = record {
  answer = answer;
  lkey_of = λ p. 1;
  rkey_of = λ p. 2;
  qp_num_of = λ p. 3;
  bswap_64 = λ x. x;
  htonl = λ x. x;
  ntohl = λ x. x;
  htons = λ x. x;
  ntohs = λ x. x;
  wc_success = 0;
  uninit = λ n. [];
}

abbrev pub client : Config
client = record default_config { server_name = some (codes "server") }

abbrev pub at_start : Config → World
at_start c = record { trace = []; config = c; res = resources_init; dev_list = 0 }

create_no_qp :
    Ends
      (Outcome (env_of no_qp) client.server_name)
      (λ _. ⊥)
      (resources_create (env_of no_qp) (at_start client))
unfolding opened closed
create_no_qp = resources_create_lem (env_of no_qp) (at_start client) (record {
  nothing = λ h. refl;
  unset = (refl, (refl, (refl, (refl, (refl, (refl, tt))))));
  no_sock = refl;
  no_list = refl;
})

-- Connections: one delivers the 3 bytes at once, one in two pieces, one fails, one is closed.
abbrev pub bytes_reply : ℤ → List ℕ → Reply
bytes_reply code bytes = record { code = code; value = 0; stored = 0; bytes = bytes }

abbrev delivers : List Event → Call → Reply
delivers t (write fd bytes) = reply (pos 3) 0
delivers t c = bytes_reply (pos 3) (7 ∷ 8 ∷ 9 ∷ [])

abbrev in_pieces : List Event → Call → Reply
in_pieces t (write fd bytes) = reply (pos 3) 0
in_pieces (_ ∷ []) c = bytes_reply (pos 2) (7 ∷ 8 ∷ [])
in_pieces t c = bytes_reply (pos 1) (9 ∷ [])

abbrev resets : List Event → Call → Reply
resets t (write fd bytes) = reply (pos 3) 0
resets t c = reply minus_one 0

abbrev closed_down : List Event → Call → Reply
closed_down t (write fd bytes) = reply (pos 3) 0
closed_down t c = reply (pos 0) 0

abbrev message : List ℕ
message = 1 ∷ 2 ∷ 3 ∷ []

abbrev pub w0 : World
w0 = at_start client

sync_resets :
    (s : Synced) × (w' : World) × (sock_sync_data (env_of resets) 4 (pos 5) 3 message message w0
      ≡ ok s w')
    × ((s.rc ≡ pos 0) ⊎ (is_neg s.rc ≡ true))
sync_resets = sock_sync_data_total (env_of resets) (pos 5) 3 message message w0 refl (λ t e. cc)

sync_closed :
    (w' : World) × (sock_sync_data (env_of closed_down) 1000 (pos 5) 3 message message w0 ≡ spin w')
sync_closed =
    sock_sync_data_spins (env_of closed_down) (pos 5) 3 1000 message message w0 (omega arith) refl
      (λ t. refl)

abbrev sent : (List Event → Call → Reply) → World
sent answer = after (env_of answer) (pos 5) 3 (write (pos 5) message) w0

sync_at_once :
    sock_sync_data (env_of delivers) 2 (pos 5) 3 message message w0
    ≡ ok
        (record { rc = pos 0; remote = 7 ∷ 8 ∷ 9 ∷ [] })
        (after (env_of delivers) (pos 5) 3 (read (pos 5) 3) (sent delivers))
sync_at_once =
    sock_sync_data_whole (env_of delivers) (pos 5) 2 0 message message w0 (sent delivers)
      (bytes_reply (pos 3) (7 ∷ 8 ∷ 9 ∷ [])) refl refl refl refl refl refl

abbrev sent_first : World
sent_first = after (env_of in_pieces) (pos 5) 3 (read (pos 5) 3) (sent in_pieces)

sync_in_pieces :
    sock_sync_data (env_of in_pieces) 3 (pos 5) 3 message message w0
    ≡ ok
        (record { rc = pos 0; remote = 9 ∷ 8 ∷ 3 ∷ [] })
        (after (env_of in_pieces) (pos 5) 3 (read (pos 5) 3) sent_first)
sync_in_pieces =
    sock_sync_data_pieces (env_of in_pieces) (pos 5) 1 0 0 message message w0 (sent in_pieces)
      sent_first (bytes_reply (pos 2) (7 ∷ 8 ∷ [])) (bytes_reply (pos 1) (9 ∷ [])) refl refl refl
      refl refl refl refl

-- No completion comes; the clock stands at 0 seconds for two calls, and at 2 from then on.
abbrev idle : List Event → Call → Reply
idle (_ ∷ _ ∷ t) gettimeofday = reply (pos 0) 2
idle t c = reply (pos 0) 0

idle_late :
    (t : List Event)
    → 2 ≤ length t
    → max_poll_cq_timeout (env_of idle)
      ≤ sub_u64
          (msec (env_of idle) (idle t gettimeofday))
          (msec (env_of idle) (idle [] gettimeofday))
idle_late [] h = absurd (omega arith)
idle_late (_ ∷ []) h = absurd (omega arith)
idle_late (_ ∷ _ ∷ t) h = omega arith

poll_idle :
    (p : Reply) × (rc : ℤ) × (w' : World) × (t : List Event) × (now : Reply) × (poll_completion
        (env_of idle)
        3
        w0
      ≡ ok rc w')
    × (w'.trace
        ≡ record { call = gettimeofday; reply = now }
          ∷ record { call = poll_cq w0.res.cq; reply = p }
          ∷ t)
    × Told (env_of idle) p rc
poll_idle = poll_completion_total (env_of idle) 2 w0 idle_late

-- Both sides swap the bytes of 16 bits, and leave the longer words as they are.
abbrev pub swap_short : ℕ → ℕ
swap_short x = x % 256 * 256 + x / 256

abbrev pub side : Env
side = record (env_of idle) { htons = swap_short; ntohs = swap_short }

abbrev pub set_up : Resources
set_up = record resources_init { buf = 4096; mr = 64; qp = 72; port_lid = 515 }

abbrev pub gid : List ℕ
gid = 254 ∷ 128 ∷ 0 ∷ 0 ∷ 0 ∷ 0 ∷ 0 ∷ 0 ∷ 2 ∷ 0 ∷ 0 ∷ 255 ∷ 254 ∷ 0 ∷ 0 ∷ 1 ∷ []

wire_side :
    remote_con_data side
      (con_of_bytes (con_bytes (local_con_data side set_up gid) (9 ∷ 9 ∷ 9 ∷ 9 ∷ 9 ∷ 9 ∷ [])))
    ≡ own_data side set_up gid
wire_side =
    remote_con_data-local_con_data side side set_up gid (9 ∷ 9 ∷ 9 ∷ 9 ∷ 9 ∷ 9 ∷ [])
      (record {
        swap_back = λ x h. refl;
        swap_lt = λ x h. h;
        long_back = λ x h. refl;
        long_lt = λ x h. h;
        short_back = λ x h. omega arith;
        short_lt = λ x h. omega arith;
      })
      (record {
        addr = omega arith;
        rkey = omega arith;
        qp_num = omega arith;
        lid = omega arith;
        gid = refl;
      })

-- A client whose last acquisition fails, from the command line on.
rcmain-no_qp :
    Ends
      (Balanced (strays client.server_name))
      (λ _. ⊥)
      (rcmain (env_of no_qp) 10 [] (codes "server" ∷ []))
unfolding configure read_options read_arguments
rcmain-no_qp = rcmain_balance (env_of no_qp) 10 [] (codes "server" ∷ []) client refl

-- A peer that sends as many bytes as are asked for; all calls succeed. The pair is set up.
abbrev peer : List Event → Call → Reply
peer t (write fd bytes) = reply (pos (length bytes)) 0
peer t (read fd size) = record {
  code = pos size;
  value = 0;
  stored = 0;
  bytes = con_bytes (own_data side set_up gid) [];
}
peer t c = reply (pos 0) 0

abbrev peers : Env
peers = record (env_of peer) { uninit = zeros }

abbrev pub ready : World
ready = record w0 { res = set_up }

abbrev code_of : Run ℤ → Option ℤ
code_of (ok rc w) = some rc
code_of _ = none

connects : code_of (connect_qp peers 2 ready) ≡ some (pos 0)
unfolding connect_qp connect_body exchange own_gid raise_qp sock_sync_data sync_loop receive
    modify_qp_to_init modify_qp_rtr modify_qp_rts local_con_data remote_con_data con_bytes
    con_of_bytes to_memory of_memory ext
connects = refl

connect_peers :
    Ends
      (λ rc w'.
        (s : QpState) × Reaches w'.res.remote_props ready.trace w'.trace s
        × ((s ≡ reset) ⊎ Came peers 2 ready w'.res.remote_props)
        × ((truthy rc ≡ true) ⊎ (s ≡ rts)))
      (λ _. ⊥)
      (connect_qp peers 2 ready)
connect_peers = connect_qp_order peers 2 ready

-- -i 2 -p 7471 -g 4294967297 -i 1 host
abbrev options : List Opt
options = ib_port 2 ∷ port 7471 ∷ gid_idx 4294967297 ∷ ib_port 1 ∷ []

abbrev host : List (List ℕ)
host = codes "host" ∷ []

four_options :
    ((AllTaken options × AtMostOne host)
      × (configure options host default_config
          ≡ some (record (with_options options default_config) {
            server_name = first_argument host default_config.server_name;
          })))
    ⊎ ((¬ (AllTaken options × AtMostOne host)) × (configure options host default_config ≡ none))
four_options = configure_lem options host default_config

-- The index is cut to 1, and the last port counts.
options_made : (with_options options default_config).gid_idx ≡ pos 1
options_made = refl
