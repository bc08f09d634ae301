-- ===== src/Net/Server.antt =====
-- net/Network.cpp: `receiveHandler` and `serverThread`.
pub mod Echo
pub mod Ends
use communication_speed.Prelude.{ℕ, zero, suc, ◌-◌, List, [], ◌∷◌, Bool, true, false, ◌==◌}
use communication_speed.Prelude.Int.{ℤ, pos, negsuc, is_neg, truthy, minus_one}
use communication_speed.Prelude.Io.{Event, Answers, Io, ◌>>=◌, ◌>>◌, pure, ask, Ended, fault, spin}
use communication_speed.Net.{
  Message, socket_error, bind_error, listen_error, listen_ok, thread_error, thread_id, Call, socket,
  setsockopt, bind, listen, pthread_create, pthread_join, accept, new_chars, read, write, send,
  Reply, Program, put, the_text, say,
}

-- MAXCONN
abbrev pub maxconn : ℕ
maxconn = 5

-- result == -1
abbrev pub is_minus_one : ℤ → Bool
is_minus_one (negsuc zero) = true
is_minus_one _ = false

module _ (answer : Answers Call Reply) where
  -- One round of the loop.
  unfoldable pub handle : ℤ → Program (Unit {0})
  handle fd = do
    fresh ← ask answer (new_chars 128)
    r ← ask answer (read fd 128)
    text ← the_text (put r.bytes fresh.bytes)
    send answer fd text

  -- while (true)
  unfoldable pub handle_all : ℕ → ℤ → Program (Unit {0})
  handle_all zero fd = spin
  handle_all (suc fuel) fd = handle fd >> handle_all fuel fd

  unfoldable pub receive_handler : ℕ → ℤ → Program (Unit {0})
  receive_handler fuel server_sock_fd = do
    r ← ask answer (accept server_sock_fd)
    handle_all fuel r.code

  -- The calls of the thread stand between its creation and the end of the join. A join of a thread
  -- that was not created is a fault, as its variable was never set.
  unfoldable pub receive : ℕ → ℤ → Program ℤ
  receive fuel fd = ask answer pthread_create >>= λ r. elim (truthy r.code) [
    | true ↦ say answer thread_error >> (say answer thread_id >> fault)
    | false ↦
        say answer thread_id
        >> (receive_handler fuel fd >> (ask answer pthread_join >>= λ j. pure (pos 0)))
  ]

  unfoldable pub start_listening : ℕ → ℤ → Program ℤ
  start_listening fuel fd = ask answer (listen fd (maxconn - 1)) >>= λ r.
      elim (is_minus_one r.code) [
        | true ↦ say answer listen_error >> pure minus_one
        | false ↦ say answer listen_ok >> receive fuel fd
      ]

  unfoldable pub start_binding : ℕ → ℤ → Program ℤ
  start_binding fuel fd = ask answer (setsockopt fd) >>= λ s. ask answer (bind fd) >>= λ r.
      elim (is_neg r.code) [
        | true ↦ say answer bind_error >> pure minus_one
        | false ↦ start_listening fuel fd
      ]

  unfoldable pub server_thread : ℕ → Program ℤ
  server_thread fuel = ask answer socket >>= λ r. elim (is_neg r.code) [
    | true ↦ say answer socket_error >> pure minus_one
    | false ↦ start_binding fuel r.code
  ]
