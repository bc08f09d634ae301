-- ===== src/Net/Server/Ends.antt =====
-- How `serverThread` ends.
use communication_speed.Prelude.{
  ℕ, zero, suc, ◌+◌, ◌≤◌, ◌≡◌, refl, ap, arith, List, [], ◌∷◌, Bool, true, false, Option, none,
  some,
}
use communication_speed.Prelude.Int.{ℤ, is_neg, truthy, minus_one}
use communication_speed.Prelude.Io.{Event, Answers, Wanted, Post, Post-bind, Post-choose, ask}
use communication_speed.Net.{
  Call, socket, setsockopt, bind, listen, pthread_create, new_chars, write, Reply, Trace, put,
  text_of, or_fault, unless_broken, send,
}
use communication_speed.Net.Server.{
  handle, handle_all, receive_handler, receive, start_listening, start_binding, server_thread,
  is_minus_one,
}
use communication_speed.Net.Server.Echo.{Story, nothing, story, after_read, message_at}

-- Nobody joined the thread and no socket was closed.
abbrev pub Open : Story → Type 0
Open s = (s.joined ≡ 0) × (s.closed ≡ 0)

-- The ends that are not a return: a fault, a write to a broken connection after at most `fuel` rounds
-- of the handler, or `fuel` rounds of it, on one connection.
abbrev pub Others : ℕ → Wanted (Event Call Reply)
Others fuel = record {
  at_exit = λ t. ⊥;
  at_assert = λ t. ⊥;
  at_fault = λ t. Open (story t);
  at_kill = λ t. Open (story t) × ((story t).accepted ≡ 1) × ((story t).blocks ≤ fuel);
  at_spin = λ t. Open (story t) × ((story t).accepted ≡ 1) × ((story t).blocks ≡ fuel);
}

or_fault-Post :
    (P : List ℕ → Trace → Type 0) (W : Wanted (Event Call Reply)) (o : Option (List ℕ)) (t : Trace)
    → W.at_fault t
    → ((text : List ℕ) → P text t)
    → Post P W (or_fault o t)
or_fault-Post P W none t h k = h
or_fault-Post P W (some text) t h k = k text

module _ (answer : Answers Call Reply) (total : ℕ) where
  abbrev Going : ℕ → Trace → Type 0
  Going fuel t = Open (story t) × ((story t).accepted ≡ 1) × (fuel + (story t).blocks ≡ total)

  handle-Post :
      (fuel : ℕ) (fd : ℤ) (t : Trace)
      → Going (suc fuel) t
      → Post (λ u t'. Going fuel t') (Others total) (handle answer fd t)
  unfolding handle ask story
  handle-Post fuel fd t h =
      let P : Trace → Type 0 = λ t'. Going fuel t' in
      let o : Option (List ℕ) =
        text_of (put (message_at answer fd t) (answer t (new_chars 128)).bytes) in
      let t2 : Trace = after_read answer fd t in
      Post-bind (λ text t'. P t') (λ u t'. P t') (Others total) (or_fault o t2) (send answer fd)
        (or_fault-Post (λ text t'. P t') (Others total) o t2 h.0
          (λ text. (h.0, h.1, omega (arith, h.2))))
        λ text t' g.
          by_answer (answer t' (write fd text)).broken
            (record { call = write fd text; reply = answer t' (write fd text) } ∷ t') g
    where
      by_answer :
          (b : Bool) (t' : Trace)
          → Going fuel t'
          → Post (λ u t''. Going fuel t'') (Others total) (unless_broken b t')
      by_answer true t' g = (g.0, g.1, omega (arith, g.2))
      by_answer false t' g = g

  handle_all-Post :
      (fuel : ℕ) (fd : ℤ) (t : Trace)
      → Going fuel t
      → Post (λ u t'. ⊥) (Others total) (handle_all answer fuel fd t)
  unfolding handle_all
  handle_all-Post zero fd t h = (h.0, h.1, omega (arith, h.2))
  handle_all-Post (suc fuel) fd t h =
      Post-bind _ _ (Others total) (handle answer fd t) _ (handle-Post fuel fd t h)
        λ u t' g. handle_all-Post fuel fd t' g

  -- A return with -1, after which nothing was accepted, joined or closed.
  abbrev pub Refused : ℤ → Trace → Type 0
  Refused c t = (c ≡ minus_one) × (story t ≡ nothing)

  receive-Post :
      (fd : ℤ) (t : Trace)
      → story t ≡ nothing
      → Post Refused (Others total) (receive answer total fd t)
  unfolding receive receive_handler ask story
  receive-Post fd t e =
      let still_open : Open (story t) = (ap (λ s. s.joined) e, ap (λ s. s.closed) e) in
      Post-choose _ (Others total) (truthy (answer t pthread_create).code) _ _ _ (λ b. still_open)
        λ b.
          Post-bind (λ u t'. ⊥) _ (Others total) (handle_all answer total _ _) _
            (handle_all-Post total _ _
              (still_open, ap (λ s. suc s.accepted) e, omega (arith, ap (λ s. s.blocks) e)))
            λ u t' h. absurd h

  start_listening-Post :
      (fd : ℤ) (t : Trace)
      → story t ≡ nothing
      → Post Refused (Others total) (start_listening answer total fd t)
  unfolding start_listening ask story
  start_listening-Post fd t e =
      Post-choose Refused (Others total) (is_minus_one (answer t (listen fd 4)).code) _ _ _
        (λ b. (refl, e)) λ b. receive-Post fd _ e

  start_binding-Post :
      (fd : ℤ) (t : Trace)
      → story t ≡ nothing
      → Post Refused (Others total) (start_binding answer total fd t)
  unfolding start_binding ask story
  start_binding-Post fd t e =
      let t1 : Trace = record { call = setsockopt fd; reply = answer t (setsockopt fd) } ∷ t in
      let t2 : Trace = record { call = bind fd; reply = answer t1 (bind fd) } ∷ t1 in
      Post-choose Refused (Others total) (is_neg (answer t1 (bind fd)).code) _ _ t2 (λ b. (refl, e))
        λ b. start_listening-Post fd _ e

-- `serverThread` never returns 0. Where it returns, the value is -1, and nothing was accepted, read,
-- written, joined or closed. Otherwise it ends in a fault, or its handler has accepted one
-- connection and gone through as many rounds as there is fuel, taking one block in each, or through
-- no more rounds and a write to a broken connection has ended the process; no thread was joined and
-- no socket closed then either.
pub server_thread_ends :
    (answer : Answers Call Reply) (fuel : ℕ)
    → Post
        (λ c t. (c ≡ minus_one) × (story t ≡ nothing))
        (Others fuel)
        (server_thread answer fuel [])
unfolding server_thread ask story
server_thread_ends answer fuel =
    Post-choose _ (Others fuel) (is_neg (answer [] socket).code) _ _ _ (λ b. (refl, refl))
      λ b. start_binding-Post answer fuel _ _ refl
