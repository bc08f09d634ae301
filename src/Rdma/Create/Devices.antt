-- ===== src/Rdma/Create/Devices.antt =====
-- The first two stages of `resources_create`: the socket, and the search for the device, during
-- which the device list is held.
use mathlib.Core.Path.{ap₂, subst}
use communication_speed.Prelude.{
  u16, sym, ℕ, zero, suc, ◌+◌, ◌≡◌, refl, ◌∙◌, List, Bool, true, false, ◌||◌, ◌==◌, Option, none,
  some, arith,
}
use communication_speed.Prelude.Int.{ℤ, pos, negsuc, minus_one, is_neg, is_pos}
use communication_speed.Rdma.Types.{
  Call, socket, connect, bind, listen, accept, close, get_device_name, get_device_list,
}
use communication_speed.Rdma.Machine.{
  last, pure, assert, ◌>>=◌, ◌>>◌, Env, World, bind_run, fail_if, ext,
}
use communication_speed.Rdma.Socket.{connected, sock_connect}
use communication_speed.Rdma.Create.{
  connect_socket, put_sock, list_devices, default_device, search_device, open_found, drop_list,
  found, is_named, open_ib_device,
}
use communication_speed.Rdma.Create.Counts.{
  Handle, k_ctx, k_list, descriptor, acquired, returned, tally, opened, closed, held, held_pointers,
  stray,
}
use communication_speed.Rdma.Create.Owns.{
  Ends, Ends-bind, Ends-choose, Ends-fail_if, Ends-check, strays, Owns, Unset, tally-none,
  tally_null, tally_no_sock, Stage,
}

-- As `Stage`, with a device list that may be held.
record Listed (n : ℕ) (d : Handle → ℕ) (w : World) : Type 0 where
  owns : Owns d w
  unset : Unset n w

module _ (env : Env) (d : Handle → ℕ) where
  -- The world after the list of devices is assigned.
  abbrev listing : World → World
  listing w = record (last (ext env get_device_list w)) {
    dev_list = (env.answer w.trace get_device_list).value;
  }

  listing-Listed : (w : World) → Stage 6 d w → Listed 6 d (listing w)
  unfolding ext opened closed held acquired returned
  listing-Listed w s = record {
    owns = λ h. omega (arith, s.owns h, tally-none h, tally_null h k_list s.no_list);
    unset = s.unset;
  }

  list_devices-Ends :
      (w : World) → Stage 6 d w → Ends (λ _. Listed 6 d) (Owns d) (list_devices env w)
  unfolding list_devices ext
  list_devices-Ends w s =
      let reply = env.answer w.trace get_device_list in
      let bad : Bool = reply.value == 0 || reply.stored == 0 in
      Ends-bind {A = Unit {0}} {B = ℕ} (λ _. Listed 6 d) (λ _. Listed 6 d) (Owns d)
        (fail_if bad (pos 1) (listing w)) (λ _. pure reply.stored)
        (Ends-fail_if (Listed 6 d) (Owns d) bad (pos 1) (listing w) refl (λ l. l.owns)
          (listing-Listed w s))
        (λ _ w' s'. s')

  default_device-Ends :
      (list i : ℕ) (name : Option (List ℕ)) (w : World)
      → Listed 6 d w
      → Ends (λ _. Listed 6 d) (Owns d) (default_device env list i name w)
  unfolding default_device ext opened closed held acquired returned
  default_device-Ends list i (some name) w s = s
  default_device-Ends list i none w s = record {
    owns = λ h. omega (arith, s.owns h, tally-none h);
    unset = s.unset;
  }

  -- The world after the device's name was asked for.
  abbrev asked : ℕ → ℕ → World → World
  asked list i w = last (ext env (get_device_name list i) w)

  named_at : (list i : ℕ) (w : World) → Listed 6 d w → Listed 6 d (asked list i w)
  unfolding ext opened closed held acquired returned
  named_at list i w s = record {
    owns = λ h. omega (arith, s.owns h, tally-none h);
    unset = s.unset;
  }

  search_device-Ends :
      (list left i : ℕ) (w : World)
      → Listed 6 d w
      → Ends (λ _. Listed 6 d) (Owns d) (search_device env list left i w)
  unfolding search_device ext
  search_device-Ends list zero i w s = s
  search_device-Ends list (suc left) i w s =
      Ends-bind (λ _. Listed 6 d) (λ _. Listed 6 d) (Owns d) _ _
        (default_device-Ends list i w.config.dev_name w s)
        (λ _ w' s'.
          let named = named_at list i w' s' in
          Ends-choose {A = Option ℕ} (λ _. Listed 6 d) (Owns d)
            (is_named env (env.answer w'.trace (get_device_name list i)).bytes w'.config.dev_name)
            (pure (some i)) (search_device env list left (suc i)) (asked list i w') named
            (search_device-Ends list left (suc i) (asked list i w') named))

  open_found-Ends :
      (i : ℕ) (w : World) → Listed 6 d w → Ends (λ _. Listed 5 d) (Owns d) (open_found env i w)
  unfolding open_found ext opened closed held acquired returned
  open_found-Ends i w s =
      Ends-fail_if (Listed 5 d) (Owns d) _ (pos 1) _ refl (λ l. l.owns)
        (record {
          owns = λ h. omega (arith, s.owns h, tally-none h, tally_null h k_ctx s.unset.0);
          unset = s.unset.1;
        })

  drop_list-Ends : (w : World) → Listed 5 d w → Ends (λ _. Stage 5 d) (Owns d) (drop_list env w)
  unfolding drop_list ext opened closed held acquired returned
  drop_list-Ends w s = record {
    owns = λ h. omega (arith, s.owns h, tally-none h);
    unset = s.unset;
    no_list = refl;
  }

  found-Ends :
      (i : Option ℕ) (w : World) → Listed 6 d w → Ends (λ _. Listed 6 d) (Owns d) (found env i w)
  found-Ends none w s = (refl, s.owns)
  found-Ends (some i) w s = s

  pub open_ib_device-Ends :
      (w : World) → Stage 6 d w → Ends (λ _. Stage 5 d) (Owns d) (open_ib_device env w)
  unfolding open_ib_device
  open_ib_device-Ends w s =
      Ends-bind (λ _. Listed 6 d) (λ _. Stage 5 d) (Owns d) _ _ (list_devices-Ends w s)
        λ n w1 s1.
          Ends-bind (λ _. Listed 6 d) (λ _. Stage 5 d) (Owns d) _ _
            (search_device-Ends w1.dev_list n 0 w1 s1)
            λ i w2 s2.
              Ends-bind (λ _. Listed 6 d) (λ _. Stage 5 d) (Owns d) _ _ (found-Ends i w2 s2)
                λ k w3 s3.
                  Ends-bind (λ _. Listed 5 d) (λ _. Stage 5 d) (Owns d) _ _
                    (open_found-Ends k w3 s3) λ _ w4 s4. drop_list-Ends w4 s4

-- What `sock_connect` leaves: the descriptor that it returns is owned beside the fields.
record Connected (server : Option (List ℕ)) (w : World) (sock : ℤ) (w' : World) : Type 0 where
  owns :
      (h : Handle)
      → opened h w'.trace + strays server h
        ≡ closed h w'.trace + (held h w + tally h (descriptor sock))
  res : w'.res ≡ w.res
  dev_list : w'.dev_list ≡ w.dev_list

-- `connected` passes the descriptor on, or closes it and passes on -1.
record Passed (w : World) (sockfd sock : ℤ) (w' : World) : Type 0 where
  opens : (h : Handle) → opened h w'.trace ≡ opened h w.trace
  closes :
      (h : Handle)
      → closed h w'.trace + tally h (descriptor sock)
        ≡ closed h w.trace + tally h (descriptor sockfd)
  res : w'.res ≡ w.res
  dev_list : w'.dev_list ≡ w.dev_list

connected-Ends :
    (E : World → Type 0) (env : Env) (sockfd tmp : ℤ) (w : World)
    → Ends (Passed w sockfd) E (connected env sockfd tmp w)
unfolding connected ext opened closed acquired returned
connected-Ends E env sockfd (pos n) w = record {
  opens = λ h. refl;
  closes = λ h. refl;
  res = refl;
  dev_list = refl;
}
connected-Ends E env sockfd (negsuc n) w = record {
  opens = λ h. omega (arith, tally-none h);
  closes = λ h. omega (arith, tally-none h);
  res = refl;
  dev_list = refl;
}

module _ (env : Env) (w : World)
    (before : (h : Handle) → opened h w.trace ≡ closed h w.trace + held h w) where
  -- The world after a call.
  abbrev after : Call → World → World
  after c v = last (ext env c v)

  abbrev fd : ℤ
  fd = (env.answer w.trace socket).code

  sock_connect-Ends :
      (E : World → Type 0) (server : Option (List ℕ)) (port : ℕ)
      → Ends (Connected server w) E (sock_connect env server port w)
  unfolding sock_connect ext opened closed acquired returned stray
  sock_connect-Ends E (some name) port =
      let w2 : World = after (connect fd name (u16 port)) (after socket w) in
      let tmp : ℤ = (env.answer (after socket w).trace (connect fd name (u16 port))).code in
      Ends-bind {A = ℤ} {B = ℤ} (Passed w2 fd) (Connected (some name) w) E (connected env fd tmp w2)
        (λ sockfd. ext env (close (pos 0)) >> pure sockfd) (connected-Ends E env fd tmp w2)
        (λ sock w' p. record {
          owns = λ h. omega (arith, before h, p.opens h, p.closes h, tally-none h);
          res = p.res;
          dev_list = p.dev_list;
        })
  sock_connect-Ends E none port = listening (is_pos fd)
    where
      listening :
          (b : Bool)
          → Ends (Connected none w) E (
              bind_run (assert b (after socket w)) (λ _.
                ext env (bind fd (u16 port))
                >> (ext env (listen fd 1)
                    >> (ext env (accept fd) >>= λ a. ext env (close fd) >> pure a.code))))
      listening true = record {
        owns = λ h. omega (arith, before h, tally-none h);
        res = refl;
        dev_list = refl;
      }
      listening false = tt

  pub connect_socket-Ends :
      Unset 6 w
      → w.res.sock ≡ minus_one
      → w.dev_list ≡ 0
      → Ends
          (λ _. Stage 6 (strays w.config.server_name))
          (Owns (strays w.config.server_name))
          (connect_socket env w)
  unfolding connect_socket held
  connect_socket-Ends u n l =
      let server : Option (List ℕ) = w.config.server_name in
      Ends-bind {A = ℤ} {B = Unit {0}} (Connected server w) (λ _. Stage 6 (strays server))
        (Owns (strays server)) (sock_connect env server w.config.tcp_port w)
        (λ s. put_sock s >> fail_if (is_neg s) minus_one)
        (sock_connect-Ends (Owns (strays server)) server w.config.tcp_port)
        (λ s w' c.
          Ends-check 6 (strays server) (is_neg s) minus_one
            (record w' { res = record (w'.res) { sock = s } }) refl
            (record {
              owns = λ h. omega (
                arith,
                c.owns h,
                tally_no_sock h n,
                ap₂ (λ r l. held_pointers h r l) c.res c.dev_list,
              );
              unset = subst (λ r. Unset 6 (record w { res = r })) (sym c.res) u;
              no_list = c.dev_list ∙ l;
            }))
