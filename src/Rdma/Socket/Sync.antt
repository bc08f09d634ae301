-- ===== src/Rdma/Socket/Sync.antt =====
-- `sock_sync_data`: when its loop ends, what it delivers, and when it never ends.
use communication_speed.Prelude.{
  ℕ, zero, suc, ◌+◌, ◌≤◌, ◌<◌, ◌≡◌, ◌≢◌, ◌⊎◌, inl, inr, ◌∙◌, refl, sym, ap, arith, List, ◌∷◌, ◌++◌,
  true, false, not, ◌&&◌, ltb, ◌==◌, lt→ltb, le→ltb, Bool-cases, length, take, take-all, drop-all,
}
use mathlib.Core.List.{append-nil}
use communication_speed.Prelude.Int.{ℤ, pos, negsuc, truthy, is_neg}
use communication_speed.Rdma.Types.{Call, Reply, Event, read, write}
use communication_speed.Rdma.Machine.{Env, World, Run, ok, spin, ext}
use communication_speed.Rdma.Socket.{Synced, overwrite, sync_loop, sock_sync_data}

same : (n : ℕ) → (n == n) ≡ true
same n = ground arith

-- A chunk as long as the buffer replaces all of it.
overwrite-all :
    (n : ℕ) (chunk buf : List ℕ)
    → length chunk ≡ n
    → length buf ≡ n
    → overwrite (take n chunk) buf ≡ chunk
overwrite-all n chunk buf l lb =
    ap (λ c. overwrite c buf) (take-all n chunk l)
    ∙ ap (λ d. chunk ++ d) (drop-all (length chunk) buf (omega (arith, l, lb)))
    ∙ append-nil chunk

module _ (env : Env) (sock : ℤ) (size : ℕ) where
  -- The world after a call, and what the next read answers.
  abbrev pub after : Call → World → World
  after c w = record w { trace = record { call = c; reply = env.answer w.trace c } ∷ w.trace }

  abbrev pub next_read : World → Reply
  next_read w = env.answer w.trace (read sock size)

  loop_end :
      (fuel : ℕ) (rc : ℤ) (total : ℕ) (remote : List ℕ) (w : World)
      → (not (truthy rc) && ltb total size) ≡ false
      → sync_loop env (suc fuel) sock size rc total remote w
        ≡ ok (record { rc = rc; remote = remote }) w
  unfolding sync_loop
  loop_end fuel rc total remote w e = rw (sync_loop, e) refl

  loop_read :
      (fuel total n : ℕ) (remote : List ℕ) (w : World)
      → total < size
      → (next_read w).code ≡ pos (suc n)
      → sync_loop env (suc fuel) sock size (pos 0) total remote w
        ≡ sync_loop env fuel sock size
            (pos 0)
            (total + suc n)
            (overwrite (take (suc n) (next_read w).bytes) remote)
            (after (read sock size) w)
  unfolding sync_loop ext
  loop_read fuel total n remote w lt e = rw (sync_loop, lt→ltb total size lt, e) refl

  loop_fail :
      (fuel total n : ℕ) (remote : List ℕ) (w : World)
      → total < size
      → (next_read w).code ≡ negsuc n
      → sync_loop env (suc fuel) sock size (pos 0) total remote w
        ≡ sync_loop env fuel sock size (negsuc n) total remote (after (read sock size) w)
  unfolding sync_loop ext
  loop_fail fuel total n remote w lt e = rw (sync_loop, lt→ltb total size lt, e) refl

  loop_eof :
      (fuel total : ℕ) (remote : List ℕ) (w : World)
      → total < size
      → (next_read w).code ≡ pos 0
      → sync_loop env (suc fuel) sock size (pos 0) total remote w
        ≡ sync_loop env fuel sock size (pos 0) total remote (after (read sock size) w)
  unfolding sync_loop ext
  loop_eof fuel total remote w lt e = rw (sync_loop, lt→ltb total size lt, e) refl

  more_to_read : (rc : ℤ) (total : ℕ) → size ≤ total → (not (truthy rc) && ltb total size) ≡ false
  more_to_read (pos zero) total le = le→ltb total size le
  more_to_read (pos (suc n)) total le = refl
  more_to_read (negsuc n) total le = refl

  -- How a run of the loop is to end: with 0, or with what a read failed with.
  abbrev Ended : Run Synced → Type 0
  Ended r = (s : Synced) × (w : World) × (r ≡ ok s w) × ((s.rc ≡ pos 0) ⊎ (is_neg s.rc ≡ true))

  Ended-eq : {r r' : Run Synced} → r ≡ r' → Ended r' → Ended r
  Ended-eq e (s, w, e', end) = (s, w, e ∙ e', end)

  module _ (stays : (w : World) → (next_read w).code ≢ pos 0) where
    -- One round, if the rounds after it end.
    read_total :
        (fuel total : ℕ) (remote : List ℕ) (w : World)
        → ((total' : ℕ) (remote' : List ℕ) (w' : World)
            → size < total' + suc fuel
            → Ended (sync_loop env (suc fuel) sock size (pos 0) total' remote' w'))
        → total < size
        → size < total + suc (suc fuel)
        → (code : ℤ) → (next_read w).code ≡ code
        → Ended (sync_loop env (suc (suc fuel)) sock size (pos 0) total remote w)
    read_total fuel total remote w next more lt (pos zero) e = absurd (stays w e)
    read_total fuel total remote w next more lt (pos (suc n)) e =
        Ended-eq (loop_read (suc fuel) total n remote w more e) (
          next (total + suc n) (overwrite (take (suc n) (next_read w).bytes) remote)
            (after (read sock size) w) (omega arith))
    read_total fuel total remote w next more lt (negsuc n) e =
        Ended-eq (loop_fail (suc fuel) total n remote w more e) (
          record { rc = negsuc n; remote = remote },
          after (read sock size) w,
          loop_end fuel (negsuc n) total remote (after (read sock size) w) refl,
          inr refl,
        )

    loop_total :
        (fuel total : ℕ) (remote : List ℕ) (w : World)
        → size < total + suc fuel
        → Ended (sync_loop env (suc fuel) sock size (pos 0) total remote w)
    loop_total zero total remote w lt = (
      record { rc = pos 0; remote = remote },
      w,
      loop_end 0 (pos 0) total remote w (le→ltb total size (omega arith)),
      inl refl,
    )
    loop_total (suc fuel) total remote w lt = elim (Bool-cases (ltb total size)) [
      | inl t ↦
          read_total fuel total remote w
            (λ total' remote' w' h. loop_total fuel total' remote' w' h) (grind arith) lt
            (next_read w).code refl
      | inr t ↦ (
        record { rc = pos 0; remote = remote },
        w,
        loop_end (suc fuel) (pos 0) total remote w t,
        inl refl,
      )
    ]

  module _ (ended : (w : World) → (next_read w).code ≡ pos 0) where
    loop_spins :
        (fuel total : ℕ) (remote : List ℕ) (w : World)
        → total < size
        → (w' : World) × (sync_loop env fuel sock size (pos 0) total remote w ≡ spin w')
    unfolding sync_loop
    loop_spins zero total remote w lt = (w, refl)
    loop_spins (suc fuel) total remote w lt =
        let (w', e) = loop_spins fuel total remote (after (read sock size) w) lt in
        (w', loop_eof fuel total remote w lt (ended w) ∙ e)

  -- A write that takes everything leads into the loop.
  into_loop :
      (fuel : ℕ) (bytes remote : List ℕ) (w : World)
      → (env.answer w.trace (write sock bytes)).code ≡ pos size
      → sock_sync_data env fuel sock size bytes remote w
        ≡ sync_loop env fuel sock size (pos 0) 0 remote (after (write sock bytes) w)
  unfolding sock_sync_data ext
  into_loop fuel bytes remote w e = rw (e, same size, le→ltb size size (omega arith)) refl

-- Where the write takes all bytes and no read of this socket answers 0, one round of fuel more than
-- bytes to come is enough: `sock_sync_data` returns 0 or the code of a read that failed.
pub sock_sync_data_total :
    (env : Env) (sock : ℤ) (size : ℕ) (bytes remote : List ℕ) (w : World)
    → (env.answer w.trace (write sock bytes)).code ≡ pos size
    → ((t : List Event) → (env.answer t (read sock size)).code ≢ pos 0)
    → (s : Synced) × (w' : World) × (sock_sync_data env (suc size) sock size bytes remote w
        ≡ ok s w')
      × ((s.rc ≡ pos 0) ⊎ (is_neg s.rc ≡ true))
sock_sync_data_total env sock size bytes remote w e stays =
    Ended-eq env sock size (into_loop env sock size (suc size) bytes remote w e) (
      loop_total env sock size (λ w'. stays w'.trace) size 0 remote
        (after env sock size (write sock bytes) w) (omega arith))

-- Where the write takes all of at least one byte and every read answers 0, as on a connection that
-- the peer has closed, `sock_sync_data` has not returned after any number of rounds.
pub sock_sync_data_spins :
    (env : Env) (sock : ℤ) (size fuel : ℕ) (bytes remote : List ℕ) (w : World)
    → 0 < size
    → (env.answer w.trace (write sock bytes)).code ≡ pos size
    → ((t : List Event) → (env.answer t (read sock size)).code ≡ pos 0)
    → (w' : World) × (sock_sync_data env fuel sock size bytes remote w ≡ spin w')
sock_sync_data_spins env sock size fuel bytes remote w h e ended =
    let (w', s) =
      loop_spins env sock size (λ w'. ended w'.trace) fuel 0 remote
        (after env sock size (write sock bytes) w) h in
    (w', into_loop env sock size fuel bytes remote w e ∙ s)

-- Where the write takes all bytes and the first read answers with as many bytes as were asked for,
-- with a buffer of that size, `sock_sync_data` returns 0 and the buffer holds exactly those bytes.
pub sock_sync_data_whole :
    (env : Env) (sock : ℤ) (n fuel : ℕ) (bytes remote : List ℕ) (w w1 : World) (r : Reply)
    → (env.answer w.trace (write sock bytes)).code ≡ pos (suc n)
    → w1 ≡ after env sock (suc n) (write sock bytes) w
    → r ≡ next_read env sock (suc n) w1
    → r.code ≡ pos (suc n)
    → length r.bytes ≡ suc n
    → length remote ≡ suc n
    → sock_sync_data env (suc (suc fuel)) sock (suc n) bytes remote w
      ≡ ok (record { rc = pos 0; remote = r.bytes }) (after env sock (suc n) (read sock (suc n)) w1)
sock_sync_data_whole env sock n fuel bytes remote w w1 r e e1 er code l lr =
    into_loop env sock (suc n) (suc (suc fuel)) bytes remote w e
    ∙ ap (λ v. sync_loop env (suc (suc fuel)) sock (suc n) (pos 0) 0 remote v) (sym e1)
    ∙ loop_read env sock (suc n) (suc fuel) 0 n remote w1 (omega arith)
        (ap (λ x. x.code) (sym er) ∙ code)
    ∙ loop_end env sock (suc n) fuel (pos 0) (0 + suc n)
        (overwrite (take (suc n) (next_read env sock (suc n) w1).bytes) remote)
        (after env sock (suc n) (read sock (suc n)) w1) (le→ltb (0 + suc n) (suc n) (omega arith))
    ∙ ap
        (λ b.
          ok (record { rc = pos 0; remote = b }) (after env sock (suc n) (read sock (suc n)) w1))
        (ap (λ x. overwrite (take (suc n) x.bytes) remote) (sym er)
          ∙ overwrite-all (suc n) r.bytes remote l lr)

-- Where the write takes all bytes and they come in two reads, `sock_sync_data` returns 0 with the
-- second piece at the start of the buffer, over the first.
pub sock_sync_data_pieces :
    (env : Env) (sock : ℤ) (n m fuel : ℕ) (bytes remote : List ℕ) (w w1 w2 : World) (r1 r2 : Reply)
    → (env.answer w.trace (write sock bytes)).code ≡ pos (suc n + suc m)
    → w1 ≡ after env sock (suc n + suc m) (write sock bytes) w
    → r1 ≡ next_read env sock (suc n + suc m) w1
    → w2 ≡ after env sock (suc n + suc m) (read sock (suc n + suc m)) w1
    → r2 ≡ next_read env sock (suc n + suc m) w2
    → r1.code ≡ pos (suc n)
    → r2.code ≡ pos (suc m)
    → sock_sync_data env (suc (suc (suc fuel))) sock (suc n + suc m) bytes remote w
      ≡ ok
          (record {
            rc = pos 0;
            remote = overwrite (take (suc m) r2.bytes) (overwrite (take (suc n) r1.bytes) remote);
          })
          (after env sock (suc n + suc m) (read sock (suc n + suc m)) w2)
sock_sync_data_pieces env sock n m fuel bytes remote w w1 w2 r1 r2 e e1 er1 e2 er2 c1 c2 =
    let size : ℕ = suc n + suc m in
    let buf : List ℕ = overwrite (take (suc n) r1.bytes) remote in
    into_loop env sock size (suc (suc (suc fuel))) bytes remote w e
    ∙ ap (λ v. sync_loop env (suc (suc (suc fuel))) sock size (pos 0) 0 remote v) (sym e1)
    ∙ loop_read env sock size (suc (suc fuel)) 0 n remote w1 (omega arith)
        (ap (λ x. x.code) (sym er1) ∙ c1)
    ∙ ap
        (λ x.
          sync_loop env (suc (suc fuel)) sock size (pos 0) (0 + suc n)
            (overwrite (take (suc n) x.bytes) remote) (after env sock size (read sock size) w1))
        (sym er1)
    ∙ ap (λ v. sync_loop env (suc (suc fuel)) sock size (pos 0) (0 + suc n) buf v) (sym e2)
    ∙ loop_read env sock size (suc fuel) (0 + suc n) m buf w2 (omega arith)
        (ap (λ x. x.code) (sym er2) ∙ c2)
    ∙ loop_end env sock size fuel (pos 0) (0 + suc n + suc m)
        (overwrite (take (suc m) (next_read env sock size w2).bytes) buf)
        (after env sock size (read sock size) w2) (le→ltb (0 + suc n + suc m) size (omega arith))
    ∙ ap
        (λ x.
          ok (record { rc = pos 0; remote = overwrite (take (suc m) x.bytes) buf })
            (after env sock size (read sock size) w2))
        (sym er2)
