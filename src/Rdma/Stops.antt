-- ===== src/Rdma/Stops.antt =====
-- Code that does not run out of fuel: the rules for its steps, and the two loops.
use mathlib.Core.Path.{subst}
use mathlib.Core.Bool.{false≢true}
use communication_speed.Prelude.{
  ℕ, zero, suc, ◌+◌, ◌*◌, ◌≤◌, ◌<◌, ◌≡◌, ◌≢◌, inl, inr, refl, sym, ap, arith, List, [], ◌∷◌, ◌++◌,
  Bool, true, false, not, ◌&&◌, ltb, Bool-cases, length, take, sub_u64, if◌then◌else◌,
}
use communication_speed.Prelude.Int.{ℤ, pos, negsuc, truthy, is_pos, to_nat}
use communication_speed.Rdma.Types.{Call, Reply, Event, read, write, gettimeofday, poll_cq}
use communication_speed.Rdma.Machine.{
  Env, World, Run, ok, exit, abort, spin, M, bind_run, ◌>>=◌, ◌>>◌, pure, fail_if, assert, ext,
  catch,
}
use communication_speed.Rdma.Socket.Poll.{
  poll, time, goes_on, after_round, round_over, round_on, time_over,
}
use communication_speed.Rdma.Socket.{
  sync_loop, sock_sync_data, overwrite, equals, less, msec, max_poll_cq_timeout, poll_loop,
  poll_completion,
}

-- A run that does not lack fuel, and whose jumps to the exit label have a code in `X`.
abbrev pub Stopped : {A : Type 0} → (ℤ → Type 0) → Run A → Type 0
Stopped X (ok a w) = Unit
Stopped X (exit rc w) = X rc
Stopped X (abort w) = Unit
Stopped X (spin w) = ⊥

abbrev pub Stops : {A : Type 0} → (ℤ → Type 0) → M A → Type 0
Stops X m = (w : World) → Stopped X (m w)

-- A jump with any code, and with the code 1.
abbrev pub Any : ℤ → Type 0
Any rc = Unit

abbrev pub One : ℤ → Type 0
One rc = rc ≡ pos 1

pub Stopped-bind :
    {A B : Type 0} (X : ℤ → Type 0) (r : Run A) (f : A → M B)
    → Stopped X r
    → ((a : A) → Stops X (f a))
    → Stopped X (bind_run r f)
Stopped-bind X (ok a w) f h k = k a w
Stopped-bind X (exit rc w) f h k = h
Stopped-bind X (abort w) f h k = tt
Stopped-bind X (spin w) f h k = h

pub Stops-bind :
    {A B : Type 0} (X : ℤ → Type 0) (m : M A) (f : A → M B)
    → Stops X m
    → ((a : A) → Stops X (f a))
    → Stops X (m >>= f)
Stops-bind X m f h k w = Stopped-bind X (m w) f (h w) k

pub Stops-then :
    {A B : Type 0} (X : ℤ → Type 0) (m : M A) (n : M B) → Stops X m → Stops X n → Stops X (m >> n)
Stops-then X m n h k w = Stopped-bind X (m w) (λ _. n) (h w) (λ _. k)

pub Stops-fail_if : (X : ℤ → Type 0) (b : Bool) (rc : ℤ) → X rc → Stops X (fail_if b rc)
Stops-fail_if X true rc x w = x
Stops-fail_if X false rc x w = tt

pub Stops-assert : (X : ℤ → Type 0) (b : Bool) → Stops X (assert b)
Stops-assert X true w = tt
Stops-assert X false w = tt

-- Either branch, knowing which it is.
pub Stops-choose :
    {A : Type 0} (X : ℤ → Type 0) (b : Bool) (m n : M A)
    → (b ≡ true → Stops X m)
    → (b ≡ false → Stops X n)
    → Stops X (elim b as (λ _. M A) [ true ↦ m | false ↦ n ])
Stops-choose X true m n h k = h refl
Stops-choose X false m n h k = k refl

pub Stops-if :
    {A : Type 0} (X : ℤ → Type 0) (b : Bool) (m n : M A)
    → Stops X m
    → Stops X n
    → Stops X (if b then m else n)
Stops-if X true m n h k = h
Stops-if X false m n h k = k

-- Behind the exit label no jump is left.
pub Stops-catch : (X Y : ℤ → Type 0) (m : M ℤ) → Stops Y m → Stops X (catch m)
Stops-catch X Y m h w = go (m w) (h w)
  where
    go :
        (r : Run ℤ)
        → Stopped Y r
        → Stopped X (elim r [
          | ok rc w' ↦ ok rc w'
          | exit rc w' ↦ ok rc w'
          | abort w' ↦ abort w'
          | spin w' ↦ spin w'
        ])
    go (ok rc w') k = tt
    go (exit rc w') k = tt
    go (abort w') k = tt
    go (spin w') k = k

pub going :
    (rc : ℤ) (total size : ℕ)
    → (not (truthy rc) && ltb total size) ≡ true
    → (truthy rc ≡ false) × (total < size)
going (pos zero) total size e = (refl, grind arith)
going (pos (suc n)) total size e = absurd (false≢true e)
going (negsuc n) total size e = absurd (false≢true e)

pub is_pos-to_nat : (z : ℤ) → is_pos z ≡ true → 0 < to_nat z
is_pos-to_nat (pos zero) e = absurd (false≢true e)
is_pos-to_nat (pos (suc n)) e = omega arith
is_pos-to_nat (negsuc n) e = absurd (false≢true e)

is_zero : (z : ℤ) → is_pos z ≡ false → truthy z ≡ false → z ≡ pos 0
is_zero (pos zero) e f = refl
is_zero (pos (suc n)) e f = absurd (false≢true (sym e))
is_zero (negsuc n) e f = absurd (false≢true (sym f))

module _ (env : Env) (X : ℤ → Type 0) where
  pub Stops-ext : (c : Call) → Stops X (ext env c)
  unfolding ext
  Stops-ext c w = tt

  -- What follows a call goes on with an answer to that call.
  pub Stops-answer :
      {A : Type 0} (c : Call) (f : Reply → M A)
      → ((t : List Event) → Stops X (f (env.answer t c)))
      → Stops X (ext env c >>= f)
  unfolding ext
  Stops-answer c f k w =
      k w.trace (record w { trace = record { call = c; reply = env.answer w.trace c } ∷ w.trace })

  -- A call that returns its code.
  pub Stops-code : (c : Call) → Stops X (ext env c >>= λ r. pure r.code)
  Stops-code c = Stops-bind X (ext env c) _ (Stops-ext c) (λ r w. tt)

  module _
      (open_still : (t : List Event) (sock : ℤ) (size : ℕ)
        → (env.answer t (read sock size)).code ≢ pos 0) where
    -- After a failed read the loop ends; each other read brings at least one byte.
    sync_loop-Stops :
        (fuel : ℕ) (sock : ℤ) (size : ℕ) (rc : ℤ) (total : ℕ) (remote : List ℕ)
        → 0 < fuel
        → (truthy rc ≡ false → size < total + fuel)
        → Stops X (sync_loop env fuel sock size rc total remote)
    unfolding sync_loop
    sync_loop-Stops zero sock size rc total remote h e = absurd (omega arith)
    sync_loop-Stops (suc fuel) sock size rc total remote h e =
        Stops-choose X (not (truthy rc) && ltb total size) _ _
          (λ b. Stops-answer (read sock size) _ λ t.
            let r = env.answer t (read sock size) in
            let (calm, before) = going rc total size b in
            let fuel_left : size < total + suc fuel = e calm in
            Stops-choose X (is_pos r.code) _ _
              (λ p.
                sync_loop-Stops fuel sock size rc (total + to_nat r.code)
                  (overwrite (take (to_nat r.code) r.bytes) remote) (omega arith)
                  (λ _. let some_bytes = is_pos-to_nat r.code p in omega arith))
              (λ p.
                sync_loop-Stops fuel sock size r.code total remote (omega arith)
                  (λ f. absurd (open_still t sock size (is_zero r.code p f)))))
          (λ b w. tt)

    pub sock_sync_data-Stops :
        (fuel : ℕ) (sock : ℤ) (size : ℕ) (bytes remote : List ℕ)
        → size < fuel
        → Stops X (sock_sync_data env fuel sock size bytes remote)
    unfolding sock_sync_data
    sock_sync_data-Stops fuel sock size bytes remote h =
        Stops-bind X (ext env (write sock bytes)) _ (Stops-ext (write sock bytes)) λ w.
          Stops-then X (assert (equals w.code size)) _ (Stops-assert X (equals w.code size)) (
            sync_loop-Stops fuel sock size (if less w.code size then w.code else pos 0) 0 remote
              (omega arith) (λ _. omega arith))

  -- The clock: two seconds have gone by when it is asked once more after `rounds` rounds of polls.
  module _ (rounds : ℕ)
      (late : (t recent : List Event)
        → length recent ≡ 2 * rounds + 2
        → max_poll_cq_timeout env
          ≤ sub_u64
              (msec env (env.answer (recent ++ t) gettimeofday))
              (msec env (env.answer t gettimeofday))) where
    poll_loop-Stops :
        (left fuel cq : ℕ) (t recent : List Event) (w : World)
        → w.trace ≡ recent ++ t
        → length recent + 2 * left ≡ 2 * rounds + 1
        → left < fuel
        → Stopped X (poll_loop env fuel cq (msec env (env.answer t gettimeofday)) w)
    poll_loop-Stops left zero cq t recent w e n h = absurd (omega arith)
    poll_loop-Stops zero (suc fuel) cq t recent w e n h =
        let start = msec env (env.answer t gettimeofday) in
        let polled : Event = record { call = poll_cq cq; reply = poll env cq start w } in
        let over =
          subst
            (λ l.
              max_poll_cq_timeout env
              ≤ sub_u64 (msec env (env.answer (polled ∷ l) gettimeofday)) start)
            (sym e) (late t (polled ∷ recent) (omega arith)) in
        subst (Stopped X) (sym (round_over env cq start fuel w (time_over env cq start w over))) tt
    poll_loop-Stops (suc left) (suc fuel) cq t recent w e n h =
        let start = msec env (env.answer t gettimeofday) in
        let polled : Event = record { call = poll_cq cq; reply = poll env cq start w } in
        let asked : Event = record { call = gettimeofday; reply = time env cq start w } in
        elim (Bool-cases (goes_on env cq start w)) [
          | inl b ↦ subst (Stopped X) (sym (round_on env cq start fuel w b)) (
              poll_loop-Stops left fuel cq t (asked ∷ polled ∷ recent) (after_round env cq start w)
                (ap (λ l. asked ∷ polled ∷ l) e) (omega arith) (omega arith))
          | inr b ↦ subst (Stopped X) (sym (round_over env cq start fuel w b)) tt
        ]

    pub poll_completion-Stops : (fuel : ℕ) → rounds < fuel → Stops X (poll_completion env fuel)
    unfolding poll_completion ext
    poll_completion-Stops fuel h w =
        let first : Event = record {
          call = gettimeofday;
          reply = env.answer w.trace gettimeofday;
        } in
        Stopped-bind X
          (poll_loop env fuel w.res.cq (msec env first.reply)
            (record w { trace = first ∷ w.trace }))
          _
          (poll_loop-Stops rounds fuel w.res.cq w.trace (first ∷ [])
            (record w { trace = first ∷ w.trace }) refl (omega arith) h)
          (λ p w'. tt)
