-- ===== src/Rdma/Stays.antt =====
-- What a piece of the RDMA code keeps true of the world, whichever way it ends, and the exchange of
-- data over the socket.
use communication_speed.Prelude.{
  ℕ, zero, suc, ◌+◌, refl, List, Bool, true, false, not, ◌&&◌, ltb, take, if◌then◌else◌,
}
use communication_speed.Prelude.Int.{ℤ, pos, negsuc, truthy, is_pos, to_nat}
use communication_speed.Rdma.Types.{read, write}
use communication_speed.Rdma.Machine.{
  Env, World, Run, ok, exit, abort, spin, M, ◌>>=◌, ◌>>◌, pure, fail_if, assert, ext, catch,
}
use communication_speed.Rdma.Socket.{Synced, sync_loop, sock_sync_data, overwrite, equals, less}
use communication_speed.Rdma.Create.Owns.{Ends, Ends-bind, Ends-choose}

-- The code keeps what holds of the world, whichever way it ends.
abbrev pub Stays : {A : Type 0} → (World → Type 0) → M A → Type 0
Stays I m = (w : World) → I w → Ends (λ _. I) (I) (m w)

pub Stays-bind :
    {A B : Type 0} (I : World → Type 0) (m : M A) (f : A → M B)
    → Stays I m
    → ((a : A) → Stays I (f a))
    → Stays I (m >>= f)
Stays-bind I m f h k w g = Ends-bind (λ _. I) (λ _. I) (I) (m w) f (h w g) (λ a w' g'. k a w' g')

pub Stays-then :
    {A B : Type 0} (I : World → Type 0) (m : M A) (n : M B)
    → Stays I m
    → Stays I n
    → Stays I (m >> n)
Stays-then I m n h k w g =
    Ends-bind (λ _. I) (λ _. I) (I) (m w) (λ _. n) (h w g) (λ a w' g'. k w' g')

pub Stays-pure : {A : Type 0} (I : World → Type 0) (a : A) → Stays I (pure a)
Stays-pure I a w g = g

-- A jump is made with a code that is not 0.
pub Stays-fail_own : (I : World → Type 0) (rc : ℤ) → Stays I (fail_if (truthy rc) rc)
Stays-fail_own I (pos zero) w g = g
Stays-fail_own I (pos (suc n)) w g = (refl, g)
Stays-fail_own I (negsuc n) w g = (refl, g)

pub Stays-fail_one : (I : World → Type 0) (b : Bool) → Stays I (fail_if b (pos 1))
Stays-fail_one I true w g = (refl, g)
Stays-fail_one I false w g = g

pub Stays-assert : (I : World → Type 0) (b : Bool) → Stays I (assert b)
Stays-assert I true w g = g
Stays-assert I false w g = tt

pub Stays-choose :
    {A : Type 0} (I : World → Type 0) (b : Bool) (m n : M A)
    → Stays I m
    → Stays I n
    → Stays I (elim b as (λ _. M A) [ true ↦ m | false ↦ n ])
Stays-choose I b m n h k w g = Ends-choose (λ _. I) (I) b m n w (h w g) (k w g)

pub Stays-catch : (I : World → Type 0) (m : M ℤ) → Stays I m → Stays I (catch m)
Stays-catch I m h w g = go (m w) (h w g)
  where
    go :
        (r : Run ℤ)
        → Ends (λ _. I) (I) r
        → Ends
            (λ _. I)
            (I)
            (elim r [
              | ok rc w' ↦ ok rc w'
              | exit rc w' ↦ ok rc w'
              | abort w' ↦ abort w'
              | spin w' ↦ spin w'
            ])
    go (ok rc w') k = k
    go (exit rc w') k = k.1
    go (abort w') k = tt
    go (spin w') k = tt

module _ (env : Env) (I : World → Type 0)
    (on_read : (sock : ℤ) (size : ℕ) → Stays I (ext env (read sock size)))
    (on_write : (sock : ℤ) (bytes : List ℕ) → Stays I (ext env (write sock bytes))) where
  sync_loop-Stays :
      (fuel : ℕ) (sock : ℤ) (size : ℕ) (rc : ℤ) (total : ℕ) (remote : List ℕ)
      → Stays I (sync_loop env fuel sock size rc total remote)
  unfolding sync_loop
  sync_loop-Stays zero sock size rc total remote = λ w g. tt
  sync_loop-Stays (suc fuel) sock size rc total remote =
      Stays-choose I (not (truthy rc) && ltb total size)
        (ext env (read sock size) >>= λ r. elim (is_pos r.code) [
          | true ↦
              sync_loop env fuel sock size rc (total + to_nat r.code)
                (overwrite (take (to_nat r.code) r.bytes) remote)
          | false ↦ sync_loop env fuel sock size r.code total remote
        ])
        (pure (record { rc = rc; remote = remote }))
        (Stays-bind I (ext env (read sock size)) _ (on_read sock size) (λ r.
          Stays-choose I (is_pos r.code)
            (sync_loop env fuel sock size rc (total + to_nat r.code)
              (overwrite (take (to_nat r.code) r.bytes) remote))
            (sync_loop env fuel sock size r.code total remote)
            (sync_loop-Stays fuel sock size rc (total + to_nat r.code)
              (overwrite (take (to_nat r.code) r.bytes) remote))
            (sync_loop-Stays fuel sock size r.code total remote)))
        (Stays-pure {A = Synced} I (record { rc = rc; remote = remote }))

  pub sock_sync_data-Stays :
      (fuel : ℕ) (sock : ℤ) (size : ℕ) (bytes remote : List ℕ)
      → Stays I (sock_sync_data env fuel sock size bytes remote)
  unfolding sock_sync_data
  sock_sync_data-Stays fuel sock size bytes remote =
      Stays-bind I (ext env (write sock bytes)) _ (on_write sock bytes) λ w.
        Stays-then I (assert (equals w.code size)) _ (Stays-assert I (equals w.code size))
          (sync_loop-Stays fuel sock size (if less w.code size then w.code else pos 0) 0 remote)
