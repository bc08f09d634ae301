-- ===== src/Rdma/Machine.antt =====
-- The state that the functions of rdma/rc_example.c run on, and the environment that answers their
-- calls.
use communication_speed.Prelude.{ℕ, List, ◌∷◌, Bool, true, false}
use communication_speed.Prelude.Int.{ℤ}
use communication_speed.Rdma.Types.{Config, Resources, Call, Reply, Event}

-- The operating system and the verbs library. `answer` sees the calls made before, the last one
-- first. `lkey_of`, `rkey_of` and `qp_num_of` are the fields of the objects behind the pointers, and
-- `wc_success` is IBV_WC_SUCCESS. `uninit n` is what `n` bytes of an uninitialised local hold.
pub record Env : Type 0 where
  pub answer : List Event → Call → Reply
  pub lkey_of : ℕ → ℕ
  pub rkey_of : ℕ → ℕ
  pub qp_num_of : ℕ → ℕ
  pub bswap_64 : ℕ → ℕ
  pub htonl : ℕ → ℕ
  pub ntohl : ℕ → ℕ
  pub htons : ℕ → ℕ
  pub ntohs : ℕ → ℕ
  pub wc_success : ℕ
  pub uninit : ℕ → List ℕ

-- The calls made, the globals, `*res`, and the local `dev_list` of `resources_create`.
pub record World : Type 0 where
  pub trace : List Event
  pub config : Config
  pub res : Resources
  pub dev_list : ℕ

-- A piece of code goes on with a value; or it jumps to the exit label of its function with `rc`; or
-- an assertion fails; or a loop has more rounds than its fuel.
pub data Run (A : Type 0) : Type 0 where
  ok : A → World → Run A
  exit : ℤ → World → Run A
  abort : World → Run A
  spin : World → Run A

abbrev pub M : Type 0 → Type 0
M A = World → Run A

infixl 5 ◌>>=◌ ◌>>◌
abbrev pub bind_run : {A B : Type 0} → Run A → (A → M B) → Run B
bind_run (ok a w) f = f a w
bind_run (exit rc w) f = exit rc w
bind_run (abort w) f = abort w
bind_run (spin w) f = spin w

abbrev pub ◌>>=◌ : {A B : Type 0} → M A → (A → M B) → M B
◌>>=◌ m f w = bind_run (m w) f

abbrev pub ◌>>◌ : {A B : Type 0} → M A → M B → M B
◌>>◌ m k w = bind_run (m w) (λ _. k)

abbrev pub pure : {A : Type 0} → A → M A
pure a w = ok a w

-- { rc = code; goto exit; }
abbrev pub fail : {A : Type 0} → ℤ → M A
fail code w = exit code w

abbrev pub fail_if : Bool → ℤ → M (Unit {0})
fail_if true code w = exit code w
fail_if false code w = ok tt w

abbrev pub assert : Bool → M (Unit {0})
assert true w = ok tt w
assert false w = abort w

abbrev pub when : Bool → M (Unit {0}) → M (Unit {0})
when true m w = m w
when false m w = ok tt w

abbrev pub get_res : M Resources
get_res w = ok w.res w

abbrev pub get_config : M Config
get_config w = ok w.config w

abbrev pub set_res : Resources → M (Unit {0})
set_res r w = ok tt (record w { res = r })

abbrev pub set_config : Config → M (Unit {0})
set_config c w = ok tt (record w { config = c })

-- A call of the system or of the library.
unfoldable pub ext : Env → Call → M Reply
ext env c w =
    let r = env.answer w.trace c in
    ok r (record w { trace = record { call = c; reply = r } ∷ w.trace })

-- The world at the end, whatever the end.
abbrev pub last : {A : Type 0} → Run A → World
last (ok a w) = w
last (exit rc w) = w
last (abort w) = w
last (spin w) = w

-- The value that a function returns after its exit label, where the label does nothing more.
abbrev pub catch : M ℤ → M ℤ
catch m w = elim (m w) [
  | ok rc w' ↦ ok rc w'
  | exit rc w' ↦ ok rc w'
  | abort w' ↦ abort w'
  | spin w' ↦ spin w'
]
