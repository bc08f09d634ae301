-- ===== src/Rdma/Connect/States.antt =====
-- The states of the queue pair, as the verbs library has them, and what one call does to them.
use communication_speed.Prelude.{
  ℕ, ◌≡◌, ◌⊎◌, inl, inr, refl, sym, List, ◌∷◌, Bool, true, false, Bool-cases,
}
use mathlib.Core.Path.{subst}
use communication_speed.Prelude.Int.{ℤ, truthy}
use communication_speed.Rdma.Types.{
  QpState, reset, init, rtr, rts, QpAttr, ConData, Call, Event, Reply, Mask, modify_qp,
}
use communication_speed.Rdma.Machine.{Env, World, M, ◌>>=◌, ◌>>◌, pure, fail_if, ext}
use communication_speed.Rdma.Stays.{Stays}
use communication_speed.Rdma.Create.Owns.{Ends, Ends-bind}

-- The transitions that the verbs library allows of a new pair, the second one towards the peer.
pub data Moves (peer : ConData) : QpState → QpAttr → Type 0 where
  to_init : {a : QpAttr} → a.qp_state ≡ init → Moves peer reset a
  to_rtr :
      {a : QpAttr}
      → a.qp_state ≡ rtr
      → a.dest_qp_num ≡ peer.qp_num
      → a.ah_attr.dlid ≡ peer.lid
      → Moves peer init a
  to_rts : {a : QpAttr} → a.qp_state ≡ rts → Moves peer rtr a

abbrev pub modifies : Call → Bool
modifies (modify_qp qp a m) = true
modifies _ = false

-- The state of the pair after the calls since `old`, where each transition asked for is allowed in
-- the state in which it is asked for.
pub data Reaches (peer : ConData) (old : List Event) : List Event → QpState → Type 0 where
  start : Reaches peer old old reset
  other :
      {e : Event} {t : List Event} {s : QpState}
      → modifies e.call ≡ false
      → Reaches peer old t s
      → Reaches peer old (e ∷ t) s
  moved :
      {qp : ℕ} {a : QpAttr} {m : List Mask} {r : Reply} {t : List Event} {s : QpState}
      → Moves peer s a
      → truthy r.code ≡ false
      → Reaches peer old t s
      → Reaches peer old (record { call = modify_qp qp a m; reply = r } ∷ t) a.qp_state
  refused :
      {qp : ℕ} {a : QpAttr} {m : List Mask} {r : Reply} {t : List Event} {s : QpState}
      → Moves peer s a
      → truthy r.code ≡ true
      → Reaches peer old t s
      → Reaches peer old (record { call = modify_qp qp a m; reply = r } ∷ t) s

-- `Came` says of what is stored of the peer that it came from the peer.
module _ (old : List Event) (Came : ConData → Type 0) where
  -- The peer's data are in the state, and the pair is in state `s`.
  abbrev pub At : ConData → QpState → World → Type 0
  At peer s w = Reaches peer old w.trace s × (w.res.remote_props ≡ peer) × Came peer

  abbrev pub Somewhere : World → Type 0
  Somewhere w =
      (s : QpState) × Reaches w.res.remote_props old w.trace s
      × ((s ≡ reset) ⊎ Came w.res.remote_props)

  -- Before the exchange is over, the pair is in its first state.
  abbrev pub Fresh : World → Type 0
  Fresh w = (peer : ConData) → Reaches peer old w.trace reset

  pub At-Reaches :
      (peer : ConData) (s : QpState) (w : World)
      → At peer s w
      → Reaches w.res.remote_props old w.trace s
  At-Reaches peer s w h = subst (λ p. Reaches p old w.trace s) (sym h.1) h.0

  pub At-Came : (peer : ConData) (s : QpState) (w : World) → At peer s w → Came w.res.remote_props
  At-Came peer s w h = subst Came (sym h.1) h.2

  pub At-Somewhere : (peer : ConData) (s : QpState) (w : World) → At peer s w → Somewhere w
  At-Somewhere peer s w h = (s, At-Reaches peer s w h, inr (At-Came peer s w h))

  pub other-At :
      (env : Env) (peer : ConData) (s : QpState) (c : Call)
      → modifies c ≡ false
      → Stays (At peer s) (ext env c)
  unfolding ext
  other-At env peer s c h w a = (other h a.0, a.1, a.2)

  pub other-Fresh : (env : Env) (c : Call) → modifies c ≡ false → Stays Fresh (ext env c)
  unfolding ext
  other-Fresh env c h w a = λ peer. other h (a peer)

  -- The call went wrong, or it took the pair on.
  abbrev pub Tried : ConData → QpState → QpState → ℤ → World → Type 0
  Tried peer s s' rc w = ((truthy rc ≡ true) × At peer s w) ⊎ ((truthy rc ≡ false) × At peer s' w)

  pub modify-Tried :
      (env : Env) {peer : ConData} {s : QpState} (qp : ℕ) (a : QpAttr) (m : List Mask) (w : World)
      → Moves peer s a
      → At peer s w
      → Ends
          (Tried peer s a.qp_state)
          Somewhere
          ((ext env (modify_qp qp a m) >>= λ r. pure r.code) w)
  unfolding ext
  modify-Tried env qp a m w v h =
      elim (Bool-cases (truthy (env.answer w.trace (modify_qp qp a m)).code)) [
        | inl b ↦ inl (b, (refused v b h.0, h.1, h.2))
        | inr b ↦ inr (b, (moved v b h.0, h.1, h.2))
      ]

  pub fail-Ends :
      (peer : ConData) (s s' : QpState) (rc : ℤ) (b : Bool) (w : World)
      → truthy rc ≡ b
      → Tried peer s s' rc w
      → Ends (λ _. At peer s') Somewhere (fail_if b rc w)
  fail-Ends peer s s' rc true w e (inl h) = (e, At-Somewhere peer s w h.1)
  fail-Ends peer s s' rc true w e (inr h) = cc
  fail-Ends peer s s' rc false w e (inl h) = cc
  fail-Ends peer s s' rc false w e (inr h) = h.1

  -- A transition whose code, where it is not 0, ends the function.
  pub checked-Ends :
      {A : Type 0} (P : A → World → Type 0) (peer : ConData) (s s' : QpState) (m : M ℤ) (n : M A)
      (w : World)
      → Ends (Tried peer s s') Somewhere (m w)
      → ((w' : World) → At peer s' w' → Ends P Somewhere (n w'))
      → Ends P Somewhere ((m >>= λ rc. fail_if (truthy rc) rc >> n) w)
  checked-Ends P peer s s' m n w h k = Ends-bind (Tried peer s s') P Somewhere (m w) _ h λ rc w' g.
      Ends-bind (λ _. At peer s') P Somewhere (fail_if (truthy rc) rc w') _
        (fail-Ends peer s s' rc (truthy rc) w' refl g) λ u w'' g'. k w'' g'
