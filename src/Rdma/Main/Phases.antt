-- ===== src/Rdma/Main/Phases.antt =====
-- The steps of `rcmain` by the phases that they lead through.

use communication_speed.Prelude.{ℕ, ◌≡◌, ◌⊎◌, inl, inr, refl, List, Bool, true, false, Bool-cases}
use communication_speed.Prelude.Int.{ℤ, pos, truthy}
use communication_speed.Rdma.Types.{Reply, Event, Opcode, post_send, strcpy}
use communication_speed.Rdma.Machine.{
  Env, World, Run, ok, exit, abort, spin, M, bind_run, ◌>>◌, fail_if, assert, ext,
}
use communication_speed.Rdma.Post.{send, send_wr}
use communication_speed.Rdma.Main.{need, put_text}
use communication_speed.Rdma.Main.Protocol.{Side, Phase, Next, Follows, leads}

abbrev pub One : ℤ → Type 0
One rc = rc ≡ pos 1

-- A run that goes on does so in `P`, and one that jumps does so with the code 1.
abbrev pub Ending : {A : Type 0} → (A → World → Type 0) → Run A → Type 0
Ending P (ok a w) = P a w
Ending P (exit rc w) = One rc
Ending P (abort w) = Unit
Ending P (spin w) = Unit

pub Ending-bind :
    {A B : Type 0} (P : A → World → Type 0) (Q : B → World → Type 0) (r : Run A) (f : A → M B)
    → Ending P r
    → ((a : A) (w : World) → P a w → Ending Q (f a w))
    → Ending Q (bind_run r f)
Ending-bind P Q (ok a w) f h k = k a w h
Ending-bind P Q (exit rc w) f h k = h
Ending-bind P Q (abort w) f h k = tt
Ending-bind P Q (spin w) f h k = tt

pub Ending-choose :
    {A : Type 0} (P : A → World → Type 0) (b : Bool) (m n : M A) (w : World)
    → (b ≡ true → Ending P (m w))
    → (b ≡ false → Ending P (n w))
    → Ending P ((elim b as (λ _. M A) [ true ↦ m | false ↦ n ]) w)
Ending-choose P true m n w h k = h refl
Ending-choose P false m n w h k = k refl

pub Ending-assert :
    {A : Type 0} (P : A → World → Type 0) (b : Bool) (m : M A) (w : World)
    → (b ≡ true → Ending P (m w))
    → Ending P ((assert b >> m) w)
Ending-assert P true m w h = h refl
Ending-assert P false m w h = tt

-- A code other than 0, or what a success brings.
abbrev pub Tried : (World → Type 0) → ℤ → World → Type 0
Tried P rc w = (truthy rc ≡ true) ⊎ ((truthy rc ≡ false) × P w)

pub need-Ending :
    (env : Env) (fuel : ℕ) (P : World → Type 0) (m : M ℤ) (w : World)
    → Ending (Tried P) (m w)
    → Ending (λ _. P) (need env fuel m w)
need-Ending env fuel P m w h =
    Ending-bind (Tried P) (λ _. P) (m w) (λ rc. fail_if (truthy rc) (pos 1)) h
      λ rc w' t. go (truthy rc) w' t
  where
    go :
        (b : Bool) (w' : World)
        → (b ≡ true) ⊎ ((b ≡ false) × P w')
        → Ending (λ _. P) (fail_if b (pos 1) w')
    go true w' t = refl
    go false w' (inl e) = cc
    go false w' (inr p) = p.1

module _ (env : Env) (side : Side) (old : List Event) where
  abbrev pub Now : Phase → World → Type 0
  Now p w = Follows env w.res side old w.trace p

  -- The posting of a request.
  pub send-Ending :
      (o : Opcode) (p q : Phase) (w : World)
      → ((reply : Reply)
          → truthy reply.code ≡ false
          → Next env w.res side p
              (record { call = post_send w.res.qp (send_wr env w.res o); reply = reply })
              q)
      → Now p w
      → Ending (Tried (Now q)) (send env o w)
  unfolding send ext
  send-Ending o p q w next h =
      let reply = env.answer w.trace (post_send w.res.qp (send_wr env w.res o)) in
      elim (Bool-cases (truthy reply.code)) [
        | inl b ↦ inl b
        | inr b ↦ inr (b, leads (next reply b) h)
      ]

  pub put-Ending :
      (fuel : ℕ) (text : List ℕ) (p q : Phase) (w : World)
      → ((reply : Reply)
          → Next env w.res side p (record { call = strcpy w.res.buf text; reply = reply }) q)
      → Now p w
      → Ending (λ _. Now q) (put_text env fuel text w)
  unfolding ext
  put-Ending fuel text p q w next h = leads (next (env.answer w.trace (strcpy w.res.buf text))) h
