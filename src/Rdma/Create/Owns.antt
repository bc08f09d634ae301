-- ===== src/Rdma/Create/Owns.antt =====
-- The invariant of the resources: what was acquired and not given back is what the fields hold.
use communication_speed.Prelude.{
  ℕ, zero, suc, ◌+◌, ◌≡◌, refl, ap, ◌∙◌, List, Bool, true, false, Option, none, some,
}
use communication_speed.Prelude.Int.{ℤ, truthy, minus_one}
use communication_speed.Rdma.Machine.{World, Run, ok, exit, abort, spin, M, bind_run, fail_if}
use communication_speed.Rdma.Create.Counts.{
  Handle, Kind, pointer, descriptor, tally, opened, closed, held, stray,
}

-- A run that goes on ends in `P`; one that jumps to the exit label does so with a code that is not
-- 0, in `E`.
abbrev pub Ends : {A : Type 0} → (A → World → Type 0) → (World → Type 0) → Run A → Type 0
Ends P E (ok a w) = P a w
Ends P E (exit rc w) = (truthy rc ≡ true) × E w
Ends P E (abort w) = Unit
Ends P E (spin w) = Unit

pub Ends-bind :
    {A B : Type 0} (P : A → World → Type 0) (Q : B → World → Type 0) (E : World → Type 0)
    (r : Run A) (f : A → M B)
    → Ends P E r
    → ((a : A) (w : World) → P a w → Ends Q E (f a w))
    → Ends Q E (bind_run r f)
Ends-bind P Q E (ok a w) f h k = k a w h
Ends-bind P Q E (exit rc w) f h k = h
Ends-bind P Q E (abort w) f h k = tt
Ends-bind P Q E (spin w) f h k = tt

pub Ends-fail_if :
    (P : World → Type 0) (E : World → Type 0) (b : Bool) (rc : ℤ) (w : World)
    → truthy rc ≡ true
    → (P w → E w)
    → P w
    → Ends (λ _. P) E (fail_if b rc w)
Ends-fail_if P E true rc w t f p = (t, f p)
Ends-fail_if P E false rc w t f p = p

pub Ends-choose :
    {A : Type 0} (P : A → World → Type 0) (E : World → Type 0) (b : Bool) (m n : M A) (w : World)
    → Ends P E (m w)
    → Ends P E (n w)
    → Ends P E ((elim b as (λ _. M A) [ true ↦ m | false ↦ n ]) w)
Ends-choose P E true m n w p q = p
Ends-choose P E false m n w p q = q

-- Descriptors closed though not opened: in client mode, one.
abbrev pub strays : Option (List ℕ) → Handle → ℕ
strays none h = 0
strays (some server) h = stray h

-- Everything acquired was given back or is held, the strays `d` apart.
abbrev pub Owns : (Handle → ℕ) → World → Type 0
Owns d w = (h : Handle) → opened h w.trace + d h ≡ closed h w.trace + held h w

-- The pointers of the stages to come are NULL: the last `n` of the context, the domain, the queue,
-- the buffer, the region and the pair.
abbrev pub Unset : ℕ → World → Type 0
Unset zero w = Unit
Unset (suc zero) w = (w.res.qp ≡ 0) × Unit {0}
Unset (suc (suc zero)) w = (w.res.mr ≡ 0) × ((w.res.qp ≡ 0) × Unit {0})
Unset (suc (suc (suc zero))) w = (w.res.buf ≡ 0) × ((w.res.mr ≡ 0) × ((w.res.qp ≡ 0) × Unit {0}))
Unset (suc (suc (suc (suc zero)))) w =
    (w.res.cq ≡ 0) × ((w.res.buf ≡ 0) × ((w.res.mr ≡ 0) × ((w.res.qp ≡ 0) × Unit {0})))
Unset (suc (suc (suc (suc (suc zero))))) w =
    (w.res.pd ≡ 0)
    × ((w.res.cq ≡ 0) × ((w.res.buf ≡ 0) × ((w.res.mr ≡ 0) × ((w.res.qp ≡ 0) × Unit {0}))))
Unset _ w =
    (w.res.ib_ctx ≡ 0)
    × ((w.res.pd ≡ 0)
        × ((w.res.cq ≡ 0) × ((w.res.buf ≡ 0) × ((w.res.mr ≡ 0) × ((w.res.qp ≡ 0) × Unit {0})))))

pub tally-none : (h : Handle) → tally h none ≡ 0
unfolding tally
tally-none h = refl

-- A field that is NULL holds no handle.
pub tally_null : (h : Handle) (k : Kind) {p : ℕ} → p ≡ 0 → tally h (pointer k p) ≡ 0
tally_null h k e = ap (λ x. tally h (pointer k x)) e ∙ tally-none h

pub tally_no_sock : (h : Handle) {s : ℤ} → s ≡ minus_one → tally h (descriptor s) ≡ 0
tally_no_sock h e = ap (λ x. tally h (descriptor x)) e ∙ tally-none h

-- What every stage keeps: the strays are those of the configuration.
pub record Stage (n : ℕ) (d : Handle → ℕ) (w : World) : Type 0 where
  pub owns : Owns d w
  pub unset : Unset n w
  pub no_list : w.dev_list ≡ 0

pub Ends-check :
    (n : ℕ) (d : Handle → ℕ) (b : Bool) (rc : ℤ) (w : World)
    → truthy rc ≡ true
    → Stage n d w
    → Ends (λ _. Stage n d) (Owns d) (fail_if b rc w)
Ends-check n d b rc w t s = Ends-fail_if (Stage n d) (Owns d) b rc w t (λ x. x.owns) s
