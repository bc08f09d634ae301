-- ===== src/Atomic/Threads.antt =====
-- Several threads on one cell: each atomic operation is one step, so an execution is a list of
-- operations in the order in which they reach the cell, whichever thread they come from.
use mathlib.Core.List.{Perm, Permᴰ}
use mathlib.Core.Logic.{∥∥₁_elim}
use mathlib.Core.Path.{ap₂}
use native.Mathlib.Nat.{ℕ_set, one-le-pow, mod-add-mod, mod-eq_of_lt, mod-lt, div-add-mod}
use communication_speed.Prelude.{
  ℕ, zero, suc, ◌+◌, ◌-◌, ◌%◌, ◌^◌, ◌≤◌, ◌<◌, ◌≡◌, ◌≢◌, ◌∙◌, refl, sym, ap, arith, List, [], ◌∷◌,
  get_or,
}
use communication_speed.Atomic.{Outcome, xadd, atomic_inc, atomic_dec, atomic_add}

pub data Op : Type 0 where
  inc dec : Op
  add : ℕ → Op

pub perform : ℕ → Op → ℕ → Outcome
perform w inc c = atomic_inc w c
perform w dec c = atomic_dec w c
perform w (add v) c = atomic_add w c v

-- The cell after the operations.
pub final : ℕ → List Op → ℕ → ℕ
final w [] c = c
final w (o ∷ os) c = final w os (perform w o c).cell

-- What the operations returned, in the order of the execution.
pub results : ℕ → List Op → ℕ → List ℕ
results w [] c = []
results w (o ∷ os) c = (perform w o c).res ∷ results w os (perform w o c).cell

-- What an operation adds to the cell, modulo 2 ^ w.
pub amount : ℕ → Op → ℕ
amount w inc = 1
amount w dec = 2 ^ w - 1
amount w (add v) = v

pub total : ℕ → List Op → ℕ
total w [] = 0
total w (o ∷ os) = amount w o + total w os

cell-perform : (w : ℕ) (o : Op) (c : ℕ) → (perform w o c).cell ≡ (c + amount w o) % 2 ^ w
unfolding perform amount atomic_inc atomic_dec atomic_add xadd
cell-perform w inc c = refl
cell-perform w dec c = refl
cell-perform w (add v) c = refl

mod_chain : (m c a b : ℕ) → ((c + a) % m + b) % m ≡ (c + (a + b)) % m
mod_chain m c a b = mod-add-mod (c + a) m b ∙ ap (λ x. x % m) (omega arith)

-- The cell ends with all amounts added.
final-eq : (w : ℕ) (os : List Op) (c : ℕ) → c < 2 ^ w → final w os c ≡ (c + total w os) % 2 ^ w
unfolding final total
final-eq w [] c h = sym (ap (λ x. x % 2 ^ w) (omega arith) ∙ mod-eq_of_lt h)
final-eq w (o ∷ os) c h =
    let e : (perform w o c).cell ≡ (c + amount w o) % 2 ^ w = cell-perform w o c in
    let p : 1 ≤ 2 ^ w = one-le-pow w 2 (omega arith) in
    ap (final w os) e
    ∙ final-eq w os ((c + amount w o) % 2 ^ w) (mod-lt (c + amount w o) p)
    ∙ mod_chain (2 ^ w) c (amount w o) (total w os)

total-permᴰ : (w : ℕ) {xs ys : List Op} → Permᴰ xs ys → total w xs ≡ total w ys
unfolding total
total-permᴰ w Permᴰ.nil = refl
total-permᴰ w (Permᴰ.cons e p) = ap₂ ◌+◌ (ap (amount w) e) (total-permᴰ w p)
total-permᴰ w (Permᴰ.swap e e') = omega (arith, ap (amount w) e, ap (amount w) e')
total-permᴰ w (Permᴰ.trans p q) = total-permᴰ w p ∙ total-permᴰ w q

-- No update is lost: in whatever order the threads' operations reach the cell, it ends with the
-- initial value and all the amounts added, modulo 2 ^ w.
pub final-perm :
    (w : ℕ) (xs ys : List Op) (c : ℕ)
    → c < 2 ^ w
    → Perm xs ys
    → (final w ys c ≡ final w xs c) × (final w ys c ≡ (c + total w xs) % 2 ^ w)
final-perm w xs ys c h p =
    let same : total w xs ≡ total w ys = ∥∥₁_elim p (ℕ_set _ _) (total-permᴰ w) in
    let last : final w ys c ≡ (c + total w xs) % 2 ^ w =
      final-eq w ys c h ∙ ap (λ t. (c + t) % 2 ^ w) (sym same) in
    (last ∙ sym (final-eq w xs c h), last)

abbrev pub incs : ℕ → List Op
incs zero = []
incs (suc n) = inc ∷ incs n

results-incs :
    (w n c k : ℕ) → k < n → c < 2 ^ w → get_or (results w (incs n) c) k 0 ≡ (c + suc k) % 2 ^ w
unfolding results perform atomic_inc xadd
results-incs w zero c k h lt = absurd (omega arith)
results-incs w (suc n) c zero h lt = refl
results-incs w (suc n) c (suc k) h lt =
    let p : 1 ≤ 2 ^ w = one-le-pow w 2 (omega arith) in
    results-incs w n ((c + 1) % 2 ^ w) k (omega arith) (mod-lt (c + 1) p)
    ∙ mod_chain (2 ^ w) c 1 (suc k)
    ∙ ap (λ x. (c + x) % 2 ^ w) (omega arith)

mod_distinct : (m a b : ℕ) → a < b → b < a + m → (a % m) ≢ (b % m)
mod_distinct m a b lt near e = grind (arith, div-add-mod a m, div-add-mod b m)

-- Increments hand out tickets: of at most 2 ^ w increments of a cell, from whichever threads, no
-- two return the same value.
pub results-incs_distinct :
    (w n c i j : ℕ)
    → c < 2 ^ w
    → n ≤ 2 ^ w
    → i < j
    → j < n
    → get_or (results w (incs n) c) i 0 ≢ get_or (results w (incs n) c) j 0
results-incs_distinct w n c i j h few lt le e =
    mod_distinct (2 ^ w) (c + suc i) (c + suc j) (omega arith) (omega arith)
      (sym (results-incs w n c i (omega arith) h) ∙ e ∙ results-incs w n c j le h)
