-- ===== src/Prelude/Io.antt =====
-- Code that calls the operating system, as a monad over the list of the calls made, the last first.
use mathlib.Core.Bool.{Bool, true, false}
use mathlib.Core.Path.{◌≡◌, refl}
use mathlib.Core.List.{List, ◌∷◌}

pub record Event (C R : Type 0) : Type 0 where
  pub call : C
  pub reply : R

-- What answers a call, given the calls before it.
abbrev pub Answers : Type 0 → Type 0 → Type 0
Answers C R = List (Event C R) → C → R

-- `done` is a normal end, `exited` a call of `exit`, `asserted` a failing `assert`, `fault` an access
-- that the language leaves undefined, `killed` a signal that ends the process, `spin` a loop that has more rounds than its fuel.
pub data Ended (E A : Type 0) : Type 0 where
  done : A → List E → Ended E A
  exited asserted fault killed spin : List E → Ended E A

abbrev pub Io : Type 0 → Type 0 → Type 0
Io E A = List E → Ended E A

infixl 5 ◌>>=◌ ◌>>◌
abbrev pub bind_ended : {E A B : Type 0} → Ended E A → (A → Io E B) → Ended E B
bind_ended (done a t) f = f a t
bind_ended (exited t) f = exited t
bind_ended (asserted t) f = asserted t
bind_ended (fault t) f = fault t
bind_ended (killed t) f = killed t
bind_ended (spin t) f = spin t

abbrev pub ◌>>=◌ : {E A B : Type 0} → Io E A → (A → Io E B) → Io E B
◌>>=◌ m f t = bind_ended (m t) f

abbrev pub ◌>>◌ : {E A B : Type 0} → Io E A → Io E B → Io E B
◌>>◌ m n t = bind_ended (m t) (λ _. n)

abbrev pub pure : {E A : Type 0} → A → Io E A
pure a t = done a t

abbrev pub assert : {E : Type 0} → Bool → Io E (Unit {0})
assert true t = done tt t
assert false t = asserted t

unfoldable pub ask : {C R : Type 0} → Answers C R → C → Io (Event C R) R
ask answer c t = done (answer t c) (record { call = c; reply = answer t c } ∷ t)

-- What holds where a run ends by a call of `exit`, by an assertion, by a fault, by a signal, or lacks
-- fuel.
pub record Wanted (E : Type 0) : Type 1 where
  pub at_exit : List E → Type 0
  pub at_assert : List E → Type 0
  pub at_fault : List E → Type 0
  pub at_kill : List E → Type 0
  pub at_spin : List E → Type 0

-- `P` holds at a normal end, `W` at the others.
abbrev pub Post : {E A : Type 0} → (A → List E → Type 0) → Wanted E → Ended E A → Type 0
Post P W (done a t) = P a t
Post P W (exited t) = W.at_exit t
Post P W (asserted t) = W.at_assert t
Post P W (fault t) = W.at_fault t
Post P W (killed t) = W.at_kill t
Post P W (spin t) = W.at_spin t

pub Post-bind :
    {E A B : Type 0} (P : A → List E → Type 0) (P' : B → List E → Type 0) (W : Wanted E)
    (r : Ended E A) (f : A → Io E B)
    → Post P W r
    → ((a : A) (t : List E) → P a t → Post P' W (f a t))
    → Post P' W (bind_ended r f)
Post-bind P P' W (done a t) f h k = k a t h
Post-bind P P' W (exited t) f h k = h
Post-bind P P' W (asserted t) f h k = h
Post-bind P P' W (fault t) f h k = h
Post-bind P P' W (killed t) f h k = h
Post-bind P P' W (spin t) f h k = h

pub Post-choose :
    {E A : Type 0} (P : A → List E → Type 0) (W : Wanted E) (b : Bool) (x y : Io E A) (t : List E)
    → (b ≡ true → Post P W (x t))
    → (b ≡ false → Post P W (y t))
    → Post P W (elim b as (λ _. Io E A) [ true ↦ x | false ↦ y ] t)
Post-choose P W true x y t h k = h refl
Post-choose P W false x y t h k = k refl

pub Post-assert :
    {E A : Type 0} (P : A → List E → Type 0) (W : Wanted E) (b : Bool) (m : Io E A) (t : List E)
    → (b ≡ true → Post P W (m t))
    → (b ≡ false → W.at_assert t)
    → Post P W ((assert b >> m) t)
Post-assert P W true m t h k = h refl
Post-assert P W false m t h k = k refl

pub Post-mono :
    {E A : Type 0} (P P' : A → List E → Type 0) (W : Wanted E) (r : Ended E A)
    → Post P W r
    → ((a : A) (t : List E) → P a t → P' a t)
    → Post P' W r
Post-mono P P' W (done a t) h k = k a t h
Post-mono P P' W (exited t) h k = h
Post-mono P P' W (asserted t) h k = h
Post-mono P P' W (fault t) h k = h
Post-mono P P' W (killed t) h k = h
Post-mono P P' W (spin t) h k = h
