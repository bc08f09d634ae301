-- ===== src/Rdma/Options/Accepts.antt =====
-- Which command lines `rcmain` takes, and the configuration that it makes of them.
use communication_speed.Prelude.{
  ℕ, ◌%◌, ◌^◌, ◌<◌, ◌≡◌, ◌⊎◌, inl, inr, refl, ap, ◌∙◌, arith, List, [], ◌∷◌, true, false, Option,
  none, some, if◌then◌else◌,
}
use mathlib.Core.Path.{subst}
use communication_speed.Prelude.Int.{ℤ, pos, is_neg}
use communication_speed.Rdma.Types.{Config}
use communication_speed.Rdma.Options.{
  Opt, port, ib_port, gid_idx, ib_dev, unknown, to_int, accept_if, set_option, read_options,
  read_arguments, configure,
}

-- A port of the device and an index are at most the largest `int`, modulo 2 ^ 32.
abbrev pub IsTaken : Opt → Type 0
IsTaken (ib_port n) = n % 2 ^ 32 < 2 ^ 31
IsTaken (gid_idx n) = n % 2 ^ 32 < 2 ^ 31
IsTaken unknown = ⊥
IsTaken _ = Unit

abbrev pub AllTaken : List Opt → Type 0
AllTaken [] = Unit
AllTaken (o ∷ os) = IsTaken o × AllTaken os

abbrev pub AtMostOne : List (List ℕ) → Type 0
AtMostOne [] = Unit
AtMostOne (name ∷ []) = Unit
AtMostOne (name ∷ another ∷ rest) = ⊥

-- The last option of each kind, or else the value `d`.
abbrev pub last_port : List Opt → ℕ → ℕ
last_port [] d = d
last_port (port n ∷ os) d = last_port os (n % 2 ^ 32)
last_port (_ ∷ os) d = last_port os d

abbrev pub last_ib_port : List Opt → ℤ → ℤ
last_ib_port [] d = d
last_ib_port (ib_port n ∷ os) d = last_ib_port os (pos (n % 2 ^ 32))
last_ib_port (_ ∷ os) d = last_ib_port os d

abbrev pub last_gid_idx : List Opt → ℤ → ℤ
last_gid_idx [] d = d
last_gid_idx (gid_idx n ∷ os) d = last_gid_idx os (pos (n % 2 ^ 32))
last_gid_idx (_ ∷ os) d = last_gid_idx os d

abbrev pub last_dev : List Opt → Option (List ℕ) → Option (List ℕ)
last_dev [] d = d
last_dev (ib_dev name ∷ os) d = last_dev os (some name)
last_dev (_ ∷ os) d = last_dev os d

abbrev pub first_argument : List (List ℕ) → Option (List ℕ) → Option (List ℕ)
first_argument [] d = d
first_argument (name ∷ rest) d = some name

abbrev pub with_options : List Opt → Config → Config
with_options os c = record c {
  tcp_port = last_port os c.tcp_port;
  ib_port = last_ib_port os c.ib_port;
  gid_idx = last_gid_idx os c.gid_idx;
  dev_name = last_dev os c.dev_name;
}

-- The result is the value where the condition holds, and `none` where it does not.
abbrev pub Decides : Type 0 → Option Config → Config → Type 0
Decides P o c = (P × (o ≡ some c)) ⊎ ((¬ P) × (o ≡ none))

to_int-below : (n : ℕ) → n % 2 ^ 32 < 2 ^ 31 → to_int n ≡ pos (n % 2 ^ 32)
unfolding to_int
to_int-below n h = ground arith

to_int-above : (n : ℕ) → ¬ (n % 2 ^ 32 < 2 ^ 31) → is_neg (to_int n) ≡ true
unfolding to_int
to_int-above n h = ground arith

taken_or_not : (n : ℕ) → (n % 2 ^ 32 < 2 ^ 31) ⊎ (¬ (n % 2 ^ 32 < 2 ^ 31))
taken_or_not n = ground arith

-- A number for an `int` that must not be negative.
accept_if-Decides :
    (n : ℕ) (f : ℤ → Config)
    → Decides
        (n % 2 ^ 32 < 2 ^ 31)
        (accept_if (if is_neg (to_int n) then false else true) (f (to_int n)))
        (f (pos (n % 2 ^ 32)))
accept_if-Decides n f = elim (taken_or_not n) [
  | inl h ↦ inl (h, ap (λ i. accept_if (if is_neg i then false else true) (f i)) (to_int-below n h))
  | inr h ↦
      inr (h, ap (λ b. accept_if (if b then false else true) (f (to_int n))) (to_int-above n h))
]

set_option-Decides :
    (o : Opt) (c : Config) → Decides (IsTaken o) (set_option o c) (with_options (o ∷ []) c)
unfolding set_option
set_option-Decides (port n) c = inl (tt, refl)
set_option-Decides (ib_dev name) c = inl (tt, refl)
set_option-Decides (ib_port n) c = accept_if-Decides n (λ i. record c { ib_port = i })
set_option-Decides (gid_idx n) c = accept_if-Decides n (λ i. record c { gid_idx = i })
set_option-Decides unknown c = inr (λ h. h, refl)

with_options-cons :
    (o : Opt) (os : List Opt) (c : Config)
    → with_options os (with_options (o ∷ []) c) ≡ with_options (o ∷ os) c
with_options-cons (port n) os c = refl
with_options-cons (ib_dev name) os c = refl
with_options-cons (ib_port n) os c = refl
with_options-cons (gid_idx n) os c = refl
with_options-cons unknown os c = refl

-- One step that may fail, and the rest.
Decides-then :
    {P Q : Type 0} (o : Option Config) (c d : Config) (k : Config → Option Config)
    → Decides P o c
    → Decides Q (k c) d
    → Decides (P × Q) (elim o [ none ↦ none | some c' ↦ k c' ]) d
Decides-then o c d k (inl p) (inl q) = inl (
  (p.0, q.0),
  ap (λ x. elim x as (λ _. Option Config) [ none ↦ none | some c' ↦ k c' ]) p.1 ∙ q.1,
)
Decides-then o c d k (inl p) (inr q) = inr (
  (λ h. q.0 h.1),
  ap (λ x. elim x as (λ _. Option Config) [ none ↦ none | some c' ↦ k c' ]) p.1 ∙ q.1,
)
Decides-then o c d k (inr p) q =
    inr (
      (λ h. p.0 h.0),
      ap (λ x. elim x as (λ _. Option Config) [ none ↦ none | some c' ↦ k c' ]) p.1,
    )

read_options-Decides :
    (os : List Opt) (c : Config) → Decides (AllTaken os) (read_options os c) (with_options os c)
unfolding read_options
read_options-Decides [] c = inl (tt, refl)
read_options-Decides (o ∷ os) c =
    Decides-then (set_option o c) (with_options (o ∷ []) c) (with_options (o ∷ os) c)
      (read_options os) (set_option-Decides o c)
      (subst (Decides (AllTaken os) (read_options os (with_options (o ∷ []) c)))
        (with_options-cons o os c) (read_options-Decides os (with_options (o ∷ []) c)))

read_arguments-Decides :
    (args : List (List ℕ)) (c : Config)
    → Decides
        (AtMostOne args)
        (read_arguments args c)
        (record c { server_name = first_argument args c.server_name })
unfolding read_arguments
read_arguments-Decides [] c = inl (tt, refl)
read_arguments-Decides (name ∷ []) c = inl (tt, refl)
read_arguments-Decides (name ∷ another ∷ rest) c = inr (λ h. h, refl)

-- A command line is taken exactly where each `-i` and `-g` has a number that is not negative as an
-- `int`, the unsigned number being cut to 32 bits, no option is unknown, and at most one argument is
-- left. The configuration then has the last value of each option, or the one that it had, and the
-- argument as the server's name.
pub configure_lem :
    (os : List Opt) (args : List (List ℕ)) (c : Config)
    → ((AllTaken os × AtMostOne args)
        × (configure os args c
            ≡ some
                (record (with_options os c) { server_name = first_argument args c.server_name })))
      ⊎ ((¬ (AllTaken os × AtMostOne args)) × (configure os args c ≡ none))
unfolding configure
configure_lem os args c =
    Decides-then (read_options os c) (with_options os c) _ (read_arguments args)
      (read_options-Decides os c) (read_arguments-Decides args (with_options os c))
