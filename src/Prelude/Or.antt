-- ===== src/Prelude/Or.antt =====
-- Facts about `|`, the inclusive or of C, on fields that do not overlap.
use Prim.Native.Nat.{
  ℕ, digits, bitwise, ◌≤◌, ◌-◌, zero, suc, ◌+◌, ◌*◌, ◌/◌, ◌%◌, ◌^◌, ◌<◌, max, bit_or,
  bit_or-bitwise,
}
use mathlib.Core.Path.{◌≡◌, refl, sym, ap, ◌∙◌}
use native.Mathlib.Nat.{pow-suc, mul_assoc}
use native.Mathlib.Omega.{arith}

-- One unit of fuel more than enough changes nothing, nor do several.
one_more :
    (z : ℕ → ℕ) (op : ℕ → ℕ → ℕ) (fuel x y : ℕ)
    → x ≤ fuel
    → digits z op (suc fuel) x y ≡ digits z op fuel x y
one_more z op zero zero y le = refl
one_more z op (suc fuel) zero y le = refl
one_more z op zero (suc x) y le = absurd (omega arith)
one_more z op (suc fuel) (suc x) y le =
    ap (λ high. high * 2 + op (suc x % 2) (y % 2))
      (one_more z op fuel (suc x / 2) (y / 2) (omega arith))

spare : (z : ℕ → ℕ) (op : ℕ → ℕ → ℕ) (more x y : ℕ) → digits z op (more + x) x y ≡ bitwise z op x y
spare z op zero x y = ap (λ fuel. digits z op fuel x y) (omega arith)
spare z op (suc more) x y =
    let e : suc more + x ≡ suc (more + x) = omega arith in
    ap (λ fuel. digits z op fuel x y) e
    ∙ one_more z op (more + x) x y (omega arith)
    ∙ spare z op more x y

-- The lowest digit apart from the others.
lowest :
    (z : ℕ → ℕ) (op : ℕ → ℕ → ℕ) (x y : ℕ)
    → bitwise z op (suc x) y ≡ bitwise z op (suc x / 2) (y / 2) * 2 + op (suc x % 2) (y % 2)
lowest z op x y =
    let split : x - suc x / 2 + suc x / 2 ≡ x = omega arith in
    ap (λ high. high * 2 + op (suc x % 2) (y % 2))
      (ap (λ fuel. digits z op fuel (suc x / 2) (y / 2)) (sym split)
        ∙ spare z op (x - suc x / 2) (suc x / 2) (y / 2))

or_low : (x y : ℕ) → bit_or x y ≡ bit_or (x / 2) (y / 2) * 2 + max (x % 2) (y % 2)
or_low = elim [
  | zero ↦ λ y. simp bit_or-bitwise (omega arith)
  | suc x ↦ λ y. simp bit_or-bitwise (lowest (λ d. d) max x y)
]

zero-bit_or : (y : ℕ) → bit_or 0 y ≡ y
zero-bit_or y = simp bit_or-bitwise

-- A field of `k` bits beside one that starts at bit `k`.
pub bit_or-eq-add : (k x y : ℕ) → x < 2 ^ k → bit_or x (y * 2 ^ k) ≡ x + y * 2 ^ k
bit_or-eq-add zero x y h =
    let e : x ≡ 0 = omega arith in rw e (zero-bit_or (y * 2 ^ 0) ∙ omega arith)
bit_or-eq-add (suc k) x y h =
    let p : 2 ^ suc k ≡ 2 ^ k * 2 = pow-suc 2 k in
    let q : y * 2 ^ suc k ≡ y * 2 ^ k * 2 = ap (λ t. y * t) p ∙ sym (mul_assoc y (2 ^ k) 2) in
    let d : y * 2 ^ suc k / 2 ≡ y * 2 ^ k = omega (arith, q) in
    omega (
      arith,
      or_low x (y * 2 ^ suc k),
      ap (bit_or (x / 2)) d,
      bit_or-eq-add k (x / 2) y (omega (arith, p, h)),
      q,
    )
