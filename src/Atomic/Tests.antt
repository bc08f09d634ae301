-- ===== src/Atomic/Tests.antt =====
-- atomic.h on fixed cells.
use mathlib.Core.List.{Permᴰ}
use communication_speed.Prelude.{
  ℕ, suc, ◌+◌, ◌%◌, ◌^◌, ◌≡◌, ◌≢◌, refl, arith, List, [], ◌∷◌, some, if◌then◌else◌, ltb, get_or,
}
use communication_speed.Atomic.{Outcome, atomic_exchange}
use communication_speed.Atomic.Laws.{atomic_exchange_total}
use communication_speed.Atomic.Threads.{
  Op, inc, add, final, results, total, incs, final-perm, results-incs_distinct,
}

-- Another thread changes the cell before each of the first three tries.
abbrev busy : ℕ → ℕ → ℕ
busy k c = if ltb k 3 then suc c else c

exchange_busy : (o : Outcome) × (atomic_exchange busy 5 7 42 ≡ some o) × (o.cell ≡ 42)
exchange_busy = atomic_exchange_total busy 3 (λ k c h. grind arith) 7 42

abbrev one_order : List Op
one_order = inc ∷ add 200 ∷ []

abbrev other_order : List Op
other_order = add 200 ∷ inc ∷ []

final-perm_two :
    (final 8 other_order 100 ≡ final 8 one_order 100)
    × (final 8 other_order 100 ≡ (100 + total 8 one_order) % 2 ^ 8)
final-perm_two = final-perm 8 one_order other_order 100 (omega arith) (∣ Permᴰ.swap refl refl ∣₁)

tickets_differ : get_or (results 8 (incs 10) 250) 2 0 ≢ get_or (results 8 (incs 10) 250) 7 0
tickets_differ =
    results-incs_distinct 8 10 250 2 7 (omega arith) (omega arith) (omega arith) (omega arith)
