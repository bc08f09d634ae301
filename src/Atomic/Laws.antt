-- ===== src/Atomic/Laws.antt =====
-- One operation at a time: what the header's comments promise of the cell and of the result.
use native.Mathlib.Nat.{one-le-pow}
use communication_speed.Prelude.{
  ℕ, zero, suc, ◌+◌, ◌-◌, ◌⊎◌, ◌%◌, ◌^◌, ◌≤◌, ◌<◌, ◌≡◌, ◌≢◌, ◌∙◌, refl, sym, ap, arith, some, ◌==◌,
  Bool-cases, inl, inr, true, false,
}
use communication_speed.Atomic.{
  Outcome, xadd, atomic_inc, atomic_dec, cmpxchg, exchange_loop, atomic_exchange,
  atomic_compare_exchange,
}

-- The inverse of addition of `a`, for a word of modulus `m`.
wrap_back : (m c a b : ℕ) → c < m → a + b ≡ m → ((c + a) % m + b) % m ≡ c
wrap_back m c a b h e = grind arith

dec_result : (m c : ℕ) → c < m → (c + (m - 1)) % m ≡ (c + m - 1) % m
dec_result m c h = ap (λ x. x % m) (omega arith)

-- On a cell in range, `atomic_inc` and `atomic_dec` return the value that they leave in the cell,
-- which is one more and one less modulo 2 ^ w, and each undoes the other.
inc_dec_lem :
    (w c : ℕ)
    → c < 2 ^ w
    → ((atomic_inc w c).res ≡ (atomic_inc w c).cell)
      × ((atomic_dec w c).res ≡ (atomic_dec w c).cell)
      × ((atomic_inc w c).cell ≡ (c + 1) % 2 ^ w)
      × ((atomic_dec w c).cell ≡ (c + 2 ^ w - 1) % 2 ^ w)
      × ((atomic_dec w (atomic_inc w c).cell).cell ≡ c)
      × ((atomic_inc w (atomic_dec w c).cell).cell ≡ c)
unfolding atomic_inc atomic_dec xadd
inc_dec_lem w c h =
    let p : 1 ≤ 2 ^ w = one-le-pow w 2 (omega arith) in
    (
      refl,
      sym (dec_result (2 ^ w) c h),
      refl,
      dec_result (2 ^ w) c h,
      wrap_back (2 ^ w) c 1 (2 ^ w - 1) h (omega arith),
      wrap_back (2 ^ w) c (2 ^ w - 1) 1 h (omega arith),
    )

-- A compare and exchange returns the cell's value; either that is the one expected, and the cell
-- gets the new value, or it is not, and the cell is left as it was.
compare_exchange_lem :
    (c nv cv : ℕ)
    → ((atomic_compare_exchange c nv cv).res ≡ c)
      × (((c ≡ cv) × ((atomic_compare_exchange c nv cv).cell ≡ nv))
          ⊎ ((c ≢ cv) × ((atomic_compare_exchange c nv cv).cell ≡ c)))
unfolding atomic_compare_exchange cmpxchg
compare_exchange_lem c nv cv = elim (Bool-cases (c == cv)) [
  | inl e ↦ (ground arith, inl (ground arith, ground arith))
  | inr e ↦ (ground arith, inr (ground arith, ground arith))
]

exchange_loop_hit :
    (other : ℕ → ℕ → ℕ) (fuel k cell nv acc : ℕ)
    → (other k cell == acc) ≡ true
    → exchange_loop other (suc fuel) k cell nv acc ≡ some (record { cell = nv; res = acc })
unfolding exchange_loop cmpxchg
exchange_loop_hit other fuel k cell nv acc e = ground arith

exchange_loop_miss :
    (other : ℕ → ℕ → ℕ) (fuel k cell nv acc : ℕ)
    → (other k cell == acc) ≡ false
    → exchange_loop other (suc fuel) k cell nv acc
      ≡ exchange_loop other fuel (suc k) (other k cell) nv (other k cell)
unfolding exchange_loop cmpxchg
exchange_loop_miss other fuel k cell nv acc e = ground arith

module _ (other : ℕ → ℕ → ℕ) (quiet_from : ℕ)
    (quiet : (k c : ℕ) → quiet_from ≤ k → other k c ≡ c) where
  exchange_loop_quiet :
      (f k cell nv acc : ℕ)
      → quiet_from ≤ k
      → exchange_loop other (suc (suc f)) k cell nv acc ≡ some (record { cell = nv; res = cell })
  unfolding exchange_loop cmpxchg
  exchange_loop_quiet f k cell nv acc h = ground (arith, quiet k cell, quiet (suc k) cell)

  exchange_loop_total :
      (d k cell nv acc : ℕ)
      → quiet_from ≤ k + d
      → (o : Outcome) × (exchange_loop other (suc (suc d)) k cell nv acc ≡ some o) × (o.cell ≡ nv)
  exchange_loop_total zero k cell nv acc h =
      (record { cell = nv; res = cell }, exchange_loop_quiet 0 k cell nv acc (omega arith), refl)
  exchange_loop_total (suc d) k cell nv acc h = elim (Bool-cases (other k cell == acc)) [
    | inl e ↦ (
      record { cell = nv; res = acc },
      exchange_loop_hit other (suc (suc d)) k cell nv acc e,
      refl,
    )
    | inr e ↦
        let c : ℕ = other k cell in
        let (o, returns, stored) = exchange_loop_total d (suc k) c nv c (omega arith) in
        (o, exchange_loop_miss other (suc (suc d)) k cell nv acc e ∙ returns, stored)
  ]

  -- Where the other threads leave the cell alone from the try `quiet_from` on, `atomic_exchange`
  -- returns within two tries more, and the cell then holds the new value.
  pub atomic_exchange_total :
      (cell nv : ℕ)
      → (o : Outcome) × (atomic_exchange other (suc (suc quiet_from)) cell nv ≡ some o)
        × (o.cell ≡ nv)
  unfolding atomic_exchange
  atomic_exchange_total cell nv = exchange_loop_total quiet_from 0 cell nv cell (omega arith)
