-- ===== src/Cache/Fill.antt =====
-- The fills in closed form: which entries they write, and with what.
use mathlib.Core.Path.{fun_ext}
use native.Mathlib.Decide.{dec_lt}
use communication_speed.Prelude.{
  ℕ, zero, suc, ◌+◌, ◌*◌, ◌%◌, ◌^◌, ◌≤◌, ◌<◌, ◌≡◌, ◌∙◌, ap, ◌&&◌, u32, arith, ltb, leb, ◌==◌,
  if◌then◌else◌, lt→ltb,
}
use communication_speed.Prelude.Exec.{returned}
use communication_speed.Cache.{Buffer, store, fill, update, line, l1_range, l2_range}
use communication_speed.Cache.{l3_range, mem_range, l1h, l1ml2h, l2ml3h, l3m}

-- The multiples of `step` in `[i, range)` hold the index `ahead` of them, around the range; every
-- other entry is as it was.
abbrev pub filled : (step ahead range : ℕ) → ℕ → Buffer → Buffer
filled step ahead range i b = record {
  size = b.size;
  at = λ p. if leb i p && (ltb p range && (p % step == 0)) then (p + ahead) % range else b.at p;
}

module _ (step ahead range : ℕ)
    (gap : (p i : ℕ) → p % step ≡ 0 → i % step ≡ 0 → i < p → i + step ≤ p)
    (next : (i : ℕ) → i % step ≡ 0 → (i + step) % step ≡ 0) (pos : 0 < step)
    (small : range + step ≤ 2 ^ 32) (near : range + ahead ≤ 2 ^ 32) where
  filled-step :
      (i : ℕ) (b : Buffer)
      → i % step ≡ 0
      → i < range
      → filled step ahead range (i + step) (record b { at = update b.at i ((i + ahead) % range) })
        ≡ filled step ahead range i b
  filled-step i b m lt =
      ap (λ f. record { size = b.size; at = f }) (fun_ext λ p. ground (arith, gap p i))

  filled-end : (i : ℕ) (b : Buffer) → range ≤ i → b ≡ filled step ahead range i b
  filled-end i b le = ap (λ f. record { size = b.size; at = f }) (fun_ext λ p. ground arith)

  abbrev put : ℕ → Buffer → Buffer
  put i b = record b { at = update b.at i ((i + ahead) % range) }

  fill-suc :
      (fuel i : ℕ) (b : Buffer)
      → i < range
      → range ≤ b.size
      → fill step ahead range (suc fuel) i b ≡ fill step ahead range fuel (i + step) (put i b)
  unfolding fill store
  fill-suc fuel i b lt s =
      let wrap : u32 (i + ahead) ≡ i + ahead = omega arith in
      let wrap' : u32 (i + step) ≡ i + step = omega arith in ground arith

  fill-end :
      (fuel i : ℕ) (b : Buffer) → range ≤ i → fill step ahead range (suc fuel) i b ≡ returned b
  unfolding fill
  fill-end fuel i b le = ground arith

  pub fill_lem :
      (fuel i : ℕ) (b : Buffer)
      → i % step ≡ 0
      → range % step ≡ 0
      → range < i + fuel
      → i ≤ range
      → range ≤ b.size
      → fill step ahead range fuel i b ≡ returned (filled step ahead range i b)
  unfolding fill store
  fill_lem zero i b m r f h s = absurd (omega arith)
  fill_lem (suc fuel) i b m r f h s = elim (dec_lt i range) [
    | yes lt ↦
        fill-suc fuel i b lt s
        ∙ fill_lem fuel (i + step) (put i b) (next i m) r (omega arith) (gap range i r m lt) s
        ∙ ap returned (filled-step i b m lt)
    | no nlt ↦ fill-end fuel i b (omega arith) ∙ ap returned (filled-end i b (omega arith))
  ]

-- With a size above the range and a buffer of that size, each fill returns and its array is the
-- closed form; otherwise the assertion fails.
module _ (b : Buffer) (size : ℕ) (fits : size ≤ b.size) where
  pub l1h_lem :
      l1_range < size
      → l1h b size ≡ returned (record { range = l1_range; array = filled 1 1 l1_range 0 b })
  unfolding l1h
  l1h_lem h = rw (
    lt→ltb l1_range size h,
    fill_lem 1 1 l1_range (λ p i x y z. omega arith) (λ i x. omega arith) (omega arith)
        (omega arith) (omega arith) (suc l1_range) 0 b (omega arith) (omega arith) (omega arith)
        (omega arith) (omega arith),
  )

  pub l1ml2h_lem :
      l2_range < size
      → l1ml2h b size
        ≡ returned (record { range = l2_range; array = filled line (line * 5) l2_range 0 b })
  unfolding l1ml2h
  l1ml2h_lem h = rw (
    lt→ltb l2_range size h,
    fill_lem line (line * 5) l2_range (λ p i x y z. omega arith) (λ i x. omega arith) (omega arith)
        (omega arith) (omega arith) (suc l2_range) 0 b (omega arith) (omega arith) (omega arith)
        (omega arith) (omega arith),
  )

  pub l2ml3h_lem :
      l3_range < size
      → l2ml3h b size
        ≡ returned (record { range = l3_range; array = filled line (line * 5) l3_range 0 b })
  unfolding l2ml3h
  l2ml3h_lem h = rw (
    lt→ltb l3_range size h,
    fill_lem line (line * 5) l3_range (λ p i x y z. omega arith) (λ i x. omega arith) (omega arith)
        (omega arith) (omega arith) (suc l3_range) 0 b (omega arith) (omega arith) (omega arith)
        (omega arith) (omega arith),
  )

  pub l3m_lem :
      mem_range < size
      → l3m b size
        ≡ returned (record { range = mem_range; array = filled line (line * 5) mem_range 0 b })
  unfolding l3m
  l3m_lem h = rw (
    lt→ltb mem_range size h,
    fill_lem line (line * 5) mem_range (λ p i x y z. omega arith) (λ i x. omega arith) (omega arith)
        (omega arith) (omega arith) (suc mem_range) 0 b (omega arith) (omega arith) (omega arith)
        (omega arith) (omega arith),
  )
