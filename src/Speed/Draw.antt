-- ===== src/Speed/Draw.antt =====
-- `permuate1` of mem/numatest.cpp, which draws the indices of an array. The calls of the source that
-- would use it are commented out.
use communication_speed.Prelude.{
  ℕ, zero, suc, ◌+◌, ◌%◌, ◌≤◌, ◌<◌, ◌≡◌, ◌∙◌, refl, arith, true, ◌==◌, ltb, Bool-cases, inl, inr,
  lt→ltb,
}
use communication_speed.Prelude.Exec.{Exec, returned, ◌>>=◌}
use communication_speed.Cache.Chase.{chase-suc}
use communication_speed.Cache.{Buffer, load, store, update, chase}

-- The k-th answer of `rand` is `rand k`; it is not negative.
module _ (rand : ℕ → ℕ) where
  -- The rounds that are left, from index `i` on.
  unfoldable pub draw : ℕ → ℕ → ℕ → Buffer → Exec Buffer
  draw zero i size b = returned b
  draw (suc left) i size b = store b i (rand i % size) >>= λ b'. draw left (suc i) size b'

  unfoldable pub permuate1 : Buffer → ℕ → Exec Buffer
  permuate1 array size = draw size 0 size array

-- The entries below `n` are indices below `size`, and the array has them all.
record Drawn (n size : ℕ) (b : Buffer) : Type 0 where
  pub room : size ≤ b.size
  pub below : (k : ℕ) → k < n → b.at k < size

update-below :
    (f : ℕ → ℕ) (n v size k : ℕ)
    → ((k' : ℕ) → k' < n → f k' < size)
    → v < size
    → k < suc n
    → update f n v k < size
update-below f n v size k h lt l = elim (Bool-cases (k == n)) [
  | inl e ↦ rw e lt
  | inr e ↦ rw e (h k (grind arith))
]

draw-Drawn :
    (rand : ℕ → ℕ) (left i size : ℕ) (b : Buffer)
    → i + left ≡ size
    → Drawn i size b
    → (array : Buffer) × (draw rand left i size b ≡ returned array) × Drawn size size array
unfolding draw store
draw-Drawn rand zero i size b e d =
    (b, refl, record { room = d.room; below = λ k l. d.below k (omega (arith, e, l)) })
draw-Drawn rand (suc left) i size b e d =
    let v = rand i % size in
    let lt : v < size = omega (arith, e) in
    let b' : Buffer = record b { at = update b.at i v } in
    let room : ltb i b.size ≡ true = lt→ltb i b.size (omega (arith, e, d.room)) in
    let (array, returns, d') =
      draw-Drawn rand left (suc i) size b' (omega (arith, e))
        (record { room = d.room; below = λ k l. update-below b.at i v size k d.below lt l }) in
    (array, rw room returns, d')

chase-Drawn :
    (size n j : ℕ) (b : Buffer)
    → Drawn size size b
    → j < size
    → (k : ℕ) × (k < size) × (chase n b j ≡ returned k)
unfolding chase load
chase-Drawn size zero j b d l = (j, l, refl)
chase-Drawn size (suc n) j b d l =
    let room : ltb j b.size ≡ true = lt→ltb j b.size (omega (arith, l, d.room)) in
    let (k, lt, e) = chase-Drawn size n (b.at j) b d (d.below j l) in
    (k, lt, chase-suc n b j (b.at j) (rw room refl) ∙ e)

-- On an array of at least `size` entries, `permuate1` returns, whatever `rand` answers, and a walk
-- through the array from any entry below `size`, of any number of rounds, has no access out of range
-- and ends at an entry below `size`.
pub permuate1-chase :
    (rand : ℕ → ℕ) (b : Buffer) (size iter j : ℕ)
    → size ≤ b.size
    → j < size
    → (array : Buffer) × (permuate1 rand b size ≡ returned array)
      × ((k : ℕ) × (k < size) × (chase iter array j ≡ returned k))
unfolding permuate1
permuate1-chase rand b size iter j room l =
    let (array, e, d) =
      draw-Drawn rand size 0 size b (omega arith)
        (record { room = room; below = λ k h. absurd (omega (arith, h)) }) in
    (array, e, chase-Drawn size iter j array d l)
