-- ===== src/Speed/Barrier/Order.antt =====
-- What the two cells hold while the threads run.
use mathlib.Core.Path.{subst}
use communication_speed.Prelude.{
  ℕ, suc, ◌+◌, ◌*◌, ◌^◌, ◌≤◌, ◌<◌, ◌≡◌, ◌⊎◌, inl, inr, refl, sym, ap, ◌∙◌, arith, Bool, true, false,
  none, some,
}
use communication_speed.Prelude.Int.{ℤ, pos, is_neg, ◌+ℤ◌}
use communication_speed.Speed.Barrier.{
  Writer, store_first, store_second, bind_writer, raise_first, raise_second, writer_left,
  overflowed, Reader, bind_reader, read_first, read_second, print, reader_left, State, raise,
  bound_writer, bound_reader, raised_first, raised_second, write, read, Reaches, begins, writes,
  reads, started,
}

raise_fits : (n : ℕ) → n + 10 < 2 ^ 31 → raise (pos n) ≡ some (pos (n + 10))
unfolding raise ◌+ℤ◌
raise_fits n h = ground arith

pub raise_overflows : (n : ℕ) → 2 ^ 31 ≤ n + 10 → raise (pos n) ≡ none
unfolding raise ◌+ℤ◌
raise_overflows n h = ground arith

pub raise_to : (x : ℤ) (n m : ℕ) → x ≡ pos n → n + 10 ≡ m → m < 2 ^ 31 → raise x ≡ some (pos m)
raise_to x n m e f h = ap raise e ∙ raise_fits n (omega (arith, f, h)) ∙ ap (λ i. some (pos i)) f

-- Where the first cell has been raised, so can the second.
pub raise_second_fits :
    (y : ℤ) (k : ℕ)
    → y ≡ pos (10 * k + 2)
    → 10 * k + 11 < 2 ^ 31
    → raise y ≡ some (pos (10 * suc k + 2))
raise_second_fits y k f h = raise_to y (10 * k + 2) (10 * suc k + 2) f (omega arith) (omega arith)

in_range : (n : ℕ) → (n < 2 ^ 31) ⊎ (2 ^ 31 ≤ n)
in_range n = ground arith

-- The cells by the next step of the writer: before the loop as stored, in the loop `k` rounds on.
abbrev pub Cells : Writer → ℤ → ℤ → Type 0
Cells store_first x y = Unit
Cells store_second x y = x ≡ pos 1
Cells bind_writer x y = (x ≡ pos 1) × (y ≡ pos 2)
Cells raise_first x y =
    (k : ℕ) × (x ≡ pos (10 * k + 1)) × (y ≡ pos (10 * k + 2)) × (10 * k + 1 < 2 ^ 31)
Cells raise_second x y =
    (k : ℕ) × (x ≡ pos (10 * k + 11)) × (y ≡ pos (10 * k + 2)) × (10 * k + 11 < 2 ^ 31)
Cells writer_left x y = (x ≡ pos 1) × (y ≡ pos 2)
Cells overflowed x y = (x ≡ pos 2147483641) × (y ≡ pos 2147483642)

abbrev pub CellsOf : State → Type 0
CellsOf s = Cells s.writer s.mem1 s.mem2

module _ (run_on : ℕ → ℤ) where
  bound-Cells :
      (b : Bool) (s : State) → Cells bind_writer s.mem1 s.mem2 → CellsOf (bound_writer run_on b s)
  unfolding bound_writer
  bound-Cells true s h = h
  bound-Cells false s h = (0, h.0, h.1, omega arith)

  raised_first-Cells :
      (s : State) → Cells raise_first s.mem1 s.mem2 → CellsOf (raised_first run_on (raise s.mem1) s)
  unfolding raised_first
  raised_first-Cells s (k, e, f, h) = elim (in_range (10 * k + 11)) [
    | inl fits ↦
        subst (λ r. CellsOf (raised_first run_on r s))
          (sym (raise_to s.mem1 (10 * k + 1) (10 * k + 11) e (omega arith) fits)) (k, refl, f, fits)
    | inr over ↦
        let last : k ≡ 214748364 = omega (arith, h, over) in
        subst (λ r. CellsOf (raised_first run_on r s))
          (sym (ap raise e ∙ raise_overflows (10 * k + 1) (omega (arith, over))))
          (e ∙ ap pos (omega (arith, last)), f ∙ ap pos (omega (arith, last)))
  ]

  -- The second addition never overflows: the first one would have.
  raised_second-Cells :
      (s : State)
      → Cells raise_second s.mem1 s.mem2
      → CellsOf (raised_second run_on (raise s.mem2) s)
  unfolding raised_second
  raised_second-Cells s (k, e, f, h) =
      subst (λ r. CellsOf (raised_second run_on r s)) (sym (raise_second_fits s.mem2 k f h))
        (suc k, e ∙ ap pos (omega arith), refl, omega arith)

  write-Cells : (p : Writer) (s : State) → Cells p s.mem1 s.mem2 → CellsOf (write run_on p s)
  unfolding write
  write-Cells store_first s h = refl
  write-Cells store_second s h = (h, refl)
  write-Cells bind_writer s h = bound-Cells (is_neg (run_on 0)) s h
  write-Cells raise_first s h = raised_first-Cells s h
  write-Cells raise_second s h = raised_second-Cells s h
  write-Cells writer_left s h = h
  write-Cells overflowed s h = h

  bound_reader-Cells : (b : Bool) (s : State) → CellsOf s → CellsOf (bound_reader run_on b s)
  unfolding bound_reader
  bound_reader-Cells true s h = h
  bound_reader-Cells false s h = h

  read-Cells : (seen : ℤ) (q : Reader) (s : State) → CellsOf s → CellsOf (read run_on seen q s)
  unfolding read
  read-Cells seen bind_reader s h = bound_reader-Cells (is_neg (run_on 1)) s h
  read-Cells seen read_first s h = h
  read-Cells seen (read_second x) s h = h
  read-Cells seen (print x y) s h = h
  read-Cells seen reader_left s h = h

  reaches-Cells : {old s : State} → CellsOf old → Reaches run_on old s → CellsOf s
  reaches-Cells h begins = h
  reaches-Cells h (writes {s} r) = write-Cells s.writer s (reaches-Cells h r)
  reaches-Cells h (reads {s} seen r) = read-Cells seen s.reader s (reaches-Cells h r)

-- In whatever order the two threads take their steps, whatever the two blocks held and whatever the
-- loads of the reader give, the cells, as their one writer has them, hold what the writer's next step says: 1 and 2 before its loop, where it stays if it cannot be
-- bound; `10 * k + 1` and `10 * k + 2` before a round, and `10 * k + 11` and `10 * k + 2` within it,
-- all in the range of an `int`; and an addition overflows only with 2147483641 and 2147483642 in the
-- cells, so that it is always the first one.
pub barrier-Cells :
    (run_on : ℕ → ℤ) (x y : ℤ) (s : State)
    → Reaches run_on (started x y) s
    → Cells s.writer s.mem1 s.mem2
barrier-Cells run_on x y s r = reaches-Cells run_on tt r
