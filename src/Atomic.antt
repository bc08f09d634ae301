-- ===== src/Atomic.antt =====
-- atomic.h: the locked x86 read-modify-write operations at 8, 16, 32 and 64 bits. One operation is
-- one step on the cell that it is given; the width `w` stands for the four overloads, which differ
-- in nothing else.
pub mod Laws
pub mod Threads
mod Tests
use communication_speed.Prelude.{
  ℕ, zero, suc, ◌+◌, ◌-◌, ◌%◌, ◌^◌, ◌==◌, if◌then◌else◌, Bool, true, false, Option, none, some,
}

-- The value of the cell after the operation, and what the function returns.
pub record Outcome : Type 0 where
  pub cell : ℕ
  pub res : ℕ

-- The overloads of `w` bits.
module _ (w : ℕ) where
  -- lock xadd: the register gets the old value of the cell, the cell their sum.
  unfoldable pub xadd : ℕ → ℕ → Outcome
  xadd cell reg = record { cell = (cell + reg) % 2 ^ w; res = cell }

  -- mov $1; lock xadd; inc
  unfoldable pub atomic_inc : ℕ → Outcome
  atomic_inc cell = let r = xadd cell 1 in record { cell = r.cell; res = (r.res + 1) % 2 ^ w }

  -- mov $0xff..ff; lock xadd; dec
  unfoldable pub atomic_dec : ℕ → Outcome
  atomic_dec cell =
      let r = xadd cell (2 ^ w - 1) in record { cell = r.cell; res = (r.res + 2 ^ w - 1) % 2 ^ w }

  -- mov av; lock xadd
  unfoldable pub atomic_add : ℕ → ℕ → Outcome
  atomic_add cell av = xadd cell av

-- lock cmpxchg: where the cell holds the accumulator it gets the new value, and the zero flag is
-- set; else the accumulator gets the cell's value.
pub record Cmpxchg : Type 0 where
  pub cell : ℕ
  pub acc : ℕ
  pub equal : Bool

unfoldable pub cmpxchg : ℕ → ℕ → ℕ → Cmpxchg
cmpxchg cell nv acc =
    if cell == acc
    then record { cell = nv; acc = acc; equal = true }
    else record { cell = cell; acc = cell; equal = false }

-- One compare and exchange; the accumulator is returned.
unfoldable pub atomic_compare_exchange : ℕ → ℕ → ℕ → Outcome
atomic_compare_exchange cell nv cv =
    let r = cmpxchg cell nv cv in record { cell = r.cell; res = r.acc }

-- `1: lock cmpxchg; jne 1b`, the accumulator first read from the cell. `other k` is what other
-- threads made of the cell before the k-th try; `none` says that the fuel ran out.
unfoldable pub exchange_loop : (ℕ → ℕ → ℕ) → ℕ → ℕ → ℕ → ℕ → ℕ → Option Outcome
exchange_loop other zero k cell nv acc = none
exchange_loop other (suc fuel) k cell nv acc =
    let r = cmpxchg (other k cell) nv acc in
    elim (r.equal) [
      | true ↦ some (record { cell = r.cell; res = r.acc })
      | false ↦ exchange_loop other fuel (suc k) r.cell nv r.acc
    ]

unfoldable pub atomic_exchange : (ℕ → ℕ → ℕ) → ℕ → ℕ → ℕ → Option Outcome
atomic_exchange other fuel cell nv = exchange_loop other fuel 0 cell nv cell

-- A pointer is a word of 64 bits.
unfoldable pub atomic_exchange_pointer : (ℕ → ℕ → ℕ) → ℕ → ℕ → ℕ → Option Outcome
atomic_exchange_pointer other fuel pv nv = atomic_exchange other fuel pv nv

unfoldable pub atomic_compare_exchange_pointer : ℕ → ℕ → ℕ → Outcome
atomic_compare_exchange_pointer pv nv cv = atomic_compare_exchange pv nv cv
