-- ===== src/Disk/Run.antt =====
-- `diskmain` from its command line to its end.
use communication_speed.Prelude.{ℕ, ◌≤◌, ◌<◌, ◌≡◌, ◌⊎◌, List, [], ◌∷◌, length}
use communication_speed.Prelude.Int.{ℤ, truthy, to_nat}
use communication_speed.Prelude.Io.{Event, Wanted}
use communication_speed.Disk.{m_size, Call, Reply, Opt, opt_f, to_int}
use communication_speed.Disk.Written.{copies, Written, Broken}
use communication_speed.Disk.Record.{Story, nothing, more, story, Below255}

-- What `-f` asked for last, as an `int`, if it asked.
abbrev pub asked : List Opt → ℤ → ℤ
asked [] n = n
asked (opt_f n ∷ opts) _ = asked opts (to_int n)
asked (_ ∷ opts) n = asked opts n

-- The end of the body, where `size` records were to be written.
pub record Finished (size : ℤ) (s : Story) : Type 0 where
  pub text : List ℕ
  pub count : ℕ
  pub all : length text ≡ m_size
  pub below : Below255 text
  pub wrote : s.wrote ≡ copies count text []
  pub ends :
      ((count ≡ to_nat size) × (s.errors ≡ 0))
      ⊎ ((0 < count) × (count ≤ to_nat size) × (s.errors ≡ 1))
  pub closed : s.closed ≡ 1
  pub deleted : s.deleted ≡ 1
  pub short : s.short ≡ 0
  pub no_block : s.no_block ≡ 0

-- The other ends: before the file is open, at a call of `write`, and at a record without a block.
abbrev pub Others : Wanted (Event Call Reply)
Others = record {
  at_exit = λ t. ((story t).wrote ≡ []) × ((story t).closed ≡ 0) × ((story t).deleted ≡ 0);
  at_assert = λ t. Broken nothing (story t);
  at_fault = λ t.
      ((story t).wrote ≡ [])
      × ((story t).closed ≡ 0)
      × ((story t).deleted ≡ 0)
      × ((story t).no_block ≡ 1);
  at_kill = λ t. ⊥;
  at_spin = λ t. ⊥;
}

-- Once a block was asked for.
abbrev begun : Reply → Story
begun buf = record nothing { no_block = more (truthy buf.code) 0 }
