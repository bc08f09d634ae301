-- ===== src/Disk/Tests.antt =====
-- disk/Generate.cpp on a fixed operating system.
use communication_speed.Prelude.{◌≡◌, refl, List, [], ◌∷◌}
use communication_speed.Prelude.Int.{pos, negsuc}
use communication_speed.Prelude.Io.{Answers, done, ask}
use communication_speed.Disk.{
  m_size, Call, rand, open_raw, write, Reply, Trace, Opt, opt_f, opt_s, random_bytes, to_int,
}

abbrev block : Reply
block = record { code = pos 0; stored = 64 }

-- Every block is given, every write complete, and `rand` answers 511.
abbrev calm : Answers Call Reply
calm t rand = record { code = pos 0; stored = 511 }
calm t (write fd bytes) = record { code = pos m_size; stored = 0 }
calm t open_raw = record { code = pos 3; stored = 0 }
calm t _ = block

abbrev two_records : List Opt
two_records = opt_f (pos 5) ∷ opt_s (pos 512) ∷ opt_f (pos 2) ∷ []

abbrev drawn_once : Trace
drawn_once = record { call = rand; reply = record { code = pos 0; stored = 511 } } ∷ []

-- 4294967297 asks for one record, 2147483648 for none.
cut_to_one : to_int (pos 4294967297) ≡ pos 1
unfolding to_int
cut_to_one = refl

cut_to_none : to_int (pos 2147483648) ≡ negsuc 2147483647
unfolding to_int
cut_to_none = refl

cut_below : to_int (negsuc 2147483648) ≡ pos 2147483647
unfolding to_int
cut_below = refl

one_byte : random_bytes calm 1 [] ≡ done (1 ∷ []) drawn_once
unfolding random_bytes ask
one_byte = refl
