-- ===== src/Disk/Record.antt =====
-- `Generate::genRecord`, and what the calls of a run leave on the disk.
use communication_speed.Prelude.{
  ℕ, zero, suc, ◌%◌, ◌<◌, ◌≡◌, refl, ap, arith, List, [], ◌∷◌, Bool, true, false, length, not, ◌&&◌,
}
use communication_speed.Prelude.Int.{is_neg, truthy}
use communication_speed.Prelude.Io.{Event, Answers, Ended, done, bind_ended, pure, ask}
use communication_speed.Disk.{
  m_size, Call, posix_memalign, rand, write, close, delete, print, Message, write_error, Reply,
  Trace, random_bytes, gen_record, whole,
}

-- What happened in a run: the texts of the calls of `write`, the last first; how many of these calls
-- answered neither a negative number nor the whole length; the write errors printed; how often a
-- descriptor was closed, the block was deleted, and a block was asked for in vain.
pub record Story : Type 0 where
  pub wrote : List (List ℕ)
  pub short : ℕ
  pub errors : ℕ
  pub closed : ℕ
  pub deleted : ℕ
  pub no_block : ℕ

abbrev pub nothing : Story
nothing = record { wrote = []; short = 0; errors = 0; closed = 0; deleted = 0; no_block = 0 }

-- one more if `b`
abbrev pub more : Bool → ℕ → ℕ
more true n = suc n
more false n = n

abbrev pub note_message : Message → Story → Story
note_message write_error s = record s { errors = suc s.errors }
note_message _ s = s

abbrev pub note : Call → Reply → Story → Story
note (posix_memalign a n) r s = record s { no_block = more (truthy r.code) s.no_block }
note (write fd bytes) r s = record s {
  wrote = bytes ∷ s.wrote;
  short = more (not (is_neg r.code) && not (whole r.code)) s.short;
}
note (close fd) r s = record s { closed = suc s.closed }
note (delete p) r s = record s { deleted = suc s.deleted }
note (print m) r s = note_message m s
note _ r s = s

unfoldable pub story : Trace → Story
story [] = nothing
story (e ∷ t) = note e.call e.reply (story t)

-- All bytes are below 255.
abbrev pub Below255 : List ℕ → Type 0
Below255 [] = Unit
Below255 (b ∷ bs) = (b < 255) × Below255 bs

pub record Drawn (answer : Answers Call Reply) (n : ℕ) (t : Trace)
    (r : Ended (Event Call Reply) (List ℕ)) : Type 0 where
  pub bytes : List ℕ
  pub after : Trace
  pub returns : r ≡ done bytes after
  pub all : length bytes ≡ n
  pub below : Below255 bytes
  pub same_story : story after ≡ story t

mod_lt : (x : ℕ) → x % 255 < 255
mod_lt x = omega arith

module _ (answer : Answers Call Reply) where
  Drawn-suc :
      (n : ℕ) (t : Trace)
      → let e : Event Call Reply = record { call = rand; reply = answer t rand } in
        Drawn answer n (e ∷ t) (random_bytes answer n (e ∷ t))
        → Drawn answer (suc n) t (random_bytes answer (suc n) t)
  unfolding random_bytes ask story
  Drawn-suc n t d = record {
    bytes = (answer t rand).stored % 255 ∷ d.bytes;
    after = d.after;
    returns = ap (λ m. bind_ended m (λ rest. pure ((answer t rand).stored % 255 ∷ rest))) d.returns;
    all = ap suc d.all;
    below = (mod_lt (answer t rand).stored, d.below);
    same_story = d.same_story;
  }

  pub random_bytes-Drawn : (n : ℕ) (t : Trace) → Drawn answer n t (random_bytes answer n t)
  unfolding random_bytes
  random_bytes-Drawn zero t = record {
    bytes = [];
    after = t;
    returns = refl;
    all = refl;
    below = tt;
    same_story = refl;
  }
  random_bytes-Drawn (suc n) t =
      Drawn-suc n t (random_bytes-Drawn n (record { call = rand; reply = answer t rand } ∷ t))

  -- With a block, `genRecord` returns a record of `m_size` bytes, each below 255, and has neither
  -- written nor printed anything.
  gen_record_lem :
      (buf : Reply) (t : Trace)
      → truthy buf.code ≡ false
      → Drawn answer m_size t (gen_record answer buf t)
  unfolding gen_record
  gen_record_lem buf t h = rw (gen_record, h) (random_bytes-Drawn m_size t)
