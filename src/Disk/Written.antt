-- ===== src/Disk/Written.antt =====
-- The loop of `diskmain` that writes the records.
use communication_speed.Prelude.{
  ℕ, zero, suc, ◌≤◌, ◌<◌, ◌≡◌, ◌∙◌, ◌⊎◌, inl, inr, refl, ap, arith, List, ◌∷◌, Bool, false, not,
  ◌&&◌,
}
use communication_speed.Prelude.Int.{ℤ, is_neg}
use communication_speed.Prelude.Io.{
  Event, Answers, Wanted, Post, Post-choose, Post-assert, Post-mono, ask,
}
use communication_speed.Disk.{Call, write, Reply, Trace, whole, write_records}
use communication_speed.Disk.Record.{Story, more, story}

-- `k` times the text
abbrev pub copies : ℕ → List ℕ → List (List ℕ) → List (List ℕ)
copies zero text l = l
copies (suc k) text l = copies k text (text ∷ l)

-- The calls of `write`: all `n` of them, or a number of them the last of which failed.
pub record Written (n : ℕ) (text : List ℕ) (old new : Story) : Type 0 where
  pub count : ℕ
  pub wrote : new.wrote ≡ copies count text old.wrote
  pub ends :
      ((count ≡ n) × (new.errors ≡ old.errors))
      ⊎ ((0 < count) × (count ≤ n) × (new.errors ≡ suc old.errors))
  pub closed : new.closed ≡ old.closed
  pub deleted : new.deleted ≡ old.deleted
  pub short : new.short ≡ old.short
  pub no_block : new.no_block ≡ old.no_block

Written-suc :
    {n : ℕ} {text : List ℕ} {old new : Story} (b : Bool)
    → b ≡ false
    → Written n text (record old { wrote = text ∷ old.wrote; short = more b old.short }) new
    → Written (suc n) text old new
Written-suc {n} {text} {old} b h w = record {
  count = suc w.count;
  wrote = w.wrote;
  ends = elim w.ends [
    | inl e ↦ inl (ap suc e.0, e.1)
    | inr e ↦ inr (omega arith, omega (arith, e.1), e.2)
  ];
  closed = w.closed;
  deleted = w.deleted;
  short = w.short ∙ ap (λ c. more c old.short) h;
  no_block = w.no_block;
}

-- A call of `write` that answered neither a negative number nor the whole length.
abbrev pub Broken : Story → Story → Type 0
Broken old new =
    (new.short ≡ suc old.short)
    × (new.closed ≡ old.closed)
    × (new.deleted ≡ old.deleted)
    × (new.no_block ≡ old.no_block)

module _ (answer : Answers Call Reply) (W : Wanted (Event Call Reply)) where
  pub write_records-Written :
      (n : ℕ) (fd : ℤ) (text : List ℕ) (t : Trace)
      → ((t' : Trace) → Broken (story t) (story t') → W.at_assert t')
      → Post (λ u t'. Written n text (story t) (story t')) W (write_records answer n fd text t)
  unfolding write_records ask story
  write_records-Written zero fd text t bad = record {
    count = 0;
    wrote = refl;
    ends = inl (refl, refl);
    closed = refl;
    deleted = refl;
    short = refl;
    no_block = refl;
  }
  write_records-Written (suc n) fd text t bad =
      let P : Unit {0} → Trace → Type 0 = λ u t'. Written (suc n) text (story t) (story t') in
      let c : ℤ = (answer t (write fd text)).code in
      let t1 : Trace = record { call = write fd text; reply = answer t (write fd text) } ∷ t in
      let old : ℕ = (story t).short in
      Post-choose P W (is_neg c) _ _ t1
        (λ neg. record {
          count = 1;
          wrote = refl;
          ends = inr (omega arith, omega arith, refl);
          closed = refl;
          deleted = refl;
          short = rw (neg) refl;
          no_block = refl;
        })
        (λ not_neg.
          Post-assert P W (whole c) (write_records answer n fd text) t1
            (λ h.
              let kept : ◌≡◌ {A = Bool} (not (is_neg c) && not (whole c)) false =
                rw (not_neg, h) refl in
              Post-mono _ P W (write_records answer n fd text t1)
                (write_records-Written n fd text t1
                  (λ t' b. bad t' (b.0 ∙ ap (λ x. suc (more x old)) kept, b.1, b.2, b.3)))
                (λ u t' w. Written-suc _ kept w))
            (λ h. bad t1 (rw (not_neg, h) refl, refl, refl, refl)))
