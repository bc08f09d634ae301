-- ===== src/Net/Texts.antt =====
-- Texts in buffers: where the zero stands, and what a store over the start of a buffer leaves.
use communication_speed.Prelude.{
  ℕ, zero, suc, ◌<◌, ◌≡◌, ◌∙◌, ◌==◌, ==_iff, refl, sym, ap, arith, List, [], ◌∷◌, ◌++◌, length,
  drop, Bool, true, false, ◌&&◌, some,
}
use mathlib.Core.List.{append_assoc}
use communication_speed.Net.{put, text_of, starts, hello, terminated}

abbrev pub NoZero : List ℕ → Type 0
NoZero [] = Unit
NoZero (b ∷ bs) = (0 < b) × NoZero bs

pub text_of-NoZero : (text rest : List ℕ) → NoZero text → text_of (text ++ 0 ∷ rest) ≡ some text
unfolding text_of
text_of-NoZero [] rest h = refl
text_of-NoZero (zero ∷ text) rest h = absurd (omega (arith, h.0))
text_of-NoZero (suc b ∷ text) rest h = rw (text_of-NoZero text rest h.1) refl

drop-append : (old rest : List ℕ) (n : ℕ) → length old ≡ n → drop n (old ++ rest) ≡ rest
drop-append [] rest zero e = refl
drop-append [] rest (suc n) e = absurd (omega (arith, e))
drop-append (b ∷ old) rest zero e = absurd (omega (arith, e))
drop-append (b ∷ old) rest (suc n) e = drop-append old rest n (omega (arith, e))

text_of-append :
    (message behind rest : List ℕ)
    → NoZero message
    → NoZero behind
    → text_of (message ++ (behind ++ 0 ∷ rest)) ≡ some (message ++ behind)
unfolding text_of
text_of-append [] behind rest h h' = text_of-NoZero behind rest h'
text_of-append (zero ∷ message) behind rest h h' = absurd (omega (arith, h.0))
text_of-append (suc b ∷ message) behind rest h h' =
    rw (text_of-append message behind rest h.1 h') refl

-- What a buffer with the text `old ++ behind` holds once a message is stored over `old`.
pub text_of-put :
    (message old behind rest : List ℕ)
    → NoZero message
    → NoZero behind
    → length old ≡ length message
    → text_of (put message (old ++ (behind ++ 0 ∷ rest))) ≡ some (message ++ behind)
text_of-put message old behind rest h h' e =
    ap (λ l. text_of (message ++ l)) (drop-append old (behind ++ 0 ∷ rest) (length message) e)
    ∙ text_of-append message behind rest h h'

pos_suc : (n : ℕ) → 0 < suc n
pos_suc n = omega arith

&&-true : (a b : Bool) → (a && b) ≡ true → (a ≡ true) × (b ≡ true)
&&-true true b h = (refl, h)
&&-true false b h = cc

starts-cons :
    (b c : ℕ) (bs buf : List ℕ)
    → starts (b ∷ bs) (c ∷ buf) ≡ true
    → (b ≡ c) × (starts bs buf ≡ true)
starts-cons b c bs buf h = let e = &&-true (b == c) (starts bs buf) h in ((==_iff b c).0 e.0, e.1)

==_refl : (b : ℕ) → (b == b) ≡ true
==_refl b = (==_iff b b).1 refl

pub starts-append : (bytes rest : List ℕ) → starts bytes (bytes ++ rest) ≡ true
starts-append [] rest = refl
starts-append (b ∷ bytes) rest = rw (==_refl b) (starts-append bytes rest)

-- Bytes with which a buffer starts leave it as it is.
pub put-starts : (bytes buf : List ℕ) → starts bytes buf ≡ true → put bytes buf ≡ buf
put-starts [] buf h = refl
put-starts (b ∷ bytes) [] h = cc
put-starts (b ∷ bytes) (c ∷ buf) h =
    let e = starts-cons b c bytes buf h in
    ap (λ l. b ∷ l) (put-starts bytes buf e.1) ∙ ap (λ x. x ∷ buf) e.0

-- What a text starts with, a buffer that starts with the text starts with.
pub starts-starts :
    (bytes m rest buf : List ℕ)
    → starts bytes m ≡ true
    → starts (m ++ rest) buf ≡ true
    → starts bytes buf ≡ true
starts-starts [] m rest buf h k = refl
starts-starts (b ∷ bytes) [] rest buf h k = cc
starts-starts (b ∷ bytes) (c ∷ m) rest [] h k = cc
starts-starts (b ∷ bytes) (c ∷ m) rest (d ∷ buf) h k =
    let e = starts-cons b c bytes m h in
    let g = starts-cons c d (m ++ rest) buf k in
    rw (sym g.0, e.0, ==_refl c) (starts-starts bytes m rest buf e.1 g.1)

pub text_of-starts :
    (m buf : List ℕ) → NoZero m → starts (terminated m) buf ≡ true → text_of buf ≡ some m
text_of-starts m buf h s =
    let rest : List ℕ = drop (length (terminated m)) buf in
    ap text_of (sym (put-starts (terminated m) buf s))
    ∙ ap text_of (append_assoc m (0 ∷ []) rest)
    ∙ text_of-NoZero m rest h

-- no zero among the bytes, tested
abbrev no_zeros : List ℕ → Bool
no_zeros [] = true
no_zeros (zero ∷ bs) = false
no_zeros (suc b ∷ bs) = no_zeros bs

all_NoZero : (bs : List ℕ) → no_zeros bs ≡ true → NoZero bs
all_NoZero [] h = tt
all_NoZero (zero ∷ bs) h = cc
all_NoZero (suc b ∷ bs) h = (pos_suc b, all_NoZero bs h)

pub hello-NoZero : NoZero hello
hello-NoZero = all_NoZero hello refl
