-- ===== src/Net/Server/Echo.antt =====
-- What the server makes of the messages that it reads, and how it ends.
use communication_speed.Prelude.{
  ℕ, zero, suc, ◌+◌, ◌<◌, ◌≡◌, ◌∙◌, refl, sym, ap, arith, List, [], ◌∷◌, ◌++◌, length, some, false,
}
use mathlib.Core.List.{append-nil}
use communication_speed.Prelude.Int.{ℤ}
use communication_speed.Prelude.Io.{Answers, done, spin, bind_ended, ◌>>=◌, ask}
use communication_speed.Net.{
  Call, pthread_join, accept, new_chars, read, write, close, Reply, Trace, put, text_of, or_fault,
  unless_broken, send,
}
use communication_speed.Net.Texts.{NoZero, text_of-put}
use communication_speed.Net.Server.{handle, handle_all, receive_handler}

-- What happened: the messages read and the texts written, the last first; the blocks of memory
-- taken; how often a connection was accepted, a thread joined, a socket closed.
pub record Story : Type 0 where
  pub got : List (List ℕ)
  pub sent : List (List ℕ)
  pub blocks : ℕ
  pub accepted : ℕ
  pub joined : ℕ
  pub closed : ℕ

abbrev pub nothing : Story
nothing = record { got = []; sent = []; blocks = 0; accepted = 0; joined = 0; closed = 0 }

abbrev pub note : Call → Reply → Story → Story
note (accept fd) r s = record s { accepted = suc s.accepted }
note (new_chars n) r s = record s { blocks = suc s.blocks }
note (read fd n) r s = record s { got = r.bytes ∷ s.got }
note (write fd bytes) r s = record s { sent = bytes ∷ s.sent }
note pthread_join r s = record s { joined = suc s.joined }
note (close fd) r s = record s { closed = suc s.closed }
note _ r s = s

unfoldable pub story : Trace → Story
story [] = nothing
story (e ∷ t) = note e.call e.reply (story t)

abbrev pub zeros : ℕ → List ℕ
zeros zero = []
zeros (suc n) = 0 ∷ zeros n

length-zeros : (n : ℕ) → length (zeros n) ≡ n
length-zeros zero = refl
length-zeros (suc n) = ap suc (length-zeros n)

zeros-split : (n m : ℕ) → n < m → (k : ℕ) × (zeros m ≡ zeros n ++ (0 ∷ zeros k))
zeros-split n zero h = absurd (omega (arith, h))
zeros-split zero (suc m) h = (m, refl)
zeros-split (suc n) (suc m) h =
    let e = zeros-split n m (omega (arith, h)) in (e.0, ap (λ l. 0 ∷ l) e.1)

-- One message answered by one text, from one block of memory.
abbrev pub sent_as : Story → List ℕ → List ℕ → Story
sent_as s message text = record s {
  got = message ∷ s.got;
  sent = text ∷ s.sent;
  blocks = suc s.blocks;
}

module _ (answer : Answers Call Reply) where
  -- The events of a round up to the read.
  abbrev pub after_read : ℤ → Trace → Trace
  after_read fd t =
      let t1 : Trace = record { call = new_chars 128; reply = answer t (new_chars 128) } ∷ t in
      record { call = read fd 128; reply = answer t1 (read fd 128) } ∷ t1

  abbrev pub message_at : ℤ → Trace → List ℕ
  message_at fd t =
      (answer (record { call = new_chars 128; reply = answer t (new_chars 128) } ∷ t)
        (read fd 128)).bytes

  -- A round whose message has no zero, and whose fresh memory holds `old` where the message is put,
  -- then the text `behind` with its zero, sends the message with `behind` after it, and takes one
  -- block; it ends there, or with the process where that write finds its connection broken.
  pub handle_sends :
      (fd : ℤ) (t : Trace) (old behind rest : List ℕ)
      → (answer t (new_chars 128)).bytes ≡ old ++ (behind ++ 0 ∷ rest)
      → length old ≡ length (message_at fd t)
      → NoZero (message_at fd t)
      → NoZero behind
      → (after : Trace) × (handle answer fd t
          ≡ unless_broken
              (answer (after_read fd t) (write fd (message_at fd t ++ behind))).broken
              after)
        × (story after ≡ sent_as (story t) (message_at fd t) (message_at fd t ++ behind))
  unfolding handle ask story
  handle_sends fd t old behind rest fresh e h h' =
      let message : List ℕ = message_at fd t in
      let sent : text_of (put message (answer t (new_chars 128)).bytes) ≡ some (message ++ behind) =
        ap (λ l. text_of (put message l)) fresh ∙ text_of-put message old behind rest h h' e in
      let call : Call = write fd (message ++ behind) in
      (
        record { call = call; reply = answer (after_read fd t) call } ∷ after_read fd t,
        ap (λ o. (or_fault o >>= λ text. send answer fd text) (after_read fd t)) sent,
        refl,
      )

  -- What the operating system may do for the handler to be a server that echoes: fresh memory is
  -- zero; a message, which may be empty, has no zero and is shorter than the buffer; and no write
  -- finds its connection broken.
  abbrev pub Calm : Type 0
  Calm =
      ((t : Trace) → (answer t (new_chars 128)).bytes ≡ zeros 128)
      × ((t : Trace) (fd : ℤ) → NoZero (answer t (read fd 128)).bytes)
      × ((t : Trace) (fd : ℤ) → length (answer t (read fd 128)).bytes < 128)
      × ((t : Trace) (fd : ℤ) (bytes : List ℕ) → (answer t (write fd bytes)).broken ≡ false)

  pub handle_echoes :
      (fd : ℤ) (t : Trace)
      → Calm
      → (after : Trace) × (handle answer fd t ≡ done tt after)
        × (story after ≡ sent_as (story t) (message_at fd t) (message_at fd t))
  handle_echoes fd t (fresh, no_zero, short, whole) =
      let n : ℕ = length (message_at fd t) in
      let split = zeros-split n 128 (short _ fd) in
      let r =
        handle_sends fd t (zeros n) [] (zeros split.0) (fresh t ∙ split.1) (length-zeros n)
          (no_zero _ fd) tt in
      (
        r.0,
        r.1 ∙ ap (λ b. unless_broken b r.0) (whole _ fd _),
        r.2 ∙ ap (sent_as (story t) (message_at fd t)) (append-nil (message_at fd t)),
      )

  handle_all_echoes :
      (fuel : ℕ) (fd : ℤ) (t : Trace)
      → Calm
      → (story t).sent ≡ (story t).got
      → (after : Trace) × (handle_all answer fuel fd t ≡ spin after)
        × ((story after).sent ≡ (story after).got)
        × ((story after).blocks ≡ fuel + (story t).blocks)
        × (length (story after).got ≡ fuel + length (story t).got)
  unfolding handle_all
  handle_all_echoes zero fd t calm e = (t, refl, e, omega arith, omega arith)
  handle_all_echoes (suc fuel) fd t calm e =
      let h = handle_echoes fd t calm in
      let g =
        handle_all_echoes fuel fd h.0 calm
          (ap (λ s. s.sent) h.2 ∙ ap (λ l. message_at fd t ∷ l) e ∙ sym (ap (λ s. s.got) h.2)) in
      (
        g.0,
        ap (λ r. bind_ended r (λ u. handle_all answer fuel fd)) h.1 ∙ g.1,
        g.2,
        omega (arith, g.3, ap (λ s. s.blocks) h.2),
        omega (arith, g.4, ap (λ s. length s.got) h.2),
      )

  -- Where fresh memory is zero, each message, which may be empty as at the end of a connection, has no
  -- zero and is shorter than the buffer, and no write finds its connection broken, `receiveHandler`
  -- has not returned after any number of rounds; in each it has taken one more block of memory and sent back the message it read.
  pub receive_handler_echoes :
      (fuel : ℕ) (fd : ℤ)
      → Calm
      → (after : Trace) × (receive_handler answer fuel fd [] ≡ spin after)
        × ((story after).sent ≡ (story after).got)
        × ((story after).blocks ≡ fuel)
        × (length (story after).got ≡ fuel)
  unfolding receive_handler ask story
  receive_handler_echoes fuel fd calm =
      let r : Reply = answer [] (accept fd) in
      let g =
        handle_all_echoes fuel r.code (record { call = accept fd; reply = r } ∷ []) calm refl in
      (g.0, g.1, g.2, omega (arith, g.3), omega (arith, g.4))
