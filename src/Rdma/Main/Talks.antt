-- ===== src/Rdma/Main/Talks.antt =====
-- What the two sides do once they are connected, step by step.

use communication_speed.Prelude.{ℕ, List, Option, none, some}
use communication_speed.Prelude.Text.{codes}
use communication_speed.Prelude.Int.{ℤ}
use communication_speed.Rdma.Types.{Event, wr_send, rdma_read, rdma_write}
use communication_speed.Rdma.Machine.{Env, World, M, ◌>>◌}
use communication_speed.Rdma.Socket.{poll_completion}
use communication_speed.Rdma.Post.{send}
use communication_speed.Rdma.Main.{
  rdma_msg_r, rdma_msg_w, need, meet, send_message, put_text, offer_text, read_and_write,
}
use communication_speed.Rdma.Main.Protocol.{
  Phase, serves, asks, side_of, connected, message_posted, message_done, text_put, r_offered, r_met,
  read_posted, read_done, text_changed, write_posted, write_done, w_offered, w_met, posts_message,
  message_sent, message_received, puts_text, server_offers, client_offers, meets_r, posts_read,
  has_read, changes_text, posts_write, has_written, server_ends, client_ends, meets_w, Follows,
  begins,
}
use communication_speed.Rdma.Main.Phases.{
  Ending, Ending-bind, Tried, need-Ending, Now, send-Ending, put-Ending,
}
use communication_speed.Rdma.Main.Waits.{poll-Ending, meet-Ending}

module _ (env : Env) (fuel : ℕ) where
  -- A step that succeeds, then the others.
  need_then :
      (P Q : World → Type 0) (m : M ℤ) (n : M (Unit {0})) (w : World)
      → Ending (Tried P) (m w)
      → ((w' : World) → P w' → Ending (λ _. Q) (n w'))
      → Ending (λ _. Q) ((need env fuel m >> n) w)
  need_then P Q m n w h k =
      Ending-bind (λ _. P) (λ _. Q) (need env fuel m w) (λ _. n) (need-Ending env fuel P m w h)
        (λ u w' p. k w' p)

  and_then :
      (P Q : World → Type 0) (m n : M (Unit {0})) (w : World)
      → Ending (λ _. P) (m w)
      → ((w' : World) → P w' → Ending (λ _. Q) (n w'))
      → Ending (λ _. Q) ((m >> n) w)
  and_then P Q m n w h k = Ending-bind (λ _. P) (λ _. Q) (m w) (λ _. n) h (λ u w' p. k w' p)

  -- What follows `connect_qp`.
  abbrev pub talk : Option (List ℕ) → M (Unit {0})
  talk server = do
    send_message env fuel server
    need env fuel (poll_completion env fuel)
    offer_text env fuel server
    need env fuel (meet env fuel (codes "R"))
    read_and_write env fuel server
    need env fuel (meet env fuel (codes "W"))

  server_talks :
      (w : World) → Ending (λ _ w'. Follows env w'.res serves w.trace w'.trace w_met) (talk none w)
  server_talks w =
      let Q = Now env serves w.trace w_met in
      let at : Phase → World → Type 0 = λ p. Now env serves w.trace p in
      let poll = poll_completion env fuel in
      need_then (at message_posted) Q (send env wr_send) _ w
        (send-Ending env serves w.trace wr_send connected message_posted w
          (λ reply c. posts_message c) begins)
        λ w1 h1.
          need_then (at message_done) Q poll _ w1
            (poll-Ending env serves w.trace message_posted message_done fuel w1
              (λ reply c. message_sent c) h1)
            λ w2 h2.
              and_then (at text_put) Q (put_text env fuel rdma_msg_r) _ w2
                (put-Ending env serves w.trace fuel rdma_msg_r message_done text_put w2
                  (λ reply. puts_text) h2)
                λ w3 h3.
                  need_then (at r_met) Q (meet env fuel (codes "R")) _ w3
                    (meet-Ending env serves w.trace text_put r_offered r_met fuel (codes "R") w3
                      (λ reply c. server_offers c) (λ reply c. meets_r c) h3)
                    λ w4 h4. need-Ending env fuel Q (meet env fuel (codes "W")) w4 (
                      meet-Ending env serves w.trace r_met w_offered w_met fuel (codes "W") w4
                        (λ reply c. server_ends c) (λ reply c. meets_w c) h4)

  -- The client's read of the buffer, and its write.
  client_reads_and_writes :
      (old : List Event) (name : List ℕ) (w : World)
      → Now env asks old r_met w
      → Ending (λ _. Now env asks old write_done) (read_and_write env fuel (some name) w)
  client_reads_and_writes old name w h =
      let Q = Now env asks old write_done in
      let at : Phase → World → Type 0 = λ p. Now env asks old p in
      let poll = poll_completion env fuel in
      need_then (at read_posted) Q (send env rdma_read) _ w
        (send-Ending env asks old rdma_read r_met read_posted w (λ reply c. posts_read c) h)
        λ w1 h1.
          need_then (at read_done) Q poll _ w1
            (poll-Ending env asks old read_posted read_done fuel w1 (λ reply c. has_read c) h1)
            λ w2 h2.
              and_then (at text_changed) Q (put_text env fuel rdma_msg_w) _ w2
                (put-Ending env asks old fuel rdma_msg_w read_done text_changed w2
                  (λ reply. changes_text) h2)
                λ w3 h3.
                  need_then (at write_posted) Q (send env rdma_write) _ w3
                    (send-Ending env asks old rdma_write text_changed write_posted w3
                      (λ reply c. posts_write c) h3)
                    λ w4 h4. need-Ending env fuel Q poll w4 (
                      poll-Ending env asks old write_posted write_done fuel w4
                        (λ reply c. has_written c) h4)

  client_talks :
      (name : List ℕ) (w : World)
      → Ending (λ _ w'. Follows env w'.res asks w.trace w'.trace w_met) (talk (some name) w)
  client_talks name w =
      let Q = Now env asks w.trace w_met in
      let at : Phase → World → Type 0 = λ p. Now env asks w.trace p in
      need_then (at message_done) Q (poll_completion env fuel) _ w
        (poll-Ending env asks w.trace connected message_done fuel w (λ reply c. message_received c)
          begins)
        λ w1 h1.
          need_then (at r_met) Q (meet env fuel (codes "R")) _ w1
            (meet-Ending env asks w.trace message_done r_offered r_met fuel (codes "R") w1
              (λ reply c. client_offers c) (λ reply c. meets_r c) h1)
            λ w2 h2.
              and_then (at write_done) Q (read_and_write env fuel (some name)) _ w2
                (client_reads_and_writes w.trace name w2 h2)
                λ w3 h3. need-Ending env fuel Q (meet env fuel (codes "W")) w3 (
                  meet-Ending env asks w.trace write_done w_offered w_met fuel (codes "W") w3
                    (λ reply c. client_ends c) (λ reply c. meets_w c) h3)

  pub talk-Ending :
      (server : Option (List ℕ)) (w : World)
      → Ending (λ _ w'. Follows env w'.res (side_of server) w.trace w'.trace w_met) (talk server w)
  talk-Ending none w = server_talks w
  talk-Ending (some name) w = client_talks name w
