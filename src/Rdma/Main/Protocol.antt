-- ===== src/Rdma/Main/Protocol.antt =====
-- What the two sides do once they are connected, as phases that their calls lead through.
use communication_speed.Prelude.{ℕ, ◌≡◌, List, ◌∷◌, Bool, true, false, Option, none, some}
use communication_speed.Prelude.Text.{codes}
use communication_speed.Prelude.Int.{pos, truthy, is_pos}
use communication_speed.Rdma.Types.{
  Resources, Call, Reply, Event, wr_send, rdma_read, rdma_write, write, read, gettimeofday, poll_cq,
  post_send, strcpy,
}
use communication_speed.Rdma.Machine.{Env}
use communication_speed.Rdma.Post.{send_wr}
use communication_speed.Rdma.Main.{rdma_msg_r, rdma_msg_w}

-- The server, and the client.
pub data Side : Type 0 where
  serves asks : Side

abbrev pub side_of : Option (List ℕ) → Side
side_of none = serves
side_of (some name) = asks

-- The server's message goes over (the server posts it, both wait for a completion); the server puts
-- its text; the sides meet; the client reads the text, puts its own and writes it; the sides meet.
pub data Phase : Type 0 where
  connected message_posted message_done text_put r_offered r_met : Phase
  read_posted read_done text_changed write_posted write_done w_offered w_met : Phase

-- A completion with success.
abbrev pub Completes : Env → Reply → Type 0
Completes env reply = (is_pos reply.code ≡ true) × (reply.stored ≡ env.wc_success)

module _ (env : Env) (r : Resources) where
  abbrev event : Call → Reply → Event
  event call reply = record { call = call; reply = reply }

  -- The calls that lead from one phase to the next.
  pub data Next : Side → Phase → Event → Phase → Type 0 where
    posts_message :
        {reply : Reply}
        → truthy reply.code ≡ false
        → Next serves connected
            (event (post_send r.qp (send_wr env r wr_send)) reply)
            message_posted
    message_sent :
        {reply : Reply}
        → Completes env reply
        → Next serves message_posted (event (poll_cq r.cq) reply) message_done
    message_received :
        {reply : Reply}
        → Completes env reply
        → Next asks connected (event (poll_cq r.cq) reply) message_done
    puts_text :
        {reply : Reply} → Next serves message_done (event (strcpy r.buf rdma_msg_r) reply) text_put
    server_offers :
        {reply : Reply}
        → reply.code ≡ pos 1
        → Next serves text_put (event (write r.sock (codes "R")) reply) r_offered
    client_offers :
        {reply : Reply}
        → reply.code ≡ pos 1
        → Next asks message_done (event (write r.sock (codes "R")) reply) r_offered
    meets_r :
        {side : Side} {reply : Reply}
        → is_pos reply.code ≡ true
        → Next side r_offered (event (read r.sock 1) reply) r_met
    posts_read :
        {reply : Reply}
        → truthy reply.code ≡ false
        → Next asks r_met (event (post_send r.qp (send_wr env r rdma_read)) reply) read_posted
    has_read :
        {reply : Reply}
        → Completes env reply
        → Next asks read_posted (event (poll_cq r.cq) reply) read_done
    changes_text :
        {reply : Reply} → Next asks read_done (event (strcpy r.buf rdma_msg_w) reply) text_changed
    posts_write :
        {reply : Reply}
        → truthy reply.code ≡ false
        → Next asks text_changed
            (event (post_send r.qp (send_wr env r rdma_write)) reply)
            write_posted
    has_written :
        {reply : Reply}
        → Completes env reply
        → Next asks write_posted (event (poll_cq r.cq) reply) write_done
    server_ends :
        {reply : Reply}
        → reply.code ≡ pos 1
        → Next serves r_met (event (write r.sock (codes "W")) reply) w_offered
    client_ends :
        {reply : Reply}
        → reply.code ≡ pos 1
        → Next asks write_done (event (write r.sock (codes "W")) reply) w_offered
    meets_w :
        {side : Side} {reply : Reply}
        → is_pos reply.code ≡ true
        → Next side w_offered (event (read r.sock 1) reply) w_met

  -- Calls that may stand anywhere between.
  abbrev pub waits : Call → Bool
  waits gettimeofday = true
  waits (poll_cq cq) = true
  waits (read fd size) = true
  waits _ = false

  -- The calls since `old` have led the side, connected then, to the phase, with only waiting calls
  -- beside those that lead on.
  pub data Follows (side : Side) (old : List Event) : List Event → Phase → Type 0 where
    begins : Follows side old old connected
    leads :
        {e : Event} {t : List Event} {p q : Phase}
        → Next side p e q
        → Follows side old t p
        → Follows side old (e ∷ t) q
    waiting :
        {e : Event} {t : List Event} {p : Phase}
        → waits e.call ≡ true
        → Follows side old t p
        → Follows side old (e ∷ t) p
