-- ===== src/Rdma/Connect/Tests.antt =====
-- A connection that comes about.
use communication_speed.Prelude.{
  ℕ, zero, suc, ◌≡◌, refl, arith, List, [], ◌∷◌, ◌==◌, length, if◌then◌else◌,
}
use communication_speed.Prelude.Int.{pos}
use communication_speed.Rdma.Types.{Call, Reply, Event, read, write, query_gid, rts}
use communication_speed.Rdma.Machine.{Env, World, ok}
use communication_speed.Rdma.Connect.{connect_qp, zeros, con_bytes, local_con_data}
use communication_speed.Rdma.Connect.States.{Reaches}
use communication_speed.Rdma.Connect.Wire.{own_data}
use communication_speed.Rdma.Connect.Meets.{connect_qp_meets}
use communication_speed.Rdma.Tests.{side, set_up, gid, ready, reply, bytes_reply}

abbrev padding : List ℕ
padding = 9 ∷ 9 ∷ 9 ∷ 9 ∷ 9 ∷ 9 ∷ []

abbrev message : List ℕ
message = con_bytes (local_con_data side set_up gid) padding

-- The partner sends the data at once, and a byte when one is asked for.
abbrev partner : List Event → Call → Reply
partner t (write fd bytes) = reply (pos (length bytes)) 0
partner t (read fd size) =
    if size == 1 then bytes_reply (pos 1) (81 ∷ []) else bytes_reply (pos size) message
partner t (query_gid ctx port index) = bytes_reply (pos 0) gid
partner t c = reply (pos 0) 0

abbrev near : Env
near = record side { answer = partner; uninit = zeros }

length-zeros : (n : ℕ) → length (zeros n) ≡ n
length-zeros zero = refl
length-zeros (suc n) = omega (arith, length-zeros n)

connect_partner :
    (w' : World) × (connect_qp near 2 ready ≡ ok (pos 0) w')
    × (w'.res ≡ record (ready.res) { remote_props = own_data side set_up gid })
    × Reaches (own_data side set_up gid) ready.trace w'.trace rts
connect_partner =
    connect_qp_meets near side set_up gid padding ready 0
      (record {
        swap_back = λ x h. refl;
        swap_lt = λ x h. h;
        long_back = λ x h. refl;
        long_lt = λ x h. h;
        short_back = λ x h. omega arith;
        short_lt = λ x h. omega arith;
      })
      (record {
        addr = omega arith;
        rkey = omega arith;
        qp_num = omega arith;
        lid = omega arith;
        gid = refl;
      })
      refl
      (record {
        uninit = length-zeros;
        gid = λ t ctx port index. (refl, refl);
        takes = λ t bytes. refl;
        sends = λ t. (refl, refl);
        meets = λ t. (refl, refl);
        modifies = λ t qp a m. refl;
        receives = λ t qp s. refl;
      })
