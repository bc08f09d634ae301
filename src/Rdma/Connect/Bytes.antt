-- ===== src/Rdma/Connect/Bytes.antt =====
-- The size of the connection data on the wire.
use communication_speed.Prelude.{
  ℕ, zero, suc, ◌/◌, ◌≡◌, refl, arith, List, ◌++◌, length, length-append,
}
use communication_speed.Rdma.Types.{ConData}
use communication_speed.Rdma.Connect.{to_memory, con_bytes, con_data_size}

length-to_memory : (n x : ℕ) → length (to_memory n x) ≡ n
unfolding to_memory
length-to_memory zero x = refl
length-to_memory (suc n) x = omega (arith, length-to_memory n (x / 256))

pub length-con_bytes :
    (c : ConData) (padding : List ℕ)
    → length c.gid ≡ 16
    → length padding ≡ 6
    → length (con_bytes c padding) ≡ con_data_size
unfolding con_bytes
length-con_bytes c padding g p =
    let a = to_memory 8 c.addr in
    let r = to_memory 4 c.rkey in
    let q = to_memory 4 c.qp_num in
    let l = to_memory 2 c.lid in
    omega (
      arith,
      length-append a (r ++ (q ++ (l ++ (c.gid ++ padding)))),
      length-append r (q ++ (l ++ (c.gid ++ padding))),
      length-append q (l ++ (c.gid ++ padding)),
      length-append l (c.gid ++ padding),
      length-append c.gid padding,
      length-to_memory 8 c.addr,
      length-to_memory 4 c.rkey,
      length-to_memory 4 c.qp_num,
      length-to_memory 2 c.lid,
      g,
      p,
    )
