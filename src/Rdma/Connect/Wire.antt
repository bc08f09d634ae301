-- ===== src/Rdma/Connect/Wire.antt =====
-- The connection data of `connect_qp` as bytes.
use native.Mathlib.Nat.{pow-suc}
use communication_speed.Prelude.{
  ℕ, zero, suc, ◌*◌, ◌/◌, ◌^◌, ◌<◌, ◌≡◌, ◌∙◌, refl, ap, arith, List, [], ◌∷◌, ◌++◌, length, take,
  take-all,
}
use communication_speed.Rdma.Types.{ConData, Resources}
use communication_speed.Rdma.Machine.{Env}
use communication_speed.Rdma.Connect.{
  to_memory, of_memory, con_bytes, con_of_bytes, local_con_data, remote_con_data,
}

of_memory-to_memory : (n x : ℕ) → x < 256 ^ n → of_memory (to_memory n x) ≡ x
unfolding of_memory to_memory
of_memory-to_memory zero x h = omega arith
of_memory-to_memory (suc n) x h =
    let p : 256 ^ suc n ≡ 256 ^ n * 256 = pow-suc 256 n in
    omega (arith, of_memory-to_memory n (x / 256) (omega arith))

take-append : (n : ℕ) (xs ys : List ℕ) → length xs ≡ n → take n (xs ++ ys) ≡ xs
take-append zero [] ys e = refl
take-append zero (x ∷ xs) ys e = absurd (omega (arith, e))
take-append (suc n) [] ys e = absurd (omega (arith, e))
take-append (suc n) (x ∷ xs) ys e = ap (λ t. x ∷ t) (take-append n xs ys (omega (arith, e)))

-- The values that the fields of the struct can hold.
pub record Fits (c : ConData) : Type 0 where
  pub addr : c.addr < 256 ^ 8
  pub rkey : c.rkey < 256 ^ 4
  pub qp_num : c.qp_num < 256 ^ 4
  pub lid : c.lid < 256 ^ 2
  pub gid : length c.gid ≡ 16

-- Connection data whose fields are in range comes back from its bytes, whatever the padding.
pub con_of_bytes-con_bytes :
    (c : ConData) (padding : List ℕ) → Fits c → con_of_bytes (con_bytes c padding) ≡ c
unfolding con_of_bytes con_bytes to_memory
con_of_bytes-con_bytes c padding f =
    let a = of_memory-to_memory 8 c.addr f.addr in
    let r = of_memory-to_memory 4 c.rkey f.rkey in
    let q = of_memory-to_memory 4 c.qp_num f.qp_num in
    let l = of_memory-to_memory 2 c.lid f.lid in
    let g = take-append 16 c.gid padding f.gid in
    λ i. record { addr = a i; rkey = r i; qp_num = q i; lid = l i; gid = g i }

-- What `htonl` and its kin of the sender and `ntohl` and its kin of the receiver are to each other.
pub record Agree (sender receiver : Env) : Type 0 where
  pub swap_back : (x : ℕ) → x < 256 ^ 8 → receiver.bswap_64 (sender.bswap_64 x) ≡ x
  pub swap_lt : (x : ℕ) → x < 256 ^ 8 → sender.bswap_64 x < 256 ^ 8
  pub long_back : (x : ℕ) → x < 256 ^ 4 → receiver.ntohl (sender.htonl x) ≡ x
  pub long_lt : (x : ℕ) → x < 256 ^ 4 → sender.htonl x < 256 ^ 4
  pub short_back : (x : ℕ) → x < 256 ^ 2 → receiver.ntohs (sender.htons x) ≡ x
  pub short_lt : (x : ℕ) → x < 256 ^ 2 → sender.htons x < 256 ^ 2

-- The data that a side is to make known.
abbrev pub own_data : Env → Resources → List ℕ → ConData
own_data env r my_gid = record {
  addr = r.buf;
  rkey = env.rkey_of r.mr;
  qp_num = env.qp_num_of r.qp;
  lid = r.port_lid;
  gid = my_gid;
}

local_con_data-Fits :
    (sender receiver : Env) (r : Resources) (my_gid : List ℕ)
    → Agree sender receiver
    → Fits (own_data sender r my_gid)
    → Fits (local_con_data sender r my_gid)
unfolding local_con_data
local_con_data-Fits sender receiver r my_gid a f = record {
  addr = a.swap_lt r.buf f.addr;
  rkey = a.long_lt (sender.rkey_of r.mr) f.rkey;
  qp_num = a.long_lt (sender.qp_num_of r.qp) f.qp_num;
  lid = a.short_lt r.port_lid f.lid;
  gid = ap length (take-all 16 my_gid f.gid) ∙ f.gid;
}

-- Between sides whose byte orders agree, and for data in the range of its fields, what the receiver
-- makes of the bytes that the sender writes is the sender's buffer address, remote key, queue pair
-- number, local identifier and gid, whatever the padding of the struct holds.
pub remote_con_data-local_con_data :
    (sender receiver : Env) (r : Resources) (my_gid padding : List ℕ)
    → Agree sender receiver
    → Fits (own_data sender r my_gid)
    → remote_con_data receiver (con_of_bytes (con_bytes (local_con_data sender r my_gid) padding))
      ≡ own_data sender r my_gid
unfolding remote_con_data local_con_data
remote_con_data-local_con_data sender receiver r my_gid padding a f =
    ap (remote_con_data receiver) (
      con_of_bytes-con_bytes (local_con_data sender r my_gid) padding
        (local_con_data-Fits sender receiver r my_gid a f))
    ∙ (λ i. record {
      addr = a.swap_back r.buf f.addr i;
      rkey = a.long_back (sender.rkey_of r.mr) f.rkey i;
      qp_num = a.long_back (sender.qp_num_of r.qp) f.qp_num i;
      lid = a.short_back r.port_lid f.lid i;
      gid = take-all 16 my_gid f.gid i;
    })
