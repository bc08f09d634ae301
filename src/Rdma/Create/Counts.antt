-- ===== src/Rdma/Create/Counts.antt =====
-- Handles: what the calls of a trace acquired and gave back, each handle by its kind and its number.
use communication_speed.Prelude.{
  ℕ, zero, suc, ◌+◌, List, [], ◌∷◌, ◌&&◌, Option, none, some, ◌==◌, if◌then◌else◌,
}
use communication_speed.Prelude.Int.{ℤ, pos, negsuc}
use communication_speed.Rdma.Types.{
  Call, Reply, Event, Resources, socket, accept, close, get_device_list, free_device_list,
  open_device, close_device, alloc_pd, dealloc_pd, create_cq, destroy_cq, malloc, free, reg_mr,
  dereg_mr, create_qp, destroy_qp,
}
use communication_speed.Rdma.Machine.{World}

pub data Kind : Type 0 where
  k_sock k_list k_ctx k_pd k_cq k_buf k_mr k_qp : Kind

pub record Handle : Type 0 where
  pub kind : Kind
  pub id : ℕ

-- A pointer that is not NULL is a handle, and so is a descriptor that is not negative.
abbrev pub pointer : Kind → ℕ → Option Handle
pointer k zero = none
pointer k (suc n) = some (record { kind = k; id = suc n })

abbrev pub descriptor : ℤ → Option Handle
descriptor (pos n) = some (record { kind = k_sock; id = n })
descriptor (negsuc n) = none

-- What a call acquired, by what it returned.
unfoldable pub acquired : Call → Reply → Option Handle
acquired socket r = descriptor r.code
acquired (accept fd) r = descriptor r.code
acquired get_device_list r = pointer k_list r.value
acquired (open_device list i) r = pointer k_ctx r.value
acquired (alloc_pd ctx) r = pointer k_pd r.value
acquired (create_cq ctx size) r = pointer k_cq r.value
acquired (malloc size) r = pointer k_buf r.value
acquired (reg_mr pd buf size access) r = pointer k_mr r.value
acquired (create_qp pd attr) r = pointer k_qp r.value
acquired c r = none

-- What a call gives back.
unfoldable pub returned : Call → Option Handle
returned (close fd) = descriptor fd
returned (free_device_list list) = pointer k_list list
returned (close_device p) = pointer k_ctx p
returned (dealloc_pd p) = pointer k_pd p
returned (destroy_cq p) = pointer k_cq p
returned (free p) = pointer k_buf p
returned (dereg_mr p) = pointer k_mr p
returned (destroy_qp p) = pointer k_qp p
returned c = none

abbrev pub number : Kind → ℕ
number k_sock = 0
number k_list = 1
number k_ctx = 2
number k_pd = 3
number k_cq = 4
number k_buf = 5
number k_mr = 6
number k_qp = 7

-- 1 where the handle is `h`, else 0
unfoldable pub tally : Handle → Option Handle → ℕ
tally h none = 0
tally h (some g) = if number h.kind == number g.kind && h.id == g.id then 1 else 0

unfoldable pub opened : Handle → List Event → ℕ
opened h [] = 0
opened h (e ∷ t) = tally h (acquired e.call e.reply) + opened h t

unfoldable pub closed : Handle → List Event → ℕ
closed h [] = 0
closed h (e ∷ t) = tally h (returned e.call) + closed h t

-- How often the fields of the state hold the handle: the pointers, and with the socket.
abbrev pub held_pointers : Handle → Resources → ℕ → ℕ
held_pointers h r dev_list =
    tally h (pointer k_list dev_list)
    + (tally h (pointer k_ctx r.ib_ctx)
        + (tally h (pointer k_pd r.pd)
            + (tally h (pointer k_cq r.cq)
                + (tally h (pointer k_buf r.buf)
                    + (tally h (pointer k_mr r.mr) + tally h (pointer k_qp r.qp))))))

unfoldable pub held : Handle → World → ℕ
held h w = tally h (descriptor w.res.sock) + held_pointers h w.res w.dev_list

-- The descriptor 0 that `sock_connect` closes in client mode without having opened it.
unfoldable pub stray : Handle → ℕ
stray h = tally h (some (record { kind = k_sock; id = 0 }))
