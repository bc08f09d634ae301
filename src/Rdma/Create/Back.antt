-- ===== src/Rdma/Create/Back.antt =====
-- What stands behind the exit label of `resources_create`, for the invariant of the resources.
use communication_speed.Prelude.{ℕ, ◌≡◌, ◌∙◌, refl, sym, ap, Bool, true, false, not, ◌==◌, arith}
use communication_speed.Prelude.Int.{ℤ, pos, negsuc, is_neg, minus_one}
use communication_speed.Rdma.Types.{
  Resources, Call, destroy_qp, dereg_mr, free, destroy_cq, dealloc_pd, free_device_list, close,
}
use communication_speed.Rdma.Machine.{Env, World, M, bind_run, ext, last, when, ◌>>◌}
use communication_speed.Rdma.Create.{
  give_back, give_all_back, back_qp, back_mr, back_buf, back_cq, back_pd, back_dev_list, back_sock,
  put_sock, put_qp, put_mr, put_buf, put_cq, put_pd, put_dev_list,
}
use communication_speed.Rdma.Create.Counts.{Handle, acquired, returned, opened, closed, held}
use communication_speed.Rdma.Create.Owns.{Ends, Ends-bind, Owns, tally-none}

-- The invariant, with the fields and the list written out.
pub record Gave (d : Handle → ℕ) (r : Resources) (l : ℕ) (w : World) : Type 0 where
  pub owns : Owns d w
  pub res : w.res ≡ r
  pub list : w.dev_list ≡ l

-- The pointers that the exit label clears: all but the context.
abbrev pub Nulls : World → Type 0
Nulls w = (w.res.pd ≡ 0) × (w.res.cq ≡ 0) × (w.res.buf ≡ 0) × (w.res.mr ≡ 0) × (w.res.qp ≡ 0)

-- What it leaves.
pub record Released (d : Handle → ℕ) (w : World) : Type 0 where
  pub owns : Owns d w
  pub list : w.dev_list ≡ 0
  pub nulls : Nulls w
  pub no_sock : is_neg w.res.sock ≡ true

not_zero : (p : ℕ) → not (p == 0) ≡ false → p ≡ 0
not_zero p e = ground arith

neg_of_not : (s : ℤ) → not (is_neg s) ≡ false → is_neg s ≡ true
neg_of_not (pos n) e = cc
neg_of_not (negsuc n) e = refl

module _ (env : Env) (E : World → Type 0) where
  when-Ends :
      (P : World → Type 0) (b : Bool) (m : M (Unit {0})) (w : World)
      → (b ≡ false → P w)
      → Ends (λ _. P) E (m w)
      → Ends (λ _. P) E (when b m w)
  when-Ends P true m w h k = k
  when-Ends P false m w h k = h refl

  give_back-Ends :
      (P : World → Type 0) (p : ℕ) (call : Call) (clear : M (Unit {0})) (w : World)
      → (p ≡ 0 → P w)
      → Ends (λ _. P) E (clear (last (ext env call w)))
      → Ends (λ _. P) E (give_back env p call clear w)
  unfolding ext
  give_back-Ends P p call clear w h k =
      when-Ends P (not (p == 0)) (ext env call >> clear) w (λ e. h (not_zero p e)) k

  -- The label from a given field on.
  abbrev from_list : M (Unit {0})
  from_list = back_dev_list env >> back_sock env

  abbrev from_pd : M (Unit {0})
  from_pd = back_pd env >> from_list

  abbrev from_cq : M (Unit {0})
  from_cq = back_cq env >> from_pd

  abbrev from_buf : M (Unit {0})
  from_buf = back_buf env >> from_cq

  abbrev from_mr : M (Unit {0})
  from_mr = back_mr env >> from_buf

  back_qp-Ends :
      (d : Handle → ℕ) (r : Resources) (l : ℕ) (w : World)
      → Gave d r l w
      → Ends (λ _. Gave d (record r { qp = 0 }) l) E (back_qp env w)
  unfolding back_qp ext opened closed held acquired returned
  back_qp-Ends d r l w g =
      give_back-Ends (Gave d (record r { qp = 0 }) l) w.res.qp (destroy_qp w.res.qp) (put_qp 0) w
        (λ e. record {
          owns = g.owns;
          res =
              g.res
              ∙ ap (λ (x : ℕ). record r { qp = x }) (ap (λ (x : Resources). x.qp) (sym g.res) ∙ e);
          list = g.list;
        })
        (record {
          owns = λ h. omega (arith, g.owns h, tally-none h);
          res = ap (λ (x : Resources). record x { qp = 0 }) g.res;
          list = g.list;
        })

  back_mr-Ends :
      (d : Handle → ℕ) (r : Resources) (l : ℕ) (w : World)
      → Gave d r l w
      → Ends (λ _. Gave d (record r { mr = 0 }) l) E (back_mr env w)
  unfolding back_mr ext opened closed held acquired returned
  back_mr-Ends d r l w g =
      give_back-Ends (Gave d (record r { mr = 0 }) l) w.res.mr (dereg_mr w.res.mr) (put_mr 0) w
        (λ e. record {
          owns = g.owns;
          res =
              g.res
              ∙ ap (λ (x : ℕ). record r { mr = x }) (ap (λ (x : Resources). x.mr) (sym g.res) ∙ e);
          list = g.list;
        })
        (record {
          owns = λ h. omega (arith, g.owns h, tally-none h);
          res = ap (λ (x : Resources). record x { mr = 0 }) g.res;
          list = g.list;
        })

  back_buf-Ends :
      (d : Handle → ℕ) (r : Resources) (l : ℕ) (w : World)
      → Gave d r l w
      → Ends (λ _. Gave d (record r { buf = 0 }) l) E (back_buf env w)
  unfolding back_buf ext opened closed held acquired returned
  back_buf-Ends d r l w g =
      give_back-Ends (Gave d (record r { buf = 0 }) l) w.res.buf (free w.res.buf) (put_buf 0) w
        (λ e. record {
          owns = g.owns;
          res =
              g.res
              ∙ ap (λ (x : ℕ). record r { buf = x })
                  (ap (λ (x : Resources). x.buf) (sym g.res) ∙ e);
          list = g.list;
        })
        (record {
          owns = λ h. omega (arith, g.owns h, tally-none h);
          res = ap (λ (x : Resources). record x { buf = 0 }) g.res;
          list = g.list;
        })

  back_cq-Ends :
      (d : Handle → ℕ) (r : Resources) (l : ℕ) (w : World)
      → Gave d r l w
      → Ends (λ _. Gave d (record r { cq = 0 }) l) E (back_cq env w)
  unfolding back_cq ext opened closed held acquired returned
  back_cq-Ends d r l w g =
      give_back-Ends (Gave d (record r { cq = 0 }) l) w.res.cq (destroy_cq w.res.cq) (put_cq 0) w
        (λ e. record {
          owns = g.owns;
          res =
              g.res
              ∙ ap (λ (x : ℕ). record r { cq = x }) (ap (λ (x : Resources). x.cq) (sym g.res) ∙ e);
          list = g.list;
        })
        (record {
          owns = λ h. omega (arith, g.owns h, tally-none h);
          res = ap (λ (x : Resources). record x { cq = 0 }) g.res;
          list = g.list;
        })

  back_pd-Ends :
      (d : Handle → ℕ) (r : Resources) (l : ℕ) (w : World)
      → Gave d r l w
      → Ends (λ _. Gave d (record r { pd = 0 }) l) E (back_pd env w)
  unfolding back_pd ext opened closed held acquired returned
  back_pd-Ends d r l w g =
      give_back-Ends (Gave d (record r { pd = 0 }) l) w.res.pd (dealloc_pd w.res.pd) (put_pd 0) w
        (λ e. record {
          owns = g.owns;
          res =
              g.res
              ∙ ap (λ (x : ℕ). record r { pd = x }) (ap (λ (x : Resources). x.pd) (sym g.res) ∙ e);
          list = g.list;
        })
        (record {
          owns = λ h. omega (arith, g.owns h, tally-none h);
          res = ap (λ (x : Resources). record x { pd = 0 }) g.res;
          list = g.list;
        })

  back_dev_list-Ends :
      (d : Handle → ℕ) (r : Resources) (l : ℕ) (w : World)
      → Gave d r l w
      → Ends (λ _. Gave d r 0) E (back_dev_list env w)
  unfolding back_dev_list ext opened closed held acquired returned
  back_dev_list-Ends d r l w g =
      give_back-Ends (Gave d r 0) w.dev_list (free_device_list w.dev_list) (put_dev_list 0) w
        (λ e. record { owns = g.owns; res = g.res; list = e })
        (record { owns = λ h. omega (arith, g.owns h, tally-none h); res = g.res; list = refl })

  back_sock-Ends :
      (d : Handle → ℕ) (w : World)
      → Owns d w
      → w.dev_list ≡ 0
      → Nulls w
      → Ends (λ _. Released d) E (back_sock env w)
  unfolding back_sock ext opened closed held acquired returned
  back_sock-Ends d w owns list nulls =
      when-Ends (Released d) (not (is_neg w.res.sock))
        (ext env (close w.res.sock) >> put_sock minus_one) w
        (λ e. record { owns = owns; list = list; nulls = nulls; no_sock = neg_of_not w.res.sock e })
        (record {
          owns = λ h. omega (arith, owns h, tally-none h);
          list = list;
          nulls = nulls;
          no_sock = refl;
        })

  pub give_all_back-Ends :
      (d : Handle → ℕ) (w : World) → Owns d w → Ends (λ _. Released d) E (give_all_back env w)
  unfolding give_all_back
  give_all_back-Ends d w owns =
      then_back (Gave d r1 w.dev_list) (back_qp env) from_mr w
        (back_qp-Ends d w.res w.dev_list w (record { owns = owns; res = refl; list = refl }))
        λ w1 g1.
          then_back (Gave d r2 w.dev_list) (back_mr env) from_buf w1
            (back_mr-Ends d r1 w.dev_list w1 g1)
            λ w2 g2.
              then_back (Gave d r3 w.dev_list) (back_buf env) from_cq w2
                (back_buf-Ends d r2 w.dev_list w2 g2)
                λ w3 g3.
                  then_back (Gave d r4 w.dev_list) (back_cq env) from_pd w3
                    (back_cq-Ends d r3 w.dev_list w3 g3)
                    λ w4 g4.
                      then_back (Gave d r5 w.dev_list) (back_pd env) from_list w4
                        (back_pd-Ends d r4 w.dev_list w4 g4)
                        λ w5 g5.
                          then_back (Gave d r5 0) (back_dev_list env) (back_sock env) w5
                            (back_dev_list-Ends d r5 w.dev_list w5 g5)
                            λ w6 g6. back_sock-Ends d w6 g6.owns g6.list (
                              ap (λ (x : Resources). x.pd) g6.res,
                              ap (λ (x : Resources). x.cq) g6.res,
                              ap (λ (x : Resources). x.buf) g6.res,
                              ap (λ (x : Resources). x.mr) g6.res,
                              ap (λ (x : Resources). x.qp) g6.res,
                            )
    where
      r1 : Resources
      r1 = record (w.res) { qp = 0 }

      r2 : Resources
      r2 = record r1 { mr = 0 }

      r3 : Resources
      r3 = record r2 { buf = 0 }

      r4 : Resources
      r4 = record r3 { cq = 0 }

      r5 : Resources
      r5 = record r4 { pd = 0 }

      then_back :
          (P : World → Type 0) (m f : M (Unit {0})) (w : World)
          → Ends (λ _. P) E (m w)
          → ((w : World) → P w → Ends (λ _. Released d) E (f w))
          → Ends (λ _. Released d) E (bind_run (m w) (λ _. f))
      then_back P m f w h k =
          Ends-bind (λ _. P) (λ _. Released d) E (m w) (λ _. f) h (λ _ w p. k w p)
