-- ===== src/Cache/Chase.antt =====
-- The pointer chase over a closed form: one load goes `ahead` entries on, around the range.
use communication_speed.Prelude.{ℕ, zero, suc, ◌+◌, ◌%◌, ◌<◌, ◌≤◌, ◌≡◌, ◌∙◌, ap, arith}
use communication_speed.Prelude.Exec.{returned, ◌>>=◌}
use communication_speed.Cache.{Buffer, load, chase}
use communication_speed.Cache.Fill.{filled}

pub load-filled :
    (step ahead range : ℕ) (b : Buffer) (j : ℕ)
    → j % step ≡ 0
    → j < range
    → range ≤ b.size
    → load (filled step ahead range 0 b) j ≡ returned ((j + ahead) % range)
unfolding load
load-filled step ahead range b j m lt s = ground arith

pub chase-suc :
    (n : ℕ) (b : Buffer) (j j' : ℕ) → load b j ≡ returned j' → chase (suc n) b j ≡ chase n b j'
unfolding chase
chase-suc n b j j' e = ap (λ m. m >>= λ k. chase n b k) e

-- A family of positions along which the array leads is what the chase reads.
pub chase_along :
    (b : Buffer) (at : ℕ → ℕ)
    → ((t : ℕ) → load b (at t) ≡ returned (at (suc t)))
    → (n t : ℕ) → chase n b (at t) ≡ returned (at (n + t))
unfolding chase
chase_along b at leads zero t = ap (λ k. returned (at k)) (omega arith)
chase_along b at leads (suc n) t =
    chase-suc n b (at t) (at (suc t)) (leads t)
    ∙ chase_along b at leads n (suc t)
    ∙ ap (λ k. returned (at k)) (omega arith)
