-- ===== src/Speed/Walks.antt =====
-- The walk by atomic operations of mem/numatest.cpp, beside the plain walk.
use communication_speed.Prelude.{
  ℕ, zero, suc, ◌+◌, ◌-◌, ◌%◌, ◌^◌, ◌<◌, ◌≡◌, ◌∙◌, refl, sym, ap, arith, true, ltb, Bool-cases, ◌⊎◌,
  inl, inr,
}
use communication_speed.Prelude.Exec.{
  Exec, returned, asserted, fault, no_fuel, ◌>>=◌, returned-injective, >>=-eq-returned,
}
use communication_speed.Atomic.{atomic_inc, xadd}
use communication_speed.Cache.{Buffer, load, store, update, chase}
use communication_speed.Cache.Chase.{chase-suc}
use communication_speed.Speed.{direct_walk, increment, decrement, cas_walk}

-- The second write to one place is the one that counts.
update-update : (f : ℕ → ℕ) (j v p : ℕ) → update (update f j v) j (f j) p ≡ f p
update-update f j v p = grind arith

-- One up and one down again.
up_down : (v : ℕ) → v < 2 ^ 32 → ((atomic_inc 32 v).cell + 2 ^ 32 - 1) % 2 ^ 32 ≡ v
unfolding atomic_inc xadd
up_down v h = omega arith

load-inside : (b : Buffer) (j : ℕ) → ltb j b.size ≡ true → load b j ≡ returned (b.at j)
unfolding load
load-inside b j e = rw e refl

store-inside :
    (b : Buffer) (j v : ℕ)
    → ltb j b.size ≡ true
    → store b j v ≡ returned (record { size = b.size; at = update b.at j v })
unfolding store
store-inside b j v e = rw e refl

at-update : (f : ℕ → ℕ) (j v : ℕ) → update f j v j ≡ v
at-update f j v = ground arith

inside : (b : Buffer) (j v : ℕ) → load b j ≡ returned v → (ltb j b.size ≡ true) × (b.at j ≡ v)
unfolding load
inside b j v e = elim (Bool-cases (ltb j b.size)) [
  | inl t ↦ (t, returned-injective (sym (load-inside b j t) ∙ e))
  | inr t ↦ absurd (grind arith)
]

-- The two changes of one entry leave the array as it was.
change_back :
    (b : Buffer) (j v : ℕ)
    → load b j ≡ returned v
    → v < 2 ^ 32
    → (increment b j >>= λ p. decrement p j) ≡ returned b
unfolding increment decrement
change_back b j v e lt =
    let (t, val) = inside b j v e in
    let up = (atomic_inc 32 v).cell in
    let b1 : Buffer = record { size = b.size; at = update b.at j up } in
    let e1 : (load b j >>= λ x. store b j (atomic_inc 32 x).cell) ≡ returned b1 =
      ap (λ m. m >>= λ x. store b j (atomic_inc 32 x).cell) e ∙ store-inside b j up t in
    let e2 : load b1 j ≡ returned up = load-inside b1 j t ∙ ap returned (at-update b.at j up) in
    ap (λ m. m >>= λ p. load p j >>= λ x. store p j ((x + 2 ^ 32 - 1) % 2 ^ 32)) e1
    ∙ ap (λ m. m >>= λ x. store b1 j ((x + 2 ^ 32 - 1) % 2 ^ 32)) e2
    ∙ store-inside b1 j ((up + 2 ^ 32 - 1) % 2 ^ 32) t
    ∙ ap (λ x. returned (record { size = b.size; at = update (update b.at j up) j x }))
        (up_down v lt ∙ sym val)
    ∙ ap (λ f. returned (record { size = b.size; at = f })) (λ i p. update-update b.at j up p i)

bind_assoc :
    {A B C : Type 0} (m : Exec A) (f : A → Exec B) (g : B → Exec C)
    → (m >>= λ a. f a >>= g) ≡ (m >>= f >>= g)
bind_assoc (returned a) f g = refl
bind_assoc asserted f g = refl
bind_assoc fault f g = refl
bind_assoc no_fuel f g = refl

cas_walk-suc :
    (iter : ℕ) (b : Buffer) (j v : ℕ)
    → load b j ≡ returned v
    → v < 2 ^ 32
    → cas_walk (suc iter) b j ≡ cas_walk iter b v
unfolding cas_walk
cas_walk-suc iter b j v e lt =
    bind_assoc (increment b j) (λ p. decrement p j) (λ p. load p j >>= λ k. cas_walk iter p k)
    ∙ ap (λ m. m >>= λ p. load p j >>= λ k. cas_walk iter p k) (change_back b j v e lt)
    ∙ ap (λ m. m >>= λ k. cas_walk iter b k) e

cas_walk_fault :
    (iter : ℕ) (b : Buffer) (j : ℕ) → load b j ≡ fault → cas_walk (suc iter) b j ≡ fault
unfolding cas_walk increment
cas_walk_fault iter b j e =
    ap
      (λ m. m >>= (λ v. store b j (atomic_inc 32 v).cell) >>= λ p1.
        decrement p1 j >>= λ p2. load p2 j >>= λ k. cas_walk iter p2 k)
      e

-- The indices that a walk from `j` reads are words of 32 bits.
abbrev pub Small : Buffer → ℕ → Type 0
Small b j = (t v : ℕ) → chase (suc t) b j ≡ returned v → v < 2 ^ 32

load_or_fault : (b : Buffer) (j : ℕ) → ((v : ℕ) × (load b j ≡ returned v)) ⊎ (load b j ≡ fault)
unfolding load
load_or_fault b j = elim (Bool-cases (ltb j b.size)) [
  | inl t ↦ inl (b.at j, load-inside b j t)
  | inr t ↦ inr (rw t refl)
]

Small-load : (b : Buffer) (j v : ℕ) → Small b j → load b j ≡ returned v → v < 2 ^ 32
unfolding chase
Small-load b j v small e = small 0 v (chase-suc 0 b j v e)

Small-next : (b : Buffer) (j v : ℕ) → Small b j → load b j ≡ returned v → Small b v
Small-next b j v small e t k f = small (suc t) k (chase-suc (suc t) b j v e ∙ f)

pub same_walk :
    (iter : ℕ) (b : Buffer) (j : ℕ) → Small b j → cas_walk iter b j ≡ direct_walk iter b j
unfolding cas_walk direct_walk chase
same_walk zero b j small = refl
same_walk (suc iter) b j small = elim (load_or_fault b j) [
  | inl (v, e) ↦
      cas_walk-suc iter b j v e (Small-load b j v small e)
      ∙ same_walk iter b v (Small-next b j v small e)
      ∙ ap (λ m. m >>= λ k. returned (record { array = b; index = k }))
          (sym (chase-suc iter b j v e))
  | inr e ↦
      cas_walk_fault iter b j e
      ∙ sym (
          ap (λ m. m >>= (λ k. chase iter b k) >>= λ k. returned (record { array = b; index = k }))
            e)
]

fits-Small : (b : Buffer) (j : ℕ) → ((i : ℕ) → b.at i < 2 ^ 32) → Small b j
unfolding chase
fits-Small b j fits zero v e =
    let (k, el, ek) = >>=-eq-returned (load b j) (λ k. returned k) e in
    let (t, val) = inside b j k el in
    let w : b.at j < 2 ^ 32 = fits j in omega (arith, w, val, returned-injective ek)
fits-Small b j fits (suc t) v e =
    let (k, el, ek) = >>=-eq-returned (load b j) (λ k. chase (suc t) b k) e in
    fits-Small b k fits t v ek

-- On an array of words of 32 bits, from any index and for any number of rounds, the walk by atomic
-- increments and decrements comes to what the walk by plain reads comes to: the same last index with
-- the array as it was, or a fault where that has one.
pub cas_walk-direct_walk :
    (b : Buffer)
    → ((i : ℕ) → b.at i < 2 ^ 32)
    → (iter j : ℕ) → cas_walk iter b j ≡ direct_walk iter b j
cas_walk-direct_walk b fits iter j = same_walk iter b j (fits-Small b j fits)
