-- ===== src/Base/Maps.antt =====
-- Total maps from addresses or indices, written at one place.
use Prim.Native.Nat.{ℕ, zero, suc, ◌+◌, ◌≤◌, ◌<◌}
use mathlib.Core.Path.{◌≡◌, refl, ap, sym, subst, ◌∙◌}
use mathlib.Core.Logic.{◌≢◌}
use native.Mathlib.Omega.{arith}
use native.Mathlib.Decide.{ℕ_discrete}
use mathlib.Core.Bool.{Bool, true, false}
use cpp_baremetal_senders_an.Base.Tests.{◌==◌, if◌then◌else◌, bit}

abbrev pub update {ℓ} : {A : Type ℓ} → (ℕ → A) → ℕ → A → ℕ → A
update f k v j = if k == j then v else f j

-- The sum of a map over the indices below a bound.
pub sum_below : ℕ → (ℕ → ℕ) → ℕ
sum_below zero f = 0
sum_below (suc n) f = f n + sum_below n f

pub sum_below-ext :
    (n : ℕ) (f g : ℕ → ℕ) → ((k : ℕ) → k < n → f k ≡ g k) → sum_below n f ≡ sum_below n g
unfolding sum_below
sum_below-ext zero f g h = refl
sum_below-ext (suc n) f g h =
    omega (arith, h n (omega arith), sum_below-ext n f g (λ k lt. h k (omega arith)))

-- A change at one index below the bound changes the sum by as much.
pub sum_below-change :
    (n : ℕ) (f g : ℕ → ℕ) (k : ℕ)
    → k < n
    → ((j : ℕ) → j ≢ k → f j ≡ g j)
    → sum_below n f + g k ≡ sum_below n g + f k
unfolding sum_below
sum_below-change zero f g k h e = absurd (omega arith)
sum_below-change (suc n) f g k h e = elim (ℕ_discrete n k) [
  | yes p ↦
      omega (
        arith,
        ap f p,
        ap g p,
        sum_below-ext n f g (λ j lt. e j (λ q. absurd (omega (arith, q, p)))),
      )
  | no q ↦ omega (arith, e n q, sum_below-change n f g k (omega (arith, q)) e)
]

pub sum_below-zero : (n : ℕ) → sum_below n (λ _. 0) ≡ 0
unfolding sum_below
sum_below-zero zero = refl
sum_below-zero (suc n) = omega (arith, sum_below-zero n)

pub le-sum_below : (n : ℕ) (f : ℕ → ℕ) (k : ℕ) → k < n → f k ≤ sum_below n f
unfolding sum_below
le-sum_below zero f k h = absurd (omega arith)
le-sum_below (suc n) f k h = elim (ℕ_discrete n k) [
  | yes p ↦ omega (arith, ap f p)
  | no q ↦ omega (arith, le-sum_below n f k (omega (arith, q)))
]

module _ {ℓ} {A : Type ℓ} where
  pub update_same : (f : ℕ → A) (k : ℕ) (v : A) → update f k v k ≡ v
  update_same f k v = ground arith

  pub update_other : (f : ℕ → A) (k j : ℕ) (v : A) → j ≢ k → update f k v j ≡ f j
  update_other f k j v h = ground arith

  -- The sum of a measure of the entries, when one entry is written.
  pub sum_below-update :
      (h : A → ℕ) (n : ℕ) (f : ℕ → A) (k : ℕ) (v : A)
      → k < n
      → sum_below n (λ j. h (update f k v j)) + h (f k) ≡ sum_below n (λ j. h (f j)) + h v
  sum_below-update h n f k v lt = omega (
    arith,
    sum_below-change n (λ j. h (update f k v j)) (λ j. h (f j)) k lt
        (λ j ne. ap h (update_other f k j v ne)),
    ap h (update_same f k v),
  )

-- Setting and clearing a flag, as arithmetic.
pub bit-update-true :
    (f : ℕ → Bool) (t u : ℕ) → f t ≡ false → bit (update f t true u) ≡ bit (t == u) + bit (f u)
bit-update-true f t u h = elim (ℕ_discrete t u) [
  | yes p ↦ ground (arith, ap f p)
  | no ne ↦ ground (arith, ne)
]

pub bit-update-false :
    (f : ℕ → Bool) (t u : ℕ) → f t ≡ true → bit (update f t false u) + bit (t == u) ≡ bit (f u)
bit-update-false f t u h = elim (ℕ_discrete t u) [
  | yes p ↦ ground (arith, ap f p)
  | no ne ↦ ground (arith, ne)
]

pub sum_below-one : (n : ℕ) → sum_below n (λ _. 1) ≡ n
unfolding sum_below
sum_below-one zero = refl
sum_below-one (suc n) = omega (arith, sum_below-one n)

pub sum_below-le :
    (n : ℕ) (f g : ℕ → ℕ) → ((k : ℕ) → k < n → f k ≤ g k) → sum_below n f ≤ sum_below n g
unfolding sum_below
sum_below-le zero f g h = omega arith
sum_below-le (suc n) f g h =
    omega (arith, h n (omega arith), sum_below-le n f g (λ k lt. h k (omega arith)))

pub ==-apart : (t u : ℕ) → t ≢ u → (t == u) ≡ false
==-apart t u h = ground arith

-- Writing what is there changes nothing.
pub update-unchanged {ℓ} :
    {A : Type ℓ} (f : ℕ → A) (t : ℕ) (p : A) → f t ≡ p → (u : ℕ) → f u ≡ update f t p u
update-unchanged f t p e u = elim (ℕ_discrete t u) [
  | yes same ↦ subst (λ k. f k ≡ update f t p k) same (e ∙ sym (update_same f t p))
  | no other ↦ sym (update_other f t u p (λ q. other (sym q)))
]
