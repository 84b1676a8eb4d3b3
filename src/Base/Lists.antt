-- ===== src/Base/Lists.antt =====
-- Lists of task addresses over the native numbers.
use Prim.Native.Nat.{ℕ, zero, suc, ◌+◌, ◌≤◌}
use mathlib.Core.Path.{◌≡◌, refl}
use mathlib.Core.Bool.{Bool, true, false}
use mathlib.Core.Option.{Option, none, some}
use mathlib.Core.List.{List, [], ◌∷◌, ◌++◌, Memᴰ}
use native.Mathlib.Omega.{arith}
use cpp_baremetal_senders_an.Base.Tests.{◌==◌, if◌then◌else◌, bit}

module _ {ℓ} {A : Type ℓ} where
  abbrev pub length : List A → ℕ
  length [] = 0
  length (x ∷ xs) = suc (length xs)

  abbrev pub is_empty : List A → Bool
  is_empty [] = true
  is_empty (x ∷ xs) = false

  abbrev pub get_elem? : List A → ℕ → Option A
  get_elem? [] i = none
  get_elem? (x ∷ xs) zero = some x
  get_elem? (x ∷ xs) (suc i) = get_elem? xs i

  pub length-append : (xs ys : List A) → length (xs ++ ys) ≡ length xs + length ys
  length-append [] ys = omega arith
  length-append (x ∷ xs) ys = omega (arith, length-append xs ys)

-- Membership, with the place.
infix 5 ◌∈◌
abbrev pub ◌∈◌ {ℓ} : {A : Type ℓ} → A → List A → Type ℓ
a ∈ xs = Memᴰ a xs

-- How often an address stands in a list.
abbrev pub count : ℕ → List ℕ → ℕ
count t [] = 0
count t (x ∷ xs) = bit (x == t) + count t xs

-- The list without the first occurrence of an address.
abbrev pub erase : ℕ → List ℕ → List ℕ
erase t [] = []
erase t (x ∷ xs) = if x == t then xs else x ∷ erase t xs

-- The list with an address put before position `n`.
abbrev pub insert_at : ℕ → ℕ → List ℕ → List ℕ
insert_at zero t xs = t ∷ xs
insert_at (suc n) t [] = t ∷ []
insert_at (suc n) t (x ∷ xs) = x ∷ insert_at n t xs

pub count-append : (t : ℕ) (xs ys : List ℕ) → count t (xs ++ ys) ≡ count t xs + count t ys
count-append t [] ys = omega arith
count-append t (x ∷ xs) ys = omega (arith, count-append t xs ys)

pub count-erase :
    (t u : ℕ) (xs : List ℕ) → 1 ≤ count u xs → count t (erase u xs) + bit (u == t) ≡ count t xs
count-erase t u [] h = omega arith
count-erase t u (x ∷ xs) h = ground (arith, count-erase t u xs)

pub length-erase : (u : ℕ) (xs : List ℕ) → 1 ≤ count u xs → suc (length (erase u xs)) ≡ length xs
length-erase u [] h = omega arith
length-erase u (x ∷ xs) h = ground (arith, length-erase u xs)

pub count-insert_at :
    (t n u : ℕ) (xs : List ℕ) → count t (insert_at n u xs) ≡ bit (u == t) + count t xs
count-insert_at t zero u xs = refl
count-insert_at t (suc n) u [] = refl
count-insert_at t (suc n) u (x ∷ xs) = omega (arith, count-insert_at t n u xs)

pub length-insert_at : (n u : ℕ) (xs : List ℕ) → length (insert_at n u xs) ≡ suc (length xs)
length-insert_at zero u xs = refl
length-insert_at (suc n) u [] = refl
length-insert_at (suc n) u (x ∷ xs) = omega (arith, length-insert_at n u xs)

pub erase_absent : (t : ℕ) (xs : List ℕ) → count t xs ≡ 0 → erase t xs ≡ xs
erase_absent t [] h = refl
erase_absent t (x ∷ xs) h = ground (arith, erase_absent t xs)
