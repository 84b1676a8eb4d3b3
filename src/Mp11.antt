-- ===== src/Mp11.antt =====
-- What the code relies on of the third-party Boost.Mp11 (`boost/mp11/algorithm.hpp` and `list.hpp`):
-- the operations on lists of types as a parameter, with the members of their results as documented.
use native.Mathlib.Decide.{ℕ_discrete}
use mathlib.Core.List
use mathlib.Core.List.Memᴰ
use cpp_baremetal_senders_an.Base.{
  ℕ, zero, suc, ◌<◌, Bool, true, false, List, [], ◌∷◌, ◌++◌, ◌≡◌, refl, ap, sym, subst, arith, ◌↔◌,
  inl, inr, ◌∈◌,
}

-- An element of the list that `mp_flatten` is given: another list, or a type that is none.
pub data Entry (A : Type 0) : Type 0 where
  single : A → Entry A
  sublist : List A → Entry A

abbrev pub elements : {A : Type 0} → Entry A → List A
elements (single a) = a ∷ []
elements (sublist xs) = xs

-- `mp_append` takes any number of lists.
pub record Mp11 (A : Type 0) : Type 0 where
  pub append : List (List A) → List A
  pub unique : List A → List A
  pub copy_if : (A → Bool) → List A → List A
  pub partition : (A → Bool) → List A → List A × List A
  pub flatten : List (Entry A) → List A
  pub empty : List A → Bool
  pub append-flatten : (ls : List (List A)) → append ls ≡ List.flatten ls
  pub in_unique : (x : A) (xs : List A) → x ∈ unique xs ↔ x ∈ xs
  pub in_copy_if : (p : A → Bool) (x : A) (xs : List A) → x ∈ copy_if p xs ↔ (x ∈ xs × (p x ≡ true))
  pub in_partition :
      (p : A → Bool) (x : A) (xs : List A)
      → (x ∈ (partition p xs).0 ↔ (x ∈ xs × (p x ≡ true)))
        × (x ∈ (partition p xs).1 ↔ (x ∈ xs × (p x ≡ false)))
  pub in_flatten :
      (x : A) (es : List (Entry A)) → x ∈ flatten es ↔ ((e : Entry A) × e ∈ es × x ∈ elements e)
  pub empty_iff : (xs : List A) → empty xs ≡ true ↔ xs ≡ []

-- `mp_transform` from the types of one kind to those of another.
pub record Transform (A B : Type 0) : Type 0 where
  pub transform : (A → B) → List A → List B
  pub in_transform :
      (f : A → B) (y : B) (xs : List A) → y ∈ transform f xs ↔ ((x : A) × x ∈ xs × (y ≡ f x))

module _ {A : Type 0} where
  pub in_flattened :
      (x : A) (ls : List (List A)) → x ∈ List.flatten ls → (l : List A) × l ∈ ls × x ∈ l
  unfolding List.flatten
  in_flattened x [] m = absurd (Memᴰ.not-nil m)
  in_flattened x (l ∷ ls) m = elim (Memᴰ.append_cases l m) [
    | inl h ↦ (l, Memᴰ.head refl, h)
    | inr h ↦ let (k, i, j) = in_flattened x ls h in (k, Memᴰ.tail i, j)
  ]

  pub into_flattened :
      (x : A) (l : List A) (ls : List (List A)) → l ∈ ls → x ∈ l → x ∈ List.flatten ls
  unfolding List.flatten
  into_flattened x l [] m h = absurd (Memᴰ.not-nil m)
  into_flattened x l (k ∷ ls) (Memᴰ.head e) h =
      Memᴰ.append_left (List.flatten ls) (subst (λ j. x ∈ j) e h)
  into_flattened x l (k ∷ ls) (Memᴰ.tail m) h = Memᴰ.append_right k (into_flattened x l ls m h)

  pub in_append :
      (mp : Mp11 A) (x : A) (ls : List (List A))
      → x ∈ mp.append ls ↔ ((l : List A) × l ∈ ls × x ∈ l)
  in_append mp x ls = (
    λ m. in_flattened x ls (subst (λ k. x ∈ k) (mp.append-flatten ls) m),
    λ (l, i, h). subst (λ k. x ∈ k) (sym (mp.append-flatten ls)) (into_flattened x l ls i h),
  )

-- An argument pack of `n`, by the place.
abbrev pub pack : {A : Type 0} → (ℕ → A) → ℕ → List A
pack f zero = []
pack f (suc n) = pack f n ++ f n ∷ []

module _ {A : Type 0} where
  pub in_pack : (f : ℕ → A) (n i : ℕ) → i < n → f i ∈ pack f n
  in_pack f zero i h = absurd (omega arith)
  in_pack f (suc n) i h = elim (ℕ_discrete i n) [
    | yes e ↦ Memᴰ.append_right (pack f n) (Memᴰ.head (ap f e))
    | no ne ↦ Memᴰ.append_left (f n ∷ []) (in_pack f n i (omega (arith, ne)))
  ]

  pub of_pack : (f : ℕ → A) (n : ℕ) (x : A) → x ∈ pack f n → (i : ℕ) × (i < n) × (x ≡ f i)
  of_pack f zero x m = absurd (Memᴰ.not-nil m)
  of_pack f (suc n) x m = elim (Memᴰ.append_cases (pack f n) m) [
    | inl h ↦ let (i, lt, e) = of_pack f n x h in (i, omega arith, e)
    | inr h ↦ (n, omega arith, Memᴰ.eq_of_singleton h)
  ]
