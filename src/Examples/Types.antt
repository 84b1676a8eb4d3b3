-- ===== src/Examples/Types.antt =====
-- The operations on lists of types, by ones on lists, and the signatures over types that are numbers.
use native.Mathlib.Decide.{ℕ_discrete}
use mathlib.Core.List
use mathlib.Core.List.{List-discrete}
use mathlib.Core.List.Memᴰ
use cpp_baremetal_senders_an.Base.{
  ℕ, Bool, true, false, not, List, [], ◌∷◌, ◌≡◌, ◌≢◌, refl, sym, ap, ◌∙◌, subst, ◌↔◌, inl, inr, ◌∈◌,
  map, Bool-cases, if◌then◌else◌, is_empty,
}
use cpp_baremetal_senders_an.Mp11.{Mp11, Transform, Entry, elements, in_flattened, into_flattened}
use cpp_baremetal_senders_an.Signatures.{Signature}

module _ {A : Type 0} where
  abbrev kept : (A → Bool) → List A → List A
  kept p [] = []
  kept p (x ∷ xs) = if p x then x ∷ kept p xs else kept p xs

  pub in_kept : (p : A → Bool) (x : A) (xs : List A) → x ∈ kept p xs ↔ (x ∈ xs × (p x ≡ true))
  in_kept p x [] = (λ m. absurd (Memᴰ.not-nil m), λ (m, e). m)
  in_kept p x (y ∷ ys) = elim (Bool-cases (p y)) [
    | inl e ↦ rw e (
      λ m. elim (Memᴰ.cases_cons m) [
        | inl q ↦ (Memᴰ.head q, ap p q ∙ e)
        | inr k ↦ let (i, h) = (in_kept p x ys).0 k in (Memᴰ.tail i, h)
      ],
      λ (m, h). elim (Memᴰ.cases_cons m) [
        | inl q ↦ Memᴰ.head q
        | inr k ↦ Memᴰ.tail ((in_kept p x ys).1 (k, h))
      ],
    )
    | inr e ↦ rw e (
      λ k. let (i, h) = (in_kept p x ys).0 k in (Memᴰ.tail i, h),
      λ (m, h). elim (Memᴰ.cases_cons m) [
        | inl q ↦ absurd (cc (ap p q, h, e))
        | inr k ↦ (in_kept p x ys).1 (k, h)
      ],
    )
  ]

  abbrev joined : List (Entry A) → List A
  joined es = List.flatten (map elements es)

  pub in_joined :
      (x : A) (es : List (Entry A)) → x ∈ joined es ↔ ((e : Entry A) × e ∈ es × x ∈ elements e)
  in_joined x es = (
    λ m.
        let (l, i, h) = in_flattened x (map elements es) m in
        let (e, j, q) = Memᴰ.of_map elements es i in (e, j, subst (λ k. x ∈ k) (sym q) h),
    λ (e, j, h). into_flattened x (elements e) (map elements es) (Memᴰ.map elements j) h,
  )

  pub empty_iff_nil : (xs : List A) → is_empty xs ≡ true ↔ xs ≡ []
  empty_iff_nil [] = (λ e. refl, λ e. refl)
  empty_iff_nil (x ∷ xs) = (λ e. absurd (cc e), λ e. absurd (cc e))

  pub in_rest :
      (p : A → Bool) (x : A) (xs : List A) → x ∈ kept (λ y. not (p y)) xs ↔ (x ∈ xs × (p x ≡ false))
  in_rest p x xs = (
    λ m. let (i, h) = (in_kept (λ y. not (p y)) x xs).0 m in (i, not_true _ h),
    λ (m, e). (in_kept (λ y. not (p y)) x xs).1 (m, ap not e),
  )
    where
      not_true : (b : Bool) → not b ≡ true → b ≡ false
      not_true true e = absurd (cc e)
      not_true false e = refl

  module _ (dec : (x y : A) → Dec (x ≡ y)) where
    abbrev differs : A → A → Bool
    differs x y = elim (dec x y) [ yes e ↦ false | no ne ↦ true ]

    differs-apart : (x y : A) → x ≢ y → differs x y ≡ true
    differs-apart x y ne = go (dec x y)
      where
        go : (d : Dec (x ≡ y)) → elim d [ yes e ↦ false | no ne' ↦ true ] ≡ true
        go (yes e) = absurd (ne e)
        go (no ne') = refl

    abbrev distinct : List A → List A
    distinct [] = []
    distinct (x ∷ xs) = x ∷ kept (differs x) (distinct xs)

    pub in_distinct : (x : A) (xs : List A) → x ∈ distinct xs ↔ x ∈ xs
    in_distinct x [] = (λ m. m, λ m. m)
    in_distinct x (y ∷ ys) = (
      λ m. elim (Memᴰ.cases_cons m) [
        | inl q ↦ Memᴰ.head q
        | inr k ↦ Memᴰ.tail ((in_distinct x ys).0 ((in_kept (differs y) x (distinct ys)).0 k).0)
      ],
      λ m. elim (dec y x) [
        | yes e ↦ Memᴰ.head (sym e)
        | no ne ↦ elim (Memᴰ.cases_cons m) [
          | inl q ↦ absurd (ne (sym q))
          | inr k ↦ Memᴰ.tail (
              (in_kept (differs y) x (distinct ys)).1
                ((in_distinct x ys).1 k, differs-apart y x ne))
        ]
      ],
    )

    abbrev pub mp11 : Mp11 A
    mp11 = record {
      append = List.flatten;
      unique = distinct;
      copy_if = kept;
      partition = λ p xs. (kept p xs, kept (λ x. not (p x)) xs);
      flatten = joined;
      empty = is_empty;
      append-flatten = λ ls. refl;
      in_unique = in_distinct;
      in_copy_if = in_kept;
      in_partition = λ p x xs. (in_kept p x xs, in_rest p x xs);
      in_flatten = in_joined;
      empty_iff = empty_iff_nil;
    }

-- Types are numbers.
unfoldable pub sig_discrete : (x y : Signature ℕ) → Dec (x ≡ y)
sig_discrete = hlevel (ℕ_discrete)

abbrev pub mps : Mp11 (Signature ℕ)
mps = mp11 sig_discrete

abbrev pub mpt : Mp11 ℕ
mpt = mp11 ℕ_discrete

-- Types of senders that are lists of types.
abbrev pub mpl : Mp11 (List ℕ)
mpl = mp11 (List-discrete ℕ_discrete)

abbrev pub mpss : Mp11 (List (Signature ℕ))
mpss = mp11 (List-discrete sig_discrete)

abbrev pub transformer : {A B : Type 0} → Transform A B
transformer = record {
  transform = map;
  in_transform = λ f y xs. (
    λ m. let (x, i, e) = Memᴰ.of_map f xs m in (x, i, sym e),
    λ (x, i, e). subst (λ z. z ∈ map f xs) (sym e) (Memᴰ.map f i),
  );
}
