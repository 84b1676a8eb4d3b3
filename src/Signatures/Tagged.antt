-- ===== src/Signatures/Tagged.antt =====
-- Lists of signatures: by their tag, with the stopped one, and of several senders.
use cpp_baremetal_senders_an.Base.{
  Bool, true, false, not, ◌||◌, List, [], ◌∷◌, ◌≡◌, refl, sym, subst, ◌↔◌, ◌⊎◌, inl, inr, ◌∈◌, ℕ,
  ◌<◌, ◌≢◌, is_empty,
}
use mathlib.Core.List.Memᴰ
use cpp_baremetal_senders_an.Channel.{set_value, set_error, set_stopped}
use cpp_baremetal_senders_an.Sender.{Tag, value_tag, error_tag, stopped_tag, tag_of}
use cpp_baremetal_senders_an.Mp11.{Mp11, in_append, pack, in_pack, of_pack}
use cpp_baremetal_senders_an.Signatures.{
  Signature, same_tag, with_any_tag, tuplify, variantify, signatures_by_tag, gather_signatures,
  sends_stopped,
}

module _ {A : Type 0} where
  pub in_empty : {x : A} (xs : List A) → is_empty xs ≡ true → x ∈ xs → ⊥
  in_empty xs e (Memᴰ.head h) = absurd (cc e)
  in_empty xs e (Memᴰ.tail h) = absurd (cc e)

  -- In a list that is not empty there is a member.
  pub some_member : (xs : List A) → is_empty xs ≡ false → (x : A) × x ∈ xs
  some_member [] e = absurd (cc e)
  some_member (x ∷ xs) e = (x, Memᴰ.head refl)

same_tag→≡ : (t u : Tag) → same_tag t u ≡ true → t ≡ u
same_tag→≡ value_tag value_tag h = refl
same_tag→≡ error_tag error_tag h = refl
same_tag→≡ stopped_tag stopped_tag h = refl
same_tag→≡ _ _ h = absurd (cc h)

module _ {T : Type 0} where
  with_one_tag : (t : Tag) (sig : Signature T) → with_any_tag (t ∷ []) sig ≡ true → t ≡ tag_of sig
  unfolding with_any_tag
  with_one_tag t sig h = same_tag→≡ t (tag_of sig) (or_false _ h)
    where
      or_false : (b : Bool) → (b || false) ≡ true → b ≡ true
      or_false true e = refl
      or_false false e = e

  with_own_tag : (sig : Signature T) → with_any_tag (tag_of sig ∷ []) sig ≡ true
  unfolding with_any_tag
  with_own_tag (set_value ts) = refl
  with_own_tag (set_error ts) = refl
  with_own_tag set_stopped = refl

  module _ (mp : Mp11 (Signature T)) where
    pub in_by_tag :
        (sigs : List (Signature T)) (t : Tag) (x : Signature T)
        → x ∈ signatures_by_tag mp sigs t ↔ (x ∈ sigs × (t ≡ tag_of x))
    unfolding signatures_by_tag
    in_by_tag sigs t x =
        let law = mp.in_copy_if (with_any_tag (t ∷ [])) x sigs in
        (
          λ m. let (i, h) = law.0 m in (i, with_one_tag t x h),
          λ (i, h). law.1 (i, subst (λ u. with_any_tag (u ∷ []) x ≡ true) (sym h) (with_own_tag x)),
        )

    -- Whether a list of signatures has the stopped one.
    pub no_stopped :
        (sigs : List (Signature T)) → sends_stopped mp sigs ≡ false → set_stopped ∈ sigs → ⊥
    unfolding sends_stopped gather_signatures variantify tuplify
    no_stopped sigs h m =
        let i = (in_by_tag sigs stopped_tag set_stopped).1 (m, refl) in
        in_empty _ (not_true _ h) (Memᴰ.map (tuplify (λ ts. ts)) i)
      where
        not_true : (b : Bool) → not b ≡ false → b ≡ true
        not_true true e = refl
        not_true false e = absurd (cc e)

    pub has_stopped :
        (sigs : List (Signature T)) → sends_stopped mp sigs ≡ true → set_stopped ∈ sigs
    unfolding sends_stopped gather_signatures variantify tuplify
    has_stopped sigs h =
        let (ts, i) = some_member _ (not_false _ h) in
        let (sig, j, k) = Memᴰ.of_map (tuplify (λ ts. ts)) _ i in
        let (l, tg) = (in_by_tag sigs stopped_tag sig).0 j in is_stopped sig tg l
      where
        not_false : (b : Bool) → not b ≡ true → b ≡ false
        not_false true e = absurd (cc e)
        not_false false e = refl

        is_stopped :
            (sig : Signature T) → stopped_tag ≡ tag_of sig → sig ∈ sigs → set_stopped ∈ sigs
        is_stopped (set_value ts) e m = absurd (cc e)
        is_stopped (set_error ts) e m = absurd (cc e)
        is_stopped set_stopped e m = m

module _ {T : Type 0} (mp : Mp11 (Signature T)) where
  -- The append of two lists.
  pub in_two :
      (ls ks : List (Signature T)) (x : Signature T)
      → x ∈ mp.append (ls ∷ ks ∷ []) ↔ (x ∈ ls ⊎ x ∈ ks)
  in_two ls ks x = (
    λ m. let (l, i, h) = (in_append mp x _).0 m in from l i h,
    λ m.
        (in_append mp x _).1 (elim m [
          | inl h ↦ (ls, Memᴰ.head refl, h)
          | inr h ↦ (ks, Memᴰ.tail (Memᴰ.head refl), h)
        ]),
  )
    where
      from : (l : List (Signature T)) → l ∈ ls ∷ ks ∷ [] → x ∈ l → x ∈ ls ⊎ x ∈ ks
      from l (Memᴰ.head e) h = inl (subst (λ k. x ∈ k) e h)
      from l (Memᴰ.tail (Memᴰ.head e)) h = inr (subst (λ k. x ∈ k) e h)
      from l (Memᴰ.tail (Memᴰ.tail m)) h = absurd (Memᴰ.not-nil m)

  -- The errors and the stopped signature together: all but the values.
  pub in_not_value :
      (sigs : List (Signature T)) (x : Signature T)
      → x
          ∈ mp.append
              (signatures_by_tag mp sigs error_tag ∷ signatures_by_tag mp sigs stopped_tag ∷ [])
        ↔ (x ∈ sigs × (tag_of x ≢ value_tag))
  in_not_value sigs x = (
    λ m. elim ((in_two _ _ x).0 m) [
      | inl h ↦ let (i, t) = (in_by_tag mp sigs error_tag x).0 h in (i, λ e. absurd (cc (t, e)))
      | inr h ↦ let (i, t) = (in_by_tag mp sigs stopped_tag x).0 h in (i, λ e. absurd (cc (t, e)))
    ],
    λ (i, ne). (in_two _ _ x).1 (by_tag x i ne),
  )
    where
      by_tag :
          (x : Signature T)
          → x ∈ sigs
          → tag_of x ≢ value_tag
          → x ∈ signatures_by_tag mp sigs error_tag ⊎ x ∈ signatures_by_tag mp sigs stopped_tag
      by_tag (set_value ts) i ne = absurd (ne refl)
      by_tag (set_error ts) i ne = inl ((in_by_tag mp sigs error_tag _).1 (i, refl))
      by_tag set_stopped i ne = inr ((in_by_tag mp sigs stopped_tag _).1 (i, refl))

  -- The union of the signatures of several senders.
  pub in_union :
      (sigs : ℕ → List (Signature T)) (n : ℕ) (x : Signature T)
      → x ∈ mp.unique (mp.append (pack sigs n)) ↔ ((i : ℕ) × (i < n) × x ∈ sigs i)
  in_union sigs n x = (
    λ m.
        let (l, i, h) = (in_append mp x _).0 ((mp.in_unique x _).0 m) in
        let (k, lt, e) = of_pack sigs n l i in (k, lt, subst (λ j. x ∈ j) e h),
    λ (i, lt, h). (mp.in_unique x _).1 ((in_append mp x _).1 (sigs i, in_pack sigs n i lt, h)),
  )
