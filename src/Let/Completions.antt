-- ===== src/Let/Completions.antt =====
-- The completion signatures of include/async/let.hpp, and that what a `let` delivers is advertised.
-- `dependent_sender sig` is the type of the sender that the function makes of a completion with
-- that signature, and `completions_of` gives the signatures of a sender type for the environment.
use cpp_baremetal_senders_an.Base.{
  Bool, true, false, List, [], ◌∷◌, ◌≡◌, refl, sym, subst, ◌↔◌, ◌⊎◌, inl, inr, ◌∈◌, Bool-cases,
}
use mathlib.Core.List.Memᴰ
use cpp_baremetal_senders_an.Channel.{set_value, set_error, set_stopped}
use cpp_baremetal_senders_an.Sender.{Tag, Signal, Run, tag_of, args_of}
use cpp_baremetal_senders_an.Mp11.{Mp11, in_append, Transform, Entry, elements, sublist}
use cpp_baremetal_senders_an.Signatures.{Signature, any_tag, with_any_tag, signature_of}
use cpp_baremetal_senders_an.Let.{new_op, start}
use cpp_baremetal_senders_an.Let.Binding.{bind, start-bind}

module _ {T S : Type 0} (mp : Mp11 (Signature T)) (mps : Mp11 S) (tr : Transform (Signature T) S)
    (trs : Transform S (Entry (Signature T))) (tags : List Tag) (dependent_sender : Signature T → S)
    (completions_of : S → List (Signature T)) where
  unfoldable pub unchanged_completions : List (Signature T) → List (Signature T)
  unchanged_completions sigs = (mp.partition (with_any_tag tags) sigs).1

  unfoldable pub dependent_senders : List (Signature T) → List S
  dependent_senders sigs =
      mps.unique (tr.transform dependent_sender (mp.partition (with_any_tag tags) sigs).0)

  unfoldable pub dependent_completions : List (Signature T) → List (Signature T)
  unfolding dependent_senders
  dependent_completions sigs =
      mp.flatten (trs.transform (λ s. sublist (completions_of s)) (dependent_senders sigs))

  unfoldable pub get_completion_signatures : List (Signature T) → List (Signature T)
  unfolding unchanged_completions dependent_completions
  get_completion_signatures sigs =
      mp.unique (mp.append (unchanged_completions sigs ∷ dependent_completions sigs ∷ []))

  -- A signature of the first sender passes through, or is replaced by those of the sender that
  -- depends on it.
  abbrev pub Bound : Signature T → Signature T → Type 0
  Bound sig x =
      ((any_tag tags (tag_of sig) ≡ false) × (x ≡ sig))
      ⊎ ((any_tag tags (tag_of sig) ≡ true) × x ∈ completions_of (dependent_sender sig))

  in_dependent :
      (sigs : List (Signature T)) (x : Signature T)
      → x ∈ dependent_completions sigs ↔ (
          (sig : Signature T) × sig ∈ sigs
          × (any_tag tags (tag_of sig) ≡ true)
          × x ∈ completions_of (dependent_sender sig))
  unfolding dependent_completions dependent_senders with_any_tag
  in_dependent sigs x = (
    λ m.
        let (e, i, h) = (mp.in_flatten x _).0 m in
        let (s, j, k) = (trs.in_transform _ e _).0 i in
        let (sig, l, q) = (tr.in_transform dependent_sender s _).0 ((mps.in_unique s _).0 j) in
        let (n, t) = ((mp.in_partition (with_any_tag tags) sig sigs).0).0 l in
        (sig, n, t, subst (λ u. x ∈ completions_of u) q (subst (λ u. x ∈ elements u) k h)),
    λ (sig, n, t, h). (mp.in_flatten x _).1 (
      sublist (completions_of (dependent_sender sig)),
      (trs.in_transform _ _ _).1 (
        dependent_sender sig,
        (mps.in_unique _ _).1 (
            (tr.in_transform dependent_sender _ _).1
              (sig, ((mp.in_partition (with_any_tag tags) sig sigs).0).1 (n, t), refl)),
        refl,
      ),
      h,
    ),
  )

  in-Bound :
      (sigs : List (Signature T)) (x : Signature T)
      → x ∈ get_completion_signatures sigs ↔ ((sig : Signature T) × sig ∈ sigs × Bound sig x)
  unfolding get_completion_signatures unchanged_completions with_any_tag
  in-Bound sigs x =
      let parts = unchanged_completions sigs ∷ dependent_completions sigs ∷ [] in
      (
        λ m. let (l, i, h) = (in_append mp x _).0 ((mp.in_unique x _).0 m) in from l i h,
        λ (sig, i, b). (mp.in_unique x _).1 ((in_append mp x _).1 (into sig i b)),
      )
    where
      from :
          (l : List (Signature T))
          → l ∈ unchanged_completions sigs ∷ dependent_completions sigs ∷ []
          → x ∈ l
          → (sig : Signature T) × sig ∈ sigs × Bound sig x
      from l (Memᴰ.head e) h =
          let (n, t) =
            ((mp.in_partition (with_any_tag tags) x sigs).1).0 (subst (λ k. x ∈ k) e h) in
          (x, n, inl (t, refl))
      from l (Memᴰ.tail (Memᴰ.head e)) h =
          let (sig, n, t, k) = (in_dependent sigs x).0 (subst (λ k. x ∈ k) e h) in
          (sig, n, inr (t, k))
      from l (Memᴰ.tail (Memᴰ.tail m)) h = absurd (Memᴰ.not-nil m)

      into :
          (sig : Signature T)
          → sig ∈ sigs
          → Bound sig x
          → (l : List (Signature T)) × l
              ∈ unchanged_completions sigs ∷ dependent_completions sigs ∷ []
            × x ∈ l
      into sig n (inl (t, e)) = (
        _,
        Memᴰ.head refl,
        subst (λ y. y ∈ unchanged_completions sigs) (sym e)
            ((mp.in_partition (with_any_tag tags) sig sigs).1.1 (n, t)),
      )
      into sig n (inr (t, k)) =
          (_, Memᴰ.tail (Memᴰ.head refl), (in_dependent sigs x).1 (sig, n, t, k))

  module _ {V : Type 0} (type_of : V → T) (fn : Tag → List V → Run V) where
    bind-Bound :
        ((s : Signal V)
          → any_tag tags (tag_of s) ≡ true
          → signature_of type_of (fn (tag_of s) (args_of s)).completion
            ∈ completions_of (dependent_sender (signature_of type_of s)))
        → (r : Run V)
        → Bound
            (signature_of type_of r.completion)
            (signature_of type_of (bind (any_tag tags) r fn).completion)
    unfolding bind
    bind-Bound typed r = elim (Bool-cases (any_tag tags (tag_of r.completion))) [
      | inl h ↦ rw h (inr (handled r.completion h, typed r.completion h))
      | inr h ↦ rw h (inl (handled r.completion h, refl))
    ]
      where
        handled :
            {b : Bool} (s : Signal V)
            → any_tag tags (tag_of s) ≡ b
            → any_tag tags (tag_of (signature_of type_of s)) ≡ b
        handled (set_value vs) h = h
        handled (set_error vs) h = h
        handled set_stopped h = h

    -- Where the first sender's completion is one of those it advertises, and the sender that the
    -- function makes of a completion on a handled channel sends one of those that the sender type for its signature
    -- advertises, a `let` delivers one completion, and it is one of those that the `let` advertises;
    -- and these are exactly the first sender's on the other channels, and those of the dependent
    -- senders.
    pub start-advertised :
        (sigs : List (Signature T))
        → ((s : Signal V)
            → any_tag tags (tag_of s) ≡ true
            → signature_of type_of (fn (tag_of s) (args_of s)).completion
              ∈ completions_of (dependent_sender (signature_of type_of s)))
        → (first : Run V) → signature_of type_of first.completion ∈ sigs
        → ((c : Signal V) × ((start (any_tag tags) fn first new_op).delivered ≡ c ∷ [])
            × signature_of type_of c ∈ get_completion_signatures sigs)
          × ((x : Signature T)
              → x ∈ get_completion_signatures sigs
                ↔ ((sig : Signature T) × sig ∈ sigs × Bound sig x))
    start-advertised sigs typed first m = (
      (
        (bind (any_tag tags) first fn).completion,
        (start-bind (any_tag tags) fn first).1,
        (in-Bound sigs _).1 (_, m, bind-Bound typed first),
      ),
      in-Bound sigs,
    )
