-- ===== src/Then/Completions.antt =====
-- The completion signatures of the adaptors of include/async/then.hpp, and that what they send is
-- advertised. `result` is what `stdx::call_by_need` makes of the types of the arguments.
use cpp_baremetal_senders_an.Base.{
  false, List, [], ◌∷◌, ◌≡◌, refl, sym, ap, subst, ◌∙◌, ◌↔◌, ◌⊎◌, inl, inr, ◌∈◌, map, Bool-cases,
  if◌then◌else◌,
}
use mathlib.Core.List.Memᴰ
use cpp_baremetal_senders_an.Channel.{set_value, set_error, set_stopped}
use cpp_baremetal_senders_an.Sender.{Tag, value_tag, error_tag, stopped_tag, Signal, send}
use cpp_baremetal_senders_an.Mp11.{Mp11, Entry, single}
use cpp_baremetal_senders_an.Signatures.{
  Signature, signature_of, default_set_value, default_set_error, sends_stopped,
  transform_completion_signatures,
}
use cpp_baremetal_senders_an.Signatures.Tagged.{no_stopped, has_stopped}
use cpp_baremetal_senders_an.Signatures.Transformed.{image, in_transformed}
use cpp_baremetal_senders_an.Then.{handle}

module _ {T : Type 0} where
  unfoldable pub signatures : Tag → (List T → List T) → List T → Entry (Signature T)
  unfolding send
  signatures c result ts = single (send c (result ts))

  module _ (mp : Mp11 (Signature T)) where
    -- By the handled channel; `sigs` are those of the adapted sender.
    unfoldable pub get_completion_signatures :
        Tag → Tag → (List T → List T) → List (Signature T) → List (Signature T)
    unfolding signatures
    get_completion_signatures value_tag c result sigs =
        transform_completion_signatures mp sigs [] (signatures c result) default_set_error
          (set_stopped ∷ [])
    get_completion_signatures error_tag c result sigs =
        transform_completion_signatures mp sigs [] default_set_value (signatures c result)
          (set_stopped ∷ [])
    get_completion_signatures stopped_tag c result sigs =
        if sends_stopped mp sigs
        then transform_completion_signatures mp sigs (send c (result []) ∷ []) default_set_value
            default_set_error []
        else sigs

    -- The adapted sender's signatures, each with the handled one in place of its own.
    advertised :
        (h c : Tag) (result : List T → List T) (sigs : List (Signature T)) (sig : Signature T)
        → sig ∈ sigs
        → handle h c result sig ∈ get_completion_signatures h c result sigs
    unfolding get_completion_signatures handle default_set_value default_set_error signatures
    advertised value_tag c result sigs sig m =
        (in_transformed mp sigs _ _ _ _ _).1 (inr (sig, m, place sig))
      where
        place :
            (sig : Signature T)
            → handle value_tag c result sig
              ∈ image (signatures c result) default_set_error (set_stopped ∷ []) sig
        place (set_value ts) = Memᴰ.head refl
        place (set_error ts) = Memᴰ.head refl
        place set_stopped = Memᴰ.head refl
    advertised error_tag c result sigs sig m =
        (in_transformed mp sigs _ _ _ _ _).1 (inr (sig, m, place sig))
      where
        place :
            (sig : Signature T)
            → handle error_tag c result sig
              ∈ image default_set_value (signatures c result) (set_stopped ∷ []) sig
        place (set_value ts) = Memᴰ.head refl
        place (set_error ts) = Memᴰ.head refl
        place set_stopped = Memᴰ.head refl
    advertised stopped_tag c result sigs sig m = elim (Bool-cases (sends_stopped mp sigs)) [
      | inl e ↦ rw e ((in_transformed mp sigs _ _ _ _ _).1 (place sig m))
      | inr e ↦ rw e (kept sig m e)
    ]
      where
        place :
            (sig : Signature T)
            → sig ∈ sigs
            → handle stopped_tag c result sig ∈ send c (result []) ∷ []
              ⊎ ((sig' : Signature T) × sig' ∈ sigs
                  × handle stopped_tag c result sig
                    ∈ image default_set_value default_set_error [] sig')
        place (set_value ts) m = inr (set_value ts, m, Memᴰ.head refl)
        place (set_error ts) m = inr (set_error ts, m, Memᴰ.head refl)
        place set_stopped m = inl (Memᴰ.head refl)

        kept :
            (sig : Signature T)
            → sig ∈ sigs
            → sends_stopped mp sigs ≡ false
            → handle stopped_tag c result sig ∈ sigs
        kept (set_value ts) m e = m
        kept (set_error ts) m e = m
        kept set_stopped m e = absurd (no_stopped mp sigs e m)

    -- What is advertised comes from a signature of the adapted sender.
    module _ (c : Tag) (result : List T → List T) (sigs : List (Signature T))
        (x : Signature T) where
      Derived : Tag → Type 0
      Derived h = (sig : Signature T) × sig ∈ sigs × (x ≡ handle h c result sig)

      derived_value :
          (sig : Signature T)
          → sig ∈ sigs
          → x ∈ image (signatures c result) default_set_error (set_stopped ∷ []) sig
          → Derived value_tag
      unfolding handle default_set_error signatures Derived
      derived_value (set_value ts) m h = (set_value ts, m, Memᴰ.eq_of_singleton h)
      derived_value (set_error ts) m h = (set_error ts, m, Memᴰ.eq_of_singleton h)
      derived_value set_stopped m h = (set_stopped, m, Memᴰ.eq_of_singleton h)

      derived_error :
          (sig : Signature T)
          → sig ∈ sigs
          → x ∈ image default_set_value (signatures c result) (set_stopped ∷ []) sig
          → Derived error_tag
      unfolding handle default_set_value signatures Derived
      derived_error (set_value ts) m h = (set_value ts, m, Memᴰ.eq_of_singleton h)
      derived_error (set_error ts) m h = (set_error ts, m, Memᴰ.eq_of_singleton h)
      derived_error set_stopped m h = (set_stopped, m, Memᴰ.eq_of_singleton h)

      derived_stopped :
          (sig : Signature T)
          → sig ∈ sigs
          → x ∈ image default_set_value default_set_error [] sig
          → Derived stopped_tag
      unfolding handle default_set_value default_set_error Derived
      derived_stopped (set_value ts) m h = (set_value ts, m, Memᴰ.eq_of_singleton h)
      derived_stopped (set_error ts) m h = (set_error ts, m, Memᴰ.eq_of_singleton h)
      derived_stopped set_stopped m h = absurd (Memᴰ.not-nil h)

      unsent :
          (sig : Signature T)
          → sends_stopped mp sigs ≡ false
          → sig ∈ sigs
          → x ≡ sig
          → Derived stopped_tag
      unfolding handle Derived
      unsent (set_value ts) n m e = (set_value ts, m, e)
      unsent (set_error ts) n m e = (set_error ts, m, e)
      unsent set_stopped n m e = absurd (no_stopped mp sigs n m)

      derived : (h : Tag) → x ∈ get_completion_signatures h c result sigs → Derived h
      unfolding get_completion_signatures handle Derived
      derived value_tag m = elim ((in_transformed mp sigs _ _ _ _ x).0 m) [
        | inl n ↦ absurd (Memᴰ.not-nil n)
        | inr (sig, i, k) ↦ derived_value sig i k
      ]
      derived error_tag m = elim ((in_transformed mp sigs _ _ _ _ x).0 m) [
        | inl n ↦ absurd (Memᴰ.not-nil n)
        | inr (sig, i, k) ↦ derived_error sig i k
      ]
      derived stopped_tag m = elim (Bool-cases (sends_stopped mp sigs)) [
        | inl e ↦ elim ((in_transformed mp sigs _ _ _ _ x).0 (rw e at m)) [
          | inl n ↦ (set_stopped, has_stopped mp sigs e, Memᴰ.eq_of_singleton n)
          | inr (sig, i, k) ↦ derived_stopped sig i k
        ]
        | inr e ↦ unsent x e (rw e at m) refl
      ]

module _ {V T : Type 0} (type_of : V → T) where
  signature_of-send :
      (c : Tag) (vs : List V) → signature_of type_of (send c vs) ≡ send c (map type_of vs)
  unfolding send
  signature_of-send value_tag vs = refl
  signature_of-send error_tag vs = refl
  signature_of-send stopped_tag vs = refl

  -- The type of what is sent, by the type of what was received.
  signature_of-handle :
      (h c : Tag) (f : List V → List V) (result : List T → List T)
      → ((vs : List V) → map type_of (f vs) ≡ result (map type_of vs))
      → (s : Signal V)
      → signature_of type_of (handle h c f s) ≡ handle h c result (signature_of type_of s)
  unfolding handle
  signature_of-handle value_tag c f result t (set_value vs) =
      signature_of-send c (f vs) ∙ ap (send c) (t vs)
  signature_of-handle value_tag c f result t (set_error vs) = refl
  signature_of-handle value_tag c f result t set_stopped = refl
  signature_of-handle error_tag c f result t (set_value vs) = refl
  signature_of-handle error_tag c f result t (set_error vs) =
      signature_of-send c (f vs) ∙ ap (send c) (t vs)
  signature_of-handle error_tag c f result t set_stopped = refl
  signature_of-handle stopped_tag c f result t (set_value vs) = refl
  signature_of-handle stopped_tag c f result t (set_error vs) = refl
  signature_of-handle stopped_tag c f result t set_stopped =
      signature_of-send c (f []) ∙ ap (send c) (t [])

  -- Where the functions' results have the types that are computed of the arguments' types, and the
  -- adapted sender's completion is one of those it advertises, the completion that `then`,
  -- `upon_error`, `upon_stopped`, `then_error` or `transform_error` sends is one of those that they
  -- advertise; and they advertise exactly the adapted sender's signatures with the handled ones
  -- replaced by those of the results.
  pub handle-advertised :
      (mp : Mp11 (Signature T)) (h c : Tag) (f : List V → List V) (result : List T → List T)
      (sigs : List (Signature T))
      → ((vs : List V) → map type_of (f vs) ≡ result (map type_of vs))
      → ((s : Signal V)
          → signature_of type_of s ∈ sigs
          → signature_of type_of (handle h c f s) ∈ get_completion_signatures mp h c result sigs)
        × ((x : Signature T)
            → x ∈ get_completion_signatures mp h c result sigs
              ↔ ((sig : Signature T) × sig ∈ sigs × (x ≡ handle h c result sig)))
  unfolding Derived
  handle-advertised mp h c f result sigs t = (
    λ s m.
        subst (λ x. x ∈ get_completion_signatures mp h c result sigs)
          (sym (signature_of-handle h c f result t s)) (advertised mp h c result sigs _ m),
    λ x. (
      derived mp c result sigs x h,
      λ (sig, m, e).
          subst (λ y. y ∈ get_completion_signatures mp h c result sigs) (sym e)
            (advertised mp h c result sigs sig m),
    ),
  )
