-- ===== src/IntoVariant/Advertised.antt =====
-- That what `into_variant` sends is advertised.
use cpp_baremetal_senders_an.Base.{
  ◌≡◌, ◌≢◌, refl, ap, sym, subst, ◌↔◌, ◌⊎◌, inl, inr, List, [], ◌∷◌, ◌∈◌,
}
use mathlib.Core.List.Memᴰ
use cpp_baremetal_senders_an.Channel.{set_value, set_error, set_stopped}
use cpp_baremetal_senders_an.Sender.{value_tag, Signal, tag_of}
use cpp_baremetal_senders_an.Mp11.{Mp11}
use cpp_baremetal_senders_an.Signatures.{Signature, signature_of, default_set_error}
use cpp_baremetal_senders_an.Signatures.Transformed.{image, in_transformed}
use cpp_baremetal_senders_an.IntoVariant.{
  receive, discard_signatures, variant_t, get_completion_signatures,
}

module _ {T : Type 0} (mp : Mp11 (Signature T)) (mpl : Mp11 (List T)) (decay : T → T)
    (variant_type : List (List T) → T) (sigs : List (Signature T)) where
  -- The one value signature of `into_variant`, and those of the sender on the other channels.
  abbrev Converted : Signature T → Type 0
  Converted x =
      (x ≡ set_value (variant_t mp mpl decay variant_type sigs ∷ []))
      ⊎ (x ∈ sigs × (tag_of x ≢ value_tag))

  converted :
      (x sig : Signature T)
      → sig ∈ sigs
      → x ∈ image discard_signatures default_set_error (set_stopped ∷ []) sig
      → Converted x
  unfolding discard_signatures default_set_error
  converted x (set_value ts) m h = absurd (Memᴰ.not-nil h)
  converted x (set_error ts) m h =
      subst Converted (sym (Memᴰ.eq_of_singleton h)) (inr (m, λ e. absurd (cc e)))
  converted x set_stopped m h =
      subst Converted (sym (Memᴰ.eq_of_singleton h)) (inr (m, λ e. absurd (cc e)))

  passed :
      (x : Signature T)
      → tag_of x ≢ value_tag
      → x ∈ image discard_signatures default_set_error (set_stopped ∷ []) x
  unfolding discard_signatures default_set_error
  passed (set_value ts) ne = absurd (ne refl)
  passed (set_error ts) ne = Memᴰ.head refl
  passed set_stopped ne = Memᴰ.head refl

  in-Converted :
      (x : Signature T) → x ∈ get_completion_signatures mp mpl decay variant_type sigs ↔ Converted x
  unfolding get_completion_signatures
  in-Converted x =
      let law =
        in_transformed mp sigs (set_value (variant_t mp mpl decay variant_type sigs ∷ []) ∷ [])
          discard_signatures default_set_error (set_stopped ∷ []) x in
      (
        λ m. elim (law.0 m) [
          | inl h ↦ inl (Memᴰ.eq_of_singleton h)
          | inr (sig, i, h) ↦ converted x sig i h
        ],
        λ c. law.1 (elim c [ inl e ↦ inl (Memᴰ.head e) | inr (i, ne) ↦ inr (x, i, passed x ne) ]),
      )

  -- Where the variant that is made of the values has the type that is computed of all value
  -- completions of the adapted sender, and the adapted sender's completion is one of those it
  -- advertises, so is the one that `into_variant` sends; and it advertises exactly one value, the
  -- variant, whether the adapted sender has a value or not, and the adapted sender's signatures on
  -- the other channels.
  pub variant-advertised :
      {V : Type 0} (type_of : V → T) (construct : List V → V)
      → ((vs : List V)
          → signature_of type_of (set_value vs) ∈ sigs
          → type_of (construct vs) ≡ variant_t mp mpl decay variant_type sigs)
      → ((s : Signal V)
          → signature_of type_of s ∈ sigs
          → signature_of type_of (receive construct s)
            ∈ get_completion_signatures mp mpl decay variant_type sigs)
        × ((x : Signature T)
            → x ∈ get_completion_signatures mp mpl decay variant_type sigs ↔ (
                (x ≡ set_value (variant_t mp mpl decay variant_type sigs ∷ []))
                ⊎ (x ∈ sigs × (tag_of x ≢ value_tag))))
  unfolding receive
  variant-advertised {V} type_of construct typed = (sent, in-Converted)
    where
      sent :
          (s : Signal V)
          → signature_of type_of s ∈ sigs
          → signature_of type_of (receive construct s)
            ∈ get_completion_signatures mp mpl decay variant_type sigs
      sent (set_value vs) m = (in-Converted _).1 (inl (ap (λ t. set_value (t ∷ [])) (typed vs m)))
      sent (set_error vs) m = (in-Converted _).1 (inr (m, λ e. absurd (cc e)))
      sent set_stopped m = (in-Converted _).1 (inr (m, λ e. absurd (cc e)))
