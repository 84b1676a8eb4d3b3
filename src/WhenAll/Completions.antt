-- ===== src/WhenAll/Completions.antt =====
-- The completion signatures of include/async/when_all.hpp. `sigs i` are those of child `i` for the
-- environment, and `common_type` is `std::common_type_t` on the error types.
use cpp_baremetal_senders_an.Base.{
  ℕ, Bool, true, false, Option, none, some, List, [], ◌∷◌, ◌≡◌, refl, sym, subst, ◌∈◌, map,
  if◌then◌else◌, ◌↔◌, inl, inr, Option-cases,
}
use mathlib.Core.Option.{some-injective}
use mathlib.Core.List.Memᴰ
use cpp_baremetal_senders_an.Channel.{set_value, set_error, set_stopped}
use cpp_baremetal_senders_an.Sender.{Tag, value_tag, error_tag, tag_of, args_of}
use cpp_baremetal_senders_an.Mp11.{Mp11, pack}
use cpp_baremetal_senders_an.Signatures.{
  Signature, tuplify, variantify, signatures_by_tag, gather_signatures, default_set_stopped,
}
use cpp_baremetal_senders_an.Signatures.Tagged.{in_by_tag}

-- `std::type_identity_t` takes one type.
abbrev pub only : {A : Type 0} → List A → Option A
only [] = none
only (x ∷ []) = some x
only (x ∷ y ∷ xs) = none

-- `when_all` of no senders.
unfoldable pub empty_completions : {T : Type 0} → Bool → List (Signature T)
empty_completions unstoppable =
    if unstoppable then set_value [] ∷ [] else set_value [] ∷ set_stopped ∷ []

module _ {T : Type 0} (mp : Mp11 (Signature T)) where
  -- The argument types of the one signature with a tag; `none` where there is not just one.
  unfoldable pub single_types : List (Signature T) → Tag → Option (List T)
  single_types sigs tag = gather_signatures mp tag sigs (λ ts. ts) only

  unfoldable pub single_sender : List (Signature T) → Tag → Bool
  unfolding single_types
  single_sender sigs tag = elim (single_types sigs tag) [ none ↦ false | some ts ↦ true ]

  -- `sub_op_storage::values_t`, and the types in `error_types_of_t`.
  unfoldable pub types_of : Tag → List (Signature T) → List T
  unfolding single_types
  types_of tag sigs = elim (single_types sigs tag) [ none ↦ [] | some ts ↦ ts ]

  module _ (mpt : Mp11 T) (mps : Mp11 (List (Signature T)))
      (common_type : List (List T) → List T) where
    unfoldable pub error_senders : List (List (Signature T)) → List (List (Signature T))
    unfolding single_sender
    error_senders senders = mps.copy_if (λ s. single_sender s error_tag) senders

    -- `error_op_state::signatures`.
    unfoldable pub error_completions : List (List (Signature T)) → List (Signature T)
    unfolding types_of
    error_completions [] = []
    error_completions (s ∷ senders) =
        set_error (common_type (map (types_of error_tag) (s ∷ senders))) ∷ []

    unfoldable pub get_completion_signatures : (ℕ → List (Signature T)) → ℕ → List (Signature T)
    unfolding types_of error_senders error_completions
    get_completion_signatures sigs n = mp.unique (
        mp.append (
          (set_value (mpt.append (pack (λ i. types_of value_tag (sigs i)) n)) ∷ [])
          ∷ error_completions (error_senders (pack sigs n))
          ∷ pack (λ i. default_set_stopped mp (sigs i)) n))

  pub types_of-single :
      (sigs : List (Signature T)) (tag : Tag) (ts : List T)
      → single_types sigs tag ≡ some ts
      → types_of tag sigs ≡ ts
  unfolding types_of
  types_of-single sigs tag ts e = rw (e, types_of) refl

  pub single_sender_iff :
      (sigs : List (Signature T)) (tag : Tag)
      → single_sender sigs tag ≡ true ↔ ((ts : List T) × (single_types sigs tag ≡ some ts))
  unfolding single_sender
  single_sender_iff sigs tag = (
    λ h. elim (Option-cases (single_types sigs tag)) [
      | inl e ↦ absurd (cc (rw (e, single_sender) at h))
      | inr t ↦ t
    ],
    λ (ts, e). rw (e, single_sender) refl,
  )

  -- The one signature with a tag is the only one.
  pub single_unique :
      (sigs : List (Signature T)) (tag : Tag) (ts : List T) (sig : Signature T)
      → single_types sigs tag ≡ some ts
      → sig ∈ sigs
      → tag ≡ tag_of sig
      → args_of sig ≡ ts
  unfolding single_types gather_signatures variantify tuplify
  single_unique sigs tag ts sig e m t =
      among (signatures_by_tag mp sigs tag) e ((in_by_tag mp sigs tag sig).1 (m, t))
    where
      among :
          (l : List (Signature T))
          → only (map (λ s. args_of s) l) ≡ some ts
          → sig ∈ l
          → args_of sig ≡ ts
      among [] e m = absurd (Memᴰ.not-nil m)
      among (s ∷ []) e m =
          subst (λ x. args_of x ≡ ts) (sym (Memᴰ.eq_of_singleton m)) (some-injective _ _ e)
      among (s ∷ s' ∷ l) e m = absurd (cc e)

  pub single_member :
      (sigs : List (Signature T)) (tag : Tag) (ts : List T)
      → single_types sigs tag ≡ some ts
      → (sig : Signature T) × sig ∈ sigs × (tag ≡ tag_of sig) × (args_of sig ≡ ts)
  unfolding single_types gather_signatures variantify tuplify
  single_member sigs tag ts e =
      let (sig, i, a) = among (signatures_by_tag mp sigs tag) e in
      let (j, t) = (in_by_tag mp sigs tag sig).0 i in (sig, j, t, a)
    where
      among :
          (l : List (Signature T))
          → only (map (λ s. args_of s) l) ≡ some ts
          → (sig : Signature T) × sig ∈ l × (args_of sig ≡ ts)
      among [] e = absurd (cc e)
      among (s ∷ []) e = (s, Memᴰ.head refl, some-injective _ _ e)
      among (s ∷ s' ∷ l) e = absurd (cc e)
