-- ===== src/InciteOn/Completions.antt =====
-- The completion signatures of include/async/incite_on.hpp, of `incite_on_any` too.
use cpp_baremetal_senders_an.Base.{
  ℕ, ◌≡◌, ◌≢◌, refl, ◌↔◌, ◌⊎◌, inl, inr, true, false, List, [], ◌∷◌, ◌∈◌, if◌then◌else◌, Bool-cases,
  subst, sym,
}
use mathlib.Core.List.Memᴰ
use cpp_baremetal_senders_an.Channel.{set_value, set_error, set_stopped}
use cpp_baremetal_senders_an.Sender.{value_tag, error_tag, stopped_tag, tag_of}
use cpp_baremetal_senders_an.Mp11.{Mp11}
use cpp_baremetal_senders_an.Signatures.{Signature, signatures_by_tag}
use cpp_baremetal_senders_an.Signatures.Tagged.{in_two, in_not_value, in_by_tag}
use cpp_baremetal_senders_an.Then.Completions as Then
use cpp_baremetal_senders_an.Sequence.Completions as Sequence
use cpp_baremetal_senders_an.WhenAny.Completions as WhenAny

module _ {T : Type 0} (mp : Mp11 (Signature T)) where
  unfoldable pub unchanged_completions : List (Signature T) → List (Signature T)
  unchanged_completions sigs =
      mp.append (signatures_by_tag mp sigs error_tag ∷ signatures_by_tag mp sigs stopped_tag ∷ [])

  -- Those of the scheduler's sender, where the first sender may send its function.
  unfoldable pub dependent_completions :
      List (Signature T) → List (Signature T) → List (Signature T)
  dependent_completions sigs scheduled =
      if mp.empty (signatures_by_tag mp sigs value_tag) then [] else scheduled

  unfoldable pub get_completion_signatures :
      List (Signature T) → List (Signature T) → List (Signature T)
  unfolding unchanged_completions dependent_completions
  get_completion_signatures sigs scheduled =
      mp.unique (mp.append (unchanged_completions sigs ∷ dependent_completions sigs scheduled ∷ []))

  no_values :
      (sigs : List (Signature T))
      → mp.empty (signatures_by_tag mp sigs value_tag) ≡ true
      → (ts : List T) → set_value ts ∈ sigs
      → ⊥
  no_values sigs e ts m = Memᴰ.not-nil (
      subst (λ l. set_value ts ∈ l) ((mp.empty_iff _).0 e)
        ((in_by_tag mp sigs value_tag (set_value ts)).1 (m, refl)))

  some_values :
      (sigs : List (Signature T))
      → mp.empty (signatures_by_tag mp sigs value_tag) ≡ false
      → (ts : List T) × set_value ts ∈ sigs
  some_values sigs e = among (signatures_by_tag mp sigs value_tag) refl
    where
      value :
          (sig : Signature T)
          → value_tag ≡ tag_of sig
          → sig ∈ sigs
          → (ts : List T) × set_value ts ∈ sigs
      value (set_value ts) t m = (ts, m)
      value (set_error ts) t m = absurd (cc t)
      value set_stopped t m = absurd (cc t)

      among :
          (l : List (Signature T))
          → signatures_by_tag mp sigs value_tag ≡ l
          → (ts : List T) × set_value ts ∈ sigs
      among [] q = absurd (cc ((mp.empty_iff _).1 q, e))
      among (sig ∷ l) q =
          let (i, t) =
            (in_by_tag mp sigs value_tag sig).0 (subst (λ k. sig ∈ k) (sym q) (Memᴰ.head refl)) in
          value sig t i

  -- `incite_on` advertises exactly the first sender's signatures but for the values, and, where it
  -- has a value, those of the scheduler's sender.
  pub in_incite :
      (sigs scheduled : List (Signature T)) (x : Signature T)
      → x ∈ get_completion_signatures sigs scheduled ↔ (
          (x ∈ sigs × (tag_of x ≢ value_tag))
          ⊎ (((ts : List T) × set_value ts ∈ sigs) × x ∈ scheduled))
  unfolding get_completion_signatures unchanged_completions dependent_completions
  in_incite sigs scheduled x = (
    λ m. elim ((in_two mp _ _ x).0 ((mp.in_unique x _).0 m)) [
      | inl h ↦ inl ((in_not_value mp sigs x).0 h)
      | inr h ↦ elim (Bool-cases (mp.empty (signatures_by_tag mp sigs value_tag))) [
        | inl e ↦ absurd (Memᴰ.not-nil (rw e at h))
        | inr e ↦ inr (some_values sigs e, rw e at h)
      ]
    ],
    λ m. (mp.in_unique x _).1 (
        (in_two mp _ _ x).1 (elim m [
          | inl h ↦ inl ((in_not_value mp sigs x).1 h)
          | inr ((ts, v), h) ↦ elim (Bool-cases (mp.empty (signatures_by_tag mp sigs value_tag))) [
            | inl e ↦ absurd (no_values sigs e ts v)
            | inr e ↦ inr (rw e h)
          ]
        ])),
  )

  -- `incite_on_any`: `s | then(...) | incite_on(trigger_scheduler<Uniq>{}) |
  -- seq(when_any(schedules...))`. `wrapped` is the type of the function that the lambda makes, by
  -- that of the one that was sent, `triggered` the signatures of the trigger scheduler's sender, and
  -- `schedules i` those of the `i`-th of the `n` schedulers' senders, two or more.
  unfoldable pub any_completions :
      (List T → List T)
      → List (Signature T)
      → List (Signature T)
      → (ℕ → List (Signature T))
      → ℕ
      → List (Signature T)
  any_completions wrapped sigs triggered schedules n =
      Sequence.get_completion_signatures mp
        (get_completion_signatures
          (Then.get_completion_signatures mp value_tag value_tag wrapped sigs) triggered)
        (WhenAny.get_completion_signatures mp schedules n)
