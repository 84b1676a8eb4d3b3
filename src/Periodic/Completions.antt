-- ===== src/Periodic/Completions.antt =====
-- The completion signatures of include/async/periodic.hpp. `never` says that the predicate is that of
-- `periodic`, which is never met; the values are then dropped.
use mathlib.Core.List.Memᴰ
use cpp_baremetal_senders_an.Base.{
  ℕ, ◌≡◌, refl, Bool, true, false, not, List, [], ◌∷◌, ◌++◌, ◌∈◌, inl, inr, Bool-cases,
  if◌then◌else◌,
}
use cpp_baremetal_senders_an.Channel.{set_value, set_error, set_stopped}
use cpp_baremetal_senders_an.Sender.{Signal}
use cpp_baremetal_senders_an.Mp11.{Mp11}
use cpp_baremetal_senders_an.Signatures.{
  Signature, signature_of, default_set_error, no_signatures, sends_stopped,
  transform_completion_signatures,
}
use cpp_baremetal_senders_an.Signatures.Tagged.{no_stopped}
use cpp_baremetal_senders_an.Signatures.Transformed.{image, in_transformed}
use cpp_baremetal_senders_an.Periodic.{Expiry, OpState, passthrough, restart, repeat_step, receive}

unfoldable pub get_completion_signatures :
    {T : Type 0} → Mp11 (Signature T) → Bool → List (Signature T) → List (Signature T)
get_completion_signatures mp never sigs =
    if never
    then transform_completion_signatures mp sigs [] no_signatures default_set_error
        (set_stopped ∷ [])
    else sigs

module _ {V T : Type 0} (mp : Mp11 (Signature T)) (type_of : V → T) where
  no_stopped_advertised :
      (never : Bool) (sigs : List (Signature T))
      → sends_stopped mp sigs ≡ false
      → set_stopped ∈ get_completion_signatures mp never sigs
      → ⊥
  unfolding get_completion_signatures no_signatures default_set_error
  no_stopped_advertised never sigs n m = elim (Bool-cases never) [
    | inl e ↦ elim ((in_transformed mp sigs _ _ _ _ set_stopped).0 (rw e at m)) [
      | inl h ↦ Memᴰ.not-nil h
      | inr (sig, i, h) ↦ not_made sig i h
    ]
    | inr e ↦ no_stopped mp sigs n (rw e at m)
  ]
    where
      not_made :
          (sig : Signature T)
          → sig ∈ sigs
          → set_stopped ∈ image no_signatures default_set_error (set_stopped ∷ []) sig
          → ⊥
      not_made (set_value ts) i h = Memᴰ.not-nil h
      not_made (set_error ts) i h = absurd (cc (Memᴰ.eq_of_singleton h))
      not_made set_stopped i h = no_stopped mp sigs n i

  -- Where the repeated sender does not advertise stopped, neither does `periodic` nor
  -- `periodic_until`; but where the downstream token has been asked to stop when the sender has
  -- completed with a value that does not end the loop, the operation delivers stopped.
  pub periodic-unadvertised :
      {P : Type 0} (never : Bool) (sigs : List (Signature T)) (expiry : Expiry)
      (pred : List V → P → Bool × P) (now : ℕ) (vs : List V) (s : OpState V (List V) P)
      → sends_stopped mp sigs ≡ false
      → (pred vs s.pred_state).0 ≡ false
      → (c : Signal V) × ((receive expiry pred
            (not (sends_stopped mp sigs))
            true
            now
            (set_value vs)
            s).delivered
          ≡ s.delivered ++ c ∷ [])
        × (signature_of type_of c ∈ get_completion_signatures mp never sigs → ⊥)
  unfolding receive repeat_step restart passthrough
  periodic-unadvertised never sigs expiry pred now vs s n p =
      (set_stopped, rw (receive, p, n) refl, no_stopped_advertised never sigs n)
