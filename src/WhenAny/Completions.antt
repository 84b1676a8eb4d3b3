-- ===== src/WhenAny/Completions.antt =====
-- The completion signatures of include/async/when_any.hpp. `sigs i` are those of child `i` for the
-- environment.
use cpp_baremetal_senders_an.Base.{ℕ, ◌<◌, ◌↔◌, Bool, List, [], ◌∷◌, ◌∈◌, if◌then◌else◌}
use cpp_baremetal_senders_an.Channel.{set_stopped}
use cpp_baremetal_senders_an.Mp11.{Mp11, pack}
use cpp_baremetal_senders_an.Signatures.{Signature}
use cpp_baremetal_senders_an.Signatures.Tagged.{in_union}

-- `when_any` of no senders.
unfoldable pub empty_completions : {T : Type 0} → Bool → List (Signature T)
empty_completions unstoppable = if unstoppable then [] else set_stopped ∷ []

module _ {T : Type 0} (mp : Mp11 (Signature T)) where
  unfoldable pub get_completion_signatures : (ℕ → List (Signature T)) → ℕ → List (Signature T)
  get_completion_signatures sigs n = mp.unique (mp.append (pack sigs n))

  pub in_any :
      (sigs : ℕ → List (Signature T)) (n : ℕ) (x : Signature T)
      → x ∈ get_completion_signatures sigs n ↔ ((i : ℕ) × (i < n) × x ∈ sigs i)
  unfolding get_completion_signatures
  in_any sigs n x = in_union mp sigs n x
