-- ===== src/Variant/Completions.antt =====
-- The completion signatures of the variant sender of include/async/variant_sender.hpp.
use cpp_baremetal_senders_an.Base.{ℕ, ◌<◌, List, ◌≡◌, ◌∈◌, some}
use cpp_baremetal_senders_an.Sender.{Run}
use cpp_baremetal_senders_an.Mp11.{Mp11, pack}
use cpp_baremetal_senders_an.Signatures.{Signature, signature_of}
use cpp_baremetal_senders_an.Signatures.Tagged.{in_union}
use cpp_baremetal_senders_an.Variant.{start}
use cpp_baremetal_senders_an.Variant.Matching.{start-index}

module _ {T : Type 0} (mp : Mp11 (Signature T)) where
  -- `sigs i` are those of the `i`-th of `n` senders.
  unfoldable pub get_completion_signatures : (ℕ → List (Signature T)) → ℕ → List (Signature T)
  get_completion_signatures sigs n = mp.unique (mp.append (pack sigs n))

  -- The operation of a variant sender that holds the sender of one of its alternatives, which
  -- completes with one of those that it advertises, does what that sender does, and its completion
  -- is one of those that the variant sender advertises.
  pub variant_start-advertised :
      {V : Type 0} (type_of : V → T) (sigs : ℕ → List (Signature T)) (n i : ℕ) (r : Run V)
      → i < n
      → signature_of type_of r.completion ∈ sigs i
      → (start n (i, r) ≡ some r)
        × signature_of type_of r.completion ∈ get_completion_signatures sigs n
  unfolding get_completion_signatures
  variant_start-advertised type_of sigs n i r lt m =
      (start-index n i r lt, (in_union mp sigs n _).1 (i, lt, m))
