-- ===== src/IntoVariant.antt =====
-- include/async/into_variant.hpp. `construct` makes the variant of the tuple of the values,
-- `variant_type` is the variant template on the types of the tuples, and `decay` is `std::decay_t`.
pub mod Advertised
use cpp_baremetal_senders_an.Base.{List, [], ◌∷◌, map}
use cpp_baremetal_senders_an.Channel.{set_value, set_error, set_stopped}
use cpp_baremetal_senders_an.Sender.{value_tag, Signal}
use cpp_baremetal_senders_an.Mp11.{Mp11, Entry, sublist}
use cpp_baremetal_senders_an.Signatures.{
  Signature, gather_signatures, default_set_error, transform_completion_signatures,
}

-- The receiver.
unfoldable pub receive : {V : Type 0} → (List V → V) → Signal V → Signal V
receive construct (set_value vs) = set_value (construct vs ∷ [])
receive construct (set_error vs) = set_error vs
receive construct set_stopped = set_stopped

unfoldable pub discard_signatures : {T : Type 0} → List T → Entry (Signature T)
discard_signatures ts = sublist []

module _ {T : Type 0} (mp : Mp11 (Signature T)) (mpl : Mp11 (List T)) (decay : T → T)
    (variant_type : List (List T) → T) where
  unfoldable pub variant_t : List (Signature T) → T
  variant_t sigs =
      variant_type
        (mpl.unique (gather_signatures mp value_tag sigs (λ ts. map decay ts) (λ tuples. tuples)))

  unfoldable pub get_completion_signatures : List (Signature T) → List (Signature T)
  unfolding variant_t discard_signatures
  get_completion_signatures sigs =
      transform_completion_signatures mp sigs (set_value (variant_t sigs ∷ []) ∷ [])
        discard_signatures default_set_error (set_stopped ∷ [])
