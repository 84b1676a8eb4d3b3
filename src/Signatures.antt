-- ===== src/Signatures.antt =====
-- include/async/type_traits.hpp: the completion signatures of a sender for one environment, and
-- what the adaptors compute of them. `T` stands for the C++ types. A signature `set_value_t(Ts...)`
-- is a completion whose arguments are types.
pub mod Tagged
pub mod Transformed
use cpp_baremetal_senders_an.Base.{
  ℕ, Bool, true, false, not, ◌||◌, List, [], ◌∷◌, is_empty, if◌then◌else◌, ◌≡◌, map,
}
use cpp_baremetal_senders_an.Channel.{set_value, set_error, set_stopped}
use cpp_baremetal_senders_an.Sender.{
  Tag, value_tag, error_tag, stopped_tag, Signal, tag_of, args_of,
}
use cpp_baremetal_senders_an.Mp11.{Mp11, Entry, sublist}

abbrev pub Signature : Type 0 → Type 0
Signature T = Signal T

-- `std::is_same_v` of two channel tags.
abbrev pub same_tag : Tag → Tag → Bool
same_tag value_tag value_tag = true
same_tag error_tag error_tag = true
same_tag stopped_tag stopped_tag = true
same_tag _ _ = false

abbrev pub any_tag : List Tag → Tag → Bool
any_tag [] t = false
any_tag (u ∷ us) t = same_tag u t || any_tag us t

-- The signature that a completion has, by the types of its arguments.
abbrev pub signature_of : {V T : Type 0} → (V → T) → Signal V → Signature T
signature_of type_of (set_value vs) = set_value (map type_of vs)
signature_of type_of (set_error vs) = set_error (map type_of vs)
signature_of type_of set_stopped = set_stopped

module _ {T : Type 0} where
  unfoldable pub with_any_tag : List Tag → Signature T → Bool
  with_any_tag tags sig = any_tag tags (tag_of sig)

  unfoldable pub tuplify : {B : Type 0} → (List T → B) → Signature T → B
  tuplify tuple sig = tuple (args_of sig)

  unfoldable pub variantify : {B C : Type 0} → (List B → C) → (List T → B) → List (Signature T) → C
  unfolding tuplify
  variantify variant tuple sigs = variant (map (tuplify tuple) sigs)

  unfoldable pub default_set_value : List T → Entry (Signature T)
  default_set_value ts = sublist (set_value ts ∷ [])

  unfoldable pub default_set_error : List T → Entry (Signature T)
  default_set_error ts = sublist (set_error ts ∷ [])

  -- The argument `signatures` of `repeat`, `retry` and `periodic`: the completions are dropped.
  unfoldable pub no_signatures : List T → Entry (Signature T)
  no_signatures ts = sublist []

  module _ (mp : Mp11 (Signature T)) where
    unfoldable pub signatures_by_tag : List (Signature T) → Tag → List (Signature T)
    unfolding with_any_tag
    signatures_by_tag sigs tag = mp.copy_if (with_any_tag (tag ∷ [])) sigs

    unfoldable pub gather_signatures :
        {B C : Type 0} → Tag → List (Signature T) → (List T → B) → (List B → C) → C
    unfolding variantify signatures_by_tag
    gather_signatures tag sigs tuple variant = variantify variant tuple (signatures_by_tag sigs tag)

    unfoldable pub sends_stopped : List (Signature T) → Bool
    unfolding gather_signatures
    sends_stopped sigs =
        not (is_empty (gather_signatures stopped_tag sigs (λ ts. ts) (λ tuples. tuples)))

    unfoldable pub default_set_stopped : List (Signature T) → List (Signature T)
    unfolding sends_stopped
    default_set_stopped sigs = if sends_stopped sigs then set_stopped ∷ [] else []

    unfoldable pub stopped_list : List (Signature T) → List (Signature T) → List (Signature T)
    unfolding gather_signatures
    stopped_list sigs stopped =
        if is_empty (gather_signatures stopped_tag sigs (λ ts. ts) (λ tuples. tuples))
        then []
        else stopped

    -- The arguments after the input are `AddlSigs`, `SetValue`, `SetError` and `SetStopped`.
    unfoldable pub transform_completion_signatures :
        List (Signature T)
        → List (Signature T)
        → (List T → Entry (Signature T))
        → (List T → Entry (Signature T))
        → List (Signature T)
        → List (Signature T)
    unfolding gather_signatures stopped_list
    transform_completion_signatures sigs additional value error stopped = mp.unique (
        mp.append (
          additional
          ∷ mp.flatten (gather_signatures value_tag sigs value (λ es. es))
          ∷ mp.flatten (gather_signatures error_tag sigs error (λ es. es))
          ∷ stopped_list sigs stopped
          ∷ []))
