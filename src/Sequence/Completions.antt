-- ===== src/Sequence/Completions.antt =====
-- The completion signatures of include/async/sequence.hpp, and that what a sequence delivers is
-- advertised.
use cpp_baremetal_senders_an.Base.{ℕ, List, [], ◌∷◌, ◌≡◌, ◌≢◌, ◌↔◌, ◌⊎◌, inl, inr, ◌∈◌}
use cpp_baremetal_senders_an.Channel.{set_value, set_error, set_stopped}
use cpp_baremetal_senders_an.Sender.{value_tag, error_tag, stopped_tag, Signal, Run, tag_of}
use cpp_baremetal_senders_an.Mp11.{Mp11}
use cpp_baremetal_senders_an.Signatures.{Signature, signature_of, signatures_by_tag}
use cpp_baremetal_senders_an.Signatures.Tagged.{in_two, in_not_value}
use cpp_baremetal_senders_an.Sequence.{new_op, start, sequence, seq}
use cpp_baremetal_senders_an.Sequence.Order.{start-sequence}

module _ {T : Type 0} (mp : Mp11 (Signature T)) where
  unfoldable pub unchanged_completions : List (Signature T) → List (Signature T)
  unchanged_completions sigs =
      mp.append (signatures_by_tag mp sigs error_tag ∷ signatures_by_tag mp sigs stopped_tag ∷ [])

  -- The signatures of the adapted sender, and those of the one that the function makes.
  unfoldable pub get_completion_signatures :
      List (Signature T) → List (Signature T) → List (Signature T)
  unfolding unchanged_completions
  get_completion_signatures sigs dependent =
      mp.unique (mp.append (unchanged_completions sigs ∷ dependent ∷ []))

  pub in_sequence :
      (sigs dependent : List (Signature T)) (x : Signature T)
      → x ∈ get_completion_signatures sigs dependent
        ↔ ((x ∈ sigs × (tag_of x ≢ value_tag)) ⊎ x ∈ dependent)
  unfolding get_completion_signatures unchanged_completions
  in_sequence sigs dependent x = (
    λ m. elim ((in_two mp _ _ x).0 ((mp.in_unique x _).0 m)) [
      | inl h ↦ inl ((in_not_value mp sigs x).0 h)
      | inr h ↦ inr h
    ],
    λ m. (mp.in_unique x _).1 (
        (in_two mp _ _ x).1
          (elim m [ inl h ↦ inl ((in_not_value mp sigs x).1 h) | inr h ↦ inr h ])),
  )

  -- The signatures of `seq`.
  unfoldable pub seq_completions :
      List (Signature T) → List (List (Signature T)) → List (Signature T)
  unfolding get_completion_signatures
  seq_completions sigs [] = sigs
  seq_completions sigs (next ∷ rest) = seq_completions (get_completion_signatures sigs next) rest

  module _ {V : Type 0} (type_of : V → T) where
    -- The run's completion is one of the signatures.
    abbrev pub Advertises : List (Signature T) → Run V → Type 0
    Advertises sigs r = signature_of type_of r.completion ∈ sigs

    -- The senders of a list, each with its signatures.
    pub data AllAdvertise : List (List (Signature T)) → List (Run V) → Type 0 where
      nil : AllAdvertise [] []
      cons :
          {sigs : List (Signature T)} {r : Run V} {rest : List (List (Signature T))}
          {rs : List (Run V)}
          → Advertises sigs r
          → AllAdvertise rest rs
          → AllAdvertise (sigs ∷ rest) (r ∷ rs)

    sequence-Advertises :
        (sigs dependent : List (Signature T)) (r n : Run V)
        → Advertises sigs r
        → Advertises dependent n
        → Advertises (get_completion_signatures sigs dependent) (sequence r n)
    unfolding sequence
    sequence-Advertises sigs dependent r n m k = by_completion r.started r.completion m
      where
        by_completion :
            (l : List ℕ) (c : Signal V)
            → signature_of type_of c ∈ sigs
            → Advertises
                (get_completion_signatures sigs dependent)
                (sequence (record { started = l; completion = c }) n)
        by_completion l (set_value vs) i = (in_sequence sigs dependent _).1 (inr k)
        by_completion l (set_error vs) i =
            (in_sequence sigs dependent _).1 (inl (i, λ d. absurd (cc d)))
        by_completion l set_stopped i =
            (in_sequence sigs dependent _).1 (inl (i, λ d. absurd (cc d)))

    seq-Advertises :
        {rest : List (List (Signature T))} {rs : List (Run V)}
        → AllAdvertise rest rs
        → (sigs : List (Signature T)) (r : Run V) → Advertises sigs r
        → Advertises (seq_completions sigs rest) (seq r rs)
    unfolding seq_completions seq
    seq-Advertises nil sigs r m = m
    seq-Advertises (cons {r = n} k ks) sigs r m =
        seq-Advertises ks _ (sequence r n) (sequence-Advertises _ _ r n m k)

    -- Where every sender of a sequence completes with one of the signatures it advertises, the
    -- operation of the sequence followed by one more sender delivers one completion, and it is one
    -- of those that the longer sequence advertises, whatever the number of senders; and a sequence
    -- of two advertises exactly the second's signatures, and the first's but for the values.
    pub start-Advertises :
        (sigs : List (Signature T)) (r : Run V) (rest : List (List (Signature T)))
        (rs : List (Run V)) (dependent : List (Signature T)) (last : Run V)
        → Advertises sigs r
        → AllAdvertise rest rs
        → Advertises dependent last
        → ((c : Signal V) × ((start (seq r rs) last new_op).delivered ≡ c ∷ [])
            × signature_of type_of c
              ∈ get_completion_signatures (seq_completions sigs rest) dependent)
          × ((x : Signature T)
              → x ∈ get_completion_signatures sigs dependent
                ↔ ((x ∈ sigs × (tag_of x ≢ value_tag)) ⊎ x ∈ dependent))
    start-Advertises sigs r rest rs dependent last m ms k = (
      (
        (sequence (seq r rs) last).completion,
        (start-sequence (seq r rs) last).1,
        sequence-Advertises _ _ (seq r rs) last (seq-Advertises ms _ r m) k,
      ),
      in_sequence sigs dependent,
    )
