-- ===== src/TimeoutAfter/Advertised.antt =====
-- What a sender with a timeout completes with.
use cpp_baremetal_senders_an.Base.{
  sum_below, ℕ, zero, suc, ◌<◌, ◌≡◌, refl, sym, ◌↔◌, ◌⊎◌, inl, inr, Bool, false, List, [], ◌∷◌, ◌∈◌,
  Bool-cases, subst, arith,
}
use mathlib.Core.List.Memᴰ
use cpp_baremetal_senders_an.Channel.{set_value, set_stopped}
use cpp_baremetal_senders_an.Sender.{Tag, value_tag, tag_of, Signal, send}
use cpp_baremetal_senders_an.Mp11.{Mp11}
use cpp_baremetal_senders_an.Signatures.{Signature, signature_of}
use cpp_baremetal_senders_an.Sequence.Completions.{in_sequence}
use cpp_baremetal_senders_an.Transfer.Completions.{
  just_completions, time_completions, start_on_completions,
}
use cpp_baremetal_senders_an.WhenAny.Steps.{left, World}
use cpp_baremetal_senders_an.WhenAny.Completions.{in_any}
use cpp_baremetal_senders_an.WhenAny.Advertised.{Kept, any-advertised}
use cpp_baremetal_senders_an.TimeoutAfter.{
  stop_when_policy, stop_when_children, stop_when_completions, timeout_sender_completions,
  timeout_completions,
}

module _ {T : Type 0} (mp : Mp11 (Signature T)) (t : Tag) (ts : List T) where
  pub in_timeout_sender :
      (unstoppable : Bool) (x : Signature T)
      → x ∈ timeout_sender_completions mp t ts unstoppable
        ↔ (((x ≡ set_stopped) × (unstoppable ≡ false)) ⊎ (x ≡ send t ts))
  unfolding timeout_sender_completions time_completions start_on_completions just_completions
  in_timeout_sender unstoppable x =
      let law = in_sequence mp (time_completions unstoppable) (just_completions t ts) x in
      (
        λ m. elim (law.0 m) [
          | inl (i, ne) ↦ elim (Bool-cases unstoppable) [
            | inl u ↦ absurd (scheduled_only x ne (rw u at i))
            | inr u ↦ inl (not_value x ne (rw u at i), u)
          ]
          | inr i ↦ inr (Memᴰ.eq_of_singleton i)
        ],
        λ m. law.1 (elim m [
          | inl (e, u) ↦ rw (e, u) (inl (Memᴰ.tail (Memᴰ.head refl), λ q. absurd (cc q)))
          | inr e ↦ inr (Memᴰ.head e)
        ]),
      )
    where
      scheduled_only : (x : Signature T) → (tag_of x ≡ value_tag → ⊥) → x ∈ set_value [] ∷ [] → ⊥
      scheduled_only x ne i =
          ne (subst (λ y. tag_of y ≡ value_tag) (sym (Memᴰ.eq_of_singleton i)) refl)

      not_value :
          (x : Signature T)
          → (tag_of x ≡ value_tag → ⊥)
          → x ∈ set_value [] ∷ set_stopped ∷ []
          → x ≡ set_stopped
      not_value x ne (Memᴰ.head e) = absurd (ne (subst (λ y. tag_of y ≡ value_tag) (sym e) refl))
      not_value x ne (Memᴰ.tail i) = Memᴰ.eq_of_singleton i

  -- A sender with a timeout advertises exactly its own signatures, the one that the timeout sends,
  -- and stopped where the environment's token can be asked to stop.
  in_timeout :
      (unstoppable : Bool) (sigs : List (Signature T)) (x : Signature T)
      → x ∈ timeout_completions mp t ts unstoppable sigs
        ↔ (((x ≡ set_stopped) × (unstoppable ≡ false)) ⊎ (x ≡ send t ts) ⊎ x ∈ sigs)
  unfolding timeout_completions stop_when_completions
  in_timeout unstoppable sigs x =
      let law =
        in_any mp (stop_when_children (timeout_sender_completions mp t ts unstoppable) sigs) 2 x in
      (λ m. let (i, lt, h) = law.0 m in from i h, λ m. law.1 (into m))
    where
      from :
          (i : ℕ)
          → x ∈ stop_when_children (timeout_sender_completions mp t ts unstoppable) sigs i
          → ((x ≡ set_stopped) × (unstoppable ≡ false)) ⊎ (x ≡ send t ts) ⊎ x ∈ sigs
      from zero h = elim ((in_timeout_sender unstoppable x).0 h) [
        | inl s ↦ inl s
        | inr e ↦ inr (inl e)
      ]
      from (suc i) h = inr (inr h)

      into :
          ((x ≡ set_stopped) × (unstoppable ≡ false)) ⊎ (x ≡ send t ts) ⊎ x ∈ sigs
          → (i : ℕ) × (i < 2)
            × x ∈ stop_when_children (timeout_sender_completions mp t ts unstoppable) sigs i
      into (inl s) = (0, omega arith, (in_timeout_sender unstoppable x).1 (inl s))
      into (inr (inl e)) = (0, omega arith, (in_timeout_sender unstoppable x).1 (inr e))
      into (inr (inr m)) = (1, omega arith, m)

  -- In every run of a sender with a timeout in which the two children keep to what they advertise
  -- unless they were asked to stop, the operation either has delivered nothing and waits for a child,
  -- or has delivered exactly one completion: by its type the sender's own or the one that the timeout
  -- sends, or stopped, and the environment's token can be asked to stop. The sender with the timeout
  -- advertises exactly these.
  pub timeout-advertised :
      {V : Type 0} (type_of : V → T) (unstoppable : Bool) (sigs : Bool → List (Signature T))
      {w : World V (List V)}
      → Kept mp type_of stop_when_policy 2 unstoppable
          (λ u. stop_when_children (timeout_sender_completions mp t ts u) (sigs u))
          w
      → (((w.op.delivered ≡ []) × (0 < sum_below 2 (λ i. left (w.phases i))))
          ⊎ ((c : Signal V) × (w.op.delivered ≡ c ∷ [])
              × (((signature_of type_of c ≡ set_stopped) × (unstoppable ≡ false))
                  ⊎ (signature_of type_of c ≡ send t ts)
                  ⊎ signature_of type_of c ∈ sigs unstoppable)))
        × ((x : Signature T)
            → x ∈ timeout_completions mp t ts unstoppable (sigs unstoppable) ↔ (
                ((x ≡ set_stopped) × (unstoppable ≡ false))
                ⊎ (x ≡ send t ts)
                ⊎ x ∈ sigs unstoppable))
  unfolding timeout_completions stop_when_completions
  timeout-advertised type_of unstoppable sigs k = (
    elim (any-advertised mp type_of stop_when_policy 2 unstoppable
        (λ u. stop_when_children (timeout_sender_completions mp t ts u) (sigs u))
        (0, omega arith, (in_timeout_sender false set_stopped).1 (inl (refl, refl))) k) [
          | inl h ↦ inl h
          | inr (c, d, m) ↦ inr (c, d, (in_timeout unstoppable (sigs unstoppable) _).0 m)
        ],
    in_timeout unstoppable (sigs unstoppable),
  )
