-- ===== src/Split/Completions.antt =====
-- The completion signatures of include/async/split.hpp, and one that is missing.
use cpp_baremetal_senders_an.Base.{
  ℕ, ◌≡◌, true, false, none, List, [], ◌∷◌, ◌++◌, ◌∈◌, update_same, inl, inr, Bool-cases,
}
use cpp_baremetal_senders_an.Channel.{set_stopped}
use cpp_baremetal_senders_an.Sender.{Signal}
use cpp_baremetal_senders_an.Mp11.{Mp11}
use cpp_baremetal_senders_an.Signatures.{Signature, signature_of, sends_stopped}
use cpp_baremetal_senders_an.Signatures.Tagged.{no_stopped}
use cpp_baremetal_senders_an.Split.{State, start, emplace_stop_cb, deliver}

unfoldable pub get_completion_signatures : {T : Type 0} → List (Signature T) → List (Signature T)
get_completion_signatures sigs = sigs

module _ {V T : Type 0} (mp : Mp11 (Signature T)) (type_of : V → T)
    (left : ℕ → Signal V → Signal V) where
  -- Where the sender that is split does not advertise stopped, neither does the split sender; but an
  -- operation of it that is started while nothing is stored, after the stop source was asked to
  -- stop, delivers stopped to its receiver.
  pub split-unadvertised :
      (sigs : List (Signature T)) (s : State V (List V)) (t : ℕ)
      → sends_stopped mp sigs ≡ false
      → s.values ≡ none
      → s.stop_requested ≡ true
      → ((c : Signal V) × ((start left t s).delivered t ≡ s.delivered t ++ c ∷ [])
          × (signature_of type_of c ∈ get_completion_signatures sigs → ⊥))
  unfolding start emplace_stop_cb deliver get_completion_signatures
  split-unadvertised sigs s t n v h = elim (Bool-cases (s.asked t)) [
    | inl a ↦ (set_stopped, rw (v, start, a) (update_same s.delivered t _), no_stopped mp sigs n)
    | inr a ↦ (set_stopped, rw (v, start, a, h) (update_same s.delivered t _), no_stopped mp sigs n)
  ]
