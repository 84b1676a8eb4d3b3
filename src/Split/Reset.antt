-- ===== src/Split/Reset.antt =====
-- What a reset of a split sender leaves.
use cpp_baremetal_senders_an.Base.{
  ℕ, ◌≡◌, refl, true, none, [], ◌∷◌, ◌++◌, update_same, inl, inr, Bool-cases,
}
use cpp_baremetal_senders_an.Channel.{Completion, set_stopped}
use cpp_baremetal_senders_an.Split.{State, connect, deliver, start, emplace_stop_cb, reset}

module _ {V E : Type 0} (left : ℕ → Completion V E → Completion V E) where
  -- A split sender whose stop source was asked to stop stays stopped when it is reset and connected
  -- anew: an operation that is then started is completed as stopped, and neither waits nor starts the
  -- shared operation.
  pub reset-stays_stopped :
      (s : State V E) (t : ℕ)
      → s.stop_requested ≡ true
      → ((start left t (connect (reset s))).delivered t ≡ s.delivered t ++ set_stopped ∷ [])
        × ((start left t (connect (reset s))).single_starts ≡ s.single_starts)
        × ((start left t (connect (reset s))).linked_ops ≡ none)
  unfolding start connect reset emplace_stop_cb deliver
  reset-stays_stopped s t h = elim (Bool-cases (s.asked t)) [
    | inl a ↦ rw (a, start) (update_same s.delivered t _, refl, refl)
    | inr a ↦ rw (a, h, start) (update_same s.delivered t _, refl, refl)
  ]
