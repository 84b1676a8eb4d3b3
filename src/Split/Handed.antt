-- ===== src/Split/Handed.antt =====
-- What the notification hands to each receiver that waits, for one that moves from the references.
use cpp_baremetal_senders_an.Base.{
  ℕ, ◌+◌, ◌≤◌, ◌≡◌, refl, ap, ◌∙◌, none, some, List, [], ◌∷◌, ◌++◌, arith, bit, length, count, inl,
  inr,
}
use cpp_baremetal_senders_an.Channel.{Completion}
use cpp_baremetal_senders_an.Split.{State, notify, receive}
use cpp_baremetal_senders_an.Split.Shared.{
  Chain, complete_all, handed_at, complete_all-handed, complete_all-other, notify-complete_all,
}
use cpp_baremetal_senders_an.Split.Once.{Fresh, Reach, Waiting, split_once}

nil_of_length : {A : Type 0} (l : List A) → length l ≡ 0 → l ≡ []
nil_of_length [] h = refl
nil_of_length (x ∷ l) h = absurd (omega (arith, h))

module _ {V E : Type 0} (left : ℕ → Completion V E → Completion V E) where
  -- The state that the shared operation's completion leaves, over the list `l` of those that wait.
  abbrev pub Served : State V E → List ℕ → Completion V E → State V E → Type 0
  Served s l c s' =
      ((t : ℕ) → count t l ≡ 1 → s'.delivered t ≡ handed_at left t l c ∷ [])
      × ((t : ℕ) → count t l ≡ 0 → s'.delivered t ≡ s.delivered t)

  receive-nil :
      (s : State V E) (c : Completion V E) (fuel : ℕ)
      → s.linked_ops ≡ none
      → receive left fuel c s ≡ some s
  unfolding receive
  receive-nil s c fuel e = rw e refl

  receive-cons :
      (s : State V E) (c : Completion V E) (fuel t : ℕ)
      → s.linked_ops ≡ some t
      → receive left fuel c s ≡ notify left fuel t (record s { values = some c })
  unfolding receive
  receive-cons s c fuel t e = rw e refl

  receive_list :
      (s : State V E) (c : Completion V E) (l : List ℕ)
      → Waiting s l
      → (fuel : ℕ) → length l ≤ fuel
      → (s' : State V E) × (receive left fuel c s ≡ some s') × Served s l c s'
  receive_list s c [] w fuel h =
      (s, receive-nil s c fuel w.chain, (λ t k. absurd (omega (arith, k)), λ t _. refl))
  receive_list s c (u ∷ l) w fuel h =
      let s1 : State V E = record s { values = some c } in
      (
        complete_all left (u ∷ l) s1,
        receive-cons s c fuel u w.chain.0
            ∙ notify-complete_all left fuel u l s1 (omega (arith, h)) w.chain.1,
        (
          λ t k.
              let none_yet : s.delivered t ≡ [] =
                nil_of_length (s.delivered t) (ground (arith, w.once t, k)) in
              complete_all-handed left (u ∷ l) s1 c t refl k
              ∙ ap (λ d. d ++ handed_at left t (u ∷ l) c ∷ []) none_yet,
          λ t k. complete_all-other left (u ∷ l) s1 c t refl k,
        ),
      )

  -- However a split sender was used before the shared operation is over: the pointers, from
  -- `linked_ops` on, make a list of the operations that were started and not completed, each once.
  -- When the shared operation completes, the notification ends with one unit of fuel for each of
  -- them. Each of them is then given one completion, and no other operation is given any: the first
  -- is given the shared operation's, and each later one what the receivers before it have left.
  pub receive-handed :
      {s s' : State V E}
      → Fresh s
      → Reach left s s'
      → s'.values ≡ none
      → (c : Completion V E)
      → (l : List ℕ) × Chain s'.next_ops s'.linked_ops l
        × ((t : ℕ) → count t l + length (s'.delivered t) ≡ bit (s'.started t))
        × ((fuel : ℕ)
            → length l ≤ fuel
            → (s'' : State V E) × (receive left fuel c s' ≡ some s'') × Served s' l c s'')
  receive-handed {s} {s'} f r e c = elim (split_once left f r) [
    | inr v ↦ absurd (cc (e, v.stored.1))
    | inl (l, w) ↦ (l, w.chain, w.once, receive_list s' c l w)
  ]
