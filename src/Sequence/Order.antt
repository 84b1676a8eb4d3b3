-- ===== src/Sequence/Order.antt =====
-- Which senders of a sequence are started, and what it completes with.
use cpp_baremetal_senders_an.Base.{ℕ, List, [], ◌∷◌, ◌++◌, ◌≡◌, refl, ap, ◌∙◌, append_assoc}
use cpp_baremetal_senders_an.Channel.{set_value, set_error, set_stopped}
use cpp_baremetal_senders_an.Sender.{Signal, Run}
use cpp_baremetal_senders_an.Sequence.{new_op, start, sequence, seq}

module _ {V : Type 0} where
  -- The specification: the senders are run one by one, up to the first that does not complete with
  -- a value, or the last.
  pub one_by_one : Run V → List (Run V) → Run V
  one_by_one r [] = r
  one_by_one r (n ∷ ns) = elim r.completion [
    | set_value vs ↦ record {
      started = r.started ++ (one_by_one n ns).started;
      completion = (one_by_one n ns).completion;
    }
    | set_error vs ↦ r
    | set_stopped ↦ r
  ]

  pub start-sequence :
      (r n : Run V)
      → ((start r n new_op).started ≡ (sequence r n).started)
        × ((start r n new_op).delivered ≡ (sequence r n).completion ∷ [])
  unfolding start new_op sequence
  start-sequence r n = by_completion r.started r.completion
    where
      by_completion :
          (l : List ℕ) (c : Signal V)
          → ((start (record { started = l; completion = c }) n new_op).started
              ≡ (sequence (record { started = l; completion = c }) n).started)
            × ((start (record { started = l; completion = c }) n new_op).delivered
                ≡ (sequence (record { started = l; completion = c }) n).completion ∷ [])
      by_completion l (set_value vs) = (refl, refl)
      by_completion l (set_error vs) = (refl, refl)
      by_completion l set_stopped = (refl, refl)

  -- What was started before stands in front of the rest.
  one_by_one-joined :
      (l : List ℕ) (n : Run V) (ns : List (Run V))
      → one_by_one (record { started = l ++ n.started; completion = n.completion }) ns ≡ record {
        started = l ++ (one_by_one n ns).started;
        completion = (one_by_one n ns).completion;
      }
  unfolding one_by_one
  one_by_one-joined l n [] = refl
  one_by_one-joined l n (x ∷ ns) = by_completion n.started n.completion
    where
      by_completion :
          (k : List ℕ) (c : Signal V)
          → one_by_one (record { started = l ++ k; completion = c }) (x ∷ ns) ≡ record {
            started = l ++ (one_by_one (record { started = k; completion = c }) (x ∷ ns)).started;
            completion = (one_by_one (record { started = k; completion = c }) (x ∷ ns)).completion;
          }
      by_completion k (set_value vs) =
          ap (λ m. record { started = m; completion = (one_by_one x ns).completion })
            (append_assoc l k (one_by_one x ns).started)
      by_completion k (set_error vs) = refl
      by_completion k set_stopped = refl

  one_by_one-sequence :
      (r n : Run V) (ns : List (Run V)) → one_by_one (sequence r n) ns ≡ one_by_one r (n ∷ ns)
  unfolding sequence one_by_one
  one_by_one-sequence r n ns = by_completion r.started r.completion
    where
      failed :
          (l : List ℕ) (vs : List V) (ns : List (Run V))
          → one_by_one (record { started = l; completion = set_error vs }) ns
            ≡ record { started = l; completion = set_error vs }
      failed l vs [] = refl
      failed l vs (x ∷ ns) = refl

      stopped :
          (l : List ℕ) (ns : List (Run V))
          → one_by_one (record { started = l; completion = set_stopped }) ns
            ≡ record { started = l; completion = set_stopped }
      stopped l [] = refl
      stopped l (x ∷ ns) = refl

      by_completion :
          (l : List ℕ) (c : Signal V)
          → one_by_one (sequence (record { started = l; completion = c }) n) ns
            ≡ one_by_one (record { started = l; completion = c }) (n ∷ ns)
      by_completion l (set_value vs) = one_by_one-joined l n ns
      by_completion l (set_error vs) = failed l vs ns
      by_completion l set_stopped = stopped l ns

  seq-one_by_one : (r : Run V) (ns : List (Run V)) → seq r ns ≡ one_by_one r ns
  unfolding seq one_by_one
  seq-one_by_one r [] = refl
  seq-one_by_one r (n ∷ ns) = seq-one_by_one (sequence r n) ns ∙ one_by_one-sequence r n ns

  -- The operation of `seq` of two senders or more starts its senders one by one, in order, up to
  -- the first that does not complete with a value, or the last, and delivers the completion of
  -- that one alone.
  pub start-seq :
      (r : Run V) (ns : List (Run V)) (n : Run V)
      → ((start (seq r ns) n new_op).started ≡ (one_by_one r (ns ++ n ∷ [])).started)
        × ((start (seq r ns) n new_op).delivered ≡ (one_by_one r (ns ++ n ∷ [])).completion ∷ [])
  unfolding seq
  start-seq r ns n =
      let e = joined r ns ∙ seq-one_by_one r (ns ++ n ∷ []) in
      (
        (start-sequence (seq r ns) n).0 ∙ ap (λ x. x.started) e,
        (start-sequence (seq r ns) n).1 ∙ ap (λ x. x.completion ∷ []) e,
      )
    where
      joined : (r : Run V) (ns : List (Run V)) → sequence (seq r ns) n ≡ seq r (ns ++ n ∷ [])
      joined r [] = refl
      joined r (x ∷ ns) = joined (sequence r x) ns
