-- ===== src/WhenAny/Outcome.antt =====
-- What a `when_any` operation delivers, whatever the order of its children's steps.
use native.Mathlib.Decide.{ℕ_discrete}
use cpp_baremetal_senders_an.Base.{
  ℕ, ◌≤◌, ◌<◌, ◌≡◌, refl, sym, inl, inr, ◌⊎◌, true, false, List, [], ◌∷◌, arith, if◌then◌else◌,
  Bool-cases, sum_below, sum_below-one,
}
use cpp_baremetal_senders_an.Channel.{Completion}
use cpp_baremetal_senders_an.WhenAny.{
  Policy, OpState, request_stop, new_op, start, emplace, nostop_emplace, nostop_start,
}
use cpp_baremetal_senders_an.WhenAny.Policies.{stored, determined}
use cpp_baremetal_senders_an.WhenAny.Steps.{
  World, Step, emplaced, counted, stopped_downstream, Reach, here, next, begun, Outcome, Inv, left,
  emplaced-Inv, counted-Inv,
}

module _ {V E : Type 0} (p : Policy) (n : ℕ) (pos : 1 ≤ n) where
  stopped_downstream-Inv :
      (w : World V E)
      → Inv p n w
      → Inv p n
          (record w { op = if w.op.stop_cb then request_stop w.op else w.op; downstream = true })
  unfolding request_stop
  stopped_downstream-Inv w v = elim (Bool-cases w.op.stop_cb) [
    | inl cb ↦ rw cb (record {
      kept = v.kept;
      tally = v.tally;
      sent = v.sent;
      unfinished = v.unfinished;
      finished = λ h. later (v.finished h);
      stopping = λ h. refl;
    })
    | inr cb ↦ rw cb (record {
      kept = v.kept;
      tally = v.tally;
      sent = v.sent;
      unfinished = v.unfinished;
      finished = λ h. later (v.finished h);
      stopping = v.stopping;
    })
  ]
    where
      later :
          (c : Completion V E) × (w.op.delivered ≡ c ∷ []) × Outcome p n w c
          → (c : Completion V E) × (w.op.delivered ≡ c ∷ [])
            × Outcome p n (record w { downstream = true }) c
      later (c, d, inl (a, b)) = (c, d, inl (refl, b))
      later (c, d, inr e) = (c, d, inr e)

  Step-Inv : {w w' : World V E} → Step p n w w' → Inv p n w → Inv p n w'
  Step-Inv (emplaced w i c lt r) v = emplaced-Inv p n w i c lt r v
  Step-Inv (counted w i lt a) v = counted-Inv p n w i pos lt a v
  Step-Inv (stopped_downstream w) v = stopped_downstream-Inv w v

  begun-Inv : Inv p n (begun {V = V} {E = E} p n)
  unfolding begun stored
  begun-Inv = record {
    kept = refl;
    tally = sym (sum_below-one n);
    sent = omega (arith, sum_below-one n);
    unfinished = λ h. refl;
    finished = λ h. absurd (omega (arith, h, pos));
    stopping = λ h. absurd (cc);
  }

  Reach-Inv : {w : World V E} → Reach p n (begun p n) w → Inv p n w
  Reach-Inv here = begun-Inv
  Reach-Inv (next r st) = Step-Inv st (Reach-Inv r)

  -- Whatever order the children and a stop of the downstream token come in, an operation of at
  -- least one child either has delivered nothing and waits for a child, or has delivered exactly
  -- one completion, all children being counted down: stopped, where the downstream token was
  -- asked to stop, or the completion that the policy keeps of the children's, in the order of
  -- their critical sections.
  pub any_delivers_once :
      {w : World V E}
      → Reach p n (begun p n) w
      → ((w.op.delivered ≡ []) × (0 < sum_below n (λ i. left (w.phases i))))
        ⊎ ((c : Completion V E) × (w.op.delivered ≡ c ∷ [])
            × (sum_below n (λ i. left (w.phases i)) ≡ 0)
            × Outcome p n w c)
  any_delivers_once {w} r =
      let v : Inv p n w = Reach-Inv r in
      elim (ℕ_discrete w.op.count 0) [
        | yes z ↦ let (c, d, o) = v.finished z in inr (c, d, omega (arith, v.tally, z), o)
        | no ne ↦ inl (v.unfinished (omega (arith, ne)), omega (arith, v.tally, ne))
      ]

  -- In every state that an operation of at least one child can reach, once a completion is in that
  -- determines the result under the policy, the children have been asked to stop.
  pub determined_stops :
      {w : World V E}
      → Reach p n (begun p n) w
      → determined p w.order ≡ true
      → w.op.stop_requested ≡ true
  determined_stops r = (Reach-Inv r).stopping

module _ {V E : Type 0} (p : Policy) (n : ℕ) where
  unfoldable pub on_op : List (Completion V E) → OpState V E → OpState V E
  on_op [] s = s
  on_op (c ∷ cs) s = on_op cs (emplace p false c s)

  unfoldable pub on_nostop : List (Completion V E) → OpState V E → OpState V E
  on_nostop [] s = s
  on_nostop (c ∷ cs) s = on_nostop cs (nostop_emplace p c s)

  record Same (s t : OpState V E) : Type 0 where
    same_count : s.count ≡ t.count
    same_completions : s.completions ≡ t.completions
    same_delivered : s.delivered ≡ t.delivered

  emplace-Same :
      (c : Completion V E) (s t : OpState V E)
      → Same s t
      → Same (emplace p false c s) (nostop_emplace p c t)
  unfolding emplace nostop_emplace
  emplace-Same c s t v = record {
    same_count = ground arith;
    same_completions = ground arith;
    same_delivered = ground arith;
  }

  on-Same :
      (cs : List (Completion V E)) (s t : OpState V E)
      → Same s t
      → Same (on_op cs s) (on_nostop cs t)
  unfolding on_op on_nostop
  on-Same [] s t v = v
  on-Same (c ∷ cs) s t v = on-Same cs _ _ (emplace-Same c s t v)

  -- The operation whose children could be stopped and the one whose children cannot deliver the
  -- same, for the same completions of the children in the same order, where the downstream token
  -- is not asked to stop.
  pub any_nostop-agrees :
      (cs : List (Completion V E))
      → (on_op cs (start n false new_op).0).delivered
        ≡ (on_nostop cs (nostop_start n new_op)).delivered
  unfolding start nostop_start new_op
  any_nostop-agrees cs =
      (on-Same cs (start n false new_op).0 (nostop_start n new_op) (record {
        same_count = refl;
        same_completions = refl;
        same_delivered = refl;
      })).same_delivered
