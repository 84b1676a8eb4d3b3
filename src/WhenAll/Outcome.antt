-- ===== src/WhenAll/Outcome.antt =====
-- What a `when_all` operation delivers, whatever the order of its children's steps.
use native.Mathlib.Decide.{ℕ_discrete}
use cpp_baremetal_senders_an.Base.{
  sum_below-one, ℕ, zero, suc, ◌-◌, ◌≤◌, ◌<◌, ◌≡◌, refl, ap, ◌∙◌, sym, inl, inr, ◌⊎◌, Bool, true,
  false, none, some, List, [], ◌∷◌, ◌++◌, arith, ◌==◌, update, sum_below, sum_below-update,
  le-sum_below, Bool-cases, Option-cases, ==→≡,
}
use cpp_baremetal_senders_an.Channel.{Completion, set_value, set_error, set_stopped}
use cpp_baremetal_senders_an.WhenAll.{
  OpState, store, store_error, request_stop, notify, complete, new_op, start, load_all,
}
use cpp_baremetal_senders_an.WhenAll.Steps.{
  Phase, running, arriving, done, World, Step, value_stored, error_stored, stopped_child, counted,
  stopped_downstream, Reach, here, next, left, begun,
}
use cpp_baremetal_senders_an.WhenAll.Invariant.{
  sent, collected, Outcome, Facts, Facts-ext, sent_counted, Step-Facts, begun-Facts,
}

done_sent : {V E : Type 0} (p : Phase V E) → left p ≡ 0 → (c : Completion V E) × (sent p ≡ some c)
done_sent running h = absurd (omega arith)
done_sent (arriving c) h = absurd (omega arith)
done_sent (done c) h = (c, refl)

module _ {V E : Type 0} (sends : ℕ → Bool) (n : ℕ) where
  abbrev AllValues : ℕ → World V E → Type 0
  AllValues k w = (i : ℕ) → i < k → (vs : List V) × (sent (w.phases i) ≡ some (set_value vs))

  -- Where every child sent values, the storage holds them all.
  load_all-collected :
      (k : ℕ) (w : World V E)
      → k ≤ n
      → Facts n sends w
      → AllValues k w
      → (xs : List V) × (collected w.phases k ≡ some xs) × (load_all sends w.op.values k ≡ some xs)
  unfolding load_all collected
  load_all-collected zero w le f all = ([], refl, refl)
  load_all-collected (suc k) w le f all =
      let (vs, s) = all k (omega arith) in
      let (on, kept) = f.values_kept k vs (omega arith) s in
      let (xs, c, l) = load_all-collected k w (omega arith) f (λ i h. all i (omega arith)) in
      (xs ++ vs, rw (s, collected, c) refl, rw (on, load_all, l, kept) refl)

  all_values :
      (w : World V E)
      → Facts n sends w
      → w.op.caught_error ≡ none
      → w.op.stop_requested ≡ false
      → ((i : ℕ) → i < n → (c : Completion V E) × (sent (w.phases i) ≡ some c))
      → AllValues n w
  all_values w f quiet live all i h = go (all i h).0 (all i h).1
    where
      go :
          (c : Completion V E)
          → sent (w.phases i) ≡ some c
          → (vs : List V) × (sent (w.phases i) ≡ some (set_value vs))
      go (set_value vs) e = (vs, e)
      go (set_error x) e = absurd (f.error_known i x h e quiet)
      go set_stopped e = absurd (cc (f.stop_known i h e, live))

  -- `complete`, once every child has sent a completion, delivers one outcome.
  complete-Outcome :
      (w : World V E)
      → Facts n sends w
      → ((i : ℕ) → i < n → (c : Completion V E) × (sent (w.phases i) ≡ some c))
      → w.op.delivered ≡ []
      → ((complete sends n w.op).stop_cb ≡ false)
        × (c : Completion V E) × ((complete sends n w.op).delivered ≡ c ∷ [])
        × Outcome n w c
  unfolding complete
  complete-Outcome w f all fresh = elim (Option-cases w.op.caught_error) [
    | inr (e, h) ↦ rw (h, complete) (refl, set_error e, rw fresh refl, f.error_real e h)
    | inl h ↦ elim (Bool-cases w.op.stop_requested) [
      | inl st ↦
          rw (h, complete, st)
            (
              refl,
              set_stopped,
              rw fresh refl,
              (λ i e lt s. f.error_known i e lt s h, f.stop_real st h),
            )
      | inr st ↦
          let (xs, c, l) = load_all-collected n w (omega arith) f (all_values w f h st all) in
          rw (h, complete, st, l) (refl, set_value xs, rw fresh refl, c)
    ]
  ]

  pub record Inv (w : World V E) : Type 0 where
    pub facts : Facts n sends w
    pub tally : w.op.count ≡ sum_below n (λ i. left (w.phases i))
    pub unfinished : 0 < w.op.count → w.op.delivered ≡ []
    pub finished :
        w.op.count ≡ 0
        → (w.op.stop_cb ≡ false) × (c : Completion V E) × (w.op.delivered ≡ c ∷ []) × Outcome n w c

  -- A step of a child that has not been counted down leaves the count alone.
  busy-Inv :
      (w w' : World V E) (i : ℕ) (p : Phase V E)
      → i < n
      → w.phases i ≡ running
      → left p ≡ 1
      → w'.phases ≡ update w.phases i p
      → w'.op.count ≡ w.op.count
      → w'.op.delivered ≡ w.op.delivered
      → Facts n sends w'
      → Inv w
      → Inv w'
  busy-Inv w w' i p lt r l ph co de f v =
      let same : sum_below n (λ j. left (update w.phases i p j))
          ≡ sum_below n (λ j. left (w.phases j)) =
        omega (arith, sum_below-update left n w.phases i p lt, ap left r, l) in
      let busy : 1 ≤ w.op.count =
        omega (arith, v.tally, le-sum_below n (λ j. left (w.phases j)) i lt, ap left r) in
      record {
        facts = f;
        tally = co ∙ v.tally ∙ sym same ∙ sym (ap (λ g. sum_below n (λ j. left (g j))) ph);
        unfinished = λ h. de ∙ v.unfinished busy;
        finished = λ h. absurd (omega (arith, h, co, busy));
      }

  notify-waits :
      (s : OpState V E)
      → (s.count - 1 == 0) ≡ false
      → notify sends n s ≡ record s { count = s.count - 1 }
  unfolding notify
  notify-waits s h = rw h

  notify-completes :
      (s : OpState V E)
      → (s.count - 1 == 0) ≡ true
      → notify sends n s ≡ complete sends n (record s { count = s.count - 1 })
  unfolding notify
  notify-completes s h = rw h

  count-complete : (s : OpState V E) → (complete sends n s).count ≡ s.count
  unfolding complete
  count-complete s = ground arith

  counted-Inv :
      (w : World V E) (i : ℕ) (c : Completion V E)
      → i < n
      → w.phases i ≡ arriving c
      → Facts n sends (record w { op = notify sends n w.op; phases = update w.phases i (done c) })
      → Inv w
      → Inv (record w { op = notify sends n w.op; phases = update w.phases i (done c) })
  counted-Inv w i c lt a f v =
      let op1 : OpState V E = record w.op { count = w.op.count - 1 } in
      let w1 : World V E = record w { op = op1; phases = update w.phases i (done c) } in
      let f1 : Facts n sends w1 =
        Facts-ext n sends w w1 (λ j. sent_counted w.phases i j c a) refl refl refl refl v.facts in
      let busy : 1 ≤ w.op.count =
        omega (arith, v.tally, le-sum_below n (λ j. left (w.phases j)) i lt, ap left a) in
      let tally : op1.count ≡ sum_below n (λ j. left (w1.phases j)) =
        omega (arith, v.tally, sum_below-update left n w.phases i (done c) lt, ap left a) in
      elim (Bool-cases (op1.count == 0)) [
        | inr z ↦ rw (notify-waits w.op z) (record {
          facts = f1;
          tally = tally;
          unfinished = λ h. v.unfinished busy;
          finished = λ h. absurd (ground (arith, h, z));
        })
        | inl z ↦
            let none_left : (j : ℕ) → j < n → left (w1.phases j) ≡ 0 = λ j h.
              omega
                (arith, tally, ==→≡ op1.count 0 z, le-sum_below n (λ k. left (w1.phases k)) j h) in
            let over =
              complete-Outcome w1 f1 (λ j h. done_sent (w1.phases j) (none_left j h))
                (v.unfinished busy) in
            record {
              facts = f;
              tally = ap (λ s. s.count) (notify-completes w.op z) ∙ count-complete op1 ∙ tally;
              unfinished = λ h. absurd (
                  omega (
                    arith,
                    h,
                    ap (λ s. s.count) (notify-completes w.op z) ∙ count-complete op1,
                    ==→≡ op1.count 0 z,
                  ));
              finished = λ h. rw (notify-completes w.op z) over;
            }
      ]

  -- Every step keeps the invariant.
  pub Step-Inv : {w w' : World V E} → Step sends n w w' → Inv w → Inv w'
  Step-Inv (value_stored w i vs lt r s) v =
      busy-Inv w _ i (arriving (set_value vs)) lt r refl refl (unfold store in ground arith)
        (unfold store in ground arith) (Step-Facts n sends (value_stored w i vs lt r s) v.facts) v
  Step-Inv (error_stored w i e lt r) v =
      busy-Inv w _ i (arriving (set_error e)) lt r refl refl
        (unfold store_error request_stop in ground arith)
        (unfold store_error request_stop in ground arith)
        (Step-Facts n sends (error_stored w i e lt r) v.facts) v
  Step-Inv (stopped_child w i lt r) v =
      busy-Inv w _ i (arriving set_stopped) lt r refl refl (unfold request_stop in refl)
        (unfold request_stop in refl) (Step-Facts n sends (stopped_child w i lt r) v.facts) v
  Step-Inv (counted w i c lt a) v =
      counted-Inv w i c lt a (Step-Facts n sends (counted w i c lt a) v.facts) v
  Step-Inv (stopped_downstream w cb) v = record {
    facts = Step-Facts n sends (stopped_downstream w cb) v.facts;
    tally = unfold request_stop in v.tally;
    unfinished = unfold request_stop in v.unfinished;
    finished = λ h. absurd (cc ((v.finished (unfold request_stop in h)).0, cb));
  }

  -- The operation whose children were just started.
  begun-Inv : 1 ≤ n → Inv (begun n)
  unfolding begun
  begun-Inv pos = record {
    facts = begun-Facts n sends;
    tally = sym (sum_below-one n);
    unfinished = λ h. refl;
    finished = λ h. absurd (omega arith);
  }

  pub Reach-Inv : {w : World V E} → 1 ≤ n → Reach sends n (begun n) w → Inv w
  Reach-Inv pos here = begun-Inv pos
  Reach-Inv pos (next r st) = Step-Inv st (Reach-Inv pos r)

  -- Whatever order the children and a stop of the downstream token come in, an operation of at
  -- least one child either has delivered nothing and waits for a child, or has delivered exactly
  -- one completion, all children being counted down: all values in the order of the arguments, an
  -- error that a child sent, or stopped where no child sent an error and some child or the
  -- downstream token stopped.
  pub delivers_once :
      {w : World V E}
      → 1 ≤ n
      → Reach sends n (begun n) w
      → ((w.op.delivered ≡ []) × (0 < sum_below n (λ i. left (w.phases i))))
        ⊎ ((c : Completion V E) × (w.op.delivered ≡ c ∷ [])
            × (sum_below n (λ i. left (w.phases i)) ≡ 0)
            × Outcome n w c)
  delivers_once {w} pos r =
      let v : Inv w = Reach-Inv pos r in
      elim (ℕ_discrete w.op.count 0) [
        | yes z ↦ let (_, c, d, o) = v.finished z in inr (c, d, omega (arith, v.tally, z), o)
        | no ne ↦ inl (v.unfinished (omega (arith, ne)), omega (arith, v.tally, ne))
      ]

  -- `start` of a new operation starts its children, counted and with the stop callback in place,
  -- unless the downstream token has been asked to stop: then it delivers stopped, and starts none.
  pub start-begun :
      (start {V = V} {E = E} sends n false new_op ≡ ((begun {V = V} {E = E} n).op, true))
      × ((start {V = V} {E = E} sends n true new_op).0.delivered ≡ set_stopped ∷ [])
      × ((start {V = V} {E = E} sends n true new_op).1 ≡ false)
  unfolding start begun
  start-begun = (refl, refl, refl)
