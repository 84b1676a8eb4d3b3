-- ===== src/WhenAny/Steps.antt =====
-- The interleavings of the children of one `when_any` operation, and what it delivers.
use cpp_baremetal_senders_an.Base.{
  ℕ, ◌+◌, ◌-◌, ◌≤◌, ◌<◌, ◌≡◌, refl, ap, ◌∙◌, sym, inl, inr, ◌⊎◌, Bool, true, false, none, some,
  List, [], ◌∷◌, ◌++◌, ◌||◌, arith, ◌==◌, if◌then◌else◌, Bool-cases, update, sum_below,
  sum_below-update, le-sum_below, sum_below-le, length, length-append, ==→≡,
}
use cpp_baremetal_senders_an.Channel.{Completion, set_stopped}
use cpp_baremetal_senders_an.WhenAny.{
  Policy, OpState, store, stops, policy_emplace, complete, arrive, request_stop, new_op,
}
use cpp_baremetal_senders_an.WhenAny.Policies.{
  stored, stored-append, stored-some, determined, determined-append,
}

pub data Phase : Type 0 where
  running arriving done : Phase

-- `order` is the sequence of the completions in the order of their critical sections, and
-- `downstream` says whether the downstream token has been asked to stop.
pub record World (V E : Type 0) : Type 0 where
  pub op : OpState V E
  pub phases : ℕ → Phase
  pub order : List (Completion V E)
  pub downstream : Bool

abbrev pub left : Phase → ℕ
left running = 1
left arriving = 1
left done = 0

abbrev pub unsent : Phase → ℕ
unsent running = 1
unsent arriving = 0
unsent done = 0

unsent-le-left : (x : Phase) → unsent x ≤ left x
unsent-le-left running = omega arith
unsent-le-left arriving = omega arith
unsent-le-left done = omega arith

module _ {V E : Type 0} (p : Policy) (n : ℕ) where
  pub data Step : World V E → World V E → Type 0 where
    emplaced :
        (w : World V E) (i : ℕ) (c : Completion V E)
        → i < n
        → w.phases i ≡ running
        → Step w (record w {
          op = policy_emplace p c w.op;
          phases = update w.phases i arriving;
          order = w.order ++ c ∷ [];
        })
    counted :
        (w : World V E) (i : ℕ)
        → i < n
        → w.phases i ≡ arriving
        → Step w (record w { op = arrive w.downstream w.op; phases = update w.phases i done })
    -- The callback is in place until the operation completes; the token may be asked later, too.
    stopped_downstream :
        (w : World V E)
        → Step w
            (record w { op = if w.op.stop_cb then request_stop w.op else w.op; downstream = true })

  pub data Reach (w : World V E) : World V E → Type 0 where
    here : Reach w w
    next : {u v : World V E} → Reach w u → Step u v → Reach w v

  -- The operation when its children have been started.
  unfoldable pub begun : World V E
  unfolding new_op
  begun = record {
    op = record new_op { stop_cb = true; count = n };
    phases = λ _. running;
    order = [];
    downstream = false;
  }

  -- What was delivered: stopped, where the downstream token had been asked, or what the policy
  -- kept.
  abbrev pub Outcome : World V E → Completion V E → Type 0
  Outcome w c = ((w.downstream ≡ true) × (c ≡ set_stopped)) ⊎ (stored p none w.order ≡ some c)

  pub record Inv (w : World V E) : Type 0 where
    pub kept : w.op.completions ≡ stored p none w.order
    pub tally : w.op.count ≡ sum_below n (λ i. left (w.phases i))
    pub sent : length w.order + sum_below n (λ i. unsent (w.phases i)) ≡ n
    pub unfinished : 0 < w.op.count → w.op.delivered ≡ []
    pub finished : w.op.count ≡ 0 → (c : Completion V E) × (w.op.delivered ≡ c ∷ []) × Outcome w c
    pub stopping : determined p w.order ≡ true → w.op.stop_requested ≡ true

  -- `complete`, where every child was counted down, delivers one completion.
  complete-Outcome :
      (w : World V E)
      → 1 ≤ n
      → w.op.completions ≡ stored p none w.order
      → length w.order ≡ n
      → w.op.delivered ≡ []
      → (c : Completion V E) × ((complete w.downstream w.op).delivered ≡ c ∷ []) × Outcome w c
  unfolding complete
  complete-Outcome w pos k all fresh = elim (Bool-cases w.downstream) [
    | inl d ↦ (set_stopped, rw (d, complete, fresh) refl, inl (d, refl))
    | inr d ↦
        let (c, e) = stored-some p w.order (omega (arith, all)) in
        (c, rw (d, complete, k, e, fresh) refl, inr e)
  ]

  pub arrive-waits :
      (b : Bool) (s : OpState V E)
      → (s.count - 1 == 0) ≡ false
      → arrive b s ≡ record s { count = s.count - 1 }
  unfolding arrive
  arrive-waits b s h = rw h

  pub arrive-completes :
      (b : Bool) (s : OpState V E)
      → (s.count - 1 == 0) ≡ true
      → arrive b s ≡ complete b (record s { count = s.count - 1 })
  unfolding arrive
  arrive-completes b s h = rw h

  pub complete-keeps :
      (b : Bool) (s : OpState V E)
      → ((complete b s).count ≡ s.count)
        × ((complete b s).completions ≡ s.completions)
        × ((complete b s).stop_requested ≡ s.stop_requested)
  unfolding complete
  complete-keeps b s = ground arith

  pub emplace-keeps :
      (c : Completion V E) (s : OpState V E)
      → ((policy_emplace p c s).completions ≡ store p c s.completions)
        × ((policy_emplace p c s).count ≡ s.count)
        × ((policy_emplace p c s).delivered ≡ s.delivered)
        × ((policy_emplace p c s).stop_requested ≡ (s.stop_requested || stops p c))
  unfolding policy_emplace
  emplace-keeps c s = ground arith

  pub emplaced-Inv :
      (w : World V E) (i : ℕ) (c : Completion V E)
      → i < n
      → w.phases i ≡ running
      → Inv w
      → Inv (record w {
        op = policy_emplace p c w.op;
        phases = update w.phases i arriving;
        order = w.order ++ c ∷ [];
      })
  unfolding policy_emplace
  emplaced-Inv w i c lt r v =
      let busy : 1 ≤ w.op.count =
        omega (arith, v.tally, le-sum_below n (λ j. left (w.phases j)) i lt, ap left r) in
      let keeps = emplace-keeps c w.op in
      record {
        kept = keeps.0 ∙ ap (store p c) v.kept ∙ sym (stored-append p none w.order c);
        tally =
            omega
              (arith, keeps.1, v.tally, sum_below-update left n w.phases i arriving lt, ap left r);
        sent = omega (
          arith,
          v.sent,
          length-append w.order (c ∷ []),
          sum_below-update unsent n w.phases i arriving lt,
          ap unsent r,
        );
        unfinished = λ h. keeps.2 ∙ v.unfinished busy;
        finished = λ h. absurd (omega (arith, h, keeps.1, busy));
        stopping = λ h. ground (arith, keeps.3, v.stopping, determined-append p w.order c);
      }

  pub counted-Inv :
      (w : World V E) (i : ℕ)
      → 1 ≤ n
      → i < n
      → w.phases i ≡ arriving
      → Inv w
      → Inv (record w { op = arrive w.downstream w.op; phases = update w.phases i done })
  counted-Inv w i pos lt a v =
      let op1 : OpState V E = record w.op { count = w.op.count - 1 } in
      let w1 : World V E = record w { op = op1; phases = update w.phases i done } in
      let busy : 1 ≤ w.op.count =
        omega (arith, v.tally, le-sum_below n (λ j. left (w.phases j)) i lt, ap left a) in
      let tally : op1.count ≡ sum_below n (λ j. left (w1.phases j)) =
        omega (arith, v.tally, sum_below-update left n w.phases i done lt, ap left a) in
      let sent : length w.order + sum_below n (λ j. unsent (w1.phases j)) ≡ n =
        omega (arith, v.sent, sum_below-update unsent n w.phases i done lt, ap unsent a) in
      elim (Bool-cases (op1.count == 0)) [
        | inr z ↦ rw (arrive-waits w.downstream w.op z) (record {
          kept = v.kept;
          tally = tally;
          sent = sent;
          unfinished = λ h. v.unfinished busy;
          finished = λ h. absurd (ground (arith, h, z));
          stopping = v.stopping;
        })
        | inl z ↦
            let e = arrive-completes w.downstream w.op z in
            let (co, cp, st) = complete-keeps w.downstream op1 in
            let all : length w.order ≡ n = omega (
              arith,
              sent,
              tally,
              ==→≡ op1.count 0 z,
              sum_below-le n (λ j. unsent (w1.phases j)) (λ j. left (w1.phases j))
                  (λ j h. unsent-le-left (w1.phases j)),
            ) in
            rw e (record {
              kept = cp ∙ v.kept;
              tally = co ∙ tally;
              sent = sent;
              unfinished = λ h. absurd (omega (arith, h, co, ==→≡ op1.count 0 z));
              finished = λ h. complete-Outcome w1 pos v.kept all (v.unfinished busy);
              stopping = λ h. st ∙ v.stopping h;
            })
      ]
