-- ===== src/SyncWait/Draining.antt =====
-- When a blocking wait that runs a loop returns, and with what.
use cpp_baremetal_senders_an.Base.{
  ℕ, ◌+◌, ◌≤◌, ◌<◌, ◌≡◌, inl, inr, refl, sym, ap, ◌∙◌, subst, Bool, Option, none, some, List, [],
  ◌∷◌, arith, bit, Option-cases,
}
use mathlib.Core.Option.{some-injective}
use cpp_baremetal_senders_an.Channel.{Completion}
use cpp_baremetal_senders_an.Intrusive.{IntrusiveList}
use cpp_baremetal_senders_an.RunLoop.{Loop}
use cpp_baremetal_senders_an.RunLoop.Invariant.{Fresh, Inv, Ended, ops_of, call_all-Inv}
use cpp_baremetal_senders_an.RunLoop.Drain.{run_ends}
use cpp_baremetal_senders_an.SyncWait.{
  Event, DynamicWaiting, Ending, returns, blocks, new_loop, new_waiting, occur_all, run_waiting,
  wait_dynamic,
}
use cpp_baremetal_senders_an.SyncWait.Looping.{
  calls_of, completions_in, loop_of, loops_of, Kept, EndKept, occur_all-loop, occur_all-Kept,
  run_waiting-run, run_waiting-Kept,
}
use cpp_baremetal_senders_an.SyncWait.Returning.{values_of}

new_loop-Inv : (V E : Type 0) (n : ℕ) (asked : ℕ → Bool) → Inv n (new_loop {V = V} {E = E} asked)
unfolding new_loop
new_loop-Inv V E n asked = record { order = refl; once = λ t. omega arith; bounded = omega arith }

module _ {V E : Type 0} where
  -- What a wait comes to that leaves the state it does.
  abbrev pub answer : Ending V E → Option (Option (List V))
  answer (returns d) = some d.values
  answer (blocks d) = none

  -- All that was started on the loop of the wait was executed, in its order; the sender has completed
  -- once, and the values are those of its completion, or it has not completed, and the wait goes on.
  abbrev pub Settled : Ending V E → Type 0
  Settled (returns d) =
      (ops_of d.loop.executed ≡ d.loop.started)
      × ((c : Completion V E) × (d.completed ≡ c ∷ []) × (d.values ≡ values_of c))
  Settled (blocks d) = (ops_of d.loop.executed ≡ d.loop.started) × (d.completed ≡ [])

  Ended-Settled : (e : Ending V E) → Ended (loop_of e) → EndKept e → Settled e
  Ended-Settled (returns d) (all, f) (inl (_, _, n)) = absurd (cc (f, n))
  Ended-Settled (returns d) (all, f) (inr (c, e, v, _)) = (all, (c, e, v))
  Ended-Settled (blocks d) (all, f) (inl (e, _, _)) = (all, e)
  Ended-Settled (blocks d) (all, f) (inr (c, _, _, n)) = absurd (cc (f, n))

module _ (lists : IntrusiveList) (n : ℕ) {V E : Type 0} where
  module _ (react : ℕ → Loop V E → List (Event V E)) (arrive : Loop V E → List (Event V E)) where
    wait_dynamic-answer :
        (asked : ℕ → Bool) (starts : List (Event V E)) (fuel : ℕ) (e : Ending V E)
        → run_waiting lists react arrive fuel (occur_all lists starts (new_waiting asked)) ≡ some e
        → wait_dynamic lists react arrive asked starts fuel ≡ some (answer e)
    unfolding wait_dynamic
    wait_dynamic-answer asked starts fuel (returns d) h = rw (wait_dynamic, h) refl
    wait_dynamic-answer asked starts fuel (blocks d) h = rw (wait_dynamic, h) refl

    begun-Inv :
        (asked : ℕ → Bool) (starts : List (Event V E))
        → Fresh n (calls_of starts) []
        → Inv n (occur_all lists starts (new_waiting asked)).loop
    unfolding new_waiting
    begun-Inv asked starts f =
        let fresh : Fresh n (calls_of starts) (new_loop {V = V} {E = E} asked).started =
          unfold new_loop in f in
        subst (Inv n) (sym (occur_all-loop lists starts (new_waiting asked))) (
          (call_all-Inv lists n (calls_of starts) (new_loop asked) fresh
            (new_loop-Inv V E n asked)).0)

    begun-Kept :
        (asked : ℕ → Bool) (starts : List (Event V E))
        → completions_in starts ≤ 1
        → Kept (occur_all lists starts (new_waiting asked))
    unfolding new_waiting new_loop
    begun-Kept asked starts h =
        occur_all-Kept lists starts (new_waiting asked) (omega (arith, h)) (inl (refl, refl, refl))

    -- Where no operation of the loop is started twice, `n` are started at most, and the sender
    -- completes once at most, `sync_wait_dynamic` comes to an end with fuel for `n` and one
    -- iterations, in a state that all operations were executed in that were started on its loop, in
    -- their order. It returns exactly if the sender has completed, and then what the completion was:
    -- its values, or none; else it waits for a completion that does not come.
    pub wait_drains :
        ((t : ℕ) (l : Loop V E) → Fresh n (calls_of (react t l)) l.started)
        → ((l : Loop V E) → Fresh n (calls_of (arrive l)) l.started)
        → ((t : ℕ) (l : Loop V E) → completions_in (react t l) + bit l.done ≤ 1)
        → ((l : Loop V E) → completions_in (arrive l) + bit l.done ≤ 1)
        → (asked : ℕ → Bool) (starts : List (Event V E)) (fuel : ℕ) → Fresh n (calls_of starts) []
        → completions_in starts ≤ 1
        → n < fuel
        → (e : Ending V E) × (run_waiting lists react arrive fuel
              (occur_all lists starts (new_waiting asked))
            ≡ some e)
          × Settled e
          × (wait_dynamic lists react arrive asked starts fuel ≡ some (answer e))
    wait_drains fr fa cr ca asked starts fuel f c h =
        let d : DynamicWaiting V E = occur_all lists starts (new_waiting asked) in
        let (o, ok, ends) =
          run_ends lists n (λ t l. calls_of (react t l)) (λ l. calls_of (arrive l)) fr fa fuel
            d.loop (omega (arith, h)) (begun-Inv asked starts f) in
        let same : loops_of (run_waiting lists react arrive fuel d) ≡ some o =
          run_waiting-run lists react arrive fuel d ∙ ok in
        elim (Option-cases (run_waiting lists react arrive fuel d)) [
          | inl e ↦ absurd (cc (sym (ap loops_of e) ∙ same))
          | inr (e, is) ↦ (
            e,
            is,
            Ended-Settled e
                (subst Ended (sym (some-injective _ _ (sym (ap loops_of is) ∙ same))) ends)
                (run_waiting-Kept lists react arrive cr ca fuel d e is (begun-Kept asked starts c)),
            wait_dynamic-answer asked starts fuel e is,
          )
        ]
