-- ===== src/RunLoop/Drain.antt =====
-- The run loop executes what was started, in its order, and returns when it is finished.
use cpp_baremetal_senders_an.Base.{
  ℕ, zero, suc, ◌+◌, ◌<◌, ◌≡◌, refl, ap, ◌∙◌, true, false, some, List, [], ◌∷◌, arith, length, inl,
  inr, Bool-cases, List-cases,
}
use cpp_baremetal_senders_an.Intrusive.{IntrusiveList}
use cpp_baremetal_senders_an.RunLoop.{
  Loop, Call, Outcome, returned, waiting, ready, execute, call_all, pop_front, run,
}
use cpp_baremetal_senders_an.RunLoop.Invariant.{
  Fresh, Inv, Ended, executed-bound, all_executed, call_all-Inv, execute-Inv, not_ready,
  still_finished,
}

module _ (lists : IntrusiveList) (n : ℕ) {V E : Type 0} where
  module _ (react : ℕ → Loop V E → List Call) (arrive : Loop V E → List Call)
      (reacts : (t : ℕ) (l : Loop V E) → Fresh n (react t l) l.started)
      (arrives : (l : Loop V E) → Fresh n (arrive l) l.started) where
    module _ (fuel : ℕ) (l : Loop V E) where
      -- After the wait, and at the pop.
      abbrev waited : Loop V E
      waited = call_all lists (arrive l) l

      abbrev popping : Loop V E
      popping = call_all lists (arrive waited) waited

      run-waiting :
          ready waited ≡ false → run lists react arrive (suc fuel) l ≡ some (waiting waited)
      unfolding run
      run-waiting h = rw (run, h) refl

      run-returned :
          ready waited ≡ true
          → popping.tasks ≡ []
          → run lists react arrive (suc fuel) l ≡ some (returned popping)
      unfolding run pop_front
      run-returned h e = simp (run, pop_front, h, e)

      run-executes :
          (t : ℕ) (q : List ℕ)
          → ready waited ≡ true
          → popping.tasks ≡ t ∷ q
          → let l3 : Loop V E = execute t (record popping { tasks = q }) in
            run lists react arrive (suc fuel) l
            ≡ run lists react arrive fuel (call_all lists (react t l3) l3)
      unfolding run pop_front
      run-executes t q h e = rw (run, h, e, lists.pop_front_lem t q) refl

    -- Whatever is called while the loop waits and while it executes, where no operation is started
    -- twice and `n` are started at most, `n` and one iterations are enough fuel: the loop returns
    -- once it is finished and everything that was started was executed, in its order, or it waits
    -- when everything was executed and it is not finished.
    pub run_ends :
        (fuel : ℕ) (l : Loop V E)
        → n < fuel + length l.executed
        → Inv n l
        → (o : Outcome V E) × (run lists react arrive fuel l ≡ some o) × Ended o
    run_ends zero l h v = absurd (omega (arith, h, executed-bound lists n l v))
    run_ends (suc fuel) l h v =
        let l1 : Loop V E = call_all lists (arrive l) l in
        let l2 : Loop V E = call_all lists (arrive l1) l1 in
        let (v1, same1) = call_all-Inv lists n (arrive l) l (arrives l) v in
        let (v2, same2) = call_all-Inv lists n (arrive l1) l1 (arrives l1) v1 in
        elim (Bool-cases (ready l1)) [
          | inr no_task ↦
              let (e, d) = not_ready lists n l1 no_task in
              (waiting l1, run-waiting fuel l no_task, (all_executed lists n l1 e v1, d))
          | inl r ↦ elim (List-cases l2.tasks) [
            | inl e ↦ (
              returned l2,
              run-returned fuel l r e,
              (all_executed lists n l2 e v2, still_finished lists n l1 (arrive l1) v1 v2 same2 r e),
            )
            | inr (t, q, e) ↦
                let l3 : Loop V E = execute t (record l2 { tasks = q }) in
                let (v3, more) = execute-Inv lists n l2 t q e v2 in
                let (v4, kept) = call_all-Inv lists n (react t l3) l3 (reacts t l3) v3 in
                let (o, ok, ends) =
                  run_ends fuel (call_all lists (react t l3) l3)
                    (omega (arith, h, more, ap length same1, ap length same2, ap length kept)) v4 in
                (o, run-executes fuel l t q r e ∙ ok, ends)
          ]
        ]
