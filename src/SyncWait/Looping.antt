-- ===== src/SyncWait/Looping.antt =====
-- The loop of a dynamic wait is the run loop's, and the receiver's values go with it.
use cpp_baremetal_senders_an.Base.{
  ℕ, zero, suc, ◌+◌, ◌≤◌, ◌≡◌, ◌⊎◌, inl, inr, refl, sym, ap, ◌∙◌, subst, true, false, Option, none,
  some, List, [], ◌∷◌, ◌++◌, arith, bit, is_empty, Bool-cases, Option-cases, if◌then◌else◌,
}
use mathlib.Core.Option.{some-injective}
use cpp_baremetal_senders_an.Channel.{Completion, set_value, set_error, set_stopped}
use cpp_baremetal_senders_an.Intrusive.{IntrusiveList}
use cpp_baremetal_senders_an.RunLoop.{
  Loop, Call, start_op, ask_stop, finish_loop, Outcome, returned, waiting, call, call_all,
  push_back, ask, finish, ready, pop_front, execute, run,
}
use cpp_baremetal_senders_an.SyncWait.{
  Event, starts_op, asks_stop, completes, DynamicWaiting, Ending, returns, blocks, receive,
  dynamic_receive, occur, occur_all, run_waiting,
}
use cpp_baremetal_senders_an.SyncWait.Returning.{values_of}

module _ {V E : Type 0} where
  -- The calls that events make on the loop.
  abbrev pub calls_of : List (Event V E) → List Call
  calls_of [] = []
  calls_of (starts_op t ∷ es) = start_op t ∷ calls_of es
  calls_of (asks_stop t ∷ es) = ask_stop t ∷ calls_of es
  calls_of (completes c ∷ es) = finish_loop ∷ calls_of es

  -- How often the sender completes among events.
  abbrev pub completions_in : List (Event V E) → ℕ
  completions_in [] = 0
  completions_in (starts_op t ∷ es) = completions_in es
  completions_in (asks_stop t ∷ es) = completions_in es
  completions_in (completes c ∷ es) = suc (completions_in es)

  abbrev pub loop_of : Ending V E → Outcome V E
  loop_of (returns d) = returned d.loop
  loop_of (blocks d) = waiting d.loop

  abbrev pub loops_of : Option (Ending V E) → Option (Outcome V E)
  loops_of none = none
  loops_of (some e) = some (loop_of e)

  -- The values and the flag against the completions of the sender, of which there is one at most.
  abbrev pub Kept : DynamicWaiting V E → Type 0
  Kept d =
      ((d.completed ≡ []) × (d.values ≡ none) × (d.loop.done ≡ false))
      ⊎ ((c : Completion V E) × (d.completed ≡ c ∷ [])
          × (d.values ≡ values_of c)
          × (d.loop.done ≡ true))

  abbrev pub EndKept : Ending V E → Type 0
  EndKept (returns d) = Kept d
  EndKept (blocks d) = Kept d

  receive-none : (c : Completion V E) → receive c none ≡ values_of c
  unfolding receive
  receive-none (set_value vs) = refl
  receive-none (set_error e) = refl
  receive-none set_stopped = refl

module _ (lists : IntrusiveList) {V E : Type 0} where
  pub occur_all-loop :
      (es : List (Event V E)) (d : DynamicWaiting V E)
      → (occur_all lists es d).loop ≡ call_all lists (calls_of es) d.loop
  unfolding occur_all occur call_all call dynamic_receive
  occur_all-loop [] d = refl
  occur_all-loop (starts_op t ∷ es) d = occur_all-loop es (occur lists (starts_op t) d)
  occur_all-loop (asks_stop t ∷ es) d = occur_all-loop es (occur lists (asks_stop t) d)
  occur_all-loop (completes c ∷ es) d = occur_all-loop es (dynamic_receive c d)

  pub occur_all-Kept :
      (es : List (Event V E)) (d : DynamicWaiting V E)
      → completions_in es + bit d.loop.done ≤ 1
      → Kept d
      → Kept (occur_all lists es d)
  unfolding occur_all occur call push_back ask finish dynamic_receive
  occur_all-Kept [] d h k = k
  occur_all-Kept (starts_op t ∷ es) d h k = occur_all-Kept es (occur lists (starts_op t) d) h k
  occur_all-Kept (asks_stop t ∷ es) d h k = occur_all-Kept es (occur lists (asks_stop t) d) h k
  occur_all-Kept (completes c ∷ es) d h (inl (e, v, f)) =
      occur_all-Kept es (dynamic_receive c d) (omega (arith, h))
        (inr (c, ap (λ l. l ++ c ∷ []) e, ap (receive c) v ∙ receive-none c, refl))
  occur_all-Kept (completes c ∷ es) d h (inr (c', e, v, f)) = absurd (omega (arith, h, ap bit f))

  pop_front-done : (l l' : Loop V E) (t : ℕ) → pop_front lists l ≡ some (t, l') → l'.done ≡ l.done
  unfolding pop_front
  pop_front-done l l' t e = elim (Bool-cases (is_empty l.tasks)) [
    | inl b ↦ absurd (cc (nothing b, e))
    | inr b ↦ sym (ap (λ x. x.1.done) (some-injective _ _ (sym (something b) ∙ e)))
  ]
    where
      nothing : is_empty l.tasks ≡ true → pop_front lists l ≡ none
      nothing b = rw b refl

      something :
          is_empty l.tasks ≡ false
          → pop_front lists l
            ≡ some ((lists.pop_front l.tasks).0, record l { tasks = (lists.pop_front l.tasks).1 })
      something b = rw b refl

  after_pop :
      (d : DynamicWaiting V E) (t : ℕ) (l : Loop V E)
      → pop_front lists d.loop ≡ some (t, l)
      → Kept d
      → Kept (record d { loop = execute t l })
  unfolding execute
  after_pop d t l o (inl (e, v, f)) = inl (e, v, pop_front-done d.loop l t o ∙ f)
  after_pop d t l o (inr (c, e, v, f)) = inr (c, e, v, pop_front-done d.loop l t o ∙ f)

  module _ (react : ℕ → Loop V E → List (Event V E)) (arrive : Loop V E → List (Event V E)) where
    abbrev pub calls_after : ℕ → Loop V E → List Call
    calls_after t l = calls_of (react t l)

    abbrev pub calls_before : Loop V E → List Call
    calls_before l = calls_of (arrive l)

    -- An iteration of the run loop, from the loops before and after its second wait for the calls.
    abbrev iteration : ℕ → Loop V E → Loop V E → Option (Outcome V E)
    iteration fuel l1 l2 =
        if ready l1
        then (elim (pop_front lists l2) [
          | none ↦ some (returned l2)
          | some (t, l) ↦
              run lists calls_after calls_before fuel
                (call_all lists (calls_after t (execute t l)) (execute t l))
        ])
        else some (waiting l1)

    abbrev first : DynamicWaiting V E → DynamicWaiting V E
    first d = occur_all lists (arrive d.loop) d

    run-iteration :
        (fuel : ℕ) (d : DynamicWaiting V E)
        → iteration fuel (first d).loop (first (first d)).loop
          ≡ run lists calls_after calls_before (suc fuel) d.loop
    unfolding run
    run-iteration fuel d =
        ap (iteration fuel (first d).loop) (occur_all-loop (arrive (first d).loop) (first d))
        ∙ ap (λ l. iteration fuel l (call_all lists (calls_before l) l))
            (occur_all-loop (arrive d.loop) d)

    run_waiting-iteration :
        (fuel : ℕ) (d : DynamicWaiting V E)
        → ((d' : DynamicWaiting V E)
            → loops_of (run_waiting lists react arrive fuel d')
              ≡ run lists calls_after calls_before fuel d'.loop)
        → loops_of (run_waiting lists react arrive (suc fuel) d)
          ≡ iteration fuel (first d).loop (first (first d)).loop
    unfolding run_waiting
    run_waiting-iteration fuel d later = elim (Bool-cases (ready (first d).loop)) [
      | inr b ↦ rw b refl
      | inl b ↦ elim (Option-cases (pop_front lists (first (first d)).loop)) [
        | inl e ↦ rw (b, e) refl
        | inr ((t, l), e) ↦
            let d3 : DynamicWaiting V E = record (first (first d)) { loop = execute t l } in
            rw (b, e)
              (later (occur_all lists (react t (execute t l)) d3)
                ∙ ap (run lists calls_after calls_before fuel)
                    (occur_all-loop (react t (execute t l)) d3))
      ]
    ]

    -- The dynamic wait runs the run loop.
    pub run_waiting-run :
        (fuel : ℕ) (d : DynamicWaiting V E)
        → loops_of (run_waiting lists react arrive fuel d)
          ≡ run lists calls_after calls_before fuel d.loop
    unfolding run_waiting run
    run_waiting-run zero d = refl
    run_waiting-run (suc fuel) d =
        run_waiting-iteration fuel d (λ d'. run_waiting-run fuel d') ∙ run-iteration fuel d

    -- The completion of the sender, of which there is one at most, is what the values are.
    pub run_waiting-Kept :
        ((t : ℕ) (l : Loop V E) → completions_in (react t l) + bit l.done ≤ 1)
        → ((l : Loop V E) → completions_in (arrive l) + bit l.done ≤ 1)
        → (fuel : ℕ) (d : DynamicWaiting V E) (e : Ending V E)
        → run_waiting lists react arrive fuel d ≡ some e
        → Kept d
        → EndKept e
    unfolding run_waiting
    run_waiting-Kept reacts arrives zero d e h k = absurd (cc h)
    run_waiting-Kept reacts arrives (suc fuel) d e h k =
        let k1 : Kept (first d) = occur_all-Kept (arrive d.loop) d (arrives d.loop) k in
        let k2 : Kept (first (first d)) =
          occur_all-Kept (arrive (first d).loop) (first d) (arrives (first d).loop) k1 in
        elim (Bool-cases (ready (first d).loop)) [
          | inr b ↦ subst EndKept (some-injective _ _ (sym (blocked b) ∙ h)) k1
          | inl b ↦ elim (Option-cases (pop_front lists (first (first d)).loop)) [
            | inl o ↦ subst EndKept (some-injective _ _ (sym (over b o) ∙ h)) k2
            | inr ((t, l), o) ↦
                run_waiting-Kept reacts arrives fuel (later t l) e (sym (goes_on t l b o) ∙ h) (
                  occur_all-Kept (react t (execute t l))
                    (record (first (first d)) { loop = execute t l }) (reacts t (execute t l))
                    (popped-Kept t l o k2))
          ]
        ]
      where
        later : ℕ → Loop V E → DynamicWaiting V E
        later t l =
            occur_all lists (react t (execute t l))
              (record (first (first d)) { loop = execute t l })

        blocked :
            ready (first d).loop ≡ false
            → run_waiting lists react arrive (suc fuel) d ≡ some (blocks (first d))
        blocked b = rw b refl

        over :
            ready (first d).loop ≡ true
            → pop_front lists (first (first d)).loop ≡ none
            → run_waiting lists react arrive (suc fuel) d ≡ some (returns (first (first d)))
        over b o = rw (b, o) refl

        goes_on :
            (t : ℕ) (l : Loop V E)
            → ready (first d).loop ≡ true
            → pop_front lists (first (first d)).loop ≡ some (t, l)
            → run_waiting lists react arrive (suc fuel) d
              ≡ run_waiting lists react arrive fuel (later t l)
        goes_on t l b o = rw (b, o) refl

        popped-Kept :
            (t : ℕ) (l : Loop V E)
            → pop_front lists (first (first d)).loop ≡ some (t, l)
            → Kept (first (first d))
            → Kept (record (first (first d)) { loop = execute t l })
        popped-Kept t l o k2 = after_pop (first (first d)) t l o k2
