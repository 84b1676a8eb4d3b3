-- ===== src/RunLoop/Invariant.antt =====
-- What holds of the run loop between two critical sections.
use cpp_baremetal_senders_an.Base.{
  Bool, not, ◌||◌, is_empty, ℕ, suc, ◌≤◌, ◌<◌, ◌≡◌, refl, sym, ap, ◌∙◌, true, false, List, [], ◌∷◌,
  ◌++◌, append_assoc, append-nil, arith, length, count, length-append, count-append, if◌then◌else◌,
}
use cpp_baremetal_senders_an.Channel.{Completion, set_value, set_stopped}
use cpp_baremetal_senders_an.Intrusive.{IntrusiveList}
use cpp_baremetal_senders_an.RunLoop.{
  Loop, Call, start_op, ask_stop, finish_loop, Outcome, returned, waiting, finish, ask, ready,
  execute, push_back, call, call_all,
}

-- Calls that start no operation again, and no more than `n` in all.
abbrev pub Fresh : ℕ → List Call → List ℕ → Type 0
Fresh n [] st = Unit {0}
Fresh n (start_op t ∷ cs) st = (count t st ≡ 0) × (length st < n) × Fresh n cs (st ++ t ∷ [])
Fresh n (ask_stop t ∷ cs) st = Fresh n cs st
Fresh n (finish_loop ∷ cs) st = Fresh n cs st

nil_of_length : (q : List ℕ) → length q ≤ 0 → q ≡ []
nil_of_length [] h = refl
nil_of_length (t ∷ q) h = absurd (omega (arith, h))

module _ {V E : Type 0} where
  abbrev pub ops_of : List (ℕ × Completion V E) → List ℕ
  ops_of [] = []
  ops_of (x ∷ xs) = x.0 ∷ ops_of xs

  ops_of-append :
      (xs : List (ℕ × Completion V E)) (t : ℕ) (c : Completion V E)
      → ops_of (xs ++ (t, c) ∷ []) ≡ ops_of xs ++ t ∷ []
  ops_of-append [] t c = refl
  ops_of-append (x ∷ xs) t c = ap (λ l. x.0 ∷ l) (ops_of-append xs t c)

  length-ops_of : (xs : List (ℕ × Completion V E)) → length (ops_of xs) ≡ length xs
  length-ops_of [] = refl
  length-ops_of (x ∷ xs) = omega (arith, length-ops_of xs)

  -- What was executed, and what is in the queue, is what was started, in its order.
  pub record Inv (n : ℕ) (l : Loop V E) : Type 0 where
    pub order : l.started ≡ ops_of l.executed ++ l.tasks
    pub once : (t : ℕ) → count t l.started ≤ 1
    pub bounded : length l.started ≤ n

  -- Everything that was started was executed, in its order; the loop was finished exactly if it has
  -- returned.
  abbrev pub Ended : Outcome V E → Type 0
  Ended (returned l) = (ops_of l.executed ≡ l.started) × (l.done ≡ true)
  Ended (waiting l) = (ops_of l.executed ≡ l.started) × (l.done ≡ false)

module _ (lists : IntrusiveList) (n : ℕ) {V E : Type 0} where
  pub executed-bound : (l : Loop V E) → Inv n l → length l.executed ≤ n
  executed-bound l v = omega (
    arith,
    v.bounded,
    ap length v.order,
    length-append (ops_of l.executed) l.tasks,
    length-ops_of l.executed,
  )

  pub all_executed : (l : Loop V E) → l.tasks ≡ [] → Inv n l → ops_of l.executed ≡ l.started
  all_executed l e v =
      sym (v.order ∙ ap (λ q. ops_of l.executed ++ q) e ∙ append-nil (ops_of l.executed))

  push_back-Inv :
      (l : Loop V E) (t : ℕ)
      → count t l.started ≡ 0
      → length l.started < n
      → Inv n l
      → Inv n (push_back lists t l)
  unfolding push_back
  push_back-Inv l t new room v =
      let absent : count t l.tasks ≡ 0 =
        omega (arith, new, ap (count t) v.order, count-append t (ops_of l.executed) l.tasks) in
      record {
        order =
            ap (λ q. q ++ t ∷ []) v.order
            ∙ append_assoc (ops_of l.executed) l.tasks (t ∷ [])
            ∙ ap (λ q. ops_of l.executed ++ q) (sym (lists.push_back_lem t l.tasks absent));
        once = λ u. ground (arith, v.once u, new, count-append u l.started (t ∷ []));
        bounded = omega (arith, room, length-append l.started (t ∷ []));
      }

  pub call_all-Inv :
      (cs : List Call) (l : Loop V E)
      → Fresh n cs l.started
      → Inv n l
      → Inv n (call_all lists cs l) × ((call_all lists cs l).executed ≡ l.executed)
  unfolding call_all call push_back ask finish
  call_all-Inv [] l f v = (v, refl)
  call_all-Inv (start_op t ∷ cs) l f v =
      call_all-Inv cs (push_back lists t l) f.2 (push_back-Inv l t f.0 f.1 v)
  call_all-Inv (ask_stop t ∷ cs) l f v =
      call_all-Inv cs (ask t l) f (record { order = v.order; once = v.once; bounded = v.bounded })
  call_all-Inv (finish_loop ∷ cs) l f v =
      call_all-Inv cs (finish l) f (record { order = v.order; once = v.once; bounded = v.bounded })

  pub execute-Inv :
      (l : Loop V E) (t : ℕ) (q : List ℕ)
      → l.tasks ≡ t ∷ q
      → Inv n l
      → Inv n (execute t (record l { tasks = q }))
        × (length (execute t (record l { tasks = q })).executed ≡ suc (length l.executed))
  unfolding execute
  execute-Inv l t q e v =
      let c : Completion V E = if l.asked t then set_stopped else set_value [] in
      (
        record {
          order =
              v.order
              ∙ ap (λ k. ops_of l.executed ++ k) e
              ∙ sym (append_assoc (ops_of l.executed) (t ∷ []) q)
              ∙ ap (λ k. k ++ q) (sym (ops_of-append l.executed t c));
          once = v.once;
          bounded = v.bounded;
        },
        omega (arith, length-append l.executed ((t, c) ∷ [])),
      )

  -- Calls take nothing back.
  call_all-grows :
      (cs : List Call) (l : Loop V E)
      → (length l.started ≤ length (call_all lists cs l).started)
        × (l.done ≡ true → (call_all lists cs l).done ≡ true)
  unfolding call_all call push_back ask finish
  call_all-grows [] l = (omega arith, λ d. d)
  call_all-grows (start_op t ∷ cs) l =
      let (more, kept) = call_all-grows cs (push_back lists t l) in
      (omega (arith, more, length-append l.started (t ∷ [])), kept)
  call_all-grows (ask_stop t ∷ cs) l = call_all-grows cs (ask t l)
  call_all-grows (finish_loop ∷ cs) l =
      let (more, kept) = call_all-grows cs (finish l) in (more, λ _. kept refl)

  pub not_ready : (l : Loop V E) → ready l ≡ false → (l.tasks ≡ []) × (l.done ≡ false)
  unfolding ready
  not_ready l h = by_tasks l.tasks l.done h
    where
      by_tasks : (q : List ℕ) (d : Bool) → (not (is_empty q) || d) ≡ false → (q ≡ []) × (d ≡ false)
      by_tasks [] d h = (refl, h)
      by_tasks (t ∷ q) d h = absurd (cc h)

  finished : (l : Loop V E) → ready l ≡ true → l.tasks ≡ [] → l.done ≡ true
  unfolding ready
  finished l h e = ap (λ q. not (is_empty q) || l.done) (sym e) ∙ h

  -- A loop that was ready, and holds no task after further calls, is finished.
  pub still_finished :
      (l : Loop V E) (cs : List Call)
      → Inv n l
      → Inv n (call_all lists cs l)
      → (call_all lists cs l).executed ≡ l.executed
      → ready l ≡ true
      → (call_all lists cs l).tasks ≡ []
      → (call_all lists cs l).done ≡ true
  still_finished l cs v w same h e =
      let (more, kept) = call_all-grows cs l in
      kept (
        finished l h (
          nil_of_length l.tasks (
            omega (
              arith,
              more,
              ap length v.order,
              length-append (ops_of l.executed) l.tasks,
              length-ops_of l.executed,
              ap length (all_executed (call_all lists cs l) e w),
              length-ops_of (call_all lists cs l).executed,
              ap length same,
            ))))
