-- ===== src/TriggerManager/Run.antt =====
-- `run` of a trigger manager, under both requeue policies.
use cpp_baremetal_senders_an.Base.{
  ℕ, zero, suc, ◌≤◌, ◌<◌, ◌≡◌, refl, ap, sym, ◌∙◌, true, false, inl, inr, some, List, [], ◌∷◌, ◌++◌,
  arith, bit, length, count, update, Bool-cases, bit-update-false, length-erase, ==_refl,
  append_assoc, append-nil, flag_of_count,
}
use cpp_baremetal_senders_an.Intrusive.{IntrusiveList}
use cpp_baremetal_senders_an.TaskManager.{deferred, immediate}
use cpp_baremetal_senders_an.TriggerManager.{
  Manager, Request, enqueues, dequeues, dequeue, request, request_all, take_tasks, run_task,
  run_deferred, run_immediate, run_manager,
}
use cpp_baremetal_senders_an.TriggerManager.Invariant.{
  Inv, AllAllowed, request_all-Inv, dequeue-pending, request-Inv,
}

AllAllowed-tail : (t : ℕ) (q : List ℕ) (cs : List Request) → AllAllowed (t ∷ q) cs → AllAllowed q cs
AllAllowed-tail t q [] h = tt
AllAllowed-tail t q (enqueues u ∷ cs) h = (tt, AllAllowed-tail t q cs h.1)
AllAllowed-tail t q (dequeues u ∷ cs) h = (omega (arith, h.0), AllAllowed-tail t q cs h.1)

AllAllowed-nil : (cs : List Request) → AllAllowed [] cs
AllAllowed-nil [] = tt
AllAllowed-nil (enqueues u ∷ cs) = (tt, AllAllowed-nil cs)
AllAllowed-nil (dequeues u ∷ cs) = (refl, AllAllowed-nil cs)

-- Requests that enqueue nothing.
abbrev pub OnlyDequeues : List Request → Type 0
OnlyDequeues [] = Unit {0}
OnlyDequeues (enqueues t ∷ cs) = ⊥
OnlyDequeues (dequeues t ∷ cs) = OnlyDequeues cs

module _ (lists : IntrusiveList) where
  length-request_all :
      (cs : List Request) (m : Manager)
      → OnlyDequeues cs
      → Inv 1 [] m
      → length (request_all lists cs m).tasks ≤ length m.tasks
  unfolding request_all
  length-request_all [] m o v = omega arith
  length-request_all (enqueues t ∷ cs) m o v = absurd o
  length-request_all (dequeues t ∷ cs) m o v =
      let next = (request-Inv lists 1 [] (dequeues t) m refl v).0 in
      let later = length-request_all cs (request lists (dequeues t) m) o next in
      elim (Bool-cases (m.pending t)) [
        | inr p ↦ omega (arith, later, ap (λ s. length s.tasks) (kept t m p))
        | inl p ↦
            let (m', e, l, _, _, _) = dequeue-pending lists 1 [] t m p refl v in
            omega (
              arith,
              later,
              ap length l,
              length-erase t m.tasks (omega (arith, v.once t, ap bit p)),
              ap (λ s. length s.tasks) (changed t m m' e),
            )
      ]
    where
      kept : (t : ℕ) (m : Manager) → m.pending t ≡ false → request lists (dequeues t) m ≡ m
      kept t m p = unfold request dequeue in rw (p, request, dequeue) refl

      changed :
          (t : ℕ) (m m' : Manager)
          → dequeue lists t m ≡ (m', true)
          → request lists (dequeues t) m ≡ m'
      changed t m m' e = unfold request in ap (λ x. x.0) e

  module _ (run : ℕ → Manager → List Request) where
    popped :
        (r t : ℕ) (q : List ℕ) (m : Manager)
        → Inv r (t ∷ q) m
        → Inv (suc r) q (record m { pending = update m.pending t false })
    popped r t q m v = record {
      once = λ u. omega (
        arith,
        v.once u,
        bit-update-false m.pending t u
            (flag_of_count (m.pending t) (omega (arith, v.once t, ap bit (==_refl t)))),
      );
      counted = omega (arith, v.counted);
    }

    run_task-Inv :
        (r t : ℕ) (q : List ℕ) (m : Manager)
        → ((s : Manager) → AllAllowed q (run t s))
        → Inv (suc r) q m
        → Inv r q (run_task lists run t m) × ((run_task lists run t m).ran ≡ m.ran ++ t ∷ [])
    unfolding run_task
    run_task-Inv r t q m al v =
        let m1 : Manager = record m { ran = m.ran ++ t ∷ [] } in
        let (w, l) =
          request_all-Inv lists (suc r) q (run t m1) m1 (al m1)
            (record { once = v.once; counted = v.counted }) in
        (record { once = w.once; counted = omega (arith, w.counted) }, l)

    run_deferred_lem :
        (fuel : ℕ) (q : List ℕ) (m : Manager)
        → length q < fuel
        → ((t : ℕ) (s : Manager) → AllAllowed q (run t s))
        → Inv 0 q m
        → (m' : Manager) × (run_deferred lists run fuel q m ≡ some m')
          × Inv 0 [] m'
          × (m'.ran ≡ m.ran ++ q)
    unfolding run_deferred
    run_deferred_lem zero q m h al v = absurd (omega arith)
    run_deferred_lem (suc fuel) [] m h al v = (m, refl, v, sym (append-nil m.ran))
    run_deferred_lem (suc fuel) (t ∷ q) m h al v =
        let tail : (u : ℕ) (s : Manager) → AllAllowed q (run u s) =
          λ u s. AllAllowed-tail t q (run u s) (al u s) in
        let (w, l) = run_task-Inv 0 t q _ (tail t) (popped 0 t q m v) in
        let (m', e, v', log) = run_deferred_lem fuel q _ (omega arith) tail w in
        (
          m',
          rw (lists.pop_front_lem t q) e,
          v',
          log ∙ ap (λ k. k ++ q) l ∙ append_assoc m.ran (t ∷ []) q,
        )

    -- In a well-formed manager, a deferred call of `run`, none of whose tasks dequeues a task that
    -- was waiting when it began, ends with one unit of fuel more than tasks wait. It runs just the
    -- tasks that were waiting, first in first out, and keeps the manager well formed.
    pub run_manager-deferred :
        (fuel : ℕ) (m : Manager)
        → length m.tasks < fuel
        → ((t : ℕ) (s : Manager) → AllAllowed m.tasks (run t s))
        → Inv 0 [] m
        → (m' : Manager) × (run_manager lists run deferred fuel m ≡ some m')
          × Inv 0 [] m'
          × (m'.ran ≡ m.ran ++ m.tasks)
    unfolding run_manager take_tasks
    run_manager-deferred fuel m h al v =
        run_deferred_lem fuel m.tasks (record m { tasks = [] }) h al
          (record { once = λ u. omega (arith, v.once u); counted = omega (arith, v.counted) })

    run_immediate-empty :
        (fuel : ℕ) (m : Manager) → m.tasks ≡ [] → run_immediate lists run (suc fuel) m ≡ some m
    unfolding run_immediate
    run_immediate-empty fuel m e = rw e

    run_immediate-cons :
        (fuel t : ℕ) (q : List ℕ) (m : Manager)
        → m.tasks ≡ t ∷ q
        → run_immediate lists run (suc fuel) m
          ≡ run_immediate lists run fuel
              (run_task lists run t (record m { tasks = q; pending = update m.pending t false }))
    unfolding run_immediate
    run_immediate-cons fuel t q m e = rw (e, lists.pop_front_lem t q)

    popped_immediate :
        (t : ℕ) (q : List ℕ) (m : Manager)
        → m.tasks ≡ t ∷ q
        → Inv 0 [] m
        → Inv 1 [] (record m { tasks = q; pending = update m.pending t false })
    popped_immediate t q m e v = record {
      once = λ u. omega (
        arith,
        v.once u,
        ap (count u) e,
        bit-update-false m.pending t u (
            flag_of_count (m.pending t)
              (omega (arith, v.once t, ap (count t) e, ap bit (==_refl t)))),
      );
      counted = omega (arith, v.counted, ap length e);
    }

    length-run_task :
        (t : ℕ) (m : Manager)
        → ((s : Manager) → OnlyDequeues (run t s))
        → Inv 1 [] m
        → length (run_task lists run t m).tasks ≤ length m.tasks
    unfolding run_task
    length-run_task t m only v =
        let m1 : Manager = record m { ran = m.ran ++ t ∷ [] } in
        length-request_all (run t m1) m1 (only m1) (record { once = v.once; counted = v.counted })

    run_immediate_lem :
        (fuel : ℕ) (q : List ℕ) (m : Manager)
        → m.tasks ≡ q
        → length q < fuel
        → ((t : ℕ) (s : Manager) → OnlyDequeues (run t s))
        → Inv 0 [] m
        → (m' : Manager) × (run_immediate lists run fuel m ≡ some m')
          × Inv 0 [] m'
          × (m'.tasks ≡ [])
    run_immediate_lem zero q m e h only v = absurd (omega arith)
    run_immediate_lem (suc fuel) [] m e h only v = (m, run_immediate-empty fuel m e, v, e)
    run_immediate_lem (suc fuel) (t ∷ q) m e h only v =
        let v1 = popped_immediate t q m e v in
        let (w, _) = run_task-Inv 0 t [] _ (λ s. AllAllowed-nil (run t s)) v1 in
        let (m', r, v', done) =
          run_immediate_lem fuel _ _ refl (omega (arith, length-run_task t _ (only t) v1)) only w in
        (m', run_immediate-cons fuel t q m e ∙ r, v', done)

    -- In a well-formed manager, an immediate call of `run` whose tasks enqueue nothing ends with
    -- one unit of fuel more than tasks wait, whatever the tasks dequeue meanwhile. It leaves no
    -- task waiting, and keeps the manager well formed.
    pub run_manager-immediate :
        (fuel : ℕ) (m : Manager)
        → length m.tasks < fuel
        → ((t : ℕ) (s : Manager) → OnlyDequeues (run t s))
        → Inv 0 [] m
        → (m' : Manager) × (run_manager lists run immediate fuel m ≡ some m')
          × Inv 0 [] m'
          × (m'.tasks ≡ [])
    unfolding run_manager
    run_manager-immediate fuel m h only v = run_immediate_lem fuel m.tasks m refl h only v
