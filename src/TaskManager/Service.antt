-- ===== src/TaskManager/Service.antt =====
-- The service loop of the priority task manager, under both requeue policies.
use cpp_baremetal_senders_an.Base.{
  flag_of_count, none, le-sum_below, update_same, ℕ, zero, suc, ◌<◌, ◌≡◌, ◌≢◌, refl, ap, sym, false,
  some, List, [], ◌∷◌, ◌++◌, arith, length, count, update, sum_below-update, update_other, ◌∙◌,
  bit-update-false, append_assoc, append-nil,
}
use cpp_baremetal_senders_an.Intrusive.{IntrusiveList}
use cpp_baremetal_senders_an.TaskManager.{
  service_immediate, pop_immediate, immediate, Manager, enqueue_task, enqueue_all, run_task,
  pop_deferred, take_queue, service_deferred, service_tasks, deferred,
}
use cpp_baremetal_senders_an.TaskManager.Invariant.{Inv, InRange, enqueue_all-Inv}

-- No request made while a task runs is for priority `p`.
abbrev pub Avoids : ℕ → List (ℕ × ℕ) → Type 0
Avoids p [] = Unit {0}
Avoids p ((t, k) ∷ rs) = (k ≢ p) × Avoids p rs

module _ (lists : IntrusiveList) where
  ran-enqueue_all : (rs : List (ℕ × ℕ)) (m : Manager) → (enqueue_all lists rs m).ran ≡ m.ran
  unfolding enqueue_all enqueue_task
  ran-enqueue_all [] m = refl
  ran-enqueue_all ((t, p) ∷ rs) m = ran-enqueue_all rs (enqueue_task lists t p m).0 ∙ ground arith

  module _ (n : ℕ) (run : ℕ → Manager → List (ℕ × ℕ))
      (in_range : (t : ℕ) (m : Manager) → InRange n (run t m)) where
    pub run_task-Inv :
        (r : ℕ) (q : List ℕ) (t : ℕ) (m : Manager)
        → Inv n (suc r) q m
        → Inv n r q (run_task lists run t m)
    unfolding run_task
    run_task-Inv r q t m v =
        let m' : Manager = record m { ran = m.ran ++ t ∷ [] } in
        let w : Inv n (suc r) q (enqueue_all lists (run t m') m') =
          enqueue_all-Inv lists n (suc r) q (run t m') m' (in_range t m')
            (record { once = v.once; counted = v.counted; in_bounds = v.in_bounds }) in
        record { once = w.once; counted = omega (arith, w.counted); in_bounds = w.in_bounds }

    ran-run_task : (t : ℕ) (m : Manager) → (run_task lists run t m).ran ≡ m.ran ++ t ∷ []
    unfolding run_task
    ran-run_task t m = ran-enqueue_all (run t (record m { ran = m.ran ++ t ∷ [] })) _

    -- The task that is popped was pending, and is so no more.
    pub popped :
        (r : ℕ) (t : ℕ) (q : List ℕ) (m : Manager)
        → Inv n r (t ∷ q) m
        → Inv n (suc r) q (record m { pending = update m.pending t false })
    popped r t q m v = record {
      once = λ u. omega (
        arith,
        v.once u,
        bit-update-false m.pending t u (flag_of_count (m.pending t) (ground (arith, v.once t))),
      );
      counted = omega (arith, v.counted);
      in_bounds = v.in_bounds;
    }

    -- The deferred loop ends, and runs just what it was given, in order.
    service_deferred_lem :
        (fuel r : ℕ) (q : List ℕ) (m : Manager)
        → length q < fuel
        → Inv n r q m
        → (m' : Manager) × (service_deferred lists run fuel q m ≡ some m')
          × Inv n r [] m'
          × (m'.ran ≡ m.ran ++ q)
    unfolding service_deferred pop_deferred
    service_deferred_lem zero r q m h v = absurd (omega arith)
    service_deferred_lem (suc fuel) r [] m h v = (m, refl, v, sym (append-nil m.ran))
    service_deferred_lem (suc fuel) r (t ∷ q) m h v =
        let m1 : Manager = record m { pending = update m.pending t false } in
        let (m', e, v', log) =
          service_deferred_lem fuel r q (run_task lists run t m1) (omega arith)
            (run_task-Inv r q t m1 (popped r t q m v)) in
        (
          m',
          rw (lists.pop_front_lem t q) e,
          v',
          log ∙ ap (λ l. l ++ q) (ran-run_task t m1) ∙ append_assoc m.ran (t ∷ []) q,
        )

    pub taken :
        (r p : ℕ) (m : Manager)
        → p < n
        → Inv n r [] m
        → Inv n r (m.task_queues p) (take_queue p m).1
    unfolding take_queue
    taken r p m lt v = record {
      once = λ u. omega (arith, v.once u, sum_below-update (count u) n m.task_queues p [] lt);
      counted = omega (arith, v.counted, sum_below-update length n m.task_queues p [] lt);
      in_bounds = λ k le.
          update_other m.task_queues p k [] (λ e. absurd (omega (arith, e))) ∙ v.in_bounds k le;
    }

    -- In a well-formed manager, a deferred service of a priority in range, whose tasks make only
    -- requests in range, ends with one unit of fuel more than tasks are queued there. It runs the
    -- tasks that were queued when it began, each once, first in first out, and no other, and keeps
    -- the manager well formed.
    pub service_tasks-deferred :
        (fuel p : ℕ) (m : Manager)
        → p < n
        → length (m.task_queues p) < fuel
        → Inv n 0 [] m
        → (m' : Manager) × (service_tasks lists run deferred fuel p m ≡ some m')
          × Inv n 0 [] m'
          × (m'.ran ≡ m.ran ++ m.task_queues p)
    unfolding service_tasks
    service_tasks-deferred fuel p m lt h v =
        service_deferred_lem fuel 0 (m.task_queues p) (take_queue p m).1 h (taken 0 p m lt v)

    pub popped_immediate :
        (r p t : ℕ) (rest : List ℕ) (m : Manager)
        → p < n
        → m.task_queues p ≡ t ∷ rest
        → Inv n r [] m
        → Inv n (suc r) [] (record m {
          task_queues = update m.task_queues p rest;
          pending = update m.pending t false;
        })
    popped_immediate r p t rest m lt e v = record {
      once = λ u. omega (
        arith,
        v.once u,
        ap (count u) e,
        sum_below-update (count u) n m.task_queues p rest lt,
        bit-update-false m.pending t u (
            flag_of_count (m.pending t) (
              ground (
                arith,
                v.once t,
                ap (count t) e,
                le-sum_below n (λ k. count t (m.task_queues k)) p lt,
              ))),
      );
      counted =
          omega (arith, v.counted, ap length e, sum_below-update length n m.task_queues p rest lt);
      in_bounds = λ k le.
          update_other m.task_queues p k rest (λ e. absurd (omega (arith, e))) ∙ v.in_bounds k le;
    }

    queue-enqueue_all :
        (p : ℕ) (rs : List (ℕ × ℕ)) (m : Manager)
        → Avoids p rs
        → (enqueue_all lists rs m).task_queues p ≡ m.task_queues p
    unfolding enqueue_all enqueue_task
    queue-enqueue_all p [] m h = refl
    queue-enqueue_all p ((t, k) ∷ rs) m h =
        queue-enqueue_all p rs (enqueue_task lists t k m).0 h.1 ∙ ground (arith, h.0)

    pop_immediate-empty :
        (p : ℕ) (m : Manager) → m.task_queues p ≡ [] → pop_immediate lists p m ≡ none
    unfolding pop_immediate
    pop_immediate-empty p m e = rw e

    pub pop_immediate-cons :
        (p t : ℕ) (q : List ℕ) (m : Manager)
        → m.task_queues p ≡ t ∷ q
        → pop_immediate lists p m
          ≡ some (
            t,
            record m { task_queues = update m.task_queues p q; pending = update m.pending t false },
          )
    unfolding pop_immediate
    pop_immediate-cons p t q m e = rw (e, lists.pop_front_lem t q)

    -- In a well-formed manager, an immediate service of a priority in range, whose tasks make only
    -- requests in range and none at that priority, ends with one unit of fuel more than tasks are
    -- queued there. It runs those tasks, first in first out, leaves their queue empty, and keeps
    -- the manager well formed.
    pub service_tasks-immediate :
        (fuel p : ℕ) (q : List ℕ) (m : Manager)
        → ((t : ℕ) (s : Manager) → Avoids p (run t s))
        → p < n
        → m.task_queues p ≡ q
        → length q < fuel
        → Inv n 0 [] m
        → (m' : Manager) × (service_tasks lists run immediate fuel p m ≡ some m')
          × Inv n 0 [] m'
          × (m'.ran ≡ m.ran ++ q)
          × (m'.task_queues p ≡ [])
    unfolding service_tasks service_immediate run_task
    service_tasks-immediate zero p q m av lt e h v = absurd (omega arith)
    service_tasks-immediate (suc fuel) p [] m av lt e h v = (
      m,
      rw (service_tasks, service_immediate, pop_immediate-empty p m e) refl,
      v,
      sym (append-nil m.ran),
      e,
    )
    service_tasks-immediate (suc fuel) p (t ∷ q) m av lt e h v =
        let m1 : Manager = record m {
          task_queues = update m.task_queues p q;
          pending = update m.pending t false;
        } in
        let (m', ok, v', log, done) =
          service_tasks-immediate fuel p q (run_task lists run t m1) av lt
            (queue-enqueue_all p (run t (record m1 { ran = m1.ran ++ t ∷ [] })) _ (av t _)
              ∙ update_same m.task_queues p q)
            (omega arith) (run_task-Inv 0 [] t m1 (popped_immediate 0 p t q m lt e v)) in
        (
          m',
          rw (service_tasks, service_immediate, pop_immediate-cons p t q m e) ok,
          v',
          log ∙ ap (λ l. l ++ q) (ran-run_task t m1) ∙ append_assoc m.ran (t ∷ []) q,
          done,
        )
