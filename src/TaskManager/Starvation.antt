-- ===== src/TaskManager/Starvation.antt =====
-- Tasks that keep requesting themselves under the immediate policy.
use cpp_baremetal_senders_an.Base.{
  none, length-append, update_same, ℕ, zero, suc, ◌≤◌, ◌<◌, ◌≡◌, refl, ap, false, List, [], ◌∷◌,
  ◌++◌, arith, length, update, ◌∙◌,
}
use cpp_baremetal_senders_an.Intrusive.{IntrusiveList}
use cpp_baremetal_senders_an.TaskManager.{
  service_immediate, immediate, Manager, enqueue_task, enqueue_all, run_task, service_tasks,
}
use cpp_baremetal_senders_an.TaskManager.Invariant.{Inv, InRange, pushed}
use cpp_baremetal_senders_an.TaskManager.Service.{
  run_task-Inv, popped_immediate, pop_immediate-cons,
}

module _ (lists : IntrusiveList) (n : ℕ) (run : ℕ → Manager → List (ℕ × ℕ))
    (in_range : (t : ℕ) (m : Manager) → InRange n (run t m)) where
  -- A requeue while the popped task runs puts it back at the end of the queue.
  requeued :
      (p t : ℕ) (q : List ℕ) (m : Manager)
      → ((u : ℕ) (s : Manager) → run u s ≡ (u, p) ∷ [])
      → p < n
      → m.task_queues p ≡ q
      → m.pending t ≡ false
      → Inv n 1 [] m
      → (run_task lists run t m).task_queues p ≡ q ++ t ∷ []
  unfolding run_task enqueue_all enqueue_task
  requeued p t q m self lt e idle v =
      let m' : Manager = record m { ran = m.ran ++ t ∷ [] } in
      rw (self t m', idle, enqueue_task, enqueue_all)
        (update_same m.task_queues p (lists.push_back t (m.task_queues p))
          ∙ pushed lists n 1 [] t p m lt idle v
          ∙ ap (λ l. l ++ t ∷ []) e)

  -- Under the immediate policy, where each task requests itself at the priority that is being
  -- serviced, and a task is queued there in a well-formed manager, no fuel is enough: the service
  -- call does not return.
  pub service_tasks-starves :
      (fuel p : ℕ) (q : List ℕ) (m : Manager)
      → ((u : ℕ) (s : Manager) → run u s ≡ (u, p) ∷ [])
      → p < n
      → m.task_queues p ≡ q
      → 1 ≤ length q
      → Inv n 0 [] m
      → service_tasks lists run immediate fuel p m ≡ none
  unfolding service_tasks service_immediate
  service_tasks-starves zero p q m self lt e h v = refl
  service_tasks-starves (suc fuel) p [] m self lt e h v = absurd (omega arith)
  service_tasks-starves (suc fuel) p (t ∷ q) m self lt e h v =
      let m1 : Manager = record m {
        task_queues = update m.task_queues p q;
        pending = update m.pending t false;
      } in
      let v1 : Inv n 1 [] m1 = popped_immediate lists n run in_range 0 p t q m lt e v in
      rw (service_tasks, service_immediate, pop_immediate-cons lists n run in_range p t q m e)
        (service_tasks-starves fuel p (q ++ t ∷ []) (run_task lists run t m1) self lt
          (requeued p t q m1 self lt (update_same m.task_queues p q) (update_same m.pending t false)
            v1)
          (omega (arith, length-append q (t ∷ [])))
          (run_task-Inv lists n run in_range 0 [] t m1 v1))
