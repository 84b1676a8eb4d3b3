-- ===== src/TaskManager/Invariant.antt =====
-- What holds of the priority task manager between two critical sections, and that
-- `enqueue_task` keeps it.
use cpp_baremetal_senders_an.Base.{
  ℕ, ◌+◌, ◌≤◌, ◌<◌, ◌≡◌, ap, false, inl, inr, List, [], ◌∷◌, ◌++◌, arith, bit, length, count,
  length-append, count-append, sum_below, le-sum_below, sum_below-update, update_other, Bool-cases,
  bit-update-true, ◌∙◌,
}
use cpp_baremetal_senders_an.Intrusive.{IntrusiveList}
use cpp_baremetal_senders_an.TaskManager.{Manager, enqueue_task, enqueue_all}

-- Occurrences of a task in the queues below a number of priorities.
abbrev pub queued : ℕ → Manager → ℕ → ℕ
queued n m t = sum_below n (λ p. count t (m.task_queues p))

abbrev pub total : ℕ → Manager → ℕ
total n m = sum_below n (λ p. length (m.task_queues p))

-- `q` is what a service call owns of a deferred queue, `running` the number of tasks that are
-- popped and whose run is not over.
pub record Inv (n running : ℕ) (q : List ℕ) (m : Manager) : Type 0 where
  pub once : (t : ℕ) → queued n m t + count t q ≡ bit (m.pending t)
  pub counted : m.task_count ≡ total n m + length q + running
  pub in_bounds : (p : ℕ) → n ≤ p → m.task_queues p ≡ []

-- Requests whose priorities are all in range.
abbrev pub InRange : ℕ → List (ℕ × ℕ) → Type 0
InRange n [] = Unit {0}
InRange n ((t, p) ∷ rs) = (p < n) × InRange n rs

module _ (lists : IntrusiveList) (n running : ℕ) (q : List ℕ) where
  pub pushed :
      (t p : ℕ) (m : Manager)
      → p < n
      → m.pending t ≡ false
      → Inv n running q m
      → lists.push_back t (m.task_queues p) ≡ m.task_queues p ++ t ∷ []
  pushed t p m lt new v =
      lists.push_back_lem t (m.task_queues p)
        (omega (arith, v.once t, ap bit new, le-sum_below n (λ p. count t (m.task_queues p)) p lt))

  added :
      (t p : ℕ) (m : Manager)
      → p < n
      → m.pending t ≡ false
      → Inv n running q m
      → Inv n running q (enqueue_task lists t p m).0
  unfolding enqueue_task
  added t p m lt new v =
      rw (new, enqueue_task, pushed t p m lt new v)
        (record {
          once = λ u. omega (
            arith,
            v.once u,
            sum_below-update (count u) n m.task_queues p (m.task_queues p ++ t ∷ []) lt,
            count-append u (m.task_queues p) (t ∷ []),
            bit-update-true m.pending t u new,
          );
          counted = omega (
            arith,
            v.counted,
            sum_below-update length n m.task_queues p (m.task_queues p ++ t ∷ []) lt,
            length-append (m.task_queues p) (t ∷ []),
          );
          in_bounds = λ k le.
              update_other m.task_queues p k (m.task_queues p ++ t ∷ [])
                (λ e. absurd (omega (arith, e)))
              ∙ v.in_bounds k le;
        })

  -- `enqueue_task` at a priority in range keeps the manager well formed, whether or not the task
  -- was pending.
  pub enqueue_task-Inv :
      (t p : ℕ) (m : Manager)
      → p < n
      → Inv n running q m
      → Inv n running q (enqueue_task lists t p m).0
  unfolding enqueue_task
  enqueue_task-Inv t p m lt v = elim (Bool-cases (m.pending t)) [
    | inl old ↦ rw (old, enqueue_task) v
    | inr new ↦ added t p m lt new v
  ]

  pub enqueue_all-Inv :
      (rs : List (ℕ × ℕ)) (m : Manager)
      → InRange n rs
      → Inv n running q m
      → Inv n running q (enqueue_all lists rs m)
  unfolding enqueue_all
  enqueue_all-Inv [] m h v = v
  enqueue_all-Inv ((t, p) ∷ rs) m h v =
      enqueue_all-Inv rs (enqueue_task lists t p m).0 h.1 (enqueue_task-Inv t p m h.0 v)
