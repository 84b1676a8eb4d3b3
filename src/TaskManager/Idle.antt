-- ===== src/TaskManager/Idle.antt =====
-- `is_idle`, repeated requests, and tasks that request themselves.
use cpp_baremetal_senders_an.Base.{
  ℕ, ◌≡◌, ◌↔◌, refl, ap, true, false, inl, inr, List, [], ◌∷◌, arith, bit, length, count,
  sum_below-ext, sum_below-zero, le-sum_below, Bool-cases, ==→≡, ==_refl,
}
use cpp_baremetal_senders_an.Intrusive.{IntrusiveList}
use cpp_baremetal_senders_an.TaskManager.{Manager, enqueue_task, is_idle}
use cpp_baremetal_senders_an.TaskManager.Invariant.{Inv}

length-zero : (q : List ℕ) → ((t : ℕ) → count t q ≡ 0) → length q ≡ 0
length-zero [] h = refl
length-zero (x ∷ q) h = absurd (ground (arith, h x, ==_refl x))

count-zero : (t : ℕ) (q : List ℕ) → length q ≡ 0 → count t q ≡ 0
count-zero t [] h = refl
count-zero t (x ∷ q) h = absurd (omega arith)

module _ (n : ℕ) (m : Manager) (v : Inv n 0 [] m) where
  idle_of_quiet : ((t : ℕ) → m.pending t ≡ false) → m.task_count ≡ 0
  idle_of_quiet h = omega (
    arith,
    v.counted,
    sum_below-zero n,
    sum_below-ext n (λ p. length (m.task_queues p)) (λ _. 0)
        (λ p lt. length-zero (m.task_queues p) (λ t.
          omega
            (arith, v.once t, ap bit (h t), le-sum_below n (λ k. count t (m.task_queues k)) p lt))),
  )

  quiet_of_idle : m.task_count ≡ 0 → (t : ℕ) → m.pending t ≡ false
  quiet_of_idle h t = elim (Bool-cases (m.pending t)) [
    | inr e ↦ e
    | inl e ↦ absurd (
        omega (
          arith,
          v.once t,
          ap bit e,
          v.counted,
          sum_below-zero n,
          sum_below-ext n (λ p. count t (m.task_queues p)) (λ _. 0)
              (λ p lt.
                count-zero t (m.task_queues p)
                  (omega (arith, v.counted, le-sum_below n (λ k. length (m.task_queues k)) p lt))),
        ))
  ]

  -- In a well-formed manager, while no task runs, `is_idle` is true exactly when no task is
  -- pending.
  pub is_idle_iff_quiet : (is_idle m ≡ true) ↔ ((t : ℕ) → m.pending t ≡ false)
  unfolding is_idle
  is_idle_iff_quiet = (λ e. quiet_of_idle (==→≡ m.task_count 0 e), λ h. rw (idle_of_quiet h))

module _ (lists : IntrusiveList) where
  -- A task that is requested again before it runs, at any priority, is refused: the second
  -- request returns false and changes nothing.
  pub enqueue_task_twice :
      (t p k : ℕ) (m : Manager)
      → enqueue_task lists t k (enqueue_task lists t p m).0 ≡ ((enqueue_task lists t p m).0, false)
  unfolding enqueue_task
  enqueue_task_twice t p k m = ground arith
