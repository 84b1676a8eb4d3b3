-- ===== src/TimerManager/Injected.antt =====
-- The timer manager as the manager that the time scheduler is injected with.
use cpp_baremetal_senders_an.Base.{
  ℕ, zero, suc, ◌≡◌, refl, sym, ap, ◌∙◌, subst, Bool, true, false, Option, none, some, [], arith,
  update, inl, inr, List-cases, Bool-cases, is_empty, ◌-◌,
}
use mathlib.Core.Option.{some-injective}
use cpp_baremetal_senders_an.Intrusive.{IntrusiveList}
use cpp_baremetal_senders_an.Pool.{Pool, Cancellable}
use cpp_baremetal_senders_an.TimerManager.{
  Manager, Reading, run_after, run_at, cancel, take_front, compute_next_event, request, after, at,
  cancels,
}
use cpp_baremetal_senders_an.TimerManager.Invariant.{Inv, placed}
use cpp_baremetal_senders_an.TimerManager.Scheduling.{run_at-Schedules, run_after-Schedules}
use cpp_baremetal_senders_an.TimerManager.Service.{take_front_lem, timer_request-Inv}

-- A manager that is well formed, `running` of whose tasks are taken off and not over.
pub record Serving : Type 0 where
  pub running : ℕ
  pub manager : Manager
  pub valid : Inv running manager

-- The expiration policies of the scheduler.
pub data Schedule : Type 0 where
  after_duration : ℕ → Reading → Schedule
  at_time : ℕ → Schedule

-- The two critical sections of a service call.
pub data Turn : Type 0 where
  take_first run_over : Turn

module _ (lists : IntrusiveList) (fused : Bool) where
  nothing : (m : Manager) → m.task_queue ≡ [] → take_front lists m ≡ none
  unfolding take_front
  nothing m n = simp (take_front, n)

  taken :
      (r t : ℕ) (m m' : Manager)
      → take_front lists m ≡ some (t, m')
      → Inv r m
      → (m.pending t ≡ true) × (m'.pending ≡ update m.pending t false) × Inv (suc r) m'
  taken r t m m' e v = elim (List-cases m.task_queue) [
    | inl n ↦ absurd (cc (sym (nothing m n) ∙ e))
    | inr (x, q, c) ↦
        let (h, ok, front, w) = take_front_lem lists r x q m c v in
        subst
          (λ (p : ℕ × Manager).
            (m.pending p.0 ≡ true) × (p.1.pending ≡ update m.pending p.0 false) × Inv (suc r) p.1)
          (some-injective _ _ (sym ok ∙ e)) (front, refl, w)
  ]

  pub schedule : Schedule → ℕ → Manager → Manager × Bool
  schedule (after_duration d c) t m = run_after lists fused t d c m
  schedule (at_time tp) t m = run_at lists t tp m

  pub schedule-Inv : (c : Schedule) (t r : ℕ) (m : Manager) → Inv r m → Inv r (schedule c t m).0
  unfolding schedule request
  schedule-Inv (after_duration d c) t r m v = timer_request-Inv lists fused r (after t d c) m v
  schedule-Inv (at_time tp) t r m v = timer_request-Inv lists fused r (at t tp) m v

  pub schedule-pending :
      (c : Schedule) (t r : ℕ) (m : Manager)
      → Inv r m
      → m.pending t ≡ false
      → ((schedule c t m).1 ≡ true)
        × ((u : ℕ) → (schedule c t m).0.pending u ≡ update m.pending t true u)
  unfolding schedule placed
  schedule-pending (after_duration d c) t r m v idle =
      let (m', e, (h, p, _), w) = run_after-Schedules lists fused r t d c m idle v in
      (ap (λ x. x.1) e, λ u. ap (λ x. x.0.pending u) e ∙ ap (λ x. x.pending u) p)
  schedule-pending (at_time tp) t r m v idle =
      let (m', e, (h, p, _), w) = run_at-Schedules lists r t tp m idle v in
      (ap (λ x. x.1) e, λ u. ap (λ x. x.0.pending u) e ∙ ap (λ x. x.pending u) p)

  pub cancel-Inv : (t r : ℕ) (m : Manager) → Inv r m → Inv r (cancel lists t m).0
  unfolding request
  cancel-Inv t r m v = timer_request-Inv lists fused r (cancels t) m v

  pending-compute_next_event : (m : Manager) → (compute_next_event m).pending ≡ m.pending
  unfolding compute_next_event
  pending-compute_next_event m = elim (Bool-cases (is_empty m.task_queue)) [
    | inl e ↦ simp (compute_next_event, e)
    | inr e ↦ simp (compute_next_event, e)
  ]

  pub pending-cancel :
      (t : ℕ) (m : Manager)
      → m.pending t ≡ true
      → (cancel lists t m).0.pending ≡ update m.pending t false
  unfolding cancel
  pending-cancel t m p = rw (cancel, p) (pending-compute_next_event _)

  pub cancelled : (t : ℕ) (m : Manager) → m.pending t ≡ true → (cancel lists t m).1 ≡ true
  unfolding cancel
  cancelled t m p = rw (cancel, p) refl

  pub cancel-idle : (t : ℕ) (m : Manager) → m.pending t ≡ false → cancel lists t m ≡ (m, false)
  unfolding cancel
  cancel-idle t m p = simp (cancel, p)

  take_of :
      (r : ℕ) (m : Manager) (o : Option (ℕ × Manager))
      → take_front lists m ≡ o
      → Inv r m
      → Option (ℕ × Serving)
  take_of r m none e v = none
  take_of r m (some (t, m')) e v =
      some (t, record { running = suc r; manager = m'; valid = (taken r t m m' e v).2 })

  pub take : Turn → Serving → Option (ℕ × Serving)
  take take_first s = take_of s.running s.manager (take_front lists s.manager) refl s.valid
  take run_over s = none

  take_of-pending :
      (r t : ℕ) (m : Manager) (s' : Serving) (o : Option (ℕ × Manager)) (e : take_front lists m ≡ o)
      (v : Inv r m)
      → take_of r m o e v ≡ some (t, s')
      → (m.pending t ≡ true) × (s'.manager.pending ≡ update m.pending t false)
  unfolding take_of
  take_of-pending r t m s' none e v h = absurd (cc h)
  take_of-pending r t m s' (some (x, m')) e v h =
      let (p, q, w) = taken r x m m' e v in
      subst
        (λ (y : ℕ × Serving).
          (m.pending y.0 ≡ true) × (y.1.manager.pending ≡ update m.pending y.0 false))
        (some-injective _ _ h) (p, q)

  -- The end of a run: `--task_count`.
  end_run : (r : ℕ) (m : Manager) → Inv r m → Option Serving
  end_run zero m v = none
  end_run (suc r) m v = some (record {
    running = r;
    manager = record m { task_count = m.task_count - 1 };
    valid = record {
      once = v.once;
      sorted = v.sorted;
      counted = omega (arith, v.counted);
      armed = v.armed;
    };
  })

  pending-end_run :
      (r : ℕ) (m : Manager) (v : Inv r m) (s' : Serving)
      → end_run r m v ≡ some s'
      → (u : ℕ) → s'.manager.pending u ≡ m.pending u
  unfolding end_run
  pending-end_run zero m v s' e u = absurd (cc e)
  pending-end_run (suc r) m v s' e u = ap (λ x. x.manager.pending u) (sym (some-injective _ _ e))

  pub proceed : Turn → Serving → Option Serving
  proceed take_first s = none
  proceed run_over s = end_run s.running s.manager s.valid

  pub take_lem :
      (c : Turn) (t : ℕ) (s s' : Serving)
      → take c s ≡ some (t, s')
      → (s.manager.pending t ≡ true)
        × ((u : ℕ) → s'.manager.pending u ≡ update s.manager.pending t false u)
  unfolding take
  take_lem run_over t s s' e = absurd (cc e)
  take_lem take_first t s s' e =
      let (p, q) =
        take_of-pending s.running t s.manager s' (take_front lists s.manager) refl s.valid e in
      (p, λ u. ap (λ f. f u) q)

  pub proceed_lem :
      (c : Turn) (s s' : Serving)
      → proceed c s ≡ some s'
      → (u : ℕ) → s'.manager.pending u ≡ s.manager.pending u
  unfolding proceed
  proceed_lem take_first s s' e u = absurd (cc e)
  proceed_lem run_over s s' e u = pending-end_run s.running s.manager s.valid s' e u

  -- The manager, its laws those of its operations.
  abbrev pub timer_pool : Pool
  timer_pool = record {
    State = Serving;
    Request = Schedule;
    Choice = Turn;
    pending = λ s. s.manager.pending;
    admit = λ c t s. (
      record {
        running = s.running;
        manager = (schedule c t s.manager).0;
        valid = schedule-Inv c t s.running s.manager s.valid;
      },
      (schedule c t s.manager).1,
    );
    take = take;
    proceed = proceed;
    admit_lem = λ c t s idle. schedule-pending c t s.running s.manager s.valid idle;
    take_lem = take_lem;
    proceed_lem = proceed_lem;
  }

  -- `cancel`.
  abbrev pub timer_tasks : Cancellable
  timer_tasks = record {
    pool = timer_pool;
    cancel = λ t s. (
      record {
        running = s.running;
        manager = (cancel lists t s.manager).0;
        valid = cancel-Inv t s.running s.manager s.valid;
      },
      (cancel lists t s.manager).1,
    );
    cancel_pending =
        λ t s p. (cancelled t s.manager p, λ u. ap (λ f. f u) (pending-cancel t s.manager p));
    cancel_idle = λ t s p. (
      ap (λ x. x.1) (cancel-idle t s.manager p),
      λ u. ap (λ x. x.0.pending u) (cancel-idle t s.manager p),
    );
  }
