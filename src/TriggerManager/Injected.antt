-- ===== src/TriggerManager/Injected.antt =====
-- The trigger manager, under the immediate policy, as the manager that the trigger scheduler hands
-- its tasks to. Under the deferred policy it is none: a task that a run has taken is not in the list
-- that `dequeue` removes it from.
use cpp_baremetal_senders_an.Base.{
  ℕ, zero, suc, ◌-◌, ◌≡◌, refl, sym, ap, subst, Bool, true, false, Option, none, some, List, [],
  ◌∷◌, arith, update, length, count, bit, flag_of_count, ==_refl, bit-update-false,
}
use mathlib.Core.Option.{some-injective}
use cpp_baremetal_senders_an.Intrusive.{IntrusiveList}
use cpp_baremetal_senders_an.Pool.{Cancellable}
use cpp_baremetal_senders_an.TriggerManager.{
  Manager, Request, enqueue, dequeue, request, enqueues, dequeues,
}
use cpp_baremetal_senders_an.TriggerManager.Invariant.{Inv, Allowed, request-Inv}

-- A manager that is well formed, `running` of whose tasks are popped and not over.
pub record Serving : Type 0 where
  pub running : ℕ
  pub manager : Manager
  pub valid : Inv running [] manager

pub data Turn : Type 0 where
  pop_first run_over : Turn

module _ (lists : IntrusiveList) where
  popped :
      (r t : ℕ) (q : List ℕ) (m : Manager)
      → m.tasks ≡ t ∷ q
      → Inv r [] m
      → (m.pending t ≡ true)
        × Inv (suc r) [] (record m { tasks = q; pending = update m.pending t false })
  popped r t q m e v =
      let on : m.pending t ≡ true =
        flag_of_count (m.pending t) (omega (arith, v.once t, ap (count t) e, ap bit (==_refl t))) in
      (
        on,
        record {
          once = λ u. omega (arith, v.once u, ap (count u) e, bit-update-false m.pending t u on);
          counted = omega (arith, v.counted, ap length e);
        },
      )

  abbrev Frees : Manager → ℕ × Serving → Type 0
  Frees m x =
      (m.pending x.0 ≡ true) × ((u : ℕ) → x.1.manager.pending u ≡ update m.pending x.0 false u)

  take_of : (r : ℕ) (q : List ℕ) (m : Manager) → m.tasks ≡ q → Inv r [] m → Option (ℕ × Serving)
  take_of r [] m e v = none
  take_of r (t ∷ q) m e v = some (
    t,
    record {
      running = suc r;
      manager = record m { tasks = q; pending = update m.pending t false };
      valid = (popped r t q m e v).1;
    },
  )

  take_of-Frees :
      (r : ℕ) (q : List ℕ) (m : Manager) (e : m.tasks ≡ q) (v : Inv r [] m) (x : ℕ × Serving)
      → take_of r q m e v ≡ some x
      → Frees m x
  unfolding take_of
  take_of-Frees r [] m e v x h = absurd (cc h)
  take_of-Frees r (t ∷ q) m e v x h =
      subst (Frees m) (some-injective _ _ h) ((popped r t q m e v).0, λ u. refl)

  -- The iteration of `run` pops the first task.
  pub take : Turn → Serving → Option (ℕ × Serving)
  take pop_first s = take_of s.running s.manager.tasks s.manager refl s.valid
  take run_over s = none

  pub take-Frees :
      (c : Turn) (t : ℕ) (s s' : Serving) → take c s ≡ some (t, s') → Frees s.manager (t, s')
  unfolding take
  take-Frees pop_first t s s' h =
      take_of-Frees s.running s.manager.tasks s.manager refl s.valid (t, s') h
  take-Frees run_over t s s' h = absurd (cc h)

  end_run : (r : ℕ) (m : Manager) → Inv r [] m → Option Serving
  end_run zero m v = none
  end_run (suc r) m v = some (record {
    running = r;
    manager = record m { task_count = m.task_count - 1 };
    valid = record { once = v.once; counted = omega (arith, v.counted) };
  })

  end_run-pending :
      (r : ℕ) (m : Manager) (v : Inv r [] m) (s' : Serving)
      → end_run r m v ≡ some s'
      → (u : ℕ) → s'.manager.pending u ≡ m.pending u
  unfolding end_run
  end_run-pending zero m v s' h u = absurd (cc h)
  end_run-pending (suc r) m v s' h u = ap (λ x. x.manager.pending u) (sym (some-injective _ _ h))

  -- The end of an iteration: `--task_count`.
  pub proceed : Turn → Serving → Option Serving
  proceed pop_first s = none
  proceed run_over s = end_run s.running s.manager s.valid

  pub proceed-pending :
      (c : Turn) (s s' : Serving)
      → proceed c s ≡ some s'
      → (u : ℕ) → s'.manager.pending u ≡ s.manager.pending u
  unfolding proceed
  proceed-pending pop_first s s' h u = absurd (cc h)
  proceed-pending run_over s s' h u = end_run-pending s.running s.manager s.valid s' h u

  request-valid :
      (c : Request) (r : ℕ) (m : Manager) → Allowed [] c → Inv r [] m → Inv r [] (request lists c m)
  request-valid c r m al v = (request-Inv lists r [] c m al v).0

  pub admit : Unit {0} → ℕ → Serving → Serving × Bool
  unfolding request
  admit _ t s = (
    record {
      running = s.running;
      manager = (enqueue lists t s.manager).0;
      valid = request-valid (enqueues t) s.running s.manager tt s.valid;
    },
    (enqueue lists t s.manager).1,
  )

  pub admit-pending :
      (c : Unit {0}) (t : ℕ) (s : Serving)
      → s.manager.pending t ≡ false
      → ((admit c t s).1 ≡ true)
        × ((u : ℕ) → (admit c t s).0.manager.pending u ≡ update s.manager.pending t true u)
  unfolding admit enqueue
  admit-pending c t s idle = (rw (enqueue, idle) refl, λ u. rw (enqueue, idle) refl)

  pub cancel : ℕ → Serving → Serving × Bool
  unfolding request
  cancel t s = (
    record {
      running = s.running;
      manager = (dequeue lists t s.manager).0;
      valid = request-valid (dequeues t) s.running s.manager refl s.valid;
    },
    (dequeue lists t s.manager).1,
  )

  pub cancel-pending :
      (t : ℕ) (s : Serving)
      → s.manager.pending t ≡ true
      → ((cancel t s).1 ≡ true)
        × ((u : ℕ) → (cancel t s).0.manager.pending u ≡ update s.manager.pending t false u)
  unfolding cancel dequeue
  cancel-pending t s on = (rw (dequeue, on) refl, λ u. rw (dequeue, on) refl)

  pub cancel-idle :
      (t : ℕ) (s : Serving)
      → s.manager.pending t ≡ false
      → ((cancel t s).1 ≡ false)
        × ((u : ℕ) → (cancel t s).0.manager.pending u ≡ s.manager.pending u)
  unfolding cancel dequeue
  cancel-idle t s idle = (rw (dequeue, idle) refl, λ u. rw (dequeue, idle) refl)

  -- The manager, its laws those of its operations.
  abbrev pub trigger_tasks : Cancellable
  trigger_tasks = record {
    pool = record {
      State = Serving;
      Request = Unit {0};
      Choice = Turn;
      pending = λ s. s.manager.pending;
      admit = admit;
      take = take;
      proceed = proceed;
      admit_lem = admit-pending;
      take_lem = take-Frees;
      proceed_lem = proceed-pending;
    };
    cancel = cancel;
    cancel_pending = cancel-pending;
    cancel_idle = cancel-idle;
  }
