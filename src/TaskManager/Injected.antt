-- ===== src/TaskManager/Injected.antt =====
-- The priority task manager as the manager that the priority scheduler is injected with.
use cpp_baremetal_senders_an.Base.{
  ℕ, zero, suc, ◌+◌, ◌-◌, ◌≤◌, ◌<◌, ◌≡◌, refl, sym, ap, ◌∙◌, subst, Bool, true, false, Option, none,
  some, List, [], ◌∷◌, arith, update, inl, inr, List-cases, count, bit, le-sum_below, flag_of_count,
  ==_refl,
}
use mathlib.Core.Option.{some-injective}
use cpp_baremetal_senders_an.Intrusive.{IntrusiveList}
use cpp_baremetal_senders_an.Pool.{Pool}
use cpp_baremetal_senders_an.TaskManager.{Manager, enqueue_task, pop_immediate, take_queue}
use cpp_baremetal_senders_an.TaskManager.Invariant.{Inv, enqueue_task-Inv}
use cpp_baremetal_senders_an.TaskManager.Service.{
  popped, popped_immediate, pop_immediate-cons, taken,
}

module _ (lists : IntrusiveList) (n : ℕ) where
  -- A manager that is well formed: `running` tasks are popped and not over, and a deferred service
  -- call owns the queue `owned`.
  pub record Serving : Type 0 where
    pub running : ℕ
    pub owned : List ℕ
    pub manager : Manager
    pub valid : Inv n running owned manager

  -- The steps of a service call: under the immediate policy a task is popped from the manager's own
  -- queue; under the deferred one the queue is taken first and popped from then.
  pub data Turn : Type 0 where
    pop_from : (p : ℕ) → p < n → Turn
    own_queue : (p : ℕ) → p < n → Turn
    pop_owned run_over : Turn

  pub data Priority : Type 0 where
    priority : (p : ℕ) → p < n → Priority

  -- A task that is queued is pending.
  queued-pending :
      (r p t : ℕ) (q : List ℕ) (m : Manager)
      → p < n
      → 1 ≤ count t (m.task_queues p) + count t q
      → Inv n r q m
      → m.pending t ≡ true
  queued-pending r p t q m lt h v =
      flag_of_count (m.pending t)
        (omega (arith, v.once t, h, le-sum_below n (λ k. count t (m.task_queues k)) p lt))

  nothing : (p : ℕ) (m : Manager) → m.task_queues p ≡ [] → pop_immediate lists p m ≡ none
  unfolding pop_immediate
  nothing p m e = simp (pop_immediate, e)

  -- No requests are made while these steps are taken.
  abbrev no_requests : ℕ → Manager → List (ℕ × ℕ)
  no_requests t m = []

  popped_from :
      (r p t : ℕ) (m m' : Manager)
      → p < n
      → pop_immediate lists p m ≡ some (t, m')
      → Inv n r [] m
      → (m.pending t ≡ true) × (m'.pending ≡ update m.pending t false) × Inv n (suc r) [] m'
  popped_from r p t m m' lt e v = elim (List-cases (m.task_queues p)) [
    | inl k ↦ absurd (cc (sym (nothing p m k) ∙ e))
    | inr (x, q, k) ↦
        let ok = pop_immediate-cons lists n no_requests (λ _ _. tt) p x q m k in
        let here : 1 ≤ count x (m.task_queues p) + count x [] =
          omega (arith, ap (count x) k, ap bit (==_refl x)) in
        subst
          (λ (y : ℕ × Manager).
            (m.pending y.0 ≡ true)
            × (y.1.pending ≡ update m.pending y.0 false)
            × Inv n (suc r) [] y.1)
          (some-injective _ _ (sym ok ∙ e))
          (
            queued-pending r p x [] m lt here v,
            refl,
            popped_immediate lists n no_requests (λ _ _. tt) r p x q m lt k v,
          )
  ]

  popped_owned : (r t : ℕ) (q : List ℕ) (m : Manager) → Inv n r (t ∷ q) m → m.pending t ≡ true
  popped_owned r t q m v = flag_of_count (m.pending t) (omega (arith, v.once t, ap bit (==_refl t)))

  -- `pop_immediate`, while no queue is owned.
  take_from :
      (r p : ℕ) (m : Manager) (o : Option (ℕ × Manager))
      → p < n
      → pop_immediate lists p m ≡ o
      → Inv n r [] m
      → Option (ℕ × Serving)
  take_from r p m none lt e v = none
  take_from r p m (some (t, m')) lt e v = some (
    t,
    record { running = suc r; owned = []; manager = m'; valid = (popped_from r p t m m' lt e v).2 },
  )

  -- `pop_deferred`, of the queue that is owned.
  take_owned : (r : ℕ) (q : List ℕ) (m : Manager) → Inv n r q m → Option (ℕ × Serving)
  take_owned r [] m v = none
  take_owned r (t ∷ q) m v = some (
    t,
    record {
      running = suc r;
      owned = q;
      manager = record m { pending = update m.pending t false };
      valid = popped lists n no_requests (λ _ _. tt) r t q m v;
    },
  )

  take_unowned :
      (p : ℕ) → p < n → (r : ℕ) (q : List ℕ) (m : Manager) → Inv n r q m → Option (ℕ × Serving)
  take_unowned p lt r [] m v = take_from r p m (pop_immediate lists p m) lt refl v
  take_unowned p lt r (x ∷ q) m v = none

  pub take : Turn → Serving → Option (ℕ × Serving)
  take (pop_from p lt) s = take_unowned p lt s.running s.owned s.manager s.valid
  take (own_queue p lt) s = none
  take pop_owned s = take_owned s.running s.owned s.manager s.valid
  take run_over s = none

  -- What a step that takes task `t` does to the flags.
  abbrev Frees : Manager → ℕ × Serving → Type 0
  Frees m x =
      (m.pending x.0 ≡ true) × ((u : ℕ) → x.1.manager.pending u ≡ update m.pending x.0 false u)

  take_from-Frees :
      (r p : ℕ) (m : Manager) (x : ℕ × Serving) (o : Option (ℕ × Manager)) (lt : p < n)
      (e : pop_immediate lists p m ≡ o) (v : Inv n r [] m)
      → take_from r p m o lt e v ≡ some x
      → Frees m x
  unfolding take_from
  take_from-Frees r p m x none lt e v h = absurd (cc h)
  take_from-Frees r p m x (some (t, m')) lt e v h =
      let (on, off, w) = popped_from r p t m m' lt e v in
      subst (Frees m) (some-injective _ _ h) (on, λ u. ap (λ f. f u) off)

  take_unowned-Frees :
      (p : ℕ) (lt : p < n) (r : ℕ) (q : List ℕ) (m : Manager) (v : Inv n r q m) (x : ℕ × Serving)
      → take_unowned p lt r q m v ≡ some x
      → Frees m x
  unfolding take_unowned
  take_unowned-Frees p lt r [] m v x h =
      take_from-Frees r p m x (pop_immediate lists p m) lt refl v h
  take_unowned-Frees p lt r (y ∷ q) m v x h = absurd (cc h)

  take_owned-Frees :
      (r : ℕ) (q : List ℕ) (m : Manager) (v : Inv n r q m) (x : ℕ × Serving)
      → take_owned r q m v ≡ some x
      → Frees m x
  unfolding take_owned
  take_owned-Frees r [] m v x h = absurd (cc h)
  take_owned-Frees r (t ∷ q) m v x h =
      subst (Frees m) (some-injective _ _ h) (popped_owned r t q m v, λ u. refl)

  pub take-Frees :
      (c : Turn) (t : ℕ) (s s' : Serving) → take c s ≡ some (t, s') → Frees s.manager (t, s')
  unfolding take
  take-Frees (pop_from p lt) t s s' h =
      take_unowned-Frees p lt s.running s.owned s.manager s.valid (t, s') h
  take-Frees (own_queue p lt) t s s' h = absurd (cc h)
  take-Frees pop_owned t s s' h = take_owned-Frees s.running s.owned s.manager s.valid (t, s') h
  take-Frees run_over t s s' h = absurd (cc h)

  -- The end of a run: `--task_count`.
  end_run : (r : ℕ) (q : List ℕ) (m : Manager) → Inv n r q m → Option Serving
  end_run zero q m v = none
  end_run (suc r) q m v = some (record {
    running = r;
    owned = q;
    manager = record m { task_count = m.task_count - 1 };
    valid = record { once = v.once; counted = omega (arith, v.counted); in_bounds = v.in_bounds };
  })

  -- `take_queue`, while no queue is owned.
  own : (p : ℕ) → p < n → (r : ℕ) (q : List ℕ) (m : Manager) → Inv n r q m → Option Serving
  own p lt r [] m v = some (record {
    running = r;
    owned = m.task_queues p;
    manager = (take_queue p m).1;
    valid = taken lists n no_requests (λ _ _. tt) r p m lt v;
  })
  own p lt r (x ∷ q) m v = none

  pub proceed : Turn → Serving → Option Serving
  proceed (pop_from p lt) s = none
  proceed (own_queue p lt) s = own p lt s.running s.owned s.manager s.valid
  proceed pop_owned s = none
  proceed run_over s = end_run s.running s.owned s.manager s.valid

  end_run-pending :
      (r : ℕ) (q : List ℕ) (m : Manager) (v : Inv n r q m) (s' : Serving)
      → end_run r q m v ≡ some s'
      → (u : ℕ) → s'.manager.pending u ≡ m.pending u
  unfolding end_run
  end_run-pending zero q m v s' h u = absurd (cc h)
  end_run-pending (suc r) q m v s' h u = ap (λ x. x.manager.pending u) (sym (some-injective _ _ h))

  own-pending :
      (p : ℕ) (lt : p < n) (r : ℕ) (q : List ℕ) (m : Manager) (v : Inv n r q m) (s' : Serving)
      → own p lt r q m v ≡ some s'
      → (u : ℕ) → s'.manager.pending u ≡ m.pending u
  unfolding own take_queue
  own-pending p lt r [] m v s' h u = ap (λ x. x.manager.pending u) (sym (some-injective _ _ h))
  own-pending p lt r (x ∷ q) m v s' h u = absurd (cc h)

  pub proceed-pending :
      (c : Turn) (s s' : Serving)
      → proceed c s ≡ some s'
      → (u : ℕ) → s'.manager.pending u ≡ s.manager.pending u
  unfolding proceed
  proceed-pending (pop_from p lt) s s' h u = absurd (cc h)
  proceed-pending (own_queue p lt) s s' h u =
      own-pending p lt s.running s.owned s.manager s.valid s' h u
  proceed-pending pop_owned s s' h u = absurd (cc h)
  proceed-pending run_over s s' h u = end_run-pending s.running s.owned s.manager s.valid s' h u

  pub admit : Priority → ℕ → Serving → Serving × Bool
  admit (priority p lt) t s = (
    record {
      running = s.running;
      owned = s.owned;
      manager = (enqueue_task lists t p s.manager).0;
      valid = enqueue_task-Inv lists n s.running s.owned t p s.manager lt s.valid;
    },
    (enqueue_task lists t p s.manager).1,
  )

  pub admit-pending :
      (c : Priority) (t : ℕ) (s : Serving)
      → s.manager.pending t ≡ false
      → ((admit c t s).1 ≡ true)
        × ((u : ℕ) → (admit c t s).0.manager.pending u ≡ update s.manager.pending t true u)
  unfolding admit enqueue_task
  admit-pending (priority p lt) t s idle =
      (rw (enqueue_task, idle) refl, λ u. rw (enqueue_task, idle) refl)

  -- The manager, its laws those of its operations.
  abbrev pub task_pool : Pool
  task_pool = record {
    State = Serving;
    Request = Priority;
    Choice = Turn;
    pending = λ s. s.manager.pending;
    admit = admit;
    take = take;
    proceed = proceed;
    admit_lem = admit-pending;
    take_lem = take-Frees;
    proceed_lem = proceed-pending;
  }
