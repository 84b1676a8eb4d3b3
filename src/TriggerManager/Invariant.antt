-- ===== src/TriggerManager/Invariant.antt =====
-- What holds of a trigger manager between two critical sections, and that its operations keep it.
use cpp_baremetal_senders_an.Base.{
  ℕ, ◌+◌, ◌-◌, ◌≡◌, refl, ap, ◌∙◌, true, false, inl, inr, List, [], ◌∷◌, ◌++◌, arith, bit, length,
  count, erase, update, Bool-cases, bit-update-true, bit-update-false, count-erase, length-erase,
  count-append, length-append, ==_refl,
}
use cpp_baremetal_senders_an.Intrusive.{IntrusiveList}
use cpp_baremetal_senders_an.TriggerManager.{
  Manager, Request, enqueues, dequeues, enqueue, dequeue, request, request_all,
}

-- `q` is what a deferred call of `run` owns, `running` the number of tasks popped and not over.
pub record Inv (running : ℕ) (q : List ℕ) (m : Manager) : Type 0 where
  pub once : (t : ℕ) → count t m.tasks + count t q ≡ bit (m.pending t)
  pub counted : m.task_count ≡ length m.tasks + length q + running

-- A request that a call of `run` may be served with while it owns `q`: no task of `q` is dequeued.
abbrev pub Allowed : List ℕ → Request → Type 0
Allowed q (enqueues t) = Unit {0}
Allowed q (dequeues t) = count t q ≡ 0

abbrev pub AllAllowed : List ℕ → List Request → Type 0
AllAllowed q [] = Unit {0}
AllAllowed q (c ∷ cs) = Allowed q c × AllAllowed q cs

module _ (lists : IntrusiveList) (r : ℕ) (q : List ℕ) where
  -- A task that is not pending is accepted and goes to the end of the list.
  pub enqueue-idle :
      (t : ℕ) (m : Manager)
      → m.pending t ≡ false
      → Inv r q m
      → (m' : Manager) × (enqueue lists t m ≡ (m', true))
        × (m'.tasks ≡ m.tasks ++ t ∷ [])
        × (m'.ran ≡ m.ran)
        × Inv r q m'
  unfolding enqueue
  enqueue-idle t m idle v = (
    record m {
      pending = update m.pending t true;
      task_count = m.task_count + 1;
      tasks = m.tasks ++ t ∷ [];
    },
    rw (idle, lists.push_back_lem t m.tasks (omega (arith, v.once t, ap bit idle))) refl,
    refl,
    refl,
    record {
      once = λ u.
          omega
            (arith, v.once u, count-append u m.tasks (t ∷ []), bit-update-true m.pending t u idle);
      counted = omega (arith, v.counted, length-append m.tasks (t ∷ []));
    },
  )

  -- A pending task that no call of `run` has taken is dequeued.
  pub dequeue-pending :
      (t : ℕ) (m : Manager)
      → m.pending t ≡ true
      → count t q ≡ 0
      → Inv r q m
      → (m' : Manager) × (dequeue lists t m ≡ (m', true))
        × (m'.tasks ≡ erase t m.tasks)
        × (m'.pending t ≡ false)
        × (m'.ran ≡ m.ran)
        × Inv r q m'
  unfolding dequeue
  dequeue-pending t m p free v =
      let only : count t m.tasks ≡ 1 = omega (arith, v.once t, ap bit p) in
      (
        record m {
          pending = update m.pending t false;
          tasks = erase t m.tasks;
          task_count = m.task_count - 1;
        },
        rw (p, lists.remove_lem t m.tasks only) refl,
        refl,
        rw (==_refl t) refl,
        refl,
        record {
          once = λ u. omega (
            arith,
            v.once u,
            count-erase u t m.tasks (omega arith),
            bit-update-false m.pending t u p,
          );
          counted = omega (arith, v.counted, length-erase t m.tasks (omega arith));
        },
      )

  -- Every allowed request keeps the manager well formed and runs no task.
  pub request-Inv :
      (c : Request) (m : Manager)
      → Allowed q c
      → Inv r q m
      → Inv r q (request lists c m) × ((request lists c m).ran ≡ m.ran)
  unfolding request
  request-Inv (enqueues t) m al v = elim (Bool-cases (m.pending t)) [
    | inl p ↦ rw (p, request, enqueue) (v, refl)
    | inr p ↦ let (m', e, _, l, w) = enqueue-idle t m p v in rw (e, request) (w, l)
  ]
  request-Inv (dequeues t) m al v = elim (Bool-cases (m.pending t)) [
    | inl p ↦ let (m', e, _, _, l, w) = dequeue-pending t m p al v in rw (e, request) (w, l)
    | inr p ↦ rw (p, request, dequeue) (v, refl)
  ]

  pub request_all-Inv :
      (cs : List Request) (m : Manager)
      → AllAllowed q cs
      → Inv r q m
      → Inv r q (request_all lists cs m) × ((request_all lists cs m).ran ≡ m.ran)
  unfolding request_all
  request_all-Inv [] m al v = (v, refl)
  request_all-Inv (c ∷ cs) m al v =
      let (w, l) = request-Inv c m al.0 v in
      let (w', l') = request_all-Inv cs (request lists c m) al.1 w in (w', l' ∙ l)
