-- ===== src/TimerManager/Service.antt =====
-- Cancellation and service of the timer manager.
use mathlib.Core.List.{map}
use cpp_baremetal_senders_an.Base.{
  flag_of_count, ℕ, suc, ◌-◌, ◌≡◌, refl, ap, sym, subst, ◌∙◌, Bool, true, false, inl, inr, some,
  List, [], ◌∷◌, ◌++◌, arith, bit, length, count, erase, update, Bool-cases, bit-update-false,
  count-erase, length-erase, ==_refl,
}
use cpp_baremetal_senders_an.Intrusive.{IntrusiveList}
use cpp_baremetal_senders_an.TimerManager.{
  HalCall, disable, set_event_time, Manager, Request, after, at, cancels, compute_next_event,
  front_time, run_after, run_at, cancel, request, request_all, take_front, service_task,
}
use cpp_baremetal_senders_an.TimerManager.Order.{IsSorted, AtLeast, erase-IsSorted}
use cpp_baremetal_senders_an.TimerManager.Invariant.{Inv, programmed, first, deadlines}
use cpp_baremetal_senders_an.TimerManager.Scheduling.{run_at-Schedules, run_after-Schedules}

-- `compute_next_event` sets the timer for the first deadline, or turns it off.
next_event_lem :
    (m : Manager)
    → (h : List HalCall) × (compute_next_event m ≡ record m { hal = h })
      × (programmed h ≡ first (deadlines m))
unfolding compute_next_event front_time
next_event_lem m = go m.task_queue
  where
    go :
        (q : List ℕ)
        → (h : List HalCall) × (compute_next_event (record m { task_queue = q })
            ≡ record m { task_queue = q; hal = h })
          × (programmed h ≡ first (map m.expiration_time q))
    go [] = (disable ∷ m.hal, refl, refl)
    go (x ∷ q) = (set_event_time (m.expiration_time x) ∷ m.hal, refl, refl)

module _ (lists : IntrusiveList) where
  -- In a well-formed manager, cancelling a pending task succeeds, takes it out of the queue, leaves
  -- it not pending, and keeps the manager well formed: sorted, counted and armed for the deadline
  -- that is now first.
  pub cancel-pending :
      (r t : ℕ) (m : Manager)
      → m.pending t ≡ true
      → Inv r m
      → (m' : Manager) × (cancel lists t m ≡ (m', true))
        × (m'.task_queue ≡ erase t m.task_queue)
        × (m'.pending t ≡ false)
        × Inv r m'
  unfolding cancel
  cancel-pending r t m p v =
      let only : count t m.task_queue ≡ 1 = v.once t ∙ ap bit p in
      let q : List ℕ = erase t m.task_queue in
      let m1 : Manager = record m {
        task_queue = q;
        pending = update m.pending t false;
        task_count = m.task_count - 1;
      } in
      let (h, e, a) = next_event_lem m1 in
      (
        record m1 { hal = h },
        rw (p, lists.remove_lem t m.task_queue only, e) refl,
        refl,
        rw (==_refl t) refl,
        record {
          once = λ u. omega (
            arith,
            v.once u,
            count-erase u t m.task_queue (omega arith),
            bit-update-false m.pending t u p,
          );
          sorted = erase-IsSorted m.expiration_time t m.task_queue v.sorted;
          counted = omega (arith, v.counted, length-erase t m.task_queue (omega arith));
          armed = a;
        },
      )

  -- Every call of `run_after`, `run_at` and `cancel` keeps the manager well formed, whether or not
  -- the task was pending.
  pub timer_request-Inv :
      (fused : Bool) (r : ℕ) (c : Request) (m : Manager) → Inv r m → Inv r (request lists fused c m)
  unfolding request
  timer_request-Inv fused r (after t d c) m v = elim (Bool-cases (m.pending t)) [
    | inl p ↦ rw (p, request, run_after) v
    | inr p ↦
        let (m', e, s, w) = run_after-Schedules lists fused r t d c m p v in
        subst (Inv r) (sym (ap (λ x. x.0) e)) w
  ]
  timer_request-Inv fused r (at t tp) m v = elim (Bool-cases (m.pending t)) [
    | inl p ↦ rw (p, request, run_at) v
    | inr p ↦
        let (m', e, s, w) = run_at-Schedules lists r t tp m p v in
        subst (Inv r) (sym (ap (λ x. x.0) e)) w
  ]
  timer_request-Inv fused r (cancels t) m v = elim (Bool-cases (m.pending t)) [
    | inl p ↦
        let (m', e, q, u, w) = cancel-pending r t m p v in subst (Inv r) (sym (ap (λ x. x.0) e)) w
    | inr p ↦ rw (p, request, cancel) v
  ]

  pub request_all-Inv :
      (fused : Bool) (r : ℕ) (cs : List Request) (m : Manager)
      → Inv r m
      → Inv r (request_all lists fused cs m)
  unfolding request_all
  request_all-Inv fused r [] m v = v
  request_all-Inv fused r (c ∷ cs) m v =
      request_all-Inv fused r cs (request lists fused c m) (timer_request-Inv fused r c m v)

  ran-request : (fused : Bool) (c : Request) (m : Manager) → (request lists fused c m).ran ≡ m.ran
  unfolding request
  ran-request fused (after t d c) m = ground arith
  ran-request fused (at t tp) m = ground arith
  ran-request fused (cancels t) m = ground arith

  ran-request_all :
      (fused : Bool) (cs : List Request) (m : Manager) → (request_all lists fused cs m).ran ≡ m.ran
  unfolding request_all request
  ran-request_all fused [] m = refl
  ran-request_all fused (c ∷ cs) m =
      ran-request_all fused cs (request lists fused c m) ∙ ran-request fused c m

  taken_front :
      (t : ℕ) (q : List ℕ) (m : Manager) (h : List HalCall)
      → m.task_queue ≡ t ∷ q
      → compute_next_event (record m { task_queue = q; pending = update m.pending t false })
        ≡ record m { task_queue = q; pending = update m.pending t false; hal = h }
      → take_front lists m
        ≡ some (t, record m { task_queue = q; pending = update m.pending t false; hal = h })
  unfolding take_front
  taken_front t q m h e e1 = rw (e, lists.pop_front_lem t q) (ap (λ m'. some (t, m')) e1)

  -- Taking the task in front off the queue: it was pending, and is so no more, and it counts as
  -- running until its run is over.
  pub take_front_lem :
      (r t : ℕ) (q : List ℕ) (m : Manager)
      → m.task_queue ≡ t ∷ q
      → Inv r m
      → (h : List HalCall) × (take_front lists m
          ≡ some (t, record m { task_queue = q; pending = update m.pending t false; hal = h }))
        × (m.pending t ≡ true)
        × Inv (suc r) (record m { task_queue = q; pending = update m.pending t false; hal = h })
  take_front_lem r t q m e v =
      let front : m.pending t ≡ true =
        flag_of_count (m.pending t) (omega (arith, v.once t, ap (count t) e, ap bit (==_refl t))) in
      let sorted : IsSorted (map m.expiration_time (t ∷ q)) =
        subst (λ l. IsSorted (map m.expiration_time l)) e v.sorted in
      let (h, e1, a) =
        next_event_lem (record m { task_queue = q; pending = update m.pending t false }) in
      (
        h,
        taken_front t q m h e e1,
        front,
        record {
          once = λ u. omega (arith, v.once u, ap (count u) e, bit-update-false m.pending t u front);
          sorted = sorted.1;
          counted = omega (arith, v.counted, ap length e);
          armed = a;
        },
      )

  module _ (fused : Bool) (run : ℕ → Manager → List Request) where
    -- In a well-formed manager whose queue is not empty, a service call runs the task in front and
    -- no other, whose deadline is the earliest of all that are queued, and keeps the manager well
    -- formed, whatever requests the task makes.
    pub service_task-first :
        (r t : ℕ) (q : List ℕ) (m : Manager)
        → m.task_queue ≡ t ∷ q
        → Inv r m
        → ((service_task lists fused run m).ran ≡ m.ran ++ t ∷ [])
          × AtLeast (m.expiration_time t) (deadlines m)
          × Inv r (service_task lists fused run m)
    unfolding service_task take_front
    service_task-first r t q m e v =
        let (h, taken, front, v1) = take_front_lem r t q m e v in
        let m1 : Manager = record m { task_queue = q; pending = update m.pending t false } in
        let m2 : Manager = record m1 { hal = h; ran = m.ran ++ t ∷ [] } in
        let sorted : IsSorted (map m.expiration_time (t ∷ q)) =
          subst (λ l. IsSorted (map m.expiration_time l)) e v.sorted in
        let v2 : Inv (suc r) m2 = record {
          once = v1.once;
          sorted = v1.sorted;
          counted = v1.counted;
          armed = v1.armed;
        } in
        let w : Inv (suc r) (request_all lists fused (run t m2) m2) =
          request_all-Inv fused (suc r) (run t m2) m2 v2 in
        (
          rw (taken, service_task) (ran-request_all fused (run t m2) m2),
          rw e (omega arith, sorted.0),
          rw (taken, service_task)
              (record {
                once = w.once;
                sorted = w.sorted;
                counted = omega (arith, w.counted);
                armed = w.armed;
              }),
        )
