-- ===== src/TimerManager/Scheduling.antt =====
-- The scheduling operations of the timer manager: where they put a task, and what they ask of the
-- hardware.
use cpp_baremetal_senders_an.Base.{
  ℕ, zero, suc, ◌+◌, ◌≤◌, ◌≡◌, refl, ap, sym, subst, ◌∙◌, Bool, true, false, inl, inr, some, List,
  [], ◌∷◌, arith, ◌==◌, if◌then◌else◌, is_empty, length, count, insert_at, update, update_same,
  Bool-cases,
}
use cpp_baremetal_senders_an.Intrusive.{IntrusiveList}
use cpp_baremetal_senders_an.TimerManager.{
  HalCall, enable, enable_for, set_event_time, Manager, Reading, find_later, enqueue, schedule_at,
  schedule_after, admit, run_after, run_at,
}
use cpp_baremetal_senders_an.TimerManager.Order.{
  first_above-le, first_above, find_later-map, map-update, length-map,
}
use cpp_baremetal_senders_an.TimerManager.Invariant.{
  Inv, programmed, first, deadlines, queue_with, placed, first_deadline, absent, placed-Inv,
  nil_of_empty, expiry,
}

-- How `enqueue` programs the hardware.
first-insert_at :
    (n k : ℕ) (xs : List ℕ)
    → n ≤ length xs
    → first (insert_at n k xs) ≡ (if n == 0 then some k else first xs)
first-insert_at zero k xs h = refl
first-insert_at (suc n) k [] h = absurd (omega arith)
first-insert_at (suc n) k (x ∷ xs) h = ground arith

-- What a scheduling call promises: the task is placed, and the hardware is set for the first
-- deadline.
abbrev pub Schedules : Manager → ℕ → ℕ → Manager → Type 0
Schedules m t tp m' =
    (h : List HalCall) × (m' ≡ placed m t tp h) × (programmed h ≡ first_deadline m tp)

module _ (lists : IntrusiveList) where
  enqueue-Schedules :
      (r t tp : ℕ) (m : Manager)
      → m.pending t ≡ false
      → Inv r m
      → Schedules m t tp (
          enqueue lists t
            (record (admit lists t m) { expiration_time = update m.expiration_time t tp }))
  unfolding enqueue placed queue_with admit
  enqueue-Schedules r t tp m idle v =
      let absent' : count t m.task_queue ≡ 0 = absent r t m v idle in
      let pos : ℕ = first_above tp (deadlines m) in
      let bound : pos ≤ length m.task_queue =
        omega (arith, first_above-le tp (deadlines m), length-map m.expiration_time m.task_queue) in
      let found : find_later (update m.expiration_time t tp) tp m.task_queue ≡ pos =
        find_later-map (update m.expiration_time t tp) tp m.task_queue
        ∙ ap (first_above tp) (map-update m.expiration_time t tp m.task_queue absent') in
      let programs : first_deadline m tp ≡ (if pos == 0 then some tp else first (deadlines m)) =
        first-insert_at pos tp (deadlines m) (first_above-le tp (deadlines m)) in
      let inserted : lists.insert pos t m.task_queue ≡ insert_at pos t m.task_queue =
        lists.insert_lem pos t m.task_queue bound absent' in
      elim (Bool-cases (pos == 0)) [
        | inl z ↦ (
          set_event_time tp ∷ m.hal,
          rw (update_same m.expiration_time t tp, found, z, inserted) refl,
          sym (programs ∙ rw z refl),
        )
        | inr z ↦ (
          m.hal,
          rw (update_same m.expiration_time t tp, found, z, inserted) refl,
          v.armed ∙ sym (programs ∙ rw z refl),
        )
      ]

  -- In an empty queue, both entry points link the task and arm the timer themselves.
  empty-Schedules :
      (t tp : ℕ) (m : Manager) (h : List HalCall)
      → is_empty m.task_queue ≡ true
      → programmed h ≡ some tp
      → Schedules m t tp (record (admit lists t m) {
        task_queue = lists.push_back t m.task_queue;
        expiration_time = update m.expiration_time t tp;
        hal = h;
      })
  unfolding placed queue_with admit first_above
  empty-Schedules t tp m h e p =
      let e' : m.task_queue ≡ [] = nil_of_empty m.task_queue e in
      (h, rw (e', lists.push_back_lem t [] refl) refl, rw e' p)

  schedule_at-Schedules :
      (r t tp : ℕ) (m : Manager)
      → m.pending t ≡ false
      → Inv r m
      → Schedules m t tp (schedule_at lists t tp (admit lists t m))
  unfolding schedule_at
  schedule_at-Schedules r t tp m idle v = elim (Bool-cases (is_empty m.task_queue)) [
    | inl e ↦
        let h = empty-Schedules t tp m (set_event_time tp ∷ enable ∷ m.hal) e refl in
        unfold admit in rw e h
    | inr e ↦ let h = enqueue-Schedules r t tp m idle v in unfold admit in rw e h
  ]

  schedule_after-Schedules :
      (fused : Bool) (r t d : ℕ) (c : Reading) (m : Manager)
      → m.pending t ≡ false
      → Inv r m
      → Schedules m t (expiry fused d c m) (schedule_after lists fused t d c (admit lists t m))
  unfolding schedule_after expiry
  schedule_after-Schedules fused r t d c m idle v = elim (Bool-cases (is_empty m.task_queue)) [
    | inr e ↦ let h = enqueue-Schedules r t (c.now + d) m idle v in unfold admit in rw e h
    | inl e ↦ elim (Bool-cases fused) [
      | inl f ↦
          let h =
            empty-Schedules t c.enabled_until m (enable_for d c.enabled_until ∷ m.hal) e refl in
          unfold admit in rw (e, f) h
      | inr f ↦
          let h =
            empty-Schedules t (c.now + d) m (set_event_time (c.now + d) ∷ enable ∷ m.hal) e refl in
          unfold admit in rw (e, f) h
    ]
  ]

  -- In a well-formed manager, `run_at` of a task that is not pending accepts it, puts it behind the
  -- tasks that expire no later and before those that expire later, leaves the timer set for the
  -- first deadline, and keeps the manager well formed.
  pub run_at-Schedules :
      (r t tp : ℕ) (m : Manager)
      → m.pending t ≡ false
      → Inv r m
      → (m' : Manager) × (run_at lists t tp m ≡ (m', true)) × Schedules m t tp m' × Inv r m'
  unfolding run_at
  run_at-Schedules r t tp m idle v =
      let (h, e, p) = schedule_at-Schedules r t tp m idle v in
      (
        schedule_at lists t tp (admit lists t m),
        rw idle refl,
        (h, e, p),
        subst (Inv r) (sym e) (placed-Inv r t tp m h idle p v),
      )

  -- In a well-formed manager, `run_after` of a task that is not pending accepts it for the time
  -- point that the fused `enable` returned, where the queue was empty and the hardware has that
  -- form, and for the clock and the duration otherwise. It puts the task behind those that expire
  -- no later and before those that expire later, leaves the timer set for the first deadline, and
  -- keeps the manager well formed.
  pub run_after-Schedules :
      (fused : Bool) (r t d : ℕ) (c : Reading) (m : Manager)
      → m.pending t ≡ false
      → Inv r m
      → (m' : Manager) × (run_after lists fused t d c m ≡ (m', true))
        × Schedules m t (expiry fused d c m) m'
        × Inv r m'
  unfolding run_after
  run_after-Schedules fused r t d c m idle v =
      let (h, e, p) = schedule_after-Schedules fused r t d c m idle v in
      (
        schedule_after lists fused t d c (admit lists t m),
        rw idle refl,
        (h, e, p),
        subst (Inv r) (sym e) (placed-Inv r t (expiry fused d c m) m h idle p v),
      )
