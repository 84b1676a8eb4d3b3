-- ===== src/Schedulers/Time/Once.antt =====
-- Each operation of the time scheduler completes once.
use cpp_baremetal_senders_an.Base.{
  ℕ, ◌≡◌, refl, ap, ◌∙◌, subst, true, false, some, [], inl, inr, Bool-cases, update_same,
}
use cpp_baremetal_senders_an.Channel.{set_value, set_stopped}
use cpp_baremetal_senders_an.Pool.{Cancellable}
use cpp_baremetal_senders_an.Schedulers.{Op, World, set_op, deliver}
use cpp_baremetal_senders_an.Schedulers.Invariant.{
  new-Inv, refused-Inv, admitted-Inv, Inv-Completes, Completes, started_of_pending, Settled, Inv,
  delivered-Inv, touched-Inv,
}
use cpp_baremetal_senders_an.Schedulers.Time.{
  run, schedule, stop, start, start_unstoppable, emplace_stop_cb, ask,
}

module _ (manager : Cancellable) {V E : Type 0} where
  -- The steps of the operations and of the manager.
  pub data Step : World manager.pool.State V E → World manager.pool.State V E → Type 0 where
    starts :
        (w : World manager.pool.State V E) (r : manager.pool.Request) (t : ℕ)
        → (w.ops t).started ≡ false
        → Step w (start manager r t w)
    starts_unstoppable :
        (w : World manager.pool.State V E) (r : manager.pool.Request) (t : ℕ)
        → (w.ops t).started ≡ false
        → Step w (start_unstoppable manager r t w)
    emplaces :
        (w : World manager.pool.State V E) (t : ℕ)
        → (w.ops t).emplacing ≡ true
        → Step w (emplace_stop_cb manager t w)
    asks :
        (w : World manager.pool.State V E) (t : ℕ)
        → (w.ops t).asked ≡ false
        → Step w (ask manager t w)
    serves :
        (w : World manager.pool.State V E) (c : manager.pool.Choice) (t : ℕ)
        (s : manager.pool.State)
        → manager.pool.take c w.state ≡ some (t, s)
        → Step w (run manager t (record w { state = s }))
    proceeds :
        (w : World manager.pool.State V E) (c : manager.pool.Choice) (s : manager.pool.State)
        → manager.pool.proceed c w.state ≡ some s
        → Step w (record w { state = s })

  pub data Reach (w : World manager.pool.State V E) : World manager.pool.State V E → Type 0 where
    here : Reach w w
    next : {u v : World manager.pool.State V E} → Reach w u → Step u v → Reach w v

  -- The callback withdraws the task and completes the operation, or finds it gone.
  stop-Inv :
      (w : World manager.pool.State V E) (t : ℕ)
      → (w.ops t).asked ≡ true
      → Inv manager.pool w
      → Inv manager.pool (stop manager t w)
  unfolding stop
  stop-Inv w t a v = elim (Bool-cases (manager.pool.pending w.state t)) [
    | inr p ↦
        let (gone, same) = manager.cancel_idle t w.state p in
        rw (gone, stop) (λ u. rw (same u) (v u))
    | inl p ↦
        let (ok, gone) = manager.cancel_pending t w.state p in
        let st = started_of_pending (w.ops t) (subst (λ b. Settled b (w.ops t)) p (v t)) in
        rw (ok, stop)
          (delivered-Inv manager.pool w (manager.cancel t w.state).0 t set_stopped gone st
            ((v t).waiting p) (λ _. a) (λ u _. v u))
  ]

  start-asked :
      (w : World manager.pool.State V E) (r : manager.pool.Request) (t : ℕ)
      → (w.ops t).asked ≡ true
      → start manager r t w
        ≡ deliver t set_stopped (set_op t (record (w.ops t) { started = true }) w)
  unfolding start
  start-asked w r t h = rw h

  start-not :
      (w : World manager.pool.State V E) (r : manager.pool.Request) (t : ℕ)
      → (w.ops t).asked ≡ false
      → start manager r t w
        ≡ schedule manager r t (set_op t (record (w.ops t) { started = true; emplacing = true }) w)
  unfolding start
  start-not w r t h = rw h

  start-Inv :
      (w : World manager.pool.State V E) (r : manager.pool.Request) (t : ℕ)
      → (w.ops t).started ≡ false
      → Inv manager.pool w
      → Inv manager.pool (start manager r t w)
  start-Inv w r t f v = elim (Bool-cases (w.ops t).asked) [
    | inl a ↦ rw (start-asked w r t a) (refused-Inv manager.pool w t f a v)
    | inr a ↦
        rw (start-not w r t a) (unfold schedule in admitted-Inv manager.pool w r t _ f refl refl v)
  ]

  emplace_stop_cb-asked :
      (w : World manager.pool.State V E) (t : ℕ)
      → (w.ops t).asked ≡ true
      → emplace_stop_cb manager t w
        ≡ stop manager t (set_op t (record (w.ops t) { emplacing = false; stop_cb = true }) w)
  unfolding emplace_stop_cb
  emplace_stop_cb-asked w t h = rw h

  emplace_stop_cb-not :
      (w : World manager.pool.State V E) (t : ℕ)
      → (w.ops t).asked ≡ false
      → emplace_stop_cb manager t w
        ≡ set_op t (record (w.ops t) { emplacing = false; stop_cb = true }) w
  unfolding emplace_stop_cb
  emplace_stop_cb-not w t h = rw h

  emplace_stop_cb-Inv :
      (w : World manager.pool.State V E) (t : ℕ)
      → Inv manager.pool w
      → Inv manager.pool (emplace_stop_cb manager t w)
  emplace_stop_cb-Inv w t v =
      let o : Op V E = record (w.ops t) { emplacing = false; stop_cb = true } in
      let v' : Inv manager.pool (set_op t o w) =
        touched-Inv manager.pool w t o refl refl (λ h. h) v in
      elim (Bool-cases (w.ops t).asked) [
        | inl a ↦
            rw (emplace_stop_cb-asked w t a)
              (stop-Inv (set_op t o w) t (ap (λ x. x.asked) (update_same w.ops t o) ∙ a) v')
        | inr a ↦ rw (emplace_stop_cb-not w t a) v'
      ]

  ask-registered :
      (w : World manager.pool.State V E) (t : ℕ)
      → (w.ops t).stop_cb ≡ true
      → ask manager t w
        ≡ stop manager t (set_op t (record (w.ops t) { asked = true; stop_cb = false }) w)
  unfolding ask
  ask-registered w t h = rw h

  ask-not :
      (w : World manager.pool.State V E) (t : ℕ)
      → (w.ops t).stop_cb ≡ false
      → ask manager t w ≡ set_op t (record (w.ops t) { asked = true; stop_cb = false }) w
  unfolding ask
  ask-not w t h = rw h

  ask-Inv :
      (w : World manager.pool.State V E) (t : ℕ)
      → Inv manager.pool w
      → Inv manager.pool (ask manager t w)
  ask-Inv w t v =
      let o : Op V E = record (w.ops t) { asked = true; stop_cb = false } in
      let v' : Inv manager.pool (set_op t o w) =
        touched-Inv manager.pool w t o refl refl (λ h. refl) v in
      elim (Bool-cases (w.ops t).stop_cb) [
        | inl a ↦
            rw (ask-registered w t a)
              (stop-Inv (set_op t o w) t (ap (λ x. x.asked) (update_same w.ops t o)) v')
        | inr a ↦ rw (ask-not w t a) v'
      ]

  Step-Inv :
      {w w' : World manager.pool.State V E} → Step w w' → Inv manager.pool w → Inv manager.pool w'
  Step-Inv (starts w r t f) v = start-Inv w r t f v
  Step-Inv (starts_unstoppable w r t f) v =
      unfold start_unstoppable schedule in admitted-Inv manager.pool w r t _ f refl refl v
  Step-Inv (emplaces w t em) v = emplace_stop_cb-Inv w t v
  Step-Inv (asks w t n) v = ask-Inv w t v
  Step-Inv (serves w c t s e) v =
      let (p, gone) = manager.pool.take_lem c t w.state s e in
      let st = started_of_pending (w.ops t) (subst (λ b. Settled b (w.ops t)) p (v t)) in
      unfold run in
      delivered-Inv manager.pool w s t (set_value []) gone st ((v t).waiting p) (λ h. absurd (cc h))
        (λ u _. v u)
  Step-Inv (proceeds w c s e) v = λ t. rw (manager.pool.proceed_lem c w.state s e t) (v t)

  Reach-Inv :
      {u w : World manager.pool.State V E} → Inv manager.pool u → Reach u w → Inv manager.pool w
  Reach-Inv v here = v
  Reach-Inv v (next r st) = Step-Inv st (Reach-Inv v r)

  -- On any injected timer manager that holds no task at first, whatever order the starts, the stop
  -- callbacks, the requests to stop and the steps of the service calls come in, each operation
  -- completes once: it was not started and is not completed, or the manager holds its task and it is
  -- not completed, or it was given one completion alone, which is stopped only where its token was
  -- asked to stop.
  pub time_once :
      {u w : World manager.pool.State V E}
      → ((t : ℕ) → ((u.ops t).started ≡ false) × ((u.ops t).delivered ≡ []))
      → ((t : ℕ) → manager.pool.pending u.state t ≡ false)
      → Reach u w
      → (t : ℕ) → Completes manager.pool w t
  time_once {u} {w} f p r t =
      Inv-Completes manager.pool w t (Reach-Inv (new-Inv manager.pool u f p) r)
