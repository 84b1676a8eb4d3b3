-- ===== src/Schedulers/Trigger/Once.antt =====
-- Each operation of the trigger scheduler completes once, over any manager that meets the interface.
use cpp_baremetal_senders_an.Base.{
  ℕ, ◌≡◌, refl, ap, ◌∙◌, subst, true, false, some, List, [], inl, inr, update, Bool-cases,
  update_same,
}
use cpp_baremetal_senders_an.Channel.{set_value, set_stopped}
use cpp_baremetal_senders_an.Pool.{Cancellable}
use cpp_baremetal_senders_an.Schedulers.{Op, World, set_op, deliver}
use cpp_baremetal_senders_an.Schedulers.Invariant.{
  new-Inv, refused-Inv, admitted-Inv, Inv-Completes, Completes, started_of_pending, Settled, Inv,
  set_op-Elsewhere, delivered-Inv, touched-Inv,
}
use cpp_baremetal_senders_an.Schedulers.Trigger.{
  check_stopped, clear_stop_cb, run, complete_stopped, stop, stop_callback, start,
  start_unstoppable, emplace_stop_cb, ask,
}

module _ (manager : Cancellable) {V E : Type 0} where
  -- The steps of the operations and of the manager.
  pub data Step : World manager.pool.State V E → World manager.pool.State V E → Type 0 where
    starts :
        (w : World manager.pool.State V E) (r : manager.pool.Request) (t : ℕ)
        → (w.ops t).started ≡ false
        → Step w (start manager r t w)
    starts_unstoppable :
        (w : World manager.pool.State V E) (r : manager.pool.Request) (t : ℕ)
        → (w.ops t).started ≡ false
        → Step w (start_unstoppable manager r t w)
    emplaces :
        (w : World manager.pool.State V E) (t : ℕ)
        → (w.ops t).emplacing ≡ true
        → Step w (emplace_stop_cb manager t w)
    asks :
        (w : World manager.pool.State V E) (t : ℕ)
        → (w.ops t).asked ≡ false
        → Step w (ask manager t w)
    serves :
        (w : World manager.pool.State V E) (c : manager.pool.Choice) (args : List V) (t : ℕ)
        (s : manager.pool.State)
        → manager.pool.take c w.state ≡ some (t, s)
        → Step w (run manager args t (record w { state = s }))
    proceeds :
        (w : World manager.pool.State V E) (c : manager.pool.Choice) (s : manager.pool.State)
        → manager.pool.proceed c w.state ≡ some s
        → Step w (record w { state = s })

  pub data Reach (w : World manager.pool.State V E) : World manager.pool.State V E → Type 0 where
    here : Reach w w
    next : {u v : World manager.pool.State V E} → Reach w u → Step u v → Reach w v

  clear_stop_cb-Inv :
      (w : World manager.pool.State V E) (t : ℕ)
      → Inv manager.pool w
      → Inv manager.pool (clear_stop_cb manager t w)
  unfolding clear_stop_cb
  clear_stop_cb-Inv w t v = touched-Inv manager.pool w t _ refl refl (λ h. h) v

  clear_stop_cb-asked :
      (w : World manager.pool.State V E) (t : ℕ)
      → ((clear_stop_cb manager t w).ops t).asked ≡ (w.ops t).asked
  unfolding clear_stop_cb
  clear_stop_cb-asked w t = ap (λ x. x.asked) (update_same w.ops t _)

  stop_callback-pending :
      (w : World manager.pool.State V E) (t : ℕ)
      → (manager.cancel t (clear_stop_cb manager t w).state).1 ≡ true
      → stop_callback manager t w
        ≡ deliver t set_stopped (record (clear_stop_cb manager t w) {
          state = (manager.cancel t (clear_stop_cb manager t w).state).0;
        })
  unfolding stop_callback stop complete_stopped
  stop_callback-pending w t h = rw h

  stop_callback-idle :
      (w : World manager.pool.State V E) (t : ℕ)
      → (manager.cancel t (clear_stop_cb manager t w).state).1 ≡ false
      → stop_callback manager t w ≡ record (clear_stop_cb manager t w) {
        state = (manager.cancel t (clear_stop_cb manager t w).state).0;
      }
  unfolding stop_callback stop
  stop_callback-idle w t h = rw h

  -- The callback withdraws the task and completes the operation, or finds it gone.
  stop_callback-Inv :
      (w : World manager.pool.State V E) (t : ℕ)
      → (w.ops t).asked ≡ true
      → Inv manager.pool w
      → Inv manager.pool (stop_callback manager t w)
  stop_callback-Inv w t a v =
      let w1 : World manager.pool.State V E = clear_stop_cb manager t w in
      let v1 : Inv manager.pool w1 = clear_stop_cb-Inv w t v in
      elim (Bool-cases (manager.pool.pending w1.state t)) [
        | inr p ↦
            let (gone, same) = manager.cancel_idle t w1.state p in
            rw (stop_callback-idle w t gone) (λ u. rw (same u) (v1 u))
        | inl p ↦
            let (ok, gone) = manager.cancel_pending t w1.state p in
            let st = started_of_pending (w1.ops t) (subst (λ b. Settled b (w1.ops t)) p (v1 t)) in
            rw (stop_callback-pending w t ok) (
              delivered-Inv manager.pool w1 (manager.cancel t w1.state).0 t set_stopped gone st
                ((v1 t).waiting p) (λ _. clear_stop_cb-asked w t ∙ a) (λ u _. v1 u))
      ]

  pub start-asked :
      (w : World manager.pool.State V E) (r : manager.pool.Request) (t : ℕ)
      → (w.ops t).asked ≡ true
      → start manager r t w
        ≡ deliver t set_stopped (set_op t (record (w.ops t) { started = true }) w)
  unfolding start check_stopped complete_stopped
  start-asked w r t h = rw h

  pub start-not :
      (w : World manager.pool.State V E) (r : manager.pool.Request) (t : ℕ)
      → (w.ops t).asked ≡ false
      → start manager r t w
        ≡ set_op t
            (record (w.ops t) { started = true; emplacing = true })
            (record w { state = (manager.pool.admit r t w.state).0 })
  unfolding start check_stopped complete_stopped
  start-not w r t h = rw h

  start-Inv :
      (w : World manager.pool.State V E) (r : manager.pool.Request) (t : ℕ)
      → (w.ops t).started ≡ false
      → Inv manager.pool w
      → Inv manager.pool (start manager r t w)
  start-Inv w r t f v = elim (Bool-cases (w.ops t).asked) [
    | inl a ↦ rw (start-asked w r t a) (refused-Inv manager.pool w t f a v)
    | inr a ↦ rw (start-not w r t a) (admitted-Inv manager.pool w r t _ f refl refl v)
  ]

  emplace_stop_cb-asked :
      (w : World manager.pool.State V E) (t : ℕ)
      → (w.ops t).asked ≡ true
      → emplace_stop_cb manager t w
        ≡ stop_callback manager t
            (set_op t (record (w.ops t) { emplacing = false; stop_cb = true }) w)
  unfolding emplace_stop_cb
  emplace_stop_cb-asked w t h = rw h

  pub emplace_stop_cb-not :
      (w : World manager.pool.State V E) (t : ℕ)
      → (w.ops t).asked ≡ false
      → emplace_stop_cb manager t w
        ≡ set_op t (record (w.ops t) { emplacing = false; stop_cb = true }) w
  unfolding emplace_stop_cb
  emplace_stop_cb-not w t h = rw h

  emplace_stop_cb-Inv :
      (w : World manager.pool.State V E) (t : ℕ)
      → Inv manager.pool w
      → Inv manager.pool (emplace_stop_cb manager t w)
  emplace_stop_cb-Inv w t v =
      let o : Op V E = record (w.ops t) { emplacing = false; stop_cb = true } in
      let v' : Inv manager.pool (set_op t o w) =
        touched-Inv manager.pool w t o refl refl (λ h. h) v in
      elim (Bool-cases (w.ops t).asked) [
        | inl a ↦
            rw (emplace_stop_cb-asked w t a) (
              stop_callback-Inv (set_op t o w) t (ap (λ x. x.asked) (update_same w.ops t o) ∙ a) v')
        | inr a ↦ rw (emplace_stop_cb-not w t a) v'
      ]

  ask-registered :
      (w : World manager.pool.State V E) (t : ℕ)
      → (w.ops t).stop_cb ≡ true
      → ask manager t w
        ≡ stop_callback manager t (set_op t (record (w.ops t) { asked = true; stop_cb = false }) w)
  unfolding ask
  ask-registered w t h = rw h

  ask-not :
      (w : World manager.pool.State V E) (t : ℕ)
      → (w.ops t).stop_cb ≡ false
      → ask manager t w ≡ set_op t (record (w.ops t) { asked = true; stop_cb = false }) w
  unfolding ask
  ask-not w t h = rw h

  ask-Inv :
      (w : World manager.pool.State V E) (t : ℕ)
      → Inv manager.pool w
      → Inv manager.pool (ask manager t w)
  ask-Inv w t v =
      let o : Op V E = record (w.ops t) { asked = true; stop_cb = false } in
      let v' : Inv manager.pool (set_op t o w) =
        touched-Inv manager.pool w t o refl refl (λ h. refl) v in
      elim (Bool-cases (w.ops t).stop_cb) [
        | inl a ↦
            rw (ask-registered w t a)
              (stop_callback-Inv (set_op t o w) t (ap (λ x. x.asked) (update_same w.ops t o)) v')
        | inr a ↦ rw (ask-not w t a) v'
      ]

  run-Inv :
      (w : World manager.pool.State V E) (s : manager.pool.State) (args : List V) (t : ℕ)
      → ((u : ℕ) → manager.pool.pending s u ≡ update (manager.pool.pending w.state) t false u)
      → (w.ops t).started ≡ true
      → (w.ops t).delivered ≡ []
      → Inv manager.pool w
      → Inv manager.pool (run manager args t (record w { state = s }))
  unfolding run clear_stop_cb
  run-Inv w s args t gone st d v =
      let o : Op V E = record (w.ops t) { stop_cb = false } in
      let same : (set_op t o w).ops t ≡ o = update_same w.ops t o in
      delivered-Inv manager.pool (set_op t o w) s t (set_value args) gone
        (ap (λ x. x.started) same ∙ st) (ap (λ x. x.delivered) same ∙ d) (λ h. absurd (cc h))
        (set_op-Elsewhere manager.pool w t o (λ u _. v u))

  Step-Inv :
      {w w' : World manager.pool.State V E} → Step w w' → Inv manager.pool w → Inv manager.pool w'
  Step-Inv (starts w r t f) v = start-Inv w r t f v
  Step-Inv (starts_unstoppable w r t f) v =
      unfold start_unstoppable in admitted-Inv manager.pool w r t _ f refl refl v
  Step-Inv (emplaces w t em) v = emplace_stop_cb-Inv w t v
  Step-Inv (asks w t n) v = ask-Inv w t v
  Step-Inv (serves w c args t s e) v =
      let (p, gone) = manager.pool.take_lem c t w.state s e in
      run-Inv w s args t gone
        (started_of_pending (w.ops t) (subst (λ b. Settled b (w.ops t)) p (v t))) ((v t).waiting p)
        v
  Step-Inv (proceeds w c s e) v = λ t. rw (manager.pool.proceed_lem c w.state s e t) (v t)

  Reach-Inv :
      {u w : World manager.pool.State V E} → Inv manager.pool u → Reach u w → Inv manager.pool w
  Reach-Inv v here = v
  Reach-Inv v (next r st) = Step-Inv st (Reach-Inv v r)

  -- Over a manager that meets the interface and holds no task at first, each operation completes
  -- once.
  pub trigger_once :
      {u w : World manager.pool.State V E}
      → ((t : ℕ) → ((u.ops t).started ≡ false) × ((u.ops t).delivered ≡ []))
      → ((t : ℕ) → manager.pool.pending u.state t ≡ false)
      → Reach u w
      → (t : ℕ) → Completes manager.pool w t
  trigger_once {u} {w} f p r t =
      Inv-Completes manager.pool w t (Reach-Inv (new-Inv manager.pool u f p) r)
