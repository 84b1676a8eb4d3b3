-- ===== src/InciteOn/Order.antt =====
-- The function that incites is called when the operation is in place.
use cpp_baremetal_senders_an.Base.{ℕ, ◌≡◌, refl, ap, ◌∙◌, true, false, [], update_same}
use cpp_baremetal_senders_an.Pool.{Cancellable}
use cpp_baremetal_senders_an.Schedulers.{Op, World, set_op}
use cpp_baremetal_senders_an.Schedulers.Trigger
use cpp_baremetal_senders_an.Schedulers.Trigger.Once.{start-not, emplace_stop_cb-not}
use cpp_baremetal_senders_an.InciteOn.{sends, start, complete_first, start_scheduled}

module _ (manager : Cancellable) {V E : Type 0} where
  start_scheduled-emplaces :
      (r : manager.pool.Request) (t : ℕ) (w : World manager.pool.State V E)
      → ((Trigger.start manager r t w).ops t).emplacing ≡ true
      → start_scheduled manager r t w
        ≡ Trigger.emplace_stop_cb manager t (Trigger.start manager r t w)
  unfolding start_scheduled
  start_scheduled-emplaces r t w h = rw h refl

  -- Where the token was not asked to stop, the operation is queued, and can be stopped.
  pub start-queued :
      (r : manager.pool.Request) (t : ℕ) (w : World manager.pool.State V E)
      → (w.ops t).asked ≡ false
      → manager.pool.pending w.state t ≡ false
      → (w.ops t).delivered ≡ []
      → (manager.pool.pending (start_scheduled manager r t w).state t ≡ true)
        × (((start_scheduled manager r t w).ops t).delivered ≡ [])
        × (((start_scheduled manager r t w).ops t).stop_cb ≡ true)
  start-queued r t w n idle d =
      let o : Op V E = record (w.ops t) { started = true; emplacing = true } in
      let w1 : World manager.pool.State V E =
        set_op t o (record w { state = (manager.pool.admit r t w.state).0 }) in
      let begun : Trigger.start manager r t w ≡ w1 = start-not manager w r t n in
      let same : w1.ops t ≡ o = update_same w.ops t o in
      let o2 : Op V E = record (w1.ops t) { emplacing = false; stop_cb = true } in
      let whole : start_scheduled manager r t w ≡ set_op t o2 w1 =
        start_scheduled-emplaces r t w
          (ap (λ x. (x.ops t).emplacing) begun ∙ ap (λ x. x.emplacing) same)
        ∙ ap (Trigger.emplace_stop_cb manager t) begun
        ∙ emplace_stop_cb-not manager w1 t (ap (λ x. x.asked) same ∙ n) in
      let there : (set_op t o2 w1).ops t ≡ o2 = update_same w1.ops t o2 in
      let (yes_taken, flags) = manager.pool.admit_lem r t w.state idle in
      (
        ap (λ x. manager.pool.pending x.state t) whole
            ∙ flags t
            ∙ update_same (manager.pool.pending w.state) t true,
        ap (λ x. (x.ops t).delivered) whole
            ∙ ap (λ x. x.delivered) there
            ∙ ap (λ x. x.delivered) same
            ∙ d,
        ap (λ x. (x.ops t).stop_cb) whole ∙ ap (λ x. x.stop_cb) there,
      )

  -- When the first sender sends a function, that function is called on a state in which the
  -- operation is already queued in the trigger manager, has not completed, and can be stopped, where
  -- its token was not asked to stop: a trigger that the function runs finds the operation.
  pub incite_on-queued :
      (f : World manager.pool.State V E → World manager.pool.State V E) (r : manager.pool.Request)
      (t : ℕ) (w : World manager.pool.State V E)
      → (w.ops t).asked ≡ false
      → manager.pool.pending w.state t ≡ false
      → (w.ops t).delivered ≡ []
      → (w' : World manager.pool.State V E) × (start manager (sends f) r t w ≡ f w')
        × (manager.pool.pending w'.state t ≡ true)
        × ((w'.ops t).delivered ≡ [])
        × ((w'.ops t).stop_cb ≡ true)
  unfolding start complete_first
  incite_on-queued f r t w n idle d =
      let (queued, open_yet, registered) = start-queued r t w n idle d in
      (start_scheduled manager r t w, refl, queued, open_yet, registered)
