-- ===== src/Schedulers/Priority/Once.antt =====
-- Each operation of the priority scheduler completes once.
use cpp_baremetal_senders_an.Base.{
  ℕ, ◌≡◌, refl, ap, ◌∙◌, subst, true, false, some, [], inl, inr, update, Bool-cases, update_same,
}
use cpp_baremetal_senders_an.Channel.{set_value, set_stopped}
use cpp_baremetal_senders_an.Pool.{Pool}
use cpp_baremetal_senders_an.Schedulers.{Op, World, set_op, deliver}
use cpp_baremetal_senders_an.Schedulers.Invariant.{
  new-Inv, refused-Inv, admitted-Inv, Inv-Completes, Completes, started_of_pending, Settled, Inv,
  delivered-Inv, touched-Inv,
}
use cpp_baremetal_senders_an.Schedulers.Priority.{check_stopped, run, start}

module _ (pool : Pool) {V E : Type 0} where
  -- An operation is started, once; its token is asked to stop; a service call takes its task and
  -- runs it, or makes another step.
  pub data Step : World pool.State V E → World pool.State V E → Type 0 where
    starts :
        (w : World pool.State V E) (r : pool.Request) (t : ℕ)
        → (w.ops t).started ≡ false
        → Step w (start pool r t w)
    asks :
        (w : World pool.State V E) (t : ℕ) → Step w (set_op t (record (w.ops t) { asked = true }) w)
    serves :
        (w : World pool.State V E) (c : pool.Choice) (t : ℕ) (s : pool.State)
        → pool.take c w.state ≡ some (t, s)
        → Step w (run pool t (record w { state = s }))
    proceeds :
        (w : World pool.State V E) (c : pool.Choice) (s : pool.State)
        → pool.proceed c w.state ≡ some s
        → Step w (record w { state = s })

  pub data Reach (w : World pool.State V E) : World pool.State V E → Type 0 where
    here : Reach w w
    next : {u v : World pool.State V E} → Reach w u → Step u v → Reach w v

  check_stopped-asked :
      (w : World pool.State V E) (t : ℕ)
      → (w.ops t).asked ≡ true
      → check_stopped pool t w ≡ (deliver t set_stopped w, true)
  unfolding check_stopped
  check_stopped-asked w t h = rw h

  check_stopped-not :
      (w : World pool.State V E) (t : ℕ)
      → (w.ops t).asked ≡ false
      → check_stopped pool t w ≡ (w, false)
  unfolding check_stopped
  check_stopped-not w t h = rw h

  run-Inv :
      (w : World pool.State V E) (s : pool.State) (t : ℕ)
      → ((u : ℕ) → pool.pending s u ≡ update (pool.pending w.state) t false u)
      → (w.ops t).started ≡ true
      → (w.ops t).delivered ≡ []
      → Inv pool w
      → Inv pool (run pool t (record w { state = s }))
  unfolding run
  run-Inv w s t e st d v = elim (Bool-cases (w.ops t).asked) [
    | inl a ↦
        rw (check_stopped-asked (record w { state = s }) t a)
          (delivered-Inv pool w s t set_stopped e st d (λ _. a) (λ u _. v u))
    | inr a ↦
        rw (check_stopped-not (record w { state = s }) t a)
          (delivered-Inv pool w s t (set_value []) e st d (λ h. absurd (cc h)) (λ u _. v u))
  ]

  start-Inv :
      (w : World pool.State V E) (r : pool.Request) (t : ℕ)
      → (w.ops t).started ≡ false
      → Inv pool w
      → Inv pool (start pool r t w)
  unfolding start
  start-Inv w r t f v =
      let o : Op V E = record (w.ops t) { started = true } in
      let same : (set_op t o w).ops t ≡ o = update_same w.ops t o in
      elim (Bool-cases (w.ops t).asked) [
        | inl a ↦
            rw (check_stopped-asked (set_op t o w) t (ap (λ x. x.asked) same ∙ a))
              (refused-Inv pool w t f a v)
        | inr a ↦
            rw (check_stopped-not (set_op t o w) t (ap (λ x. x.asked) same ∙ a))
              (admitted-Inv pool w r t o f refl refl v)
      ]

  Step-Inv : {w w' : World pool.State V E} → Step w w' → Inv pool w → Inv pool w'
  Step-Inv (starts w r t f) v = start-Inv w r t f v
  Step-Inv (asks w t) v = touched-Inv pool w t _ refl refl (λ _. refl) v
  Step-Inv (serves w c t s e) v =
      let (p, gone) = pool.take_lem c t w.state s e in
      run-Inv w s t gone (started_of_pending (w.ops t) (subst (λ b. Settled b (w.ops t)) p (v t)))
        ((v t).waiting p) v
  Step-Inv (proceeds w c s e) v = λ t. rw (pool.proceed_lem c w.state s e t) (v t)

  Reach-Inv : {u w : World pool.State V E} → Inv pool u → Reach u w → Inv pool w
  Reach-Inv v here = v
  Reach-Inv v (next r st) = Step-Inv st (Reach-Inv v r)

  -- On any injected task manager that holds no task at first, whatever order the starts, the
  -- requests to stop and the steps of the service calls come in, each operation completes once: it
  -- was not started and is not completed, or the manager holds its task and it is not completed, or
  -- it was given one completion alone, which is stopped only where its token was asked to stop.
  pub priority_once :
      {u w : World pool.State V E}
      → ((t : ℕ) → ((u.ops t).started ≡ false) × ((u.ops t).delivered ≡ []))
      → ((t : ℕ) → pool.pending u.state t ≡ false)
      → Reach u w
      → (t : ℕ) → Completes pool w t
  priority_once {u} {w} f p r t = Inv-Completes pool w t (Reach-Inv (new-Inv pool u f p) r)
