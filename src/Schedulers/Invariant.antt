-- ===== src/Schedulers/Invariant.antt =====
-- Each operation of a scheduler completes once: what every step keeps, for any injected manager.
use cpp_baremetal_senders_an.Base.{
  ℕ, ◌≡◌, ◌≢◌, refl, sym, ap, ◌∙◌, subst, Bool, true, false, [], ◌∷◌, ◌++◌, inl, inr, ◌⊎◌, update,
  Bool-cases, ==_refl, update_same, ==-apart, update-unchanged,
}
use native.Mathlib.Decide.{ℕ_discrete}
use cpp_baremetal_senders_an.Channel.{Completion, set_stopped}
use cpp_baremetal_senders_an.Pool.{Pool}
use cpp_baremetal_senders_an.Schedulers.{Op, World, set_op, deliver}

module _ {V E : Type 0} where
  -- An operation and whether the manager holds its task.
  pub record Settled (pending : Bool) (o : Op V E) : Type 0 where
    pub fresh : o.started ≡ false → (pending ≡ false) × (o.delivered ≡ [])
    pub waiting : pending ≡ true → o.delivered ≡ []
    pub over :
        o.started ≡ true
        → pending ≡ false
        → (c : Completion V E) × (o.delivered ≡ c ∷ []) × (c ≡ set_stopped → o.asked ≡ true)

  -- Only a started operation's task is held.
  pub started_of_pending : (o : Op V E) → Settled true o → o.started ≡ true
  started_of_pending o v = elim (Bool-cases o.started) [
    | inl h ↦ h
    | inr h ↦ absurd (cc ((v.fresh h).0))
  ]

module _ (pool : Pool) {V E : Type 0} where
  abbrev pub Inv : World pool.State V E → Type 0
  Inv w = (t : ℕ) → Settled (pool.pending w.state t) (w.ops t)

  abbrev pub Elsewhere : ℕ → World pool.State V E → Type 0
  Elsewhere t w = (u : ℕ) → t ≢ u → Settled (pool.pending w.state u) (w.ops u)

  pub set_op-Elsewhere :
      (w : World pool.State V E) (t : ℕ) (o : Op V E) → Elsewhere t w → Elsewhere t (set_op t o w)
  set_op-Elsewhere w t o v u other = rw (==-apart t u other) (v u other)

  -- One operation and its flag in the manager are changed.
  pub changed-Inv :
      (w : World pool.State V E) (s : pool.State) (t : ℕ) (p : Bool) (o : Op V E)
      → ((u : ℕ) → pool.pending s u ≡ update (pool.pending w.state) t p u)
      → Settled p o
      → Elsewhere t w
      → Inv (set_op t o (record w { state = s }))
  changed-Inv w s t p o e now v u = elim (ℕ_discrete t u) [
    | yes same ↦
        subst (λ u. Settled (pool.pending s u) (update w.ops t o u)) same (rw (e t, ==_refl t) now)
    | no other ↦ rw (e u, ==-apart t u other) (v u other)
  ]

  -- A task that the manager has just given up is completed.
  pub delivered-Inv :
      (w : World pool.State V E) (s : pool.State) (t : ℕ) (c : Completion V E)
      → ((u : ℕ) → pool.pending s u ≡ update (pool.pending w.state) t false u)
      → (w.ops t).started ≡ true
      → (w.ops t).delivered ≡ []
      → (c ≡ set_stopped → (w.ops t).asked ≡ true)
      → Elsewhere t w
      → Inv (deliver t c (record w { state = s }))
  unfolding deliver
  delivered-Inv w s t c e st d real v =
      changed-Inv w s t false _ e
        (record {
          fresh = λ h. absurd (cc (h, st));
          waiting = λ h. absurd (cc h);
          over = λ h k. (c, ap (λ l. l ++ c ∷ []) d, real);
        })
        v

  -- The parts of an operation that say nothing of its completion change.
  pub touched-Inv :
      (w : World pool.State V E) (t : ℕ) (o : Op V E)
      → o.started ≡ (w.ops t).started
      → o.delivered ≡ (w.ops t).delivered
      → ((w.ops t).asked ≡ true → o.asked ≡ true)
      → Inv w
      → Inv (set_op t o w)
  touched-Inv w t o st d more v =
      changed-Inv w w.state t (pool.pending w.state t) o
        (update-unchanged (pool.pending w.state) t _ refl)
        (record {
          fresh = λ h. let (p, l) = (v t).fresh (sym st ∙ h) in (p, d ∙ l);
          waiting = λ h. d ∙ (v t).waiting h;
          over =
              λ h k. let (c, l, real) = (v t).over (sym st ∙ h) k in (c, d ∙ l, λ e. more (real e));
        })
        (λ u _. v u)

  -- An operation that is started and not handed over, for its token is asked to stop.
  pub refused-Inv :
      (w : World pool.State V E) (t : ℕ)
      → (w.ops t).started ≡ false
      → (w.ops t).asked ≡ true
      → Inv w
      → Inv (deliver t set_stopped (set_op t (record (w.ops t) { started = true }) w))
  refused-Inv w t f a v =
      let o : Op V E = record (w.ops t) { started = true } in
      let w1 : World pool.State V E = set_op t o w in
      let same : w1.ops t ≡ o = update_same w.ops t o in
      let (idle, d) = (v t).fresh f in
      delivered-Inv w1 w.state t set_stopped (update-unchanged (pool.pending w.state) t false idle)
        (ap (λ x. x.started) same) (ap (λ x. x.delivered) same ∙ d)
        (λ _. ap (λ x. x.asked) same ∙ a) (set_op-Elsewhere w t o (λ u _. v u))

  -- An operation whose task is handed over to the manager.
  pub admitted-Inv :
      (w : World pool.State V E) (r : pool.Request) (t : ℕ) (o : Op V E)
      → (w.ops t).started ≡ false
      → o.started ≡ true
      → o.delivered ≡ (w.ops t).delivered
      → Inv w
      → Inv (set_op t o (record w { state = (pool.admit r t w.state).0 }))
  admitted-Inv w r t o f st d v =
      let (idle, none_yet) = (v t).fresh f in
      changed-Inv w (pool.admit r t w.state).0 t true o (pool.admit_lem r t w.state idle).1
        (record {
          fresh = λ h. absurd (cc (h, st));
          waiting = λ h. d ∙ none_yet;
          over = λ h k. absurd (cc k);
        })
        (λ u _. v u)

  -- What holds of one operation: it was not started, and is not completed; or the manager holds it,
  -- and it is not completed; or it was given one completion, and it is not stopped unless asked to.
  abbrev pub Completes : World pool.State V E → ℕ → Type 0
  Completes w t =
      (((w.ops t).started ≡ false) × ((w.ops t).delivered ≡ []))
      ⊎ (((pool.pending w.state t ≡ true) × ((w.ops t).delivered ≡ []))
          ⊎ ((c : Completion V E) × ((w.ops t).delivered ≡ c ∷ [])
              × (c ≡ set_stopped → (w.ops t).asked ≡ true)))

  pub Inv-Completes : (w : World pool.State V E) (t : ℕ) → Inv w → Completes w t
  Inv-Completes w t v = elim (Bool-cases (w.ops t).started) [
    | inr f ↦ inl (f, ((v t).fresh f).1)
    | inl s ↦ elim (Bool-cases (pool.pending w.state t)) [
      | inl p ↦ inr (inl (p, (v t).waiting p))
      | inr p ↦ inr (inr ((v t).over s p))
    ]
  ]

  -- Nothing was started.
  pub new-Inv :
      (w : World pool.State V E)
      → ((t : ℕ) → ((w.ops t).started ≡ false) × ((w.ops t).delivered ≡ []))
      → ((t : ℕ) → pool.pending w.state t ≡ false)
      → Inv w
  new-Inv w f p t = record {
    fresh = λ _. (p t, (f t).1);
    waiting = λ _. (f t).1;
    over = λ h _. absurd (cc (h, (f t).0));
  }
