-- ===== src/StartDetached/Stopping.antt =====
-- What `stop_detached` finds of the operations that were started detached under its name.
use cpp_baremetal_senders_an.Base.{
  ℕ, ◌≡◌, refl, sym, ap, ◌∙◌, subst, Bool, true, false, not, Option, none, some, List, [], ◌∷◌, inl,
  inr, if◌then◌else◌, arith, update, Bool-cases, Option-cases, update_same, update_other,
}
use mathlib.Core.Option.{some-injective}
use cpp_baremetal_senders_an.StartDetached.{
  Allocation, Detached, use_single_stop_source, set_stop_source, start, die, request_stop,
  stop_detached,
}

pub data Event : Type 0 where
  started_at : ℕ → Event
  ended_at : ℕ → Event

-- What a call of `start` adds to the log, by what it returns.
abbrev pub logged : Option ℕ → List Event → List Event
logged none es = es
logged (some p) es = started_at p ∷ es

module _ (allocation : Allocation) (stoppable : ℕ → Bool) where
  abbrev pub Live : Detached allocation.State → ℕ → Type 0
  Live d p = allocation.used d.alloc p ≡ true

  abbrev pub HasSingle : ℕ → Type 0
  HasSingle p = use_single_stop_source allocation stoppable (allocation.type_of p) ≡ true

  -- Of a log, the newest first: the operation whose start is the last that happened to the
  -- operations with a single stop source.
  unfoldable pub current : List Event → Option ℕ
  current [] = none
  current (started_at p ∷ es) =
      if use_single_stop_source allocation stoppable (allocation.type_of p)
      then some p
      else current es
  current (ended_at p ∷ es) =
      if use_single_stop_source allocation stoppable (allocation.type_of p)
      then none
      else current es

  -- Operations of any types are started, complete once, and are asked to stop, through the pointer
  -- that was returned or by `stop_detached`.
  pub data Step (es : List Event) (d : Detached allocation.State)
      : List Event → Detached allocation.State → Type 0 where
    starts :
        (ty : ℕ)
        → Step es d
            (logged (start allocation stoppable ty d).1 es)
            (start allocation stoppable ty d).0
    dies : (p : ℕ) → Live d p → Step es d (ended_at p ∷ es) (die allocation stoppable p d)
    requests : (p : ℕ) → Live d p → Step es d es (request_stop allocation stoppable p d).0
    stops : Step es d es (stop_detached allocation stoppable d).0

  pub data Reach (d : Detached allocation.State)
      : List Event → Detached allocation.State → Type 0 where
    here : Reach d [] d
    next :
        {es : List Event} {u : Detached allocation.State} {fs : List Event}
        {v : Detached allocation.State}
        → Reach d es u
        → Step es u fs v
        → Reach d fs v

  -- The variable `stop_source_for` against the log.
  pub record Tracks (es : List Event) (d : Detached allocation.State) : Type 0 where
    pub same : d.stop_source_for ≡ current es
    pub live : (p : ℕ) → current es ≡ some p → Live d p × HasSingle p

  pub request_stop-same :
      (d : Detached allocation.State) (p : ℕ)
      → ((request_stop allocation stoppable p d).0.alloc ≡ d.alloc)
        × ((request_stop allocation stoppable p d).0.stop_source_for ≡ d.stop_source_for)
  unfolding request_stop
  request_stop-same d p = elim (Bool-cases (stoppable (allocation.type_of p))) [
    | inl h ↦ simp (request_stop, h) (refl, refl)
    | inr h ↦ simp (request_stop, h) (refl, refl)
  ]

  stop_detached-some :
      (d : Detached allocation.State) (p : ℕ)
      → d.stop_source_for ≡ some p
      → stop_detached allocation stoppable d ≡ request_stop allocation stoppable p d
  unfolding stop_detached
  stop_detached-some d p e = simp (stop_detached, e)

  stop_detached-none :
      (d : Detached allocation.State)
      → d.stop_source_for ≡ none
      → stop_detached allocation stoppable d ≡ (d, false)
  unfolding stop_detached
  stop_detached-none d e = simp (stop_detached, e)

  pub stop_detached-same :
      (d : Detached allocation.State)
      → ((stop_detached allocation stoppable d).0.alloc ≡ d.alloc)
        × ((stop_detached allocation stoppable d).0.stop_source_for ≡ d.stop_source_for)
  stop_detached-same d = elim (Option-cases d.stop_source_for) [
    | inl e ↦ rw (stop_detached-none d e) (refl, refl)
    | inr (p, e) ↦ rw (stop_detached-some d p e) (request_stop-same d p)
  ]

  same-Tracks :
      (es : List Event) (d d' : Detached allocation.State)
      → (d'.alloc ≡ d.alloc) × (d'.stop_source_for ≡ d.stop_source_for)
      → Tracks es d
      → Tracks es d'
  same-Tracks es d d' (a, o) v = record {
    same = o ∙ v.same;
    live = λ p e. let (l, h) = v.live p e in (ap (λ s. allocation.used s p) a ∙ l, h);
  }

  pub start-none :
      (ty : ℕ) (d : Detached allocation.State)
      → (allocation.construct ty d.alloc).0 ≡ none
      → start allocation stoppable ty d ≡ (d, none)
  unfolding start
  start-none ty d e = simp (start, e, allocation.construct_none ty d.alloc e)

  -- `start` before the stop source is set.
  abbrev pub placed : ℕ → ℕ → Detached allocation.State → Detached allocation.State
  placed ty p d = record d {
    alloc = (allocation.construct ty d.alloc).1;
    requested = update d.requested p false;
  }

  pub start-some :
      (ty : ℕ) (d : Detached allocation.State) (p : ℕ)
      → (allocation.construct ty d.alloc).0 ≡ some p
      → start allocation stoppable ty d
        ≡ (set_stop_source allocation stoppable ty (some p) (placed ty p d), some p)
  unfolding start
  start-some ty d p e = simp (start, e)

  pub set-alloc :
      (ty : ℕ) (o : Option ℕ) (d : Detached allocation.State)
      → (set_stop_source allocation stoppable ty o d).alloc ≡ d.alloc
  unfolding set_stop_source
  set-alloc ty o d = elim (Bool-cases (use_single_stop_source allocation stoppable ty)) [
    | inl h ↦ rw h refl
    | inr h ↦ rw h refl
  ]

  set-source :
      (ty : ℕ) (o : Option ℕ) (d : Detached allocation.State)
      → (set_stop_source allocation stoppable ty o d).stop_source_for
        ≡ (if use_single_stop_source allocation stoppable ty then o else d.stop_source_for)
  unfolding set_stop_source
  set-source ty o d = elim (Bool-cases (use_single_stop_source allocation stoppable ty)) [
    | inl h ↦ rw h refl
    | inr h ↦ rw h refl
  ]

  started-Tracks :
      (es : List Event) (d : Detached allocation.State) (p : ℕ)
      → (allocation.construct (allocation.type_of p) d.alloc).0 ≡ some p
      → Tracks es d
      → Tracks (started_at p ∷ es) (
          set_stop_source allocation stoppable
            (allocation.type_of p)
            (some p)
            (placed (allocation.type_of p) p d))
  unfolding current
  started-Tracks es d p e v =
      let ty = allocation.type_of p in
      let (_, free, now) = allocation.construct_some ty d.alloc p e in
      let d1 : Detached allocation.State =
        set_stop_source allocation stoppable ty (some p) (placed ty p d) in
      let there : (q : ℕ)
          → allocation.used (set_stop_source allocation stoppable ty (some p) (placed ty p d)).alloc
              q
            ≡ update (allocation.used d.alloc) p true q =
        λ q. ap (λ s. allocation.used s q) (set-alloc ty (some p) (placed ty p d)) ∙ now q in
      elim (Bool-cases (use_single_stop_source allocation stoppable ty)) [
        | inl h ↦ record {
          same = set-source ty (some p) (placed ty p d) ∙ rw h refl;
          live = λ q k.
              let here : p ≡ q = some-injective p q (rw (sym k, current, h) refl) in
              subst (λ q. Live d1 q × HasSingle q) here
                (there p ∙ update_same (allocation.used d.alloc) p true, h);
        }
        | inr h ↦ record {
          same = set-source ty (some p) (placed ty p d) ∙ rw h v.same;
          live = λ q k.
              let (l, sg) = v.live q (rw (sym k, current, h) refl) in
              (
                there q
                    ∙ update_other (allocation.used d.alloc) p q true
                        (λ x. absurd (cc (l, ap (allocation.used d.alloc) x, free)))
                    ∙ l,
                sg,
              );
        }
      ]

  start-Tracks :
      (es : List Event) (ty : ℕ) (d : Detached allocation.State)
      → Tracks es d
      → Tracks (logged (start allocation stoppable ty d).1 es) (start allocation stoppable ty d).0
  start-Tracks es ty d v = elim (Option-cases ((allocation.construct ty d.alloc).0)) [
    | inl e ↦ subst (λ x. Tracks (logged x.1 es) x.0) (sym (start-none ty d e)) v
    | inr (p, e) ↦
        let same : allocation.type_of p ≡ ty = (allocation.construct_some ty d.alloc p e).0 in
        subst (λ x. Tracks (logged x.1 es) x.0) (sym (start-some ty d p e))
          (subst
            (λ ty.
              Tracks (started_at p ∷ es)
                (set_stop_source allocation stoppable ty (some p) (placed ty p d)))
            same
            (started-Tracks es d p
              (subst (λ ty. (allocation.construct ty d.alloc).0 ≡ some p) (sym same) e) v))
  ]

  pub die-used :
      (d : Detached allocation.State) (p : ℕ)
      → Live d p
      → (q : ℕ)
      → allocation.used (die allocation stoppable p d).alloc q
        ≡ update (allocation.used d.alloc) p false q
  unfolding die
  die-used d p l q =
      ap (λ s. allocation.used (allocation.destruct p s) q)
        (set-alloc (allocation.type_of p) none d)
      ∙ allocation.destruct_lem p d.alloc l q

  die-Tracks :
      (es : List Event) (d : Detached allocation.State) (p : ℕ)
      → Live d p
      → Tracks es d
      → Tracks (ended_at p ∷ es) (die allocation stoppable p d)
  unfolding die current
  die-Tracks es d p l v =
      let ty = allocation.type_of p in
      elim (Bool-cases (use_single_stop_source allocation stoppable ty)) [
        | inl h ↦ record {
          same = set-source ty none d ∙ rw h refl;
          live = λ q k. absurd (cc (the_none h, k));
        }
        | inr h ↦ record {
          same = set-source ty none d ∙ rw h v.same;
          live = λ q k.
              let (a, sg) = v.live q (rw (sym k, current, h) refl) in
              (
                die-used d p l q
                    ∙ update_other (allocation.used d.alloc) p q false (λ x. absurd (
                        cc (
                          sg,
                          ap
                              (λ q.
                                use_single_stop_source allocation stoppable (allocation.type_of q))
                              x,
                          h,
                        )))
                    ∙ a,
                sg,
              );
        }
      ]
    where
      the_none : HasSingle p → current (ended_at p ∷ es) ≡ none
      the_none h = rw (current, h) refl

  Step-Tracks :
      {es : List Event} {d : Detached allocation.State} {fs : List Event}
      {d' : Detached allocation.State}
      → Step es d fs d'
      → Tracks es d
      → Tracks fs d'
  Step-Tracks {es} {d} (starts ty) v = start-Tracks es ty d v
  Step-Tracks {es} {d} (dies p l) v = die-Tracks es d p l v
  Step-Tracks {es} {d} (requests p l) v = same-Tracks es d _ (request_stop-same d p) v
  Step-Tracks {es} {d} stops v = same-Tracks es d _ (stop_detached-same d) v

  pub Reach-Tracks :
      {d : Detached allocation.State} {es : List Event} {d' : Detached allocation.State}
      → d.stop_source_for ≡ none
      → Reach d es d'
      → Tracks es d'
  unfolding current
  Reach-Tracks o here = record { same = o; live = λ p e. absurd (cc e) }
  Reach-Tracks o (next r st) = Step-Tracks st (Reach-Tracks o r)

  single_stoppable : (p : ℕ) → HasSingle p → stoppable (allocation.type_of p) ≡ true
  unfolding use_single_stop_source
  single_stoppable p h = ground (arith, h)

  request_stop-asks :
      (d : Detached allocation.State) (p : ℕ)
      → HasSingle p
      → request_stop allocation stoppable p d
        ≡ (record d { requested = update d.requested p true }, not (d.requested p))
  unfolding request_stop
  request_stop-asks d p h = rw (single_stoppable p h) refl

  -- However operations of any types were started under a name, stopped and completed, from none:
  -- where the start of `p` is the last that happened to the operations with a single stop source,
  -- which are those that can be asked to stop and whose allocator has room for one, `p` is not over,
  -- and `stop_detached` asks `p` and no other to stop and returns true unless `p` was asked before.
  -- Where one of them has ended since the last start, or none was started, it returns false and does
  -- nothing.
  pub stop_detached-current :
      {d : Detached allocation.State} {es : List Event} {d' : Detached allocation.State}
      → d.stop_source_for ≡ none
      → Reach d es d'
      → ((p : ℕ)
          → current es ≡ some p
          → Live d' p
            × (stop_detached allocation stoppable d'
                ≡ (record d' { requested = update d'.requested p true }, not (d'.requested p))))
        × (current es ≡ none → stop_detached allocation stoppable d' ≡ (d', false))
  stop_detached-current {d} {es} {d'} o r =
      let v : Tracks es d' = Reach-Tracks o r in
      (
        λ p e.
            let (l, h) = v.live p e in
            (l, stop_detached-some d' p (v.same ∙ e) ∙ request_stop-asks d' p h),
        λ e. stop_detached-none d' (v.same ∙ e),
      )
