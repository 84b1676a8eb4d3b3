-- ===== src/StartDetached/OneType.antt =====
-- What `stop_detached` finds where one type of sender is started under its name.
use cpp_baremetal_senders_an.Base.{
  ℕ, ◌≡◌, ◌↔◌, refl, sym, ap, ◌∙◌, subst, Bool, true, false, not, none, some, List, [], ◌∷◌, inl,
  inr, arith, update, Option-cases, update_same, update_other,
}
use native.Mathlib.Decide.{ℕ_discrete}
use mathlib.Core.Option.{some-injective}
use cpp_baremetal_senders_an.StartDetached.{
  Allocation, Detached, use_single_stop_source, start, die, request_stop, stop_detached,
}
use cpp_baremetal_senders_an.StartDetached.Stopping.{
  Event, started_at, ended_at, logged, Live, current, Step, starts, dies, requests, stops, Reach,
  here, next, request_stop-same, stop_detached-same, start-none, start-some, placed, set-alloc,
  die-used, stop_detached-current,
}

module _ (allocation : Allocation) where
  -- A log of operations of one type.
  abbrev pub OfType : ℕ → List Event → Type 0
  OfType ty [] = Unit {0}
  OfType ty (started_at p ∷ es) = (allocation.type_of p ≡ ty) × OfType ty es
  OfType ty (ended_at p ∷ es) = (allocation.type_of p ≡ ty) × OfType ty es

module _ (allocation : Allocation) (stoppable : ℕ → Bool) (ty : ℕ)
    (single : use_single_stop_source allocation stoppable ty ≡ true) where
  limit_of_single : allocation.limit ty ≡ 1
  unfolding use_single_stop_source
  limit_of_single = ground (arith, single)

  current-started :
      (p : ℕ) (es : List Event)
      → allocation.type_of p ≡ ty
      → current allocation stoppable (started_at p ∷ es) ≡ some p
  unfolding current
  current-started p es e = rw (e, single) refl

  current-type :
      (es : List Event) (p : ℕ)
      → OfType allocation ty es
      → current allocation stoppable es ≡ some p
      → allocation.type_of p ≡ ty
  unfolding current
  current-type [] p o e = absurd (cc e)
  current-type (started_at q ∷ es) p o e =
      subst (λ q. allocation.type_of q ≡ ty)
        (some-injective q p (sym (current-started q es o.0) ∙ e)) o.0
  current-type (ended_at q ∷ es) p o e =
      let gone : current allocation stoppable (ended_at q ∷ es) ≡ none = rw (o.0, single) refl in
      absurd (cc (gone, e))

  -- An operation that is not over is the one whose start was the last event.
  abbrev Held : List Event → Detached allocation.State → Type 0
  Held es d =
      OfType allocation ty es
      → (p : ℕ) → Live allocation stoppable d p
      → current allocation stoppable es ≡ some p

  same-Held :
      (es : List Event) (d d' : Detached allocation.State)
      → d'.alloc ≡ d.alloc
      → Held es d
      → Held es d'
  same-Held es d d' a v o p l = v o p (sym (ap (λ s. allocation.used s p) a) ∙ l)

  start-Held :
      (es : List Event) (d : Detached allocation.State) (u : ℕ)
      → Held es d
      → Held (logged (start allocation stoppable u d).1 es) (start allocation stoppable u d).0
  start-Held es d u v = elim (Option-cases ((allocation.construct u d.alloc).0)) [
    | inl e ↦ subst (λ x. Held (logged x.1 es) x.0) (sym (start-none allocation stoppable u d e)) v
    | inr (p, e) ↦
        subst (λ x. Held (logged x.1 es) x.0) (sym (start-some allocation stoppable u d p e))
          (λ o q l.
            let (_, _, now) = allocation.construct_some u d.alloc p e in
            let after : allocation.used (allocation.construct u d.alloc).1 q ≡ true =
              sym (
                ap (λ s. allocation.used s q)
                  (set-alloc allocation stoppable u (some p) (placed allocation stoppable u p d)))
              ∙ l in
            elim (ℕ_discrete p q) [
              | yes same ↦ current-started p es o.0 ∙ ap some same
              | no other ↦
                  let before : Live allocation stoppable d q =
                    sym (update_other (allocation.used d.alloc) p q true (λ x. other (sym x)))
                    ∙ sym (now q)
                    ∙ after in
                  let of : allocation.type_of q ≡ ty = current-type es q o.1 (v o.1 q before) in
                  absurd (
                    other (
                      allocation.limit_one (allocation.construct u d.alloc).1 p q
                        (ap allocation.limit o.0 ∙ limit_of_single) (o.0 ∙ sym of)
                        (now p ∙ update_same (allocation.used d.alloc) p true) after))
            ])
  ]

  die-Held :
      (es : List Event) (d : Detached allocation.State) (p : ℕ)
      → Live allocation stoppable d p
      → Held es d
      → Held (ended_at p ∷ es) (die allocation stoppable p d)
  die-Held es d p l v o q k = elim (ℕ_discrete p q) [
    | yes same ↦ absurd (
        cc (
          sym k,
          die-used allocation stoppable d p l q,
          subst (λ q. update (allocation.used d.alloc) p false q ≡ false) same
              (update_same (allocation.used d.alloc) p false),
        ))
    | no other ↦
        let before : Live allocation stoppable d q =
          sym (update_other (allocation.used d.alloc) p q false (λ x. other (sym x)))
          ∙ sym (die-used allocation stoppable d p l q)
          ∙ k in
        absurd (other (some-injective p q (sym (v o.1 p l) ∙ v o.1 q before)))
  ]

  Step-Held :
      {es : List Event} {d : Detached allocation.State} {fs : List Event}
      {d' : Detached allocation.State}
      → Step allocation stoppable es d fs d'
      → Held es d
      → Held fs d'
  Step-Held {es} {d} (starts u) v = start-Held es d u v
  Step-Held {es} {d} (dies p l) v = die-Held es d p l v
  Step-Held {es} {d} (requests p l) v =
      same-Held es d (request_stop allocation stoppable p d).0
        (request_stop-same allocation stoppable d p).0 v
  Step-Held {es} {d} stops v =
      same-Held es d (stop_detached allocation stoppable d).0
        (stop_detached-same allocation stoppable d).0 v

  module _ {d : Detached allocation.State}
      (none_live : (p : ℕ) → allocation.used d.alloc p ≡ false) where
    Reach-Held :
        {es : List Event} {d' : Detached allocation.State}
        → Reach allocation stoppable d es d'
        → Held es d'
    Reach-Held here o p l = absurd (cc (none_live p, l))
    Reach-Held (next r st) o p l = Step-Held st (Reach-Held r) o p l

  -- Where all the operations that were started under a name are of one type, which has a single stop
  -- source, however they were started, stopped and completed, from none: `stop_detached` returns true
  -- exactly if there is an operation that is not over and was not yet asked to stop.
  pub stop_detached_iff :
      {d : Detached allocation.State} {es : List Event} {d' : Detached allocation.State}
      → d.stop_source_for ≡ none
      → ((p : ℕ) → allocation.used d.alloc p ≡ false)
      → Reach allocation stoppable d es d'
      → OfType allocation ty es
      → ((stop_detached allocation stoppable d').1 ≡ true)
        ↔ ((p : ℕ) × Live allocation stoppable d' p × (d'.requested p ≡ false))
  stop_detached_iff {d} {es} {d'} o k r all =
      let (asks, idle) = stop_detached-current allocation stoppable o r in
      (
        λ t. elim (Option-cases (current allocation stoppable es)) [
          | inl e ↦ absurd (cc (sym (ap (λ x. x.1) (idle e)) ∙ t))
          | inr (p, e) ↦
              let (l, now) = asks p e in
              let unasked : not (d'.requested p) ≡ true = sym (ap (λ x. x.1) now) ∙ t in
              (p, l, ground (arith, unasked))
        ],
        λ (p, l, n). ap (λ x. x.1) (asks p (Reach-Held k r all p l)).1 ∙ ap not n,
      )
