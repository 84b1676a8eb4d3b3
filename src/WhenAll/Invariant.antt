-- ===== src/WhenAll/Invariant.antt =====
-- What holds of a `when_all` operation between any two steps of its children.
use cpp_baremetal_senders_an.Base.{
  ℕ, zero, suc, ◌<◌, ◌≡◌, ◌≢◌, refl, ap, ◌∙◌, sym, inl, inr, ◌⊎◌, Bool, true, Option, none, some,
  List, [], ◌++◌, arith, update, Option-cases,
}
use cpp_baremetal_senders_an.Channel.{Completion, set_value, set_error, set_stopped}
use cpp_baremetal_senders_an.WhenAll.{OpState, store, store_error, request_stop, notify}
use cpp_baremetal_senders_an.WhenAll.Steps.{
  Phase, running, arriving, done, World, Step, value_stored, error_stored, stopped_child, counted,
  stopped_downstream, begun,
}

-- What a child has sent.
abbrev pub sent : {V E : Type 0} → Phase V E → Option (Completion V E)
sent running = none
sent (arriving c) = some c
sent (done c) = some c

-- The values of all children in order, if each has sent its values.
unfoldable pub collected : {V E : Type 0} → (ℕ → Phase V E) → ℕ → Option (List V)
collected phases zero = some []
collected phases (suc n) = elim (sent (phases n)) [
  | some (set_value vs) ↦ elim (collected phases n) [ none ↦ none | some xs ↦ some (xs ++ vs) ]
  | _ ↦ none
]

-- A child that had sent nothing does not count among those that have.
sent_elsewhere :
    {V E : Type 0} (phases : ℕ → Phase V E) (i j : ℕ) (p : Phase V E) (c : Completion V E)
    → phases i ≡ running
    → sent (phases j) ≡ some c
    → sent (update phases i p j) ≡ some c
sent_elsewhere phases i j p c r h = ground arith

sent_here :
    {V E : Type 0} (phases : ℕ → Phase V E) (i : ℕ) (p : Phase V E)
    → sent (update phases i p i) ≡ sent p
sent_here phases i p = ground arith

pub sent_counted :
    {V E : Type 0} (phases : ℕ → Phase V E) (i j : ℕ) (c : Completion V E)
    → phases i ≡ arriving c
    → sent (update phases i (done c) j) ≡ sent (phases j)
sent_counted phases i j c a = ground arith

module _ {V E : Type 0} (n : ℕ) where
  -- What the downstream receiver may be given, in terms of what the children and the downstream
  -- token did: all values in order, an error that a child sent, or stopped where no child sent an
  -- error and some child or the downstream token stopped.
  abbrev pub Outcome : World V E → Completion V E → Type 0
  Outcome w (set_value xs) = collected w.phases n ≡ some xs
  Outcome w (set_error e) = (i : ℕ) × (i < n) × (sent (w.phases i) ≡ some (set_error e))
  Outcome w set_stopped =
      ((i : ℕ) (e : E) → i < n → sent (w.phases i) ≢ some (set_error e))
      × ((w.downstream ≡ true) ⊎ ((i : ℕ) × (i < n) × (sent (w.phases i) ≡ some set_stopped)))

  module _ (sends : ℕ → Bool) where
    pub record Facts (w : World V E) : Type 0 where
      pub values_kept :
          (i : ℕ) (vs : List V)
          → i < n
          → sent (w.phases i) ≡ some (set_value vs)
          → (sends i ≡ true) × (w.op.values i ≡ some vs)
      pub error_known :
          (i : ℕ) (e : E)
          → i < n
          → sent (w.phases i) ≡ some (set_error e)
          → w.op.caught_error ≢ none
      pub error_real :
          (e : E)
          → w.op.caught_error ≡ some e
          → (i : ℕ) × (i < n) × (sent (w.phases i) ≡ some (set_error e))
      pub stop_known :
          (i : ℕ) → i < n → sent (w.phases i) ≡ some set_stopped → w.op.stop_requested ≡ true
      pub stop_real :
          w.op.stop_requested ≡ true
          → w.op.caught_error ≡ none
          → (w.downstream ≡ true) ⊎ ((i : ℕ) × (i < n) × (sent (w.phases i) ≡ some set_stopped))

    value_stored-Facts :
        (w : World V E) (i : ℕ) (vs : List V)
        → i < n
        → w.phases i ≡ running
        → sends i ≡ true
        → Facts w
        → Facts (record w {
          op = store sends i vs w.op;
          phases = update w.phases i (arriving (set_value vs));
        })
    unfolding store
    value_stored-Facts w i vs lt r s f =
        let p : Phase V E = arriving (set_value vs) in
        rw (s, store)
          record {
            values_kept = λ j us h e. ground (arith, f.values_kept j us h, s);
            error_known = λ j e h k. ground (arith, f.error_known j e h);
            error_real = λ e c.
                let (j, h, k) = f.error_real e c in
                (j, h, sent_elsewhere w.phases i j p (set_error e) r k);
            stop_known = λ j h k. ground (arith, f.stop_known j h);
            stop_real = λ a b. elim (f.stop_real a b) [
              | inl d ↦ inl d
              | inr (j, h, k) ↦ inr (j, h, sent_elsewhere w.phases i j p set_stopped r k)
            ];
          }

    error_stored-Facts :
        (w : World V E) (i : ℕ) (e : E)
        → i < n
        → w.phases i ≡ running
        → Facts w
        → Facts (record w {
          op = request_stop (store_error e w.op);
          phases = update w.phases i (arriving (set_error e));
        })
    unfolding store_error request_stop
    error_stored-Facts w i e lt r f =
        let p : Phase V E = arriving (set_error e) in
        record {
          values_kept = λ j us h k. ground (arith, f.values_kept j us h);
          error_known = λ j x h k. ground arith;
          error_real = λ x c. elim (Option-cases w.op.caught_error) [
            | inl none_yet ↦ (i, lt, ground arith)
            | inr (y, old) ↦
                let (j, h, k) = f.error_real x (ground arith) in
                (j, h, sent_elsewhere w.phases i j p (set_error x) r k)
          ];
          stop_known = λ j h k. refl;
          stop_real = λ a b. absurd (ground arith);
        }

    stopped_child-Facts :
        (w : World V E) (i : ℕ)
        → i < n
        → w.phases i ≡ running
        → Facts w
        → Facts
            (record w { op = request_stop w.op; phases = update w.phases i (arriving set_stopped) })
    unfolding request_stop
    stopped_child-Facts w i lt r f =
        let p : Phase V E = arriving set_stopped in
        record {
          values_kept = λ j us h k. ground (arith, f.values_kept j us h);
          error_known = λ j x h k. ground (arith, f.error_known j x h);
          error_real = λ x c.
              let (j, h, k) = f.error_real x c in
              (j, h, sent_elsewhere w.phases i j p (set_error x) r k);
          stop_known = λ j h k. refl;
          stop_real = λ a b. inr (i, lt, sent_here w.phases i p);
        }

    -- Steps that change nothing of what was sent and caught.
    pub Facts-ext :
        (w w' : World V E)
        → ((j : ℕ) → sent (w'.phases j) ≡ sent (w.phases j))
        → w'.op.values ≡ w.op.values
        → w'.op.caught_error ≡ w.op.caught_error
        → w'.op.stop_requested ≡ w.op.stop_requested
        → w'.downstream ≡ w.downstream
        → Facts w
        → Facts w'
    Facts-ext w w' ph va ca st dn f = record {
      values_kept = λ j us h k.
          let (a, b) = f.values_kept j us h (sym (ph j) ∙ k) in (a, ap (λ g. g j) va ∙ b);
      error_known = λ j x h k c. f.error_known j x h (sym (ph j) ∙ k) (sym ca ∙ c);
      error_real = λ x c. let (j, h, k) = f.error_real x (sym ca ∙ c) in (j, h, ph j ∙ k);
      stop_known = λ j h k. st ∙ f.stop_known j h (sym (ph j) ∙ k);
      stop_real = λ a b. elim (f.stop_real (sym st ∙ a) (sym ca ∙ b)) [
        | inl d ↦ inl (dn ∙ d)
        | inr (j, h, k) ↦ inr (j, h, ph j ∙ k)
      ];
    }

    notify-keeps :
        (s : OpState V E)
        → ((notify sends n s).values ≡ s.values)
          × ((notify sends n s).caught_error ≡ s.caught_error)
          × ((notify sends n s).stop_requested ≡ s.stop_requested)
    unfolding notify
    notify-keeps s = ground arith

    -- Every step keeps what is known of the children's completions.
    pub Step-Facts : {w w' : World V E} → Step sends n w w' → Facts w → Facts w'
    Step-Facts (value_stored w i vs lt r s) f = value_stored-Facts w i vs lt r s f
    Step-Facts (error_stored w i e lt r) f = error_stored-Facts w i e lt r f
    Step-Facts (stopped_child w i lt r) f = stopped_child-Facts w i lt r f
    Step-Facts (counted w i c lt a) f =
        let (va, ca, st) = notify-keeps w.op in
        Facts-ext w _ (λ j. sent_counted w.phases i j c a) va ca st refl f
    Step-Facts (stopped_downstream w cb) f = record {
      values_kept = unfold request_stop in f.values_kept;
      error_known = unfold request_stop in f.error_known;
      error_real = unfold request_stop in f.error_real;
      stop_known = λ j h k. unfold request_stop in refl;
      stop_real = λ a b. inl refl;
    }

    pub begun-Facts : Facts (begun n)
    unfolding begun
    begun-Facts = record {
      values_kept = λ j us h k. absurd (cc);
      error_known = λ j x h k c. absurd (cc);
      error_real = λ x c. absurd (cc);
      stop_known = λ j h k. absurd (cc);
      stop_real = λ a b. absurd (cc);
    }
