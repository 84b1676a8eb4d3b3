-- ===== src/Split/Once.antt =====
-- Each operation on a split sender is completed once, and the shared operation is started once.
use cpp_baremetal_senders_an.Base.{
  ℕ, suc, ◌+◌, ◌<◌, ◌≡◌, refl, sym, ap, ◌∙◌, subst, Bool, true, false, not, Option, none, some,
  List, [], ◌∷◌, arith, bit, length, count, is_empty, update, update_same, ◌⊎◌, if◌then◌else◌, inl,
  inr, Bool-cases, bit-update-true,
}
use mathlib.Core.Option.{some-injective}
use cpp_baremetal_senders_an.Channel.{Completion, set_stopped}
use cpp_baremetal_senders_an.Split.{
  State, connect, deliver, complete, notify, receive, ask, start, link, emplace_stop_cb,
}
use cpp_baremetal_senders_an.Split.Shared.{
  notify-fuel, complete_all_one, Chain, Chain-update, complete_all, complete_all_lem,
  notify-complete_all, length-deliver,
}

module _ {V E : Type 0} where
  -- The shared operation is not over: an operation that was started waits in the list, once, or was
  -- completed once.
  pub record Waiting (s : State V E) (l : List ℕ) : Type 0 where
    pub running : s.values ≡ none
    pub chain : Chain s.next_ops s.linked_ops l
    pub single : s.single_starts ≡ bit (not (is_empty l))
    pub once : (t : ℕ) → count t l + length (s.delivered t) ≡ bit (s.started t)

  -- The shared operation is over: each operation that was started was completed once.
  pub record Over (s : State V E) : Type 0 where
    pub stored : (c : Completion V E) × (s.values ≡ some c)
    pub single : s.single_starts ≡ 1
    pub once : (t : ℕ) → length (s.delivered t) ≡ bit (s.started t)

  abbrev pub Inv : State V E → Type 0
  Inv s = ((l : List ℕ) × Waiting s l) ⊎ Over s

  -- A split sender whose operations are not started.
  pub record Fresh (s : State V E) : Type 0 where
    pub running : s.values ≡ none
    pub unlinked : s.linked_ops ≡ none
    pub single : s.single_starts ≡ 0
    pub idle : (t : ℕ) → (s.started t ≡ false) × (s.delivered t ≡ [])

module _ {V E : Type 0} (left : ℕ → Completion V E → Completion V E) where
  pub data Step : State V E → State V E → Type 0 where
    connects : (s : State V E) → Step s (connect s)
    starts : (s : State V E) (t : ℕ) → s.started t ≡ false → Step s (start left t s)
    asks : (s : State V E) (t : ℕ) → Step s (ask t s)
    receives :
        (s s' : State V E) (fuel : ℕ) (c : Completion V E)
        → s.values ≡ none
        → receive left fuel c s ≡ some s'
        → Step s s'

  pub data Reach (s : State V E) : State V E → Type 0 where
    here : Reach s s
    next : {u v : State V E} → Reach s u → Step u v → Reach s v

  receive-linked :
      (s : State V E) (c : Completion V E) (fuel t : ℕ)
      → s.linked_ops ≡ some t
      → receive left fuel c s ≡ notify left fuel t (record s { values = some c })
  unfolding receive
  receive-linked s c fuel t e = rw e refl

  receive-Over :
      (s : State V E) (c : Completion V E) (fuel t : ℕ) (l : List ℕ)
      → Waiting s (t ∷ l)
      → length l < fuel
      → (s' : State V E) × (receive left fuel c s ≡ some s') × Over s'
  receive-Over s c fuel t l w h =
      let s1 : State V E = record s { values = some c } in
      let (vals, n, st, d) = complete_all_lem left (t ∷ l) s1 c refl in
      (
        complete_all left (t ∷ l) s1,
        receive-linked s c fuel t w.chain.0 ∙ notify-complete_all left fuel t l s1 h w.chain.1,
        record {
          stored = vals;
          single = n ∙ w.single;
          once = λ u. omega (arith, d u, w.once u, ap (λ f. bit (f u)) st);
        },
      )

  start-over :
      (s : State V E) (t : ℕ) (c : Completion V E)
      → s.values ≡ some c
      → start left t s ≡ complete left t (record s { started = update s.started t true })
  unfolding start
  start-over s t c e = rw e refl

  -- What `start` does before the shared operation is over.
  start-running :
      (s : State V E) (t : ℕ)
      → s.values ≡ none
      → let s1 : State V E = emplace_stop_cb t (record s { started = update s.started t true }) in
        start left t s ≡ (if s1.stop_requested then deliver t set_stopped s1 else link t s1)
  unfolding start
  start-running s t e = rw e refl

  link_lem :
      (s : State V E) (t : ℕ) (l : List ℕ)
      → Chain s.next_ops s.linked_ops l
      → s.single_starts ≡ bit (not (is_empty l))
      → ((link t s).single_starts ≡ 1)
        × ((link t s).linked_ops ≡ some t)
        × ((link t s).next_ops ≡ update s.next_ops t s.linked_ops)
        × ((link t s).values ≡ s.values)
        × ((link t s).delivered ≡ s.delivered)
        × ((link t s).started ≡ s.started)
  unfolding link
  link_lem s t [] c n = rw c (ap suc n, refl, refl, refl, refl, refl)
  link_lem s t (u ∷ l) c n = rw c.0 (n, refl, refl, refl, refl, refl)

  -- An operation that is stopped at once.
  stopped-Waiting :
      (s : State V E) (t : ℕ) (l : List ℕ)
      → s.started t ≡ false
      → Waiting s l
      → Waiting
          (deliver t set_stopped
            (emplace_stop_cb t (record s { started = update s.started t true })))
          l
  unfolding deliver emplace_stop_cb
  stopped-Waiting s t l f w = record {
    running = w.running;
    chain = w.chain;
    single = w.single;
    once = λ u.
        omega (arith, w.once u, bit-update-true s.started t u f, length-deliver s t u set_stopped);
  }

  -- An operation that goes before those that wait.
  linked-Waiting :
      (s : State V E) (t : ℕ) (l : List ℕ)
      → s.started t ≡ false
      → Waiting s l
      → Waiting
          (link t (emplace_stop_cb t (record s { started = update s.started t true })))
          (t ∷ l)
  unfolding emplace_stop_cb
  linked-Waiting s t l f w =
      let s1 : State V E = emplace_stop_cb t (record s { started = update s.started t true }) in
      let (n, o, nx, vs, d, st) = link_lem s1 t l w.chain w.single in
      let absent : count t l ≡ 0 = omega (arith, w.once t, ap bit f) in
      record {
        running = vs ∙ w.running;
        chain = (
          o,
          subst (λ g. Chain g (g t) l) (sym nx)
              (subst (λ p. Chain (update s.next_ops t s.linked_ops) p l)
                (sym (update_same s.next_ops t s.linked_ops))
                (Chain-update s.next_ops t s.linked_ops s.linked_ops l absent w.chain)),
        );
        single = n;
        once = λ u. omega (
          arith,
          w.once u,
          bit-update-true s.started t u f,
          ap (λ g. length (g u)) d,
          ap (λ g. bit (g u)) st,
        );
      }

  start-Inv : (s : State V E) (t : ℕ) → s.started t ≡ false → Inv s → Inv (start left t s)
  start-Inv s t f (inl (l, w)) =
      let s1 : State V E = emplace_stop_cb t (record s { started = update s.started t true }) in
      let choose : Bool → State V E = λ b. if b then deliver t set_stopped s1 else link t s1 in
      elim (Bool-cases s1.stop_requested) [
        | inl b ↦
            subst Inv (sym (start-running s t w.running ∙ ap choose b))
              (inl (l, stopped-Waiting s t l f w))
        | inr b ↦
            subst Inv (sym (start-running s t w.running ∙ ap choose b))
              (inl (t ∷ l, linked-Waiting s t l f w))
      ]
  start-Inv s t f (inr v) =
      let (c, e) = v.stored in
      let s0 : State V E = record s { started = update s.started t true } in
      let (vals, n, st, d) = complete_all_lem left (t ∷ []) s0 c e in
      subst Inv (sym (start-over s t c e ∙ complete_all_one left t s0)) (
        inr (record {
          stored = vals;
          single = n ∙ v.single;
          once = λ u.
              omega (arith, d u, v.once u, bit-update-true s.started t u f, ap (λ g. bit (g u)) st);
        }))

  receive-Inv :
      (s s' : State V E) (fuel : ℕ) (c : Completion V E) (l : List ℕ)
      → receive left fuel c s ≡ some s'
      → Waiting s l
      → Inv s'
  unfolding receive
  receive-Inv s s' fuel c [] e w =
      let choose : Option ℕ → Option (State V E) = λ o. elim o [
        | none ↦ some s
        | some t ↦ notify left fuel t (record s { values = some c })
      ] in
      subst Inv (some-injective _ _ (sym (ap choose w.chain) ∙ e)) (inl ([], w))
  receive-Inv s s' fuel c (t ∷ l) e w =
      let e' = sym (receive-linked s c fuel t w.chain.0) ∙ e in
      let (s2, ok, v) =
        receive-Over s c fuel t l w
          (notify-fuel left fuel t l (record s { values = some c }) s' w.chain.1 e') in
      subst Inv (some-injective _ _ (sym ok ∙ e)) (inr v)

  connect-Inv : (s : State V E) → Inv s → Inv (connect s)
  unfolding connect
  connect-Inv s v =
      let choose : Bool → State V E = λ b. if b then s else record s { single_ops = true } in
      elim (Bool-cases s.single_ops) [
        | inl h ↦ subst Inv (sym (ap choose h)) v
        | inr h ↦ subst Inv (sym (ap choose h)) (elim v [
          | inl (l, w) ↦
              inl (
                l,
                record { running = w.running; chain = w.chain; single = w.single; once = w.once },
              )
          | inr o ↦ inr (record { stored = o.stored; single = o.single; once = o.once })
        ])
      ]

  Step-Inv : {s s' : State V E} → Step s s' → Inv s → Inv s'
  Step-Inv (connects s) v = connect-Inv s v
  Step-Inv (starts s t f) v = start-Inv s t f v
  Step-Inv (asks s t) (inl (l, w)) =
      unfold ask in
      inl (l, record { running = w.running; chain = w.chain; single = w.single; once = w.once })
  Step-Inv (asks s t) (inr v) =
      unfold ask in inr (record { stored = v.stored; single = v.single; once = v.once })
  Step-Inv (receives s s' fuel c n e) (inl (l, w)) = receive-Inv s s' fuel c l e w
  Step-Inv (receives s s' fuel c n e) (inr v) = absurd (cc (n, v.stored.1))

  Reach-Inv : {s s' : State V E} → Inv s → Reach s s' → Inv s'
  Reach-Inv v here = v
  Reach-Inv v (next r st) = Step-Inv st (Reach-Inv v r)

  Fresh-Inv : (s : State V E) → Fresh s → Inv s
  Fresh-Inv s f = inl (
    [],
    record {
      running = f.running;
      chain = f.unlinked;
      single = f.single;
      once = λ t. omega (arith, ap bit ((f.idle t).0), ap length ((f.idle t).1));
    },
  )

  -- Whatever order the connections, the starts, the requests to stop and the completion of the shared
  -- operation come in, from a split sender whose operations are not started: while the shared
  -- operation is not over, each operation that was started waits in the list, once, or was completed
  -- once; when it is over, each operation that was started was completed once. The shared operation is
  -- started once, when the first operation waits.
  pub split_once : {s s' : State V E} → Fresh s → Reach s s' → Inv s'
  split_once {s} f r = Reach-Inv (Fresh-Inv s f) r

  -- However a split sender was used, when operations wait and the shared operation completes, the
  -- notification comes to its end, and then each operation that was started was completed once.
  pub split_ends :
      {s s' : State V E}
      → Fresh s
      → Reach s s'
      → (t : ℕ) (c : Completion V E) → s'.linked_ops ≡ some t
      → s'.values ≡ none
      → (fuel : ℕ) × (s'' : State V E) × (receive left fuel c s' ≡ some s'')
        × ((u : ℕ) → length (s''.delivered u) ≡ bit (s''.started u))
  split_ends {s} {s'} f r t c o n = elim (split_once f r) [
    | inr v ↦ absurd (cc (n, v.stored.1))
    | inl ([], w) ↦ absurd (cc (o, w.chain))
    | inl (u ∷ l, w) ↦
        let (s'', ok, v) = receive-Over s' c (suc (length l)) u l w (omega arith) in
        (suc (length l), s'', ok, v.once)
  ]
