-- ===== src/WhenAny/Advertised.antt =====
-- That what a `when_any` delivers is advertised. `sigs u i` are the signatures of child `i` for an
-- environment whose token cannot be asked to stop (`u` is true) or can be (`u` is false).
use cpp_baremetal_senders_an.Base.{
  sum_below, refl, ℕ, ◌-◌, ◌<◌, ◌||◌, ◌≡◌, sym, ap, ◌∙◌, subst, ◌⊎◌, inl, inr, Bool, true, false,
  some, List, [], ◌∷◌, ◌++◌, ◌∈◌, ◌==◌, if◌then◌else◌, Bool-cases, update, arith,
}
use mathlib.Core.List.Memᴰ
use mathlib.Core.Option.{some-injective}
use cpp_baremetal_senders_an.Channel.{set_stopped}
use cpp_baremetal_senders_an.Sender.{Signal}
use cpp_baremetal_senders_an.Mp11.{Mp11}
use cpp_baremetal_senders_an.Signatures.{Signature, signature_of}
use cpp_baremetal_senders_an.WhenAny.{
  Policy, OpState, store, stops, policy_emplace, arrive, request_stop, new_op,
}
use cpp_baremetal_senders_an.WhenAny.Steps.{
  left, World, running, arriving, done, emplaced, counted, stopped_downstream, Reach, here, next,
  begun, emplace-keeps, complete-keeps, arrive-waits, arrive-completes,
}
use cpp_baremetal_senders_an.WhenAny.Outcome.{any_delivers_once}
use cpp_baremetal_senders_an.WhenAny.Completions.{get_completion_signatures, in_any}
use cpp_baremetal_senders_an.WhenAny.Replaced.{
  NotReplaced, stops-NotReplaced, store-kept, store-cases, delivered_asked, delivered-complete,
}

module _ {V T : Type 0} (mp : Mp11 (Signature T)) (type_of : V → T) (p : Policy) (n : ℕ)
    (unstoppable : Bool) (sigs : Bool → ℕ → List (Signature T)) where
  -- The runs in which the children keep to what they advertise for the environment of the
  -- `when_any`; a child that was asked to stop may also complete as it may where its token can be
  -- asked. A token that cannot be asked is not.
  pub data Kept : World V (List V) → Type 0 where
    begun_kept : Kept (begun p n)
    emplaced_kept :
        {w : World V (List V)} (i : ℕ) (c : Signal V)
        → Kept w
        → i < n
        → w.phases i ≡ running
        → (signature_of type_of c ∈ sigs unstoppable i)
          ⊎ ((w.op.stop_requested ≡ true) × signature_of type_of c ∈ sigs false i)
        → Kept (record w {
          op = policy_emplace p c w.op;
          phases = update w.phases i arriving;
          order = w.order ++ c ∷ [];
        })
    counted_kept :
        {w : World V (List V)} (i : ℕ)
        → Kept w
        → i < n
        → w.phases i ≡ arriving
        → Kept (record w { op = arrive w.downstream w.op; phases = update w.phases i done })
    stopped_kept :
        {w : World V (List V)}
        → Kept w
        → unstoppable ≡ false
        → Kept
            (record w { op = if w.op.stop_cb then request_stop w.op else w.op; downstream = true })

  pub Kept-Reach : {w : World V (List V)} → Kept w → Reach p n (begun p n) w
  Kept-Reach begun_kept = here
  Kept-Reach (emplaced_kept i c k lt r a) = next (Kept-Reach k) (emplaced _ i c lt r)
  Kept-Reach (counted_kept i k lt a) = next (Kept-Reach k) (counted _ i lt a)
  Kept-Reach (stopped_kept k u) = next (Kept-Reach k) (stopped_downstream _)

  abbrev Advertised : Signal V → Type 0
  Advertised c = signature_of type_of c ∈ get_completion_signatures mp (sigs unstoppable) n

  -- What is kept where a stop was asked for is not replaced any more.
  abbrev Final : OpState V (List V) → Type 0
  Final s = (c : Signal V) × (s.completions ≡ some c) × NotReplaced p c

  record Inv (w : World V (List V)) : Type 0 where
    asked : w.op.stop_requested ≡ true → (unstoppable ≡ false) ⊎ Final w.op
    downstream_asked : w.downstream ≡ true → unstoppable ≡ false
    stored_advertised : (c : Signal V) → w.op.completions ≡ some c → Advertised c
    delivered_advertised : (c : Signal V) → c ∈ w.op.delivered → Advertised c

  child-Advertised :
      (i : ℕ) (c : Signal V) → i < n → signature_of type_of c ∈ sigs unstoppable i → Advertised c
  child-Advertised i c lt m = (in_any mp (sigs unstoppable) n _).1 (i, lt, m)

  module _ (w : World V (List V)) (v : Inv w) where
    -- What a child sends is advertised, or comes too late to be stored.
    newly :
        (i : ℕ) (c : Signal V)
        → i < n
        → (signature_of type_of c ∈ sigs unstoppable i)
          ⊎ ((w.op.stop_requested ≡ true) × signature_of type_of c ∈ sigs false i)
        → Advertised c ⊎ Final w.op
    newly i c lt (inl m) = inl (child-Advertised i c lt m)
    newly i c lt (inr (s, m)) = elim (v.asked s) [
      | inl u ↦
          inl (child-Advertised i c lt (subst (λ b. signature_of type_of c ∈ sigs b i) (sym u) m))
      | inr f ↦ inr f
    ]

    stored_newly :
        (c d : Signal V)
        → Advertised c ⊎ Final w.op
        → store p c w.op.completions ≡ some d
        → Advertised d
    stored_newly c d (inl m) e = elim (store-cases p c w.op.completions) [
      | inl s ↦ subst Advertised (some-injective _ _ (sym s ∙ e)) m
      | inr s ↦ v.stored_advertised d (sym s ∙ e)
    ]
    stored_newly c d (inr (c', q, nr)) e =
        let same : store p c w.op.completions ≡ some c' = ap (store p c) q ∙ store-kept p c c' nr in
        v.stored_advertised d (q ∙ sym same ∙ e)

    asked_newly :
        (c : Signal V)
        → (w.op.stop_requested || stops p c) ≡ true
        → (unstoppable ≡ false)
          ⊎ ((c' : Signal V) × (store p c w.op.completions ≡ some c') × NotReplaced p c')
    asked_newly c h = elim (Bool-cases w.op.stop_requested) [
      | inl s ↦ elim (v.asked s) [
        | inl u ↦ inl u
        | inr (c', q, nr) ↦ inr (c', ap (store p c) q ∙ store-kept p c c' nr, nr)
      ]
      | inr s ↦ inr (stops-NotReplaced p c w.op.completions (rw s at h))
    ]

    -- A child's completion in its critical section.
    emplaced-Inv :
        (i : ℕ) (c : Signal V)
        → i < n
        → (signature_of type_of c ∈ sigs unstoppable i)
          ⊎ ((w.op.stop_requested ≡ true) × signature_of type_of c ∈ sigs false i)
        → Inv (record w {
          op = policy_emplace p c w.op;
          phases = update w.phases i arriving;
          order = w.order ++ c ∷ [];
        })
    emplaced-Inv i c lt a =
        let (co, cn, de, st) = emplace-keeps p n c w.op in
        record {
          asked = λ h. elim (asked_newly c (sym st ∙ h)) [
            | inl u ↦ inl u
            | inr (c', q, nr) ↦ inr (c', co ∙ q, nr)
          ];
          downstream_asked = v.downstream_asked;
          stored_advertised = λ d e. stored_newly c d (newly i c lt a) (sym co ∙ e);
          delivered_advertised = λ d m. v.delivered_advertised d (subst (λ l. d ∈ l) de m);
        }

    -- A child that was counted down: where it is the last, the operation completes.
    counted-Inv :
        (i : ℕ)
        → (i : ℕ) × (i < n) × set_stopped ∈ sigs false i
        → Inv (record w { op = arrive w.downstream w.op; phases = update w.phases i done })
    counted-Inv i (k, lt, m) =
        let op1 : OpState V (List V) = record w.op { count = w.op.count - 1 } in
        elim (Bool-cases (op1.count == 0)) [
          | inr z ↦ rw (arrive-waits p n w.downstream w.op z) (record {
            asked = v.asked;
            downstream_asked = v.downstream_asked;
            stored_advertised = v.stored_advertised;
            delivered_advertised = v.delivered_advertised;
          })
          | inl z ↦
              let (co, cp, st) = complete-keeps p n w.downstream op1 in
              rw (arrive-completes p n w.downstream w.op z) (record {
                asked = λ h. elim (v.asked (sym st ∙ h)) [
                  | inl u ↦ inl u
                  | inr (c', q, nr) ↦ inr (c', cp ∙ q, nr)
                ];
                downstream_asked = v.downstream_asked;
                stored_advertised = λ c e. v.stored_advertised c (sym cp ∙ e);
                delivered_advertised = λ c j. elim (delivered-complete w.downstream op1 c j) [
                  | inl d ↦ v.delivered_advertised c d
                  | inr (inl (d, e)) ↦ subst Advertised (sym e) (
                      child-Advertised k set_stopped lt
                        (subst (λ b. set_stopped ∈ sigs b k) (sym (v.downstream_asked d)) m))
                  | inr (inr e) ↦ v.stored_advertised c e
                ];
              })
        ]

  Kept-Inv :
      {w : World V (List V)} → (i : ℕ) × (i < n) × set_stopped ∈ sigs false i → Kept w → Inv w
  Kept-Inv s begun_kept =
      unfold begun new_op in
      record {
        asked = λ h. absurd (cc h);
        downstream_asked = λ h. absurd (cc h);
        stored_advertised = λ c e. absurd (cc e);
        delivered_advertised = λ c m. absurd (Memᴰ.not-nil m);
      }
  Kept-Inv s (emplaced_kept i c k lt r a) = emplaced-Inv _ (Kept-Inv s k) i c lt a
  Kept-Inv s (counted_kept i k lt a) = counted-Inv _ (Kept-Inv s k) i s
  Kept-Inv s (stopped_kept {w} k u) =
      let v : Inv w = Kept-Inv s k in
      record {
        asked = λ h. inl u;
        downstream_asked = λ h. u;
        stored_advertised = λ c e. v.stored_advertised c (unfold request_stop in ground (arith, e));
        delivered_advertised = λ c m.
            v.delivered_advertised c (subst (λ l. c ∈ l) (delivered_asked w.op.stop_cb w.op) m);
      }

  pub delivered-advertised :
      {w : World V (List V)}
      → (i : ℕ) × (i < n) × set_stopped ∈ sigs false i
      → Kept w
      → (c : Signal V) → c ∈ w.op.delivered
      → signature_of type_of c ∈ get_completion_signatures mp (sigs unstoppable) n
  delivered-advertised s k = (Kept-Inv s k).delivered_advertised

  -- Where some child can be stopped, and the children keep to what they advertise for the
  -- environment of the `when_any` unless they were asked to stop, the operation either has delivered
  -- nothing and waits for a child, or has delivered exactly one completion, and it is one of those
  -- that the `when_any` advertises for that environment, whatever the policy and the order of the
  -- children's steps, also where that environment's token cannot be asked to stop and the children's
  -- can.
  pub any-advertised :
      {w : World V (List V)}
      → (i : ℕ) × (i < n) × set_stopped ∈ sigs false i
      → Kept w
      → ((w.op.delivered ≡ []) × (0 < sum_below n (λ i. left (w.phases i))))
        ⊎ ((c : Signal V) × (w.op.delivered ≡ c ∷ [])
            × signature_of type_of c ∈ get_completion_signatures mp (sigs unstoppable) n)
  any-advertised (i, lt, m) k = elim (any_delivers_once p n (omega (arith, lt)) (Kept-Reach k)) [
    | inl h ↦ inl h
    | inr (c, d, _, _) ↦
        inr
          (c, d, delivered-advertised (i, lt, m) k c (subst (λ l. c ∈ l) (sym d) (Memᴰ.head refl)))
  ]
