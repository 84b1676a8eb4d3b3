-- ===== src/WhenAll/Advertised.antt =====
-- That what a `when_all` delivers is advertised.
use mathlib.Core.List
use mathlib.Core.List.{map-append}
use mathlib.Core.List.Memᴰ
use mathlib.Core.Option.{some-injective}
use cpp_baremetal_senders_an.Base.{
  sum_below, ◌⊎◌, ℕ, zero, suc, ◌<◌, ◌≤◌, ◌≡◌, refl, sym, ap, ◌∙◌, subst, inl, inr, Bool, true,
  some, List, [], ◌∷◌, ◌++◌, ◌∈◌, map, append_assoc, append-nil, arith, Option-cases,
}
use cpp_baremetal_senders_an.Channel.{Completion, set_value, set_error, set_stopped}
use cpp_baremetal_senders_an.Sender.{value_tag, error_tag, Signal, tag_of}
use cpp_baremetal_senders_an.Mp11.{Mp11, in_append, pack, in_pack, of_pack}
use cpp_baremetal_senders_an.Signatures.{
  Signature, signature_of, sends_stopped, default_set_stopped,
}
use cpp_baremetal_senders_an.WhenAll.Steps.{left, Phase, World, Reach, begun}
use cpp_baremetal_senders_an.WhenAll.Invariant.{sent, collected, Outcome, Facts}
use cpp_baremetal_senders_an.WhenAll.Outcome.{Reach-Inv, delivers_once}
use cpp_baremetal_senders_an.WhenAll.Completions.{
  single_types, single_sender, types_of, error_senders, error_completions,
  get_completion_signatures, types_of-single, single_sender_iff, single_unique, single_member,
}

flatten-snoc :
    {A : Type 0} (ls : List (List A)) (l : List A)
    → List.flatten (ls ++ l ∷ []) ≡ List.flatten ls ++ l
unfolding List.flatten
flatten-snoc [] l = append-nil l
flatten-snoc (k ∷ ls) l = ap (λ r. k ++ r) (flatten-snoc ls l) ∙ sym (append_assoc k _ l)

-- What was collected of one child more.
collected-suc :
    {V E : Type 0} (phases : ℕ → Phase V E) (k : ℕ) (xs : List V)
    → collected phases (suc k) ≡ some xs
    → (vs ys : List V) × (sent (phases k) ≡ some (set_value vs))
      × (collected phases k ≡ some ys)
      × (xs ≡ ys ++ vs)
unfolding collected
collected-suc {V} {E} phases k xs e = elim (Option-cases (sent (phases k))) [
  | inl h ↦ absurd (cc (rw (h, collected) at e))
  | inr (c, h) ↦ by_child c h
]
  where
    by_child :
        (c : Completion V E)
        → sent (phases k) ≡ some c
        → (vs ys : List V) × (sent (phases k) ≡ some (set_value vs))
          × (collected phases k ≡ some ys)
          × (xs ≡ ys ++ vs)
    by_child (set_value vs) h = elim (Option-cases (collected phases k)) [
      | inl q ↦ absurd (cc (rw (h, q, collected) at e))
      | inr (ys, q) ↦ (vs, ys, h, q, sym (some-injective _ _ (rw (h, q, collected) at e)))
    ]
    by_child (set_error x) h = absurd (cc (rw (h, collected) at e))
    by_child set_stopped h = absurd (cc (rw (h, collected) at e))

module _ {T : Type 0} (mp : Mp11 (Signature T)) (mpt : Mp11 T) (mps : Mp11 (List (Signature T)))
    (common_type : List (List T) → List T)
    (common_type_same : (t : List T) (ts : List (List T))
      → ((u : List T) → u ∈ ts → u ≡ t)
      → common_type (t ∷ ts) ≡ t)
    (sigs : ℕ → List (Signature T)) (n : ℕ) where
  abbrev gcs : List (Signature T)
  gcs = get_completion_signatures mp mpt mps common_type sigs n

  value_advertised : set_value (List.flatten (pack (λ i. types_of mp value_tag (sigs i)) n)) ∈ gcs
  unfolding get_completion_signatures
  value_advertised = (mp.in_unique _ _).1 (
      (in_append mp _ _).1
        (_, Memᴰ.head refl, Memᴰ.head (ap set_value (sym (mpt.append-flatten _)))))

  stopped_advertised : (i : ℕ) → i < n → sends_stopped mp (sigs i) ≡ true → set_stopped ∈ gcs
  unfolding get_completion_signatures default_set_stopped
  stopped_advertised i lt s = (mp.in_unique _ _).1 (
      (in_append mp _ _).1 (
        default_set_stopped mp (sigs i),
        Memᴰ.tail (Memᴰ.tail (in_pack (λ j. default_set_stopped mp (sigs j)) n i lt)),
        rw (s, default_set_stopped) (Memᴰ.head refl),
      ))

  -- All children that may fail advertise one error, and the same one.
  abbrev pub OneError : List T → Type 0
  OneError err =
      (i : ℕ) (ts : List T)
      → i < n
      → set_error ts ∈ sigs i
      → (single_types mp (sigs i) error_tag ≡ some err)

  error_signature :
      (err : List T) (senders : List (List (Signature T)))
      → ((s : List (Signature T)) → s ∈ senders → types_of mp error_tag s ≡ err)
      → (s : List (Signature T)) → s ∈ senders
      → set_error err ∈ error_completions mp mpt mps common_type senders
  unfolding error_completions
  error_signature err [] h s m = absurd (Memᴰ.not-nil m)
  error_signature err (x ∷ senders) h s m =
      let same : common_type (types_of mp error_tag x ∷ map (types_of mp error_tag) senders) ≡ err =
        common_type_same (types_of mp error_tag x) (map (types_of mp error_tag) senders) (λ u j.
          let (k, l, e) = Memᴰ.of_map (types_of mp error_tag) senders j in
          sym e ∙ h k (Memᴰ.tail l) ∙ sym (h x (Memᴰ.head refl)))
        ∙ h x (Memᴰ.head refl) in
      Memᴰ.head (ap set_error (sym same))

  -- Every sender among those that may fail has the one error.
  error_types :
      (err : List T)
      → OneError err
      → (s : List (Signature T)) → s ∈ error_senders mp mpt mps common_type (pack sigs n)
      → types_of mp error_tag s ≡ err
  unfolding error_senders
  error_types err one s m =
      let (j, st) = (mps.in_copy_if (λ s. single_sender mp s error_tag) s (pack sigs n)).0 m in
      let (k, lt, e) = of_pack sigs n s j in
      let (ts, q) = (single_sender_iff mp s error_tag).0 st in
      let (sig, l, t, r) = single_member mp s error_tag ts q in
      types_of-single mp s error_tag err (
        subst (λ x. single_types mp x error_tag ≡ some err) (sym e)
          (fails k sig lt (subst (λ x. sig ∈ x) e l) t))
    where
      fails :
          (k : ℕ) (sig : Signature T)
          → k < n
          → sig ∈ sigs k
          → error_tag ≡ tag_of sig
          → single_types mp (sigs k) error_tag ≡ some err
      fails k (set_value ts) lt l t = absurd (cc t)
      fails k (set_error ts) lt l t = one k ts lt l
      fails k set_stopped lt l t = absurd (cc t)

  may_fail :
      (err : List T) (i : ℕ) (ts : List T)
      → OneError err
      → i < n
      → set_error ts ∈ sigs i
      → sigs i ∈ error_senders mp mpt mps common_type (pack sigs n)
  unfolding error_senders
  may_fail err i ts one lt m =
      (mps.in_copy_if (λ s. single_sender mp s error_tag) (sigs i) (pack sigs n)).1
        (in_pack sigs n i lt, (single_sender_iff mp (sigs i) error_tag).1 (err, one i ts lt m))

  error_advertised :
      (err : List T) (i : ℕ) (ts : List T)
      → OneError err
      → i < n
      → set_error ts ∈ sigs i
      → set_error ts ∈ gcs
  unfolding get_completion_signatures
  error_advertised err i ts one lt m =
      let same : ts ≡ err =
        single_unique mp (sigs i) error_tag err (set_error ts) (one i ts lt m) m refl in
      (mp.in_unique _ _).1 (
        (in_append mp _ _).1 (
          _,
          Memᴰ.tail (Memᴰ.head refl),
          subst
              (λ e.
                set_error e
                ∈ error_completions mp mpt mps common_type
                    (error_senders mp mpt mps common_type (pack sigs n)))
              (sym same)
              (error_signature err _ (error_types err one) (sigs i) (may_fail err i ts one lt m)),
        ))

  module _ {V : Type 0} (type_of : V → T) where
    -- What each child has sent is one of those it advertises.
    abbrev pub Sent : World V (List V) → Type 0
    Sent w =
        (i : ℕ) (c : Signal V)
        → i < n
        → sent (w.phases i) ≡ some c
        → signature_of type_of c ∈ sigs i

    abbrev pub sends : ℕ → Bool
    sends i = single_sender mp (sigs i) value_tag

    -- The types of the values of all children, in order.
    collected_types :
        (w : World V (List V))
        → Facts n sends w
        → Sent w
        → (k : ℕ) (xs : List V) → k ≤ n
        → collected w.phases k ≡ some xs
        → map type_of xs ≡ List.flatten (pack (λ i. types_of mp value_tag (sigs i)) k)
    unfolding collected List.flatten
    collected_types w f typed zero xs le e = ap (map type_of) (sym (some-injective _ _ e))
    collected_types w f typed (suc k) xs le e =
        let (vs, ys, sv, cy, j) = collected-suc w.phases k xs e in
        let (ts, q) =
          (single_sender_iff mp (sigs k) value_tag).0 (f.values_kept k vs (omega arith) sv).0 in
        let one : map type_of vs ≡ types_of mp value_tag (sigs k) =
          single_unique mp (sigs k) value_tag ts (set_value (map type_of vs)) q
            (typed k (set_value vs) (omega arith) sv) refl
          ∙ sym (types_of-single mp (sigs k) value_tag ts q) in
        ap (map type_of) j
        ∙ map-append type_of ys vs
        ∙ ap (λ l. l ++ map type_of vs) (collected_types w f typed k ys (omega arith) cy)
        ∙ ap (λ l. List.flatten (pack (λ i. types_of mp value_tag (sigs i)) k) ++ l) one
        ∙ sym (flatten-snoc (pack (λ i. types_of mp value_tag (sigs i)) k) _)

    outcome_advertised :
        (err : List T)
        → OneError err
        → (i : ℕ) × (i < n) × (sends_stopped mp (sigs i) ≡ true)
        → (w : World V (List V)) → Facts n sends w
        → Sent w
        → (c : Signal V) → Outcome n w c
        → signature_of type_of c ∈ gcs
    outcome_advertised err one st w f typed (set_value xs) o =
        subst (λ ts. set_value ts ∈ gcs) (sym (collected_types w f typed n xs (omega arith) o))
          value_advertised
    outcome_advertised err one st w f typed (set_error e) (j, l, s) =
        error_advertised err j _ one l (typed j _ l s)
    outcome_advertised err one (i, lt, st) w f typed set_stopped o = stopped_advertised i lt st

    -- Where one of at least one child can be stopped, those that may fail advertise one and the same
    -- error, and every child's completion is one of those it advertises, a `when_all`, whatever the
    -- order of its children's steps, either has delivered nothing and waits for a child, or has
    -- delivered exactly one completion, and it is one of those that it advertises: the values of all
    -- children together, the error, or stopped.
    pub all-advertised :
        (err : List T)
        → OneError err
        → (i : ℕ) × (i < n) × (sends_stopped mp (sigs i) ≡ true)
        → {w : World V (List V)} → Reach sends n (begun n) w
        → Sent w
        → ((w.op.delivered ≡ []) × (0 < sum_below n (λ i. left (w.phases i))))
          ⊎ ((c : Signal V) × (w.op.delivered ≡ c ∷ [])
              × signature_of type_of c ∈ get_completion_signatures mp mpt mps common_type sigs n)
    all-advertised err one (i, lt, st) {w} r typed =
        elim (delivers_once sends n (omega (arith, lt)) r) [
          | inl h ↦ inl h
          | inr (c, d, _, o) ↦ inr (
            c,
            d,
            outcome_advertised err one (i, lt, st) w (Reach-Inv sends n (omega (arith, lt)) r).facts
                typed c o,
          )
        ]
