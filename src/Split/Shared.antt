-- ===== src/Split/Shared.antt =====
-- The list of the operations that wait, and one pass of `notify` over it.
use cpp_baremetal_senders_an.Base.{
  ℕ, zero, suc, ◌+◌, ◌<◌, ◌≡◌, refl, sym, ap, ◌∙◌, subst, true, false, Option, none, some, List, [],
  ◌∷◌, ◌++◌, arith, bit, length, count, length-append, update, update_same, update_other, ◌==◌,
  if◌then◌else◌, inl, inr, ==-apart, ==_refl, Option-cases,
}
use native.Mathlib.Decide.{ℕ_discrete}
use cpp_baremetal_senders_an.Channel.{Completion}
use cpp_baremetal_senders_an.Split.{State, deliver, complete, notify}

-- The list that the pointers make from a first one on.
abbrev pub Chain : (ℕ → Option ℕ) → Option ℕ → List ℕ → Type 0
Chain next o [] = o ≡ none
Chain next o (t ∷ l) = (o ≡ some t) × Chain next (next t) l

-- Writing the pointer of an operation that is not in the list.
pub Chain-update :
    (next : ℕ → Option ℕ) (t : ℕ) (v o : Option ℕ) (l : List ℕ)
    → count t l ≡ 0
    → Chain next o l
    → Chain (update next t v) o l
Chain-update next t v o [] h c = c
Chain-update next t v o (u ∷ l) h c = (
  c.0,
  rw (==-apart t u (λ e. absurd (ground (arith, h, e))))
      (Chain-update next t v (next u) l (ground (arith, h)) c.1),
)

module _ {V E : Type 0} where
  -- How often a receiver was completed, when it is completed once more.
  pub length-deliver :
      (s : State V E) (t u : ℕ) (c : Completion V E)
      → length ((deliver t c s).delivered u) ≡ bit (t == u) + length (s.delivered u)
  unfolding deliver
  length-deliver s t u c = elim (ℕ_discrete t u) [
    | yes p ↦ rw (sym p, ==_refl t, length-append (s.delivered t) (c ∷ [])) (omega arith)
    | no ne ↦ rw (==-apart t u ne) (omega arith)
  ]

module _ {V E : Type 0} (left : ℕ → Completion V E → Completion V E) where
  complete-next_ops : (t : ℕ) (s : State V E) → (complete left t s).next_ops ≡ s.next_ops
  unfolding complete deliver
  complete-next_ops t s = elim (Option-cases s.values) [
    | inl e ↦ rw e refl
    | inr (c, e) ↦ rw e refl
  ]

  complete-some :
      (t : ℕ) (s : State V E) (c : Completion V E)
      → s.values ≡ some c
      → complete left t s
        ≡ deliver t c (record s { stop_cb = update s.stop_cb t false; values = some (left t c) })
  unfolding complete
  complete-some t s c e = rw e refl

  pub complete_all : List ℕ → State V E → State V E
  complete_all [] s = s
  complete_all (t ∷ l) s = complete_all l (complete left t s)

  -- `notify` completes each operation of the list, in its order.
  pub notify-complete_all :
      (fuel t : ℕ) (l : List ℕ) (s : State V E)
      → length l < fuel
      → Chain s.next_ops (s.next_ops t) l
      → notify left fuel t s ≡ some (complete_all (t ∷ l) s)
  unfolding notify complete_all
  notify-complete_all zero t l s h c = absurd (omega arith)
  notify-complete_all (suc fuel) t [] s h c =
      rw (notify, ap (λ f. f t) (complete-next_ops t s), c) refl
  notify-complete_all (suc fuel) t (u ∷ l) s h c =
      rw (notify, ap (λ f. f t) (complete-next_ops t s), c.0)
        (notify-complete_all fuel u l (complete left t s) (omega (arith, h))
          (subst (λ f. Chain f (f u) l) (sym (complete-next_ops t s)) c.1))

  -- What the receiver of `t` is given, of a completion that is handed along a list.
  pub handed_at : ℕ → List ℕ → Completion V E → Completion V E
  handed_at t [] c = c
  handed_at t (u ∷ l) c = if u == t then c else handed_at t l (left u c)

  -- Where `notify` returns, it had the fuel for the whole list.
  pub notify-fuel :
      (fuel t : ℕ) (l : List ℕ) (s s' : State V E)
      → Chain s.next_ops (s.next_ops t) l
      → notify left fuel t s ≡ some s'
      → length l < fuel
  unfolding notify
  notify-fuel zero t l s s' c e = absurd (cc e)
  notify-fuel (suc fuel) t [] s s' c e = omega arith
  notify-fuel (suc fuel) t (u ∷ l) s s' c e =
      let more : notify left (suc fuel) t s ≡ notify left fuel u (complete left t s) =
        rw (notify, ap (λ f. f t) (complete-next_ops t s), c.0) refl in
      omega (
        arith,
        notify-fuel fuel u l (complete left t s) s'
            (subst (λ f. Chain f (f u) l) (sym (complete-next_ops t s)) c.1) (sym more ∙ e),
      )

  pub complete_all_one : (t : ℕ) (s : State V E) → complete left t s ≡ complete_all (t ∷ []) s
  unfolding complete_all
  complete_all_one t s = refl

  -- A pass over a list touches nothing but the stored values, the receivers and their callbacks.
  pub complete_all_lem :
      (l : List ℕ) (s : State V E) (c : Completion V E)
      → s.values ≡ some c
      → ((d : Completion V E) × ((complete_all l s).values ≡ some d))
        × ((complete_all l s).single_starts ≡ s.single_starts)
        × ((complete_all l s).started ≡ s.started)
        × ((t : ℕ) → length ((complete_all l s).delivered t) ≡ count t l + length (s.delivered t))
  unfolding complete_all
  complete_all_lem [] s c e = ((c, e), refl, refl, λ t. omega arith)
  complete_all_lem (u ∷ l) s c e =
      let s1 : State V E = record s {
        stop_cb = update s.stop_cb u false;
        values = some (left u c);
      } in
      let (vals, starts, st, d) =
        complete_all_lem l (deliver u c s1) (left u c) (unfold deliver in refl) in
      rw (complete_all, complete-some u s c e)
        (
          vals,
          starts ∙ (unfold deliver in refl),
          st ∙ (unfold deliver in refl),
          λ t. omega (arith, d t, length-deliver s1 u t c),
        )

  pub complete_all-other :
      (l : List ℕ) (s : State V E) (c : Completion V E) (t : ℕ)
      → s.values ≡ some c
      → count t l ≡ 0
      → (complete_all l s).delivered t ≡ s.delivered t
  unfolding complete_all
  complete_all-other [] s c t e h = refl
  complete_all-other (u ∷ l) s c t e h =
      let s1 : State V E = record s {
        stop_cb = update s.stop_cb u false;
        values = some (left u c);
      } in
      rw (complete_all, complete-some u s c e)
        (complete_all-other l (deliver u c s1) (left u c) t (unfold deliver in refl)
            (ground (arith, h))
          ∙ (unfold deliver in update_other s.delivered u t _ (λ q. absurd (ground (arith, h, q)))))

  -- Each operation of the list, which holds it once, is given what those before it have left.
  pub complete_all-handed :
      (l : List ℕ) (s : State V E) (c : Completion V E) (t : ℕ)
      → s.values ≡ some c
      → count t l ≡ 1
      → (complete_all l s).delivered t ≡ s.delivered t ++ handed_at t l c ∷ []
  unfolding complete_all handed_at
  complete_all-handed [] s c t e h = absurd (omega (arith, h))
  complete_all-handed (u ∷ l) s c t e h =
      let s1 : State V E = record s {
        stop_cb = update s.stop_cb u false;
        values = some (left u c);
      } in
      elim (ℕ_discrete u t) [
        | yes p ↦
            let here : (u == t) ≡ true = subst (λ k. (u == k) ≡ true) p (==_refl u) in
            rw (complete_all, complete-some u s c e, handed_at, here)
              (complete_all-other l (deliver u c s1) (left u c) t (unfold deliver in refl)
                  (ground (arith, h, p))
                ∙ (unfold deliver in
                    subst
                      (λ k.
                        update s.delivered u (s.delivered u ++ c ∷ []) k ≡ s.delivered k ++ c ∷ [])
                      p (update_same s.delivered u _)))
        | no ne ↦
            rw (complete_all, complete-some u s c e, handed_at, ==-apart u t ne)
              (complete_all-handed l (deliver u c s1) (left u c) t (unfold deliver in refl)
                  (ground (arith, h, ne))
                ∙ ap (λ d. d ++ handed_at t l (left u c) ∷ [])
                    (unfold deliver in update_other s.delivered u t _ (λ q. ne (sym q))))
      ]
