-- ===== src/WhenAny/Replaced.antt =====
-- What a `when_any` operation keeps once it has asked its children to stop, and what it delivers.
use cpp_baremetal_senders_an.Base.{
  ◌≡◌, refl, sym, ap, ◌∙◌, ◌⊎◌, inl, inr, Bool, true, false, Option, none, some, ◌∈◌, if◌then◌else◌,
  Bool-cases, Option-cases, arith,
}
use mathlib.Core.List.Memᴰ
use cpp_baremetal_senders_an.Channel.{Completion, set_stopped}
use cpp_baremetal_senders_an.WhenAny.{
  Policy, first_successful, first_noncancelled, first_complete, OpState, should_store, store, stops,
  is_value, is_stopped, complete, request_stop,
}

module _ {V E : Type 0} where
  abbrev pub NotReplaced : Policy → Completion V E → Type 0
  NotReplaced p c = (d : Completion V E) → should_store p d (some c) ≡ false

  -- Where the policy asks for a stop, what is then stored is not replaced any more.
  pub stops-NotReplaced :
      (p : Policy) (c : Completion V E) (d : Option (Completion V E))
      → stops p c ≡ true
      → (c' : Completion V E) × (store p c d ≡ some c') × NotReplaced p c'
  unfolding stops store should_store
  stops-NotReplaced p c none h = (c, stored p, final p c h)
    where
      stored : (p : Policy) → store p c none ≡ some c
      stored first_successful = refl
      stored first_noncancelled = refl
      stored first_complete = refl

      final : (p : Policy) (c : Completion V E) → stops p c ≡ true → NotReplaced p c
      final first_successful c h d = ground (arith, h)
      final first_noncancelled c h d = ground (arith, h)
      final first_complete c h d = refl
  stops-NotReplaced first_successful c (some d) h = elim (Bool-cases (is_value d)) [
    | inl v ↦ (d, rw (v, h) refl, λ e. ground (arith, v))
    | inr v ↦ (c, rw (v, h) refl, λ e. ground (arith, h))
  ]
  stops-NotReplaced first_noncancelled c (some d) h = elim (Bool-cases (is_stopped d)) [
    | inl v ↦ (c, ground (arith, v, h), λ e. ground (arith, h))
    | inr v ↦ (d, ground (arith, v, h), λ e. ground (arith, v))
  ]
  stops-NotReplaced first_complete c (some d) h = (d, refl, λ e. refl)

  pub store-kept :
      (p : Policy) (c d : Completion V E) → NotReplaced p d → store p c (some d) ≡ some d
  unfolding store
  store-kept p c d h = rw (h c)

  pub store-cases :
      (p : Policy) (c : Completion V E) (d : Option (Completion V E))
      → (store p c d ≡ some c) ⊎ (store p c d ≡ d)
  unfolding store
  store-cases p c d = elim (Bool-cases (should_store p c d)) [
    | inl h ↦ inl (rw h)
    | inr h ↦ inr (rw h)
  ]

  pub delivered_asked :
      (b : Bool) (s : OpState V E) → (if b then request_stop s else s).delivered ≡ s.delivered
  unfolding request_stop
  delivered_asked b s = ground arith

  pub delivered-complete :
      (b : Bool) (s : OpState V E) (c : Completion V E)
      → c ∈ (complete b s).delivered
      → c ∈ s.delivered ⊎ ((b ≡ true) × (c ≡ set_stopped)) ⊎ (s.completions ≡ some c)
  unfolding complete
  delivered-complete b s c m = elim (Bool-cases b) [
    | inl h ↦ elim (Memᴰ.append_cases s.delivered (rw (h, complete) at m)) [
      | inl j ↦ inl j
      | inr j ↦ inr (inl (h, Memᴰ.eq_of_singleton j))
    ]
    | inr h ↦ elim (Option-cases s.completions) [
      | inl e ↦ inl (rw (h, complete, e) at m)
      | inr (d, e) ↦ elim (Memᴰ.append_cases s.delivered (rw (h, complete, e) at m)) [
        | inl j ↦ inl j
        | inr j ↦ inr (inr (e ∙ ap some (sym (Memᴰ.eq_of_singleton j))))
      ]
    ]
  ]
