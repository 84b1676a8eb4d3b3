-- ===== src/Repeat/Completions.antt =====
-- The completion signatures of include/async/repeat.hpp, and that what `repeat` and `repeat_until`
-- deliver is advertised.
use cpp_baremetal_senders_an.Base.{
  ℕ, ◌+◌, ◌≤◌, ◌≡◌, refl, Bool, true, false, not, List, [], ◌∷◌, inl, inr, ◌∈◌, Bool-cases,
  and_right, if◌then◌else◌,
}
use mathlib.Core.List.Memᴰ
use cpp_baremetal_senders_an.Channel.{set_value, set_error, set_stopped}
use cpp_baremetal_senders_an.Sender.{Signal}
use cpp_baremetal_senders_an.Mp11.{Mp11}
use cpp_baremetal_senders_an.Signatures.{
  Signature, signature_of, default_set_value, default_set_error, no_signatures, sends_stopped,
  transform_completion_signatures,
}
use cpp_baremetal_senders_an.Signatures.Transformed.{in_transformed}
use cpp_baremetal_senders_an.Repeat.{new_op, sync_start, async_start}
use cpp_baremetal_senders_an.Repeat.Exits.{
  Exits, cancelled, failed, stopped, satisfied, again, Ended, start-Ended,
}

-- Where the token of the environment cannot be asked to stop, the loop adds no signature.
unfoldable pub stopped_signatures : {T : Type 0} → Bool → List (Signature T)
stopped_signatures unstoppable = if unstoppable then [] else set_stopped ∷ []

module _ {T : Type 0} (mp : Mp11 (Signature T)) where
  -- `never` says that the predicate is that of `repeat`, which is never met.
  unfoldable pub get_completion_signatures : Bool → Bool → List (Signature T) → List (Signature T)
  unfolding stopped_signatures
  get_completion_signatures never unstoppable sigs =
      if never
      then transform_completion_signatures mp sigs (stopped_signatures unstoppable) no_signatures
          default_set_error (set_stopped ∷ [])
      else transform_completion_signatures mp sigs (stopped_signatures unstoppable)
          default_set_value default_set_error (set_stopped ∷ [])

  module _ (never unstoppable : Bool) (sigs : List (Signature T)) where
    value_advertised :
        (ts : List T)
        → never ≡ false
        → set_value ts ∈ sigs
        → set_value ts ∈ get_completion_signatures never unstoppable sigs
    unfolding get_completion_signatures default_set_value
    value_advertised ts n m =
        rw n ((in_transformed mp sigs _ _ _ _ _).1 (inr (_, m, Memᴰ.head refl)))

    error_advertised :
        (ts : List T)
        → set_error ts ∈ sigs
        → set_error ts ∈ get_completion_signatures never unstoppable sigs
    unfolding get_completion_signatures default_set_error
    error_advertised ts m = elim (Bool-cases never) [
      | inl n ↦ rw n ((in_transformed mp sigs _ _ _ _ _).1 (inr (_, m, Memᴰ.head refl)))
      | inr n ↦ rw n ((in_transformed mp sigs _ _ _ _ _).1 (inr (_, m, Memᴰ.head refl)))
    ]

    stopped_advertised :
        set_stopped ∈ sigs → set_stopped ∈ get_completion_signatures never unstoppable sigs
    unfolding get_completion_signatures
    stopped_advertised m = elim (Bool-cases never) [
      | inl n ↦ rw n ((in_transformed mp sigs _ _ _ _ _).1 (inr (_, m, Memᴰ.head refl)))
      | inr n ↦ rw n ((in_transformed mp sigs _ _ _ _ _).1 (inr (_, m, Memᴰ.head refl)))
    ]

    cancel_advertised :
        unstoppable ≡ false → set_stopped ∈ get_completion_signatures never unstoppable sigs
    unfolding get_completion_signatures stopped_signatures
    cancel_advertised u = elim (Bool-cases never) [
      | inl n ↦ rw (n, u) ((in_transformed mp sigs _ _ _ _ _).1 (inl (Memᴰ.head refl)))
      | inr n ↦ rw (n, u) ((in_transformed mp sigs _ _ _ _ _).1 (inl (Memᴰ.head refl)))
    ]

    module _ {V P : Type 0} (type_of : V → T) (pred : List V → P → Bool × P) (stop : ℕ → Bool)
        (child : ℕ → Signal V) (typed : (k : ℕ) → signature_of type_of (child k) ∈ sigs)
        (met : never ≡ true → (vs : List V) (q : P) → (pred vs q).0 ≡ false)
        (asked : unstoppable ≡ true → (k : ℕ) → stop k ≡ false) where
      exit_advertised :
          {k : ℕ} {q : P} {m : ℕ} {c : Signal V}
          → Exits pred (not (sends_stopped mp sigs)) stop child k q m c
          → signature_of type_of c ∈ get_completion_signatures never unstoppable sigs
      exit_advertised (cancelled k q st) = elim (Bool-cases unstoppable) [
        | inl u ↦ absurd (cc (asked u k, and_right _ (stop k) st))
        | inr u ↦ cancel_advertised u
      ]
      exit_advertised (failed k q e st ch) = error_advertised _ (rw ch at (typed k))
      exit_advertised (stopped k q st ch) = stopped_advertised (rw ch at (typed k))
      exit_advertised (satisfied k q vs st ch p) = elim (Bool-cases never) [
        | inl n ↦ absurd (cc (met n vs q, p))
        | inr n ↦ value_advertised _ n (rw ch at (typed k))
      ]
      exit_advertised (again k q vs m c st ch p x) = exit_advertised x

      -- Where each completion of the adapted sender is one of those it advertises, the predicate of
      -- `repeat` is never met, and a token that cannot be asked to stop is not asked, the
      -- completion that the specification of `repeat_until` gives is one of those that the repeated
      -- sender advertises, and both forms of the operation end having delivered it alone.
      pub repeat-advertised :
          {q : P} {m : ℕ} {c : Signal V}
          → Exits pred (not (sends_stopped mp sigs)) stop child 0 q m c
          → (fuel : ℕ) → m + 2 ≤ fuel
          → signature_of type_of c ∈ get_completion_signatures never unstoppable sigs
            × Ended pred
                (not (sends_stopped mp sigs))
                stop
                child
                (new_op q)
                m
                c
                (sync_start pred (not (sends_stopped mp sigs)) stop child fuel (new_op q))
            × Ended pred
                (not (sends_stopped mp sigs))
                stop
                child
                (new_op q)
                m
                c
                (async_start pred (not (sends_stopped mp sigs)) stop child fuel (new_op q))
      repeat-advertised x fuel h =
          let (a, b) = start-Ended pred (not (sends_stopped mp sigs)) stop child x fuel h in
          (exit_advertised x, a, b)
