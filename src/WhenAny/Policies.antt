-- ===== src/WhenAny/Policies.antt =====
-- What the policies keep, of the completions of all children in the order of their critical
-- sections.
use cpp_baremetal_senders_an.Base.{
  ◌≤◌, ◌≡◌, refl, ◌∙◌, inl, inr, Bool, false, not, Option, none, some, List, [], ◌∷◌, ◌++◌, arith,
  if◌then◌else◌, Bool-cases, length, ◌||◌,
}
use cpp_baremetal_senders_an.Channel.{Completion, set_stopped}
use cpp_baremetal_senders_an.WhenAny.{
  Policy, first_successful, first_noncancelled, first_complete, store, should_store, stops,
  is_value, is_stopped,
}

module _ {V E : Type 0} where
  -- The store after the completions of a list, the first first.
  unfoldable pub stored :
      Policy → Option (Completion V E) → List (Completion V E) → Option (Completion V E)
  stored p d [] = d
  stored p d (c ∷ cs) = stored p (store p c d) cs

  pub stored-append :
      (p : Policy) (d : Option (Completion V E)) (cs : List (Completion V E)) (c : Completion V E)
      → stored p d (cs ++ c ∷ []) ≡ store p c (stored p d cs)
  unfolding stored
  stored-append p d [] c = refl
  stored-append p d (x ∷ cs) c = stored-append p (store p x d) cs c

  abbrev pub head? : List (Completion V E) → Option (Completion V E)
  head? [] = none
  head? (c ∷ cs) = some c

  -- The first completion that passes a test, or `d` if none does.
  abbrev pub find_or :
      (Completion V E → Bool)
      → Option (Completion V E)
      → List (Completion V E)
      → Option (Completion V E)
  find_or test d [] = d
  find_or test d (c ∷ cs) = if test c then some c else find_or test d cs

  stored-keeps :
      (p : Policy) (d : Completion V E) (cs : List (Completion V E))
      → ((c : Completion V E) → should_store p c (some d) ≡ false)
      → stored p (some d) cs ≡ some d
  unfolding stored store
  stored-keeps p d [] h = refl
  stored-keeps p d (c ∷ cs) h = rw (h c) (stored-keeps p d cs h)

  -- `first_complete` keeps the first completion.
  pub stored-first_complete :
      (cs : List (Completion V E)) → stored first_complete none cs ≡ head? cs
  unfolding stored store
  stored-first_complete [] = refl
  stored-first_complete (c ∷ cs) =
      stored-keeps first_complete c cs (λ x. unfold should_store in refl)

  noncancelled-from :
      (d : Completion V E) (cs : List (Completion V E))
      → stored first_noncancelled (some d) cs
        ≡ (if is_stopped d then find_or (λ c. not (is_stopped c)) (some d) cs else some d)
  unfolding stored store should_store
  noncancelled-from d [] = ground arith
  noncancelled-from d (c ∷ cs) = ground (arith, noncancelled-from d cs, noncancelled-from c cs)

  -- `first_noncancelled` keeps the first value or error, and stopped if there is none.
  pub stored-first_noncancelled :
      (cs : List (Completion V E))
      → stored first_noncancelled none cs ≡ find_or (λ c. not (is_stopped c)) (head? cs) cs
  unfolding stored store should_store
  stored-first_noncancelled [] = refl
  stored-first_noncancelled (c ∷ cs) = ground (arith, noncancelled-from c cs)

  successful-from :
      (d : Completion V E) (cs : List (Completion V E))
      → stored first_successful (some d) cs
        ≡ (if is_value d then some d else find_or is_value (some d) cs)
  unfolding stored store should_store
  successful-from d [] = ground arith
  successful-from d (c ∷ cs) = ground (arith, successful-from d cs, successful-from c cs)

  -- `first_successful` keeps the first value; if there is none, it keeps the first completion of
  -- all, whether that is an error or stopped.
  pub stored-first_successful :
      (cs : List (Completion V E))
      → stored first_successful none cs ≡ find_or is_value (head? cs) cs
  unfolding stored store should_store
  stored-first_successful [] = refl
  stored-first_successful (c ∷ cs) = ground (arith, successful-from c cs)

  -- Where the first child to complete was stopped and none sends a value, `first_successful` keeps
  -- stopped, whatever errors the other children send after it.
  pub first_successful-stopped_first :
      (cs : List (Completion V E))
      → find_or is_value none cs ≡ none
      → stored first_successful none (set_stopped ∷ cs) ≡ some set_stopped
  first_successful-stopped_first cs h = stored-first_successful (set_stopped ∷ cs) ∙ no_value cs h
    where
      no_value :
          (cs : List (Completion V E))
          → find_or is_value none cs ≡ none
          → find_or is_value (some set_stopped) cs ≡ some set_stopped
      no_value [] h = refl
      no_value (c ∷ cs) h = ground (arith, no_value cs)

  store-some :
      (p : Policy) (c d : Completion V E) → (x : Completion V E) × (store p c (some d) ≡ some x)
  unfolding store
  store-some p c d = elim (Bool-cases (should_store p c (some d))) [
    | inl h ↦ (c, rw h)
    | inr h ↦ (d, rw h)
  ]

  stored-from_some :
      (p : Policy) (d : Completion V E) (cs : List (Completion V E))
      → (x : Completion V E) × (stored p (some d) cs ≡ some x)
  unfolding stored
  stored-from_some p d [] = (d, refl)
  stored-from_some p d (c ∷ cs) =
      let (x, e) = store-some p c d in let (y, k) = stored-from_some p x cs in (y, rw e k)

  store-none : (p : Policy) (c : Completion V E) → store p c none ≡ some c
  unfolding store should_store
  store-none first_successful c = refl
  store-none first_noncancelled c = refl
  store-none first_complete c = refl

  -- Every policy keeps some completion, once there was one.
  pub stored-some :
      (p : Policy) (cs : List (Completion V E))
      → 1 ≤ length cs
      → (x : Completion V E) × (stored p none cs ≡ some x)
  unfolding stored
  stored-some p [] h = absurd (omega arith)
  stored-some p (c ∷ cs) h = let (x, e) = stored-from_some p c cs in (x, rw (store-none p c) e)

  -- Whether a completion was sent after which the policy asks the children to stop.
  abbrev pub determined : Policy → List (Completion V E) → Bool
  determined p [] = false
  determined p (c ∷ cs) = stops p c || determined p cs

  pub determined-append :
      (p : Policy) (cs : List (Completion V E)) (c : Completion V E)
      → determined p (cs ++ c ∷ []) ≡ (determined p cs || stops p c)
  determined-append p [] c = ground arith
  determined-append p (x ∷ cs) c = ground (arith, determined-append p cs c)
