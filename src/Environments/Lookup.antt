-- ===== src/Environments/Lookup.antt =====
-- Which of the environments of a chain of receivers answers a query.
use cpp_baremetal_senders_an.Base.{
  ℕ, suc, ◌≡◌, refl, ap, ◌∙◌, Bool, true, false, Option, none, some, List, [], ◌∷◌, if◌then◌else◌,
  get_elem?,
}
use cpp_baremetal_senders_an.Environments.{
  Env, is_some, valid_query_for, prop, env, get_env, override_env_with, forward_env_of,
}

abbrev pub or_else : {A : Type 0} → Option A → Option A → Option A
or_else none b = b
or_else (some a) b = some a

module _ {Q V : Type 0} (same : Q → Q → Bool) (find_if : (Env Q V → Bool) → List (Env Q V) → ℕ)
    (find_if-cons : (p : Env Q V → Bool) (e : Env Q V) (es : List (Env Q V))
      → find_if p (e ∷ es) ≡ (if p e then 0 else suc (find_if p es)))
    (forwards : Q → Bool) where
  pub env-cons :
      (e : Env Q V) (es : List (Env Q V)) (q : Q)
      → env same find_if (e ∷ es) q ≡ or_else (e q) (env same find_if es q)
  unfolding env valid_query_for
  env-cons e es q =
      ap (child q (e ∷ es)) (find_if-cons (λ x. is_some (x q)) e es) ∙ by_answer (e q) refl
    where
      child : Q → List (Env Q V) → ℕ → Option V
      child q es i = elim (get_elem? es i) [ none ↦ none | some x ↦ x q ]

      by_answer :
          (o : Option V)
          → e q ≡ o
          → child q (e ∷ es) (if is_some o then 0 else suc (find_if (λ x. is_some (x q)) es))
            ≡ or_else o (child q es (find_if (λ x. is_some (x q)) es))
      by_answer none h = refl
      by_answer (some v) h = h

  env-nil : (q : Q) → env same find_if [] q ≡ none
  unfolding env
  env-nil q = refl

  -- The environments of the receivers from one leaf out: each forwards that of the next receiver, or
  -- overrides a query of it.
  pub data Layer : Type 0 where
    forwarding : Layer
    overriding : Q → V → Layer

  unfoldable pub env_through : List Layer → Option (Env Q V) → Env Q V
  env_through [] r = get_env same find_if r
  env_through (forwarding ∷ ls) r = forward_env_of same find_if forwards (some (env_through ls r))
  env_through (overriding p v ∷ ls) r = override_env_with same find_if p v (some (env_through ls r))

  -- The value of the innermost layer that overrides a query.
  abbrev pub innermost : Q → List Layer → Option V
  innermost q [] = none
  innermost q (forwarding ∷ ls) = innermost q ls
  innermost q (overriding p v ∷ ls) = if same q p then some v else innermost q ls

  override_lem :
      (p : Q) (v : V) (e : Env Q V) (q : Q)
      → override_env_with same find_if p v (some e) q ≡ or_else (prop same p v q) (e q)
  unfolding override_env_with get_env
  override_lem p v e q =
      env-cons (prop same p v) (e ∷ []) q
      ∙ ap (or_else (prop same p v q))
          (env-cons e [] q ∙ ap (or_else (e q)) (env-nil q) ∙ none_after (e q))
    where
      none_after : (o : Option V) → or_else o none ≡ o
      none_after none = refl
      none_after (some x) = refl

  forward_lem :
      (e : Env Q V) (q : Q)
      → forwards q ≡ true
      → forward_env_of same find_if forwards (some e) q ≡ e q
  unfolding forward_env_of get_env
  forward_lem e q h = rw h refl

  -- However many receivers stand between a leaf and the outermost one, and whichever of them
  -- override queries, the leaf's environment answers a forwarding query by the value of the
  -- innermost override of it, and where there is none as the outermost receiver does, or not at all
  -- where that has no environment.
  pub env_through_lem :
      (ls : List Layer) (r : Option (Env Q V)) (q : Q)
      → forwards q ≡ true
      → env_through ls r q ≡ or_else (innermost q ls) (get_env same find_if r q)
  unfolding env_through prop get_env
  env_through_lem [] r q h = refl
  env_through_lem (forwarding ∷ ls) r q h =
      forward_lem (env_through ls r) q h ∙ env_through_lem ls r q h
  env_through_lem (overriding p v ∷ ls) r q h =
      override_lem p v (env_through ls r) q
      ∙ ap (or_else (prop same p v q)) (env_through_lem ls r q h)
      ∙ by_same (same q p) refl
    where
      by_same :
          (b : Bool)
          → same q p ≡ b
          → or_else (prop same p v q) (or_else (innermost q ls) (get_env same find_if r q))
            ≡ or_else (if b then some v else innermost q ls) (get_env same find_if r q)
      by_same true e = rw (e, prop) refl
      by_same false e = rw (e, prop) refl
