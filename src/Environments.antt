-- ===== src/Environments.antt =====
-- include/async/env.hpp, forwarding_query.hpp and read_env.hpp: an environment is what it answers to
-- the queries, `none` where a query is not valid for it. `same` is `std::same_as` on query types, and
-- `find_if` is the third-party `mp_find_if_q`: the place of the first element that passes the test, or
-- the length of the list.
pub mod Lookup
use cpp_baremetal_senders_an.Base.{
  ℕ, zero, suc, Bool, true, false, Option, none, some, List, [], ◌∷◌, ◌||◌, if◌then◌else◌,
  get_elem?,
}
use cpp_baremetal_senders_an.Channel.{set_value}
use cpp_baremetal_senders_an.Sender.{Signal}

abbrev pub is_some : {A : Type 0} → Option A → Bool
is_some none = false
is_some (some a) = true

-- `forwarding_query`: a query's own answer, or whether it is derived from `forwarding_query_t`.
unfoldable pub forwarding_query : Option Bool → Bool → Bool
forwarding_query none derived = derived
forwarding_query (some b) derived = b

abbrev pub Env : Type 0 → Type 0 → Type 0
Env Q V = Q → Option V

abbrev pub among : {Q : Type 0} → (Q → Q → Bool) → Q → List Q → Bool
among same q [] = false
among same q (p ∷ ps) = same q p || among same q ps

module _ {Q V : Type 0} where
  unfoldable pub valid_query_for : Q → Env Q V → Bool
  valid_query_for q e = is_some (e q)

  module _ (same : Q → Q → Bool) where
    unfoldable pub prop : Q → V → Env Q V
    prop p v q = if same q p then some v else none

    -- The instances of one query template, by their types.
    unfoldable pub template_prop : List Q → V → Env Q V
    template_prop ps v q = if among same q ps then some v else none

    module _ (find_if : (Env Q V → Bool) → List (Env Q V) → ℕ) where
      -- `env<Envs...>`: the first child for which the query is valid answers.
      unfoldable pub env : List (Env Q V) → Env Q V
      unfolding valid_query_for
      env children q = elim (get_elem? children (find_if (λ e. valid_query_for q e) children)) [
        | none ↦ none
        | some e ↦ e q
      ]

      unfoldable pub empty_env : Env Q V
      unfolding env
      empty_env = env []

      -- `get_env`: what an object has no environment of its own for is empty.
      unfoldable pub get_env : Option (Env Q V) → Env Q V
      unfolding empty_env
      get_env none = empty_env
      get_env (some e) = e

      unfoldable pub override_env_with : Q → V → Option (Env Q V) → Env Q V
      unfolding env prop get_env
      override_env_with p v r = env (prop p v ∷ get_env r ∷ [])

      -- `forward_env_of`, where `forwards` says which queries are forwarding.
      unfoldable pub forward_env_of : (Q → Bool) → Option (Env Q V) → Env Q V
      unfolding get_env
      forward_env_of forwards r q = if forwards q then get_env r q else none

  -- The values of `read_env`, which is ill-formed (`none`) where a query is not valid.
  unfoldable pub answers : List Q → Env Q V → Option (List V)
  answers [] e = some []
  answers (q ∷ qs) e =
      let rest = answers qs e in
      elim (e q) [ none ↦ none | some v ↦ elim rest [ none ↦ none | some vs ↦ some (v ∷ vs) ] ]

  -- `op_state::start` of `read_env`.
  unfoldable pub read_env : List Q → Env Q V → Option (Signal V)
  unfolding answers
  read_env qs e = elim (answers qs e) [ none ↦ none | some vs ↦ some (set_value vs) ]
