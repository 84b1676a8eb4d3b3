-- ===== src/Examples/Answering.antt =====
-- Environments at work. Queries and their values are numbers; the even queries are forwarding.
use cpp_baremetal_senders_an.Base.{
  ℕ, suc, ◌%◌, ◌≡◌, refl, Bool, Option, some, List, [], ◌∷◌, ◌==◌, if◌then◌else◌,
}
use cpp_baremetal_senders_an.Channel.{set_value}
use cpp_baremetal_senders_an.Environments.{Env, get_env, read_env, answers}
use cpp_baremetal_senders_an.Environments.Lookup.{
  or_else, Layer, forwarding, overriding, env_through, innermost, env_through_lem,
}

abbrev same : ℕ → ℕ → Bool
same p q = p == q

abbrev find_if : {A : Type 0} → (A → Bool) → List A → ℕ
find_if p [] = 0
find_if p (x ∷ xs) = if p x then 0 else suc (find_if p xs)

abbrev even : ℕ → Bool
even q = q % 2 == 0

abbrev outermost : Option (Env ℕ ℕ)
outermost = some (λ q. some 1)

-- Query 4 is overridden by 8 inside, and by 9 outside of a forwarding receiver.
abbrev layers : List (Layer {V = ℕ} same find_if (λ p e es. refl) even)
layers = overriding 6 5 ∷ overriding 4 8 ∷ forwarding ∷ overriding 4 9 ∷ []

env_through_lem_example :
    env_through same find_if (λ p e es. refl) even layers outermost 4
    ≡ or_else
        (innermost same find_if (λ p e es. refl) even 4 layers)
        (get_env same find_if outermost 4)
env_through_lem_example = env_through_lem same find_if (λ p e es. refl) even layers outermost 4 refl

inner_override : innermost same find_if (λ p e es. refl) even 4 layers ≡ some 8
inner_override = refl

reads_in_order : read_env (4 ∷ 6 ∷ []) (λ (q : ℕ). some (q % 5)) ≡ some (set_value (4 ∷ 1 ∷ []))
unfolding read_env answers
reads_in_order = refl
