-- ===== src/Examples/Anys.antt =====
-- `when_any` of two children.
use cpp_baremetal_senders_an.Base.{
  ℕ, ◌<◌, ◌≡◌, ◌⊎◌, refl, true, none, some, List, [], ◌∷◌, arith, sum_below,
}
use cpp_baremetal_senders_an.Channel.{Completion, set_value, set_error, set_stopped}
use cpp_baremetal_senders_an.WhenAny.{first_successful, policy_emplace, stops}
use cpp_baremetal_senders_an.WhenAny.Policies.{stored, determined, first_successful-stopped_first}
use cpp_baremetal_senders_an.WhenAny.Steps.{
  World, emplaced, counted, Reach, here, next, begun, left, Outcome,
}
use cpp_baremetal_senders_an.WhenAny.Outcome.{any_delivers_once}

abbrev world0 : World ℕ ℕ
world0 = begun first_successful 2

-- The second child fails, the first one sends 7, and both are counted down.
run_of_two :
    (w : World ℕ ℕ) × Reach first_successful 2 world0 w
    × (w.order ≡ set_error 8 ∷ set_value (7 ∷ []) ∷ [])
unfolding begun policy_emplace
run_of_two =
    let w0 : World ℕ ℕ = world0 in
    let r1 = next here (emplaced w0 1 (set_error 8) (omega arith) refl) in
    let r2 = next r1 (counted _ 1 (omega arith) refl) in
    let r3 = next r2 (emplaced _ 0 (set_value (7 ∷ [])) (omega arith) refl) in
    (_, next r3 (counted _ 0 (omega arith) refl), refl)

abbrev world1 : World ℕ ℕ
world1 = run_of_two.0

any_delivers_once_example :
    ((world1.op.delivered ≡ []) × (0 < sum_below 2 (λ i. left (world1.phases i))))
    ⊎ ((c : Completion ℕ ℕ) × (world1.op.delivered ≡ c ∷ [])
        × (sum_below 2 (λ i. left (world1.phases i)) ≡ 0)
        × Outcome first_successful 2 world1 c)
any_delivers_once_example = any_delivers_once first_successful 2 (omega arith) run_of_two.1

settled : determined first_successful world1.order ≡ true
unfolding stops
settled = rw run_of_two.2 refl

abbrev mixed : List (Completion ℕ ℕ)
mixed = set_stopped ∷ set_error 8 ∷ set_value (7 ∷ []) ∷ []

abbrev one_error : List (Completion ℕ ℕ)
one_error = set_error 8 ∷ []

first_successful-stopped_first_example :
    stored first_successful none (set_stopped ∷ one_error) ≡ some set_stopped
first_successful-stopped_first_example = first_successful-stopped_first one_error refl
