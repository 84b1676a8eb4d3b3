-- ===== src/Examples/Alls.antt =====
-- `when_all` of two children that send numbers and may send an error.
use cpp_baremetal_senders_an.Base.{
  ℕ, ◌<◌, ◌≡◌, ◌⊎◌, refl, Bool, true, List, [], ◌∷◌, arith, sum_below,
}
use cpp_baremetal_senders_an.Channel.{Completion, set_value}
use cpp_baremetal_senders_an.WhenAll.{new_op, nostop_start, nostop_emplace_value, load_all}
use cpp_baremetal_senders_an.WhenAll.Steps.{
  World, value_stored, counted, Reach, here, next, begun, left,
}
use cpp_baremetal_senders_an.WhenAll.Invariant.{Outcome}
use cpp_baremetal_senders_an.WhenAll.Outcome.{delivers_once}
use cpp_baremetal_senders_an.WhenAll.Variants.{Event, value, on_nostop}

abbrev both : ℕ → Bool
both i = true

abbrev world0 : World ℕ ℕ
world0 = begun 2

-- The second child sends 8, the first one 7, and both are counted down.
run_of_two : (w : World ℕ ℕ) × Reach both 2 world0 w
unfolding begun
run_of_two =
    let w0 : World ℕ ℕ = world0 in
    let r1 = next here (value_stored w0 1 (8 ∷ []) (omega arith) refl refl) in
    let r2 = next r1 (counted _ 1 (set_value (8 ∷ [])) (omega arith) refl) in
    let r3 = next r2 (value_stored _ 0 (7 ∷ []) (omega arith) refl refl) in
    (_, next r3 (counted _ 0 (set_value (7 ∷ [])) (omega arith) refl))

abbrev world1 : World ℕ ℕ
world1 = run_of_two.0

delivers_once_example :
    ((world1.op.delivered ≡ []) × (0 < sum_below 2 (λ i. left (world1.phases i))))
    ⊎ ((c : Completion ℕ ℕ) × (world1.op.delivered ≡ c ∷ [])
        × (sum_below 2 (λ i. left (world1.phases i)) ≡ 0)
        × Outcome 2 world1 c)
delivers_once_example = delivers_once both 2 (omega arith) run_of_two.1

abbrev events : List (Event ℕ ℕ)
events = value 1 (8 ∷ []) ∷ value 0 (7 ∷ []) ∷ []

values_in_order :
    (on_nostop both 2 events (nostop_start both 2 new_op)).delivered ≡ set_value (7 ∷ 8 ∷ []) ∷ []
unfolding on_nostop nostop_start new_op nostop_emplace_value load_all
values_in_order = refl
