-- ===== src/Examples/Loops.antt =====
-- `repeat` and `periodic` at work.
use cpp_baremetal_senders_an.Base.{ℕ, ◌+◌, ◌==◌, refl, Bool, true, false, List, [], ◌∷◌, arith}
use cpp_baremetal_senders_an.Channel.{Completion, set_value}
use cpp_baremetal_senders_an.Repeat
use cpp_baremetal_senders_an.Repeat.Exits.{Exits, satisfied, again, Ended, start-Ended}
use cpp_baremetal_senders_an.Periodic.{safe_quantized_expiry, new_op, start, run}
use cpp_baremetal_senders_an.Periodic.Grid.{AllOnGrid, run_on_grid}

abbrev running : ℕ → Bool
running k = false

-- A child that sends the number of its connection.
abbrev sends_index : ℕ → Completion ℕ ℕ
sends_index k = set_value (k ∷ [])

-- A predicate that counts to one.
abbrev second_time : {A : Type 0} → A → ℕ → Bool × ℕ
second_time a q = (q == 1, q + 1)

repeats_twice : Exits second_time true running sends_index 0 0 2 (set_value (1 ∷ []))
repeats_twice =
    again 0 0 (0 ∷ []) 1 (set_value (1 ∷ [])) refl refl refl (satisfied 1 1 (1 ∷ []) refl refl refl)

start-Ended_example :
    Ended second_time true running sends_index
      (Repeat.new_op 0)
      2
      (set_value (1 ∷ []))
      (Repeat.sync_start second_time true running sends_index 4 (Repeat.new_op 0))
    × Ended second_time true running sends_index
        (Repeat.new_op 0)
        2
        (set_value (1 ∷ []))
        (Repeat.async_start second_time true running sends_index 4 (Repeat.new_op 0))
start-Ended_example = start-Ended second_time true running sends_index repeats_twice 4 (omega arith)

abbrev one_value : ℕ → List ℕ
one_value k = k ∷ []

-- Two values, the second one late.
abbrev late : List (Bool × ℕ × Completion ℕ ℕ)
late = (false, 20, set_value []) ∷ (false, 57, set_value []) ∷ []

run_on_grid_example :
    AllOnGrid 10 10
      (run safe_quantized_expiry second_time true late (start 0 (new_op 10 5))).expirations
run_on_grid_example =
    run_on_grid safe_quantized_expiry second_time true 10 0 5 late tt (omega arith)
