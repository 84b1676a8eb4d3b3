-- ===== src/Examples/Chains.antt =====
-- `then`, `let` and `sequence` at work.
use cpp_baremetal_senders_an.Base.{ℕ, Bool, true, false, List, [], ◌∷◌, ◌++◌, ◌≡◌, refl}
use cpp_baremetal_senders_an.Channel.{set_value, set_error}
use cpp_baremetal_senders_an.Sender.{Tag, value_tag, error_tag, stopped_tag, Signal, Run}
use cpp_baremetal_senders_an.Sequence.{start, new_op, seq}
use cpp_baremetal_senders_an.Sequence.Order.{one_by_one, start-seq}

-- Append a mark.
abbrev marked : ℕ → List ℕ → List ℕ
marked n vs = vs ++ n ∷ []

abbrev sent : Signal ℕ
sent = set_value (1 ∷ [])

-- Leaf senders: two that send a value, and one that fails.
abbrev sends : ℕ → Run ℕ
sends n = record { started = n ∷ []; completion = set_value (n ∷ []) }

abbrev fails : ℕ → Run ℕ
fails n = record { started = n ∷ []; completion = set_error (n ∷ []) }

start-seq_example :
    ((start (seq (sends 1) (fails 2 ∷ [])) (sends 3) new_op).started
      ≡ (one_by_one (sends 1) (fails 2 ∷ sends 3 ∷ [])).started)
    × ((start (seq (sends 1) (fails 2 ∷ [])) (sends 3) new_op).delivered
        ≡ (one_by_one (sends 1) (fails 2 ∷ sends 3 ∷ [])).completion ∷ [])
start-seq_example = start-seq (sends 1) (fails 2 ∷ []) (sends 3)

stops_at_failure : (start (seq (sends 1) (fails 2 ∷ [])) (sends 3) new_op).started ≡ 1 ∷ 2 ∷ []
unfolding start seq new_op
stops_at_failure = refl

abbrev values_only : Tag → Bool
values_only value_tag = true
values_only error_tag = false
values_only stopped_tag = false

abbrev next : Tag → List ℕ → Run ℕ
next t vs = record { started = 7 ∷ []; completion = set_value (marked 7 vs) }
