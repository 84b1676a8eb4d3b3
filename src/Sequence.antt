-- ===== src/Sequence.antt =====
-- include/async/sequence.hpp: `sequence` and `seq`. The senders are given by what they do when they
-- are started: `first` is the adapted one, and `second` the one that the function makes.
pub mod Order
pub mod Completions
use cpp_baremetal_senders_an.Base.{ℕ, List, [], ◌∷◌, ◌++◌}
use cpp_baremetal_senders_an.Channel.{set_value, set_error, set_stopped}
use cpp_baremetal_senders_an.Sender.{Signal, Run}

-- The alternatives of `state`.
pub data State : Type 0 where
  first_ops second_ops : State

-- `started` is the log of the leaf senders that were started, and `delivered` that of the
-- completions that the downstream receiver was given.
pub record OpState (V : Type 0) : Type 0 where
  pub state : State
  pub started : List ℕ
  pub delivered : List (Signal V)

unfoldable pub new_op : {V : Type 0} → OpState V
new_op = record { state = first_ops; started = []; delivered = [] }

module _ {V : Type 0} where
  unfoldable pub passthrough : Signal V → OpState V → OpState V
  passthrough c s = record s { delivered = s.delivered ++ c ∷ [] }

  -- The second operation is connected to the downstream receiver itself, and started.
  unfoldable pub complete_first : Run V → OpState V → OpState V
  complete_first second s = record s {
    state = second_ops;
    started = s.started ++ second.started;
    delivered = s.delivered ++ second.completion ∷ [];
  }

  -- The receiver of the first sender.
  unfoldable pub receive : Run V → Signal V → OpState V → OpState V
  unfolding complete_first passthrough
  receive second (set_value vs) s = complete_first second s
  receive second (set_error vs) s = passthrough (set_error vs) s
  receive second set_stopped s = passthrough set_stopped s

  unfoldable pub start : Run V → Run V → OpState V → OpState V
  unfolding receive
  start first second s =
      receive second first.completion (record s { started = s.started ++ first.started })

  -- The sender `sequence(first, second)`, by what its operation does.
  unfoldable pub sequence : Run V → Run V → Run V
  sequence first second = elim first.completion [
    | set_value vs ↦ record {
      started = first.started ++ second.started;
      completion = second.completion;
    }
    | set_error vs ↦ first
    | set_stopped ↦ first
  ]

  -- `seq`: the fold from the left.
  unfoldable pub seq : Run V → List (Run V) → Run V
  unfolding sequence
  seq first [] = first
  seq first (next ∷ rest) = seq (sequence first next) rest
