-- ===== src/Let.antt =====
-- include/async/let.hpp: `let_value`, `let_error` and `let_stopped`, for any set of channels. The
-- senders are given by what they do when they are started: `first` is the adapted one, and
-- `fn t vs` the one that the function makes of a completion on channel `t`.
pub mod Binding
pub mod Completions
use cpp_baremetal_senders_an.Base.{
  ℕ, Bool, true, false, Option, none, some, List, [], ◌∷◌, ◌++◌, if◌then◌else◌,
}
use cpp_baremetal_senders_an.Sender.{Tag, Signal, tag_of, args_of, Run}

-- The alternatives of `state`: the operation of the first sender, or of the one that depends on it.
pub data State : Type 0 where
  first_ops dependent_ops : State

-- `started` is the log of the leaf senders that were started, and `delivered` that of the
-- completions that the downstream receiver was given.
pub record OpState (V : Type 0) : Type 0 where
  pub results : Option (List V)
  pub state : State
  pub started : List ℕ
  pub delivered : List (Signal V)

unfoldable pub new_op : {V : Type 0} → OpState V
new_op = record { results = none; state = first_ops; started = []; delivered = [] }

module _ {V : Type 0} where
  -- The start of a sender's operation that is connected to the downstream receiver itself.
  start_dependent : Run V → OpState V → OpState V
  start_dependent r s = record s {
    started = s.started ++ r.started;
    delivered = s.delivered ++ r.completion ∷ [];
  }

  unfoldable pub passthrough : Signal V → OpState V → OpState V
  passthrough c s = record s { delivered = s.delivered ++ c ∷ [] }

  module _ (handled : Tag → Bool) (fn : Tag → List V → Run V) where
    unfoldable pub complete_first : Tag → List V → OpState V → OpState V
    unfolding start_dependent
    complete_first t vs s =
        start_dependent (fn t vs) (record s { results = some vs; state = dependent_ops })

    -- The receiver of the first sender.
    unfoldable pub handle : Signal V → OpState V → OpState V
    unfolding complete_first passthrough
    handle c s =
        if handled (tag_of c) then complete_first (tag_of c) (args_of c) s else passthrough c s

    unfoldable pub start : Run V → OpState V → OpState V
    unfolding handle
    start first s = handle first.completion (record s { started = s.started ++ first.started })
