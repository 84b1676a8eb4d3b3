-- ===== src/Schedulers.antt =====
-- What the operation states of the priority, the time and the trigger scheduler share. An operation
-- is a task of the injected manager, by its address; `S` is the manager's state.
pub mod Invariant
pub mod Priority
pub mod Time
pub mod Trigger
use cpp_baremetal_senders_an.Base.{ℕ, Bool, List, [], ◌∷◌, ◌++◌, update}
use cpp_baremetal_senders_an.Channel.{Completion}

-- `asked` says that the receiver's token has been asked to stop, `emplacing` that `start` has handed
-- the task over and has still to emplace the stop callback, and `stop_cb` that the callback is
-- registered; `delivered` is the log of the completions that the receiver was given.
pub record Op (V E : Type 0) : Type 0 where
  pub started : Bool
  pub asked : Bool
  pub emplacing : Bool
  pub stop_cb : Bool
  pub delivered : List (Completion V E)

pub record World (S V E : Type 0) : Type 0 where
  pub state : S
  pub ops : ℕ → Op V E

module _ {S V E : Type 0} where
  abbrev pub set_op : ℕ → Op V E → World S V E → World S V E
  set_op t o w = record w { ops = update w.ops t o }

  unfoldable pub deliver : ℕ → Completion V E → World S V E → World S V E
  deliver t c w = let o = w.ops t in set_op t (record o { delivered = o.delivered ++ c ∷ [] }) w
