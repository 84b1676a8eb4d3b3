-- ===== src/Split.antt =====
-- include/async/split.hpp: the operation states that share one operation of the sender that is
-- split. The static members are the state; an operation is named by its address, and the intrusive
-- list of the waiting operations is the pointers `next_ops`, from `linked_ops` on. `left t c` is what
-- is left of the stored values when the receiver of `t` was given them as rvalues.
pub mod Once
pub mod Reset
pub mod Shared
pub mod Handed
pub mod Completions
use cpp_baremetal_senders_an.Base.{
  ℕ, zero, suc, Bool, true, false, Option, none, some, List, [], ◌∷◌, ◌++◌, if◌then◌else◌, update,
}
use cpp_baremetal_senders_an.Channel.{Completion, set_stopped}

-- `single_ops` says that the shared operation is connected and `single_starts` counts its starts;
-- `stop_requested` is the state of `stop_source`. Of an operation, `started` and `asked` are what its
-- owner did with it and with its token, and `delivered` what its receiver was given.
pub record State (V E : Type 0) : Type 0 where
  pub values : Option (Completion V E)
  pub linked_ops : Option ℕ
  pub single_ops : Bool
  pub single_starts : ℕ
  pub stop_requested : Bool
  pub next_ops : ℕ → Option ℕ
  pub stop_cb : ℕ → Bool
  pub started : ℕ → Bool
  pub asked : ℕ → Bool
  pub delivered : ℕ → List (Completion V E)

module _ {V E : Type 0} where
  unfoldable pub reset : State V E → State V E
  reset s = record s { single_ops = false; values = none; linked_ops = none }

  unfoldable pub connect : State V E → State V E
  connect s = if s.single_ops then s else record s { single_ops = true }

  -- `set_value`, `set_error` or `set_stopped` of the receiver of `t`.
  unfoldable pub deliver : ℕ → Completion V E → State V E → State V E
  deliver t c s = record s { delivered = update s.delivered t (s.delivered t ++ c ∷ []) }

  -- `stop_cb.emplace`: the callback is called at once where the token was asked to stop.
  unfoldable pub emplace_stop_cb : ℕ → State V E → State V E
  emplace_stop_cb t s = record s {
    stop_cb = update s.stop_cb t true;
    stop_requested = if s.asked t then true else s.stop_requested;
  }

  -- The token of `t` is asked to stop: a callback that is registered asks the shared operation to.
  unfoldable pub ask : ℕ → State V E → State V E
  ask t s = record s {
    asked = update s.asked t true;
    stop_requested = if s.stop_cb t then true else s.stop_requested;
  }

  -- The end of `start`: the operation goes before those that wait, and the first starts the shared
  -- operation.
  unfoldable pub link : ℕ → State V E → State V E
  link t s =
      let s' = record s { next_ops = update s.next_ops t s.linked_ops; linked_ops = some t } in
      elim s.linked_ops [ none ↦ record s' { single_starts = suc s.single_starts } | some u ↦ s' ]

module _ {V E : Type 0} (left : ℕ → Completion V E → Completion V E) where
  unfoldable pub complete : ℕ → State V E → State V E
  complete t s =
      let s' = record s { stop_cb = update s.stop_cb t false } in
      elim s.values [ none ↦ s' | some c ↦ deliver t c (record s' { values = some (left t c) }) ]

  -- On fuel: `none` is a list that is longer than the fuel.
  unfoldable pub notify : ℕ → ℕ → State V E → Option (State V E)
  notify zero t s = none
  notify (suc fuel) t s = elim ((complete t s).next_ops t) [
    | none ↦ some (complete t s)
    | some u ↦ notify fuel u (complete t s)
  ]

  -- `set_value`, `set_error` and `set_stopped` of `single_receiver`.
  unfoldable pub receive : ℕ → Completion V E → State V E → Option (State V E)
  receive fuel c s = elim s.linked_ops [
    | none ↦ some s
    | some t ↦ notify fuel t (record s { values = some c })
  ]

  unfoldable pub start : ℕ → State V E → State V E
  start t s =
      let s' = record s { started = update s.started t true } in
      elim s.values [
        | some c ↦ complete t s'
        | none ↦
            let s'' = emplace_stop_cb t s' in
            if s''.stop_requested then deliver t set_stopped s'' else link t s''
      ]
