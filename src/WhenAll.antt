-- ===== src/WhenAll.antt =====
-- include/async/when_all.hpp: the operation states of `when_all` with two senders or more. The
-- children are numbered by their place in the argument list; `n` is `sizeof...(Sndrs)`, and
-- `sends i` says whether child `i` has a value completion. `delivered` is the log of the
-- completions that the downstream receiver was given.
pub mod Steps
pub mod Invariant
pub mod Outcome
pub mod Variants
pub mod Completions
pub mod Advertised
use cpp_baremetal_senders_an.Base.{
  ℕ, zero, suc, ◌+◌, ◌-◌, Bool, true, false, not, Option, none, some, List, [], ◌∷◌, ◌++◌, ◌==◌,
  if◌then◌else◌, update,
}
use cpp_baremetal_senders_an.Channel.{Completion, set_value, set_error, set_stopped}

-- `values` are the `sub_op_storage` of the children, and `caught_error` is `error_op_state`.
pub record OpState (V E : Type 0) : Type 0 where
  pub count : ℕ
  pub stop_requested : Bool
  pub stop_cb : Bool
  pub caught_error : Option E
  pub values : ℕ → Option (List V)
  pub delivered : List (Completion V E)

-- The loads of all children with storage, in order; `none` is a load of an empty optional.
unfoldable pub load_all : {V : Type 0} → (ℕ → Bool) → (ℕ → Option (List V)) → ℕ → Option (List V)
load_all sends vals zero = some []
load_all sends vals (suc n) =
    let rest = load_all sends vals n in
    if sends n
    then elim rest [
      | none ↦ none
      | some xs ↦ elim (vals n) [ none ↦ none | some vs ↦ some (xs ++ vs) ]
    ]
    else rest

module _ {V E : Type 0} where
  -- `sub_op_storage::store`: a child with no value completion has no storage.
  unfoldable pub store : (ℕ → Bool) → ℕ → List V → OpState V E → OpState V E
  store sends i vs s = if sends i then record s { values = update s.values i (some vs) } else s

  -- `error_op_state::store_error`: only the first error is kept.
  unfoldable pub store_error : E → OpState V E → OpState V E
  store_error e s = elim s.caught_error [ none ↦ record s { caught_error = some e } | some _ ↦ s ]

  -- `stop_source.request_stop()`, which is also what the callback on the downstream token does.
  unfoldable pub request_stop : OpState V E → OpState V E
  request_stop s = record s { stop_requested = true }

  deliver : Completion V E → OpState V E → OpState V E
  deliver c s = record s { delivered = s.delivered ++ c ∷ [] }

  -- The value branch of `complete`. An empty optional there is undefined behaviour: the model
  -- delivers nothing, and the theorems show that it does not happen.
  deliver_values : Option (List V) → OpState V E → OpState V E
  unfolding deliver
  deliver_values none s = s
  deliver_values (some xs) s = deliver (set_value xs) s

  module _ (sends : ℕ → Bool) (n : ℕ) where
    -- `op_state`, whose children can be stopped.
    unfoldable pub complete : OpState V E → OpState V E
    unfolding deliver_values
    complete s =
        let s' = record s { stop_cb = false } in
        elim s.caught_error [
          | some e ↦ deliver (set_error e) s'
          | none ↦
              if s.stop_requested
              then deliver set_stopped s'
              else deliver_values (load_all sends s.values n) s'
        ]

    unfoldable pub notify : OpState V E → OpState V E
    unfolding complete
    notify s =
        let s' = record s { count = s.count - 1 } in if s'.count == 0 then complete s' else s'

    unfoldable pub notify_error : E → OpState V E → OpState V E
    unfolding notify store_error request_stop
    notify_error e s = notify (request_stop (store_error e s))

    unfoldable pub notify_stopped : OpState V E → OpState V E
    unfolding notify request_stop
    notify_stopped s = notify (request_stop s)

    unfoldable pub emplace_value : ℕ → List V → OpState V E → OpState V E
    unfolding notify store
    emplace_value i vs s = notify (store sends i vs s)

    -- `start`, up to the starting of the children; `stopped` says whether the downstream token has
    -- been asked to stop, so that the callback is called as it is made. The second result says
    -- whether the children are started.
    unfoldable pub start : Bool → OpState V E → OpState V E × Bool
    unfolding request_stop deliver
    start stopped s =
        let s1 = record s { stop_cb = true } in
        let s2 = if stopped then request_stop s1 else s1 in
        if s2.stop_requested
        then (deliver set_stopped s2, false)
        else (record s2 { count = n }, true)

    -- `nostop_op_state`, none of whose children can be stopped.
    unfoldable pub nostop_complete : OpState V E → OpState V E
    unfolding deliver_values
    nostop_complete s = elim s.caught_error [
      | some e ↦ deliver (set_error e) s
      | none ↦ deliver_values (load_all sends s.values n) s
    ]

    unfoldable pub nostop_notify : OpState V E → OpState V E
    unfolding nostop_complete
    nostop_notify s =
        let s' = record s { count = s.count - 1 } in
        if s'.count == 0 then nostop_complete s' else s'

    unfoldable pub nostop_notify_error : E → OpState V E → OpState V E
    unfolding nostop_notify store_error
    nostop_notify_error e s = nostop_notify (store_error e s)

    unfoldable pub nostop_notify_stopped : OpState V E → OpState V E
    nostop_notify_stopped s = s

    unfoldable pub nostop_emplace_value : ℕ → List V → OpState V E → OpState V E
    unfolding nostop_notify store
    nostop_emplace_value i vs s = nostop_notify (store sends i vs s)

    unfoldable pub nostop_start : OpState V E → OpState V E
    nostop_start s = record s { count = n }

    -- `sync_op_state`, all of whose children complete while they are started: `complete` is called
    -- by `start`, after the children.
    unfoldable pub sync_notify : OpState V E → OpState V E
    sync_notify s = s

    unfoldable pub sync_notify_error : E → OpState V E → OpState V E
    unfolding store_error
    sync_notify_error e s = store_error e s

    unfoldable pub sync_emplace_value : ℕ → List V → OpState V E → OpState V E
    unfolding sync_notify store
    sync_emplace_value i vs s = sync_notify (store sends i vs s)

    unfoldable pub sync_complete : OpState V E → OpState V E
    unfolding deliver_values
    sync_complete s = elim s.caught_error [
      | some e ↦ deliver (set_error e) s
      | none ↦ deliver_values (load_all sends s.values n) s
    ]

    -- `start`; `children` is what the starting of the children does, in their order.
    unfoldable pub sync_start : (OpState V E → OpState V E) → OpState V E → OpState V E
    unfolding sync_complete
    sync_start children s = sync_complete (children s)

unfoldable pub new_op : {V E : Type 0} → OpState V E
new_op = record {
  count = 0;
  stop_requested = false;
  stop_cb = false;
  caught_error = none;
  values = λ _. none;
  delivered = [];
}
