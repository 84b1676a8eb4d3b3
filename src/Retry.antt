-- ===== src/Retry.antt =====
-- include/async/retry.hpp: `retry` and `retry_until`. The adapted sender is a parameter: `child k`
-- is the completion of its `k`-th connection, counted from 0, and `stop k` says whether the
-- downstream token has been asked to stop when that connection is about to start. The predicate
-- may carry a state of its own.
pub mod Exits
pub mod Completions
use cpp_baremetal_senders_an.Base.{
  ℕ, zero, suc, ◌+◌, Bool, true, false, Option, none, some, List, [], ◌∷◌, ◌++◌, ◌&&◌,
  if◌then◌else◌,
}
use cpp_baremetal_senders_an.Channel.{Completion, set_value, set_error, set_stopped}

-- `has_state` is `state.has_value()`, and `starts` counts the starts of the child.
pub record OpState (V E P : Type 0) : Type 0 where
  pub has_state : Bool
  pub pred_state : P
  pub starts : ℕ
  pub delivered : List (Completion V E)

unfoldable pub new_op : {V E P : Type 0} → P → OpState V E P
new_op q = record { has_state = false; pred_state = q; starts = 0; delivered = [] }

-- The predicate of `retry`.
unfoldable pub never_stop : {E P : Type 0} → E → P → Bool × P
never_stop e q = (false, q)

module _ {V E P : Type 0} where
  unfoldable pub setup : OpState V E P → OpState V E P
  setup s = record s { has_state = true }

  unfoldable pub passthrough : Completion V E → OpState V E P → OpState V E P
  passthrough c s = record s { has_state = false; delivered = s.delivered ++ c ∷ [] }

  -- `checks` says that the adapted sender cannot be stopped, so that the loop asks the token.
  module _ (pred : E → P → Bool × P) (checks : Bool) (stop : ℕ → Bool)
      (child : ℕ → Completion V E) where
    -- `retry`, up to `begin_loop`.
    unfoldable pub retry_step : E → OpState V E P → OpState V E P
    unfolding setup passthrough
    retry_step e s =
        let (stopping, q) = pred e s.pred_state in
        let s' = record s { pred_state = q } in
        if stopping then passthrough (set_error e) s' else setup s'

    -- The receiver of the child.
    unfoldable pub receive : Completion V E → OpState V E P → OpState V E P
    unfolding retry_step passthrough
    receive (set_value vs) s = passthrough (set_value vs) s
    receive (set_error e) s = retry_step e s
    receive set_stopped s = passthrough set_stopped s

    -- `begin_loop` where the child is synchronous: it completes while it is started.
    unfoldable pub begin_loop : ℕ → OpState V E P → OpState V E P
    unfolding receive passthrough
    begin_loop k s =
        if checks && stop k
        then passthrough set_stopped s
        else receive (child k) (record s { starts = s.starts + 1 })

    -- `while (state.has_value()) begin_loop();`
    unfoldable pub sync_loop : ℕ → ℕ → OpState V E P → Option (OpState V E P)
    unfolding begin_loop
    sync_loop zero k s = none
    sync_loop (suc fuel) k s =
        let again = sync_loop fuel (suc k) (begin_loop k s) in if s.has_state then again else some s

    unfoldable pub sync_start : ℕ → OpState V E P → Option (OpState V E P)
    unfolding sync_loop setup
    sync_start fuel s = sync_loop fuel 0 (setup s)

    -- An asynchronous child: each retry calls `begin_loop` from the child's completion.
    unfoldable pub async_loop : ℕ → ℕ → OpState V E P → Option (OpState V E P)
    unfolding begin_loop
    async_loop zero k s = none
    async_loop (suc fuel) k s =
        let s1 = begin_loop k s in
        let again = async_loop fuel (suc k) s1 in if s1.has_state then again else some s1

    unfoldable pub async_start : ℕ → OpState V E P → Option (OpState V E P)
    unfolding async_loop setup
    async_start fuel s = async_loop fuel 0 (setup s)
