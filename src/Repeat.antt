-- ===== src/Repeat.antt =====
-- include/async/repeat.hpp: `repeat`, `repeat_until` and `repeat_n`. The adapted sender is a
-- parameter: `child k` is the completion of its `k`-th connection, counted from 0, and `stop k`
-- says whether the downstream token has been asked to stop when that connection is about to
-- start. The predicate may carry a state of its own, as the lambda of `repeat_n` does.
pub mod Exits
pub mod Counted
pub mod Completions
use cpp_baremetal_senders_an.Base.{
  ℕ, zero, suc, ◌+◌, ◌-◌, ◌%◌, ◌^◌, Bool, true, false, not, Option, none, some, List, [], ◌∷◌, ◌++◌,
  ◌==◌, ◌&&◌, if◌then◌else◌,
}
use cpp_baremetal_senders_an.Channel.{Completion, set_value, set_error, set_stopped}

-- `has_state` is `state.has_value()`, `starts` counts the starts of the child, and `loops` is the
-- log of the calls of the loop function.
pub record OpState (V E P : Type 0) : Type 0 where
  pub has_state : Bool
  pub pred_state : P
  pub starts : ℕ
  pub loops : List (List V)
  pub delivered : List (Completion V E)

unfoldable pub new_op : {V E P : Type 0} → P → OpState V E P
new_op q = record { has_state = false; pred_state = q; starts = 0; loops = []; delivered = [] }

-- The predicate of `repeat`, and that of `repeat_n`, `n-- == 0` on an unsigned number of 32 bits.
unfoldable pub never_stop : {V P : Type 0} → List V → P → Bool × P
never_stop vs q = (false, q)

unfoldable pub count_down : {V : Type 0} → List V → ℕ → Bool × ℕ
count_down vs n = (n == 0, (n + 2 ^ 32 - 1) % 2 ^ 32)

module _ {V E P : Type 0} where
  unfoldable pub setup : OpState V E P → OpState V E P
  setup s = record s { has_state = true }

  unfoldable pub passthrough : Completion V E → OpState V E P → OpState V E P
  passthrough c s = record s { has_state = false; delivered = s.delivered ++ c ∷ [] }

  -- `checks` says that the adapted sender cannot be stopped, so that the loop asks the token.
  module _ (pred : List V → P → Bool × P) (checks : Bool) (stop : ℕ → Bool)
      (child : ℕ → Completion V E) where
    -- `repeat`, up to `begin_loop`.
    unfoldable pub repeat_step : List V → OpState V E P → OpState V E P
    unfolding setup passthrough
    repeat_step vs s =
        let (stopping, q) = pred vs s.pred_state in
        let s' = record s { pred_state = q } in
        if stopping then passthrough (set_value vs) s' else setup s'

    -- The receiver of the child.
    unfoldable pub receive : Completion V E → OpState V E P → OpState V E P
    unfolding repeat_step passthrough
    receive (set_value vs) s = repeat_step vs s
    receive (set_error e) s = passthrough (set_error e) s
    receive set_stopped s = passthrough set_stopped s

    -- `begin_loop` where the child is synchronous: it completes while it is started.
    unfoldable pub begin_loop : ℕ → OpState V E P → OpState V E P
    unfolding receive passthrough
    begin_loop k s =
        if checks && stop k
        then passthrough set_stopped s
        else receive (child k) (record s { starts = s.starts + 1 })

    -- `while (state.has_value()) begin_loop();`
    unfoldable pub sync_loop : ℕ → ℕ → OpState V E P → Option (OpState V E P)
    unfolding begin_loop
    sync_loop zero k s = none
    sync_loop (suc fuel) k s =
        let again = sync_loop fuel (suc k) (begin_loop k s) in if s.has_state then again else some s

    unfoldable pub sync_start : ℕ → OpState V E P → Option (OpState V E P)
    unfolding sync_loop setup
    sync_start fuel s = sync_loop fuel 0 (setup s)

    -- An asynchronous child: `begin_loop` starts it, and its completion comes later. After a value
    -- that does not end the loop the child is connected and started again, and only where that
    -- start was made is the loop function called.
    unfoldable pub call_loop_fn : ℕ → Completion V E → OpState V E P → OpState V E P
    call_loop_fn k (set_value vs) s =
        if checks && stop k then s else record s { loops = s.loops ++ vs ∷ [] }
    call_loop_fn k (set_error e) s = s
    call_loop_fn k set_stopped s = s

    unfoldable pub async_loop : ℕ → ℕ → OpState V E P → Option (OpState V E P)
    unfolding receive passthrough call_loop_fn
    async_loop zero k s = none
    async_loop (suc fuel) k s =
        let s1 = receive (child k) (record s { starts = s.starts + 1 }) in
        let again = async_loop fuel (suc k) (call_loop_fn (suc k) (child k) s1) in
        if checks && stop k
        then some (passthrough set_stopped s)
        else (if s1.has_state then again else some s1)

    unfoldable pub async_start : ℕ → OpState V E P → Option (OpState V E P)
    unfolding async_loop setup
    async_start fuel s = async_loop fuel 0 (setup s)
