-- ===== src/Schedulers/Time.antt =====
-- include/async/schedulers/time_scheduler.hpp: the operation states of the time scheduler, for
-- receivers whose token can be asked to stop and for those whose token cannot. The timer manager is
-- injected: it is a parameter. A request is the duration, or the expiration that the receiver's
-- environment provides, with what the clock then reads.
pub mod Once
use cpp_baremetal_senders_an.Base.{ℕ, Bool, true, false, List, [], if◌then◌else◌}
use cpp_baremetal_senders_an.Channel.{Completion, set_value, set_stopped}
use cpp_baremetal_senders_an.Pool.{Pool, Cancellable}
use cpp_baremetal_senders_an.Schedulers.{Op, World, set_op, deliver}

module _ (manager : Cancellable) {V E : Type 0} where
  unfoldable pub run : ℕ → World manager.pool.State V E → World manager.pool.State V E
  run t w = deliver t (set_value []) w

  -- The expiration policies: `run_after` or `run_at`.
  unfoldable pub schedule :
      manager.pool.Request → ℕ → World manager.pool.State V E → World manager.pool.State V E
  schedule r t w = record w { state = (manager.pool.admit r t w.state).0 }

  -- `stop_callback_fn`.
  unfoldable pub stop : ℕ → World manager.pool.State V E → World manager.pool.State V E
  stop t w =
      let (s, cancelled) = manager.cancel t w.state in
      let w' = record w { state = s } in if cancelled then deliver t set_stopped w' else w'

  unfoldable pub start_unstoppable :
      manager.pool.Request → ℕ → World manager.pool.State V E → World manager.pool.State V E
  start_unstoppable r t w = schedule r t (set_op t (record (w.ops t) { started = true }) w)

  -- `start`, up to the emplacement of the stop callback.
  unfoldable pub start :
      manager.pool.Request → ℕ → World manager.pool.State V E → World manager.pool.State V E
  start r t w =
      let w' = set_op t (record (w.ops t) { started = true }) w in
      if (w.ops t).asked
      then deliver t set_stopped w'
      else schedule r t (set_op t (record (w.ops t) { started = true; emplacing = true }) w)

  -- The end of `start`: where the token was asked to stop meanwhile, the callback is called as it is
  -- made.
  unfoldable pub emplace_stop_cb : ℕ → World manager.pool.State V E → World manager.pool.State V E
  emplace_stop_cb t w =
      let w' = set_op t (record (w.ops t) { emplacing = false; stop_cb = true }) w in
      if (w.ops t).asked then stop t w' else w'

  -- The token is asked to stop, which calls the callback that is registered, and calls it once.
  unfoldable pub ask : ℕ → World manager.pool.State V E → World manager.pool.State V E
  ask t w =
      let w' = set_op t (record (w.ops t) { asked = true; stop_cb = false }) w in
      if (w.ops t).stop_cb then stop t w' else w'
