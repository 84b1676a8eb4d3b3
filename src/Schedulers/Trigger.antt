-- ===== src/Schedulers/Trigger.antt =====
-- include/async/schedulers/trigger_scheduler.hpp: the operation states of the trigger scheduler, for
-- receivers whose token can be asked to stop and for those whose token cannot. The trigger manager
-- is a parameter; a request is empty, and the arguments of the trigger reach `run`.
pub mod Once
pub mod Immediate
use cpp_baremetal_senders_an.Base.{ℕ, Bool, true, false, List, if◌then◌else◌}
use cpp_baremetal_senders_an.Channel.{Completion, set_value, set_stopped}
use cpp_baremetal_senders_an.Pool.{Pool, Cancellable}
use cpp_baremetal_senders_an.Schedulers.{Op, World, set_op, deliver}

module _ (manager : Cancellable) {V E : Type 0} where
  unfoldable pub check_stopped : ℕ → World manager.pool.State V E → Bool
  check_stopped t w = (w.ops t).asked

  unfoldable pub clear_stop_cb : ℕ → World manager.pool.State V E → World manager.pool.State V E
  clear_stop_cb t w = set_op t (record (w.ops t) { stop_cb = false }) w

  unfoldable pub run : List V → ℕ → World manager.pool.State V E → World manager.pool.State V E
  run args t w = deliver t (set_value args) (clear_stop_cb t w)

  unfoldable pub complete_stopped : ℕ → World manager.pool.State V E → World manager.pool.State V E
  complete_stopped t w = deliver t set_stopped w

  unfoldable pub stop : ℕ → World manager.pool.State V E → World manager.pool.State V E × Bool
  stop t w =
      let w' = clear_stop_cb t w in
      let (s, dequeued) = manager.cancel t w'.state in (record w' { state = s }, dequeued)

  -- `stop_callback_fn`.
  unfoldable pub stop_callback : ℕ → World manager.pool.State V E → World manager.pool.State V E
  stop_callback t w = let (w', stopped) = stop t w in if stopped then complete_stopped t w' else w'

  unfoldable pub start_unstoppable :
      manager.pool.Request → ℕ → World manager.pool.State V E → World manager.pool.State V E
  start_unstoppable r t w =
      let w' = set_op t (record (w.ops t) { started = true }) w in
      record w' { state = (manager.pool.admit r t w'.state).0 }

  -- `start`, up to the emplacement of the stop callback.
  unfoldable pub start :
      manager.pool.Request → ℕ → World manager.pool.State V E → World manager.pool.State V E
  start r t w =
      if check_stopped t w
      then complete_stopped t (set_op t (record (w.ops t) { started = true }) w)
      else set_op t (record (w.ops t) { started = true; emplacing = true })
          (record w { state = (manager.pool.admit r t w.state).0 })

  -- The end of `start`: where the token was asked to stop meanwhile, the callback is called as it is
  -- made.
  unfoldable pub emplace_stop_cb : ℕ → World manager.pool.State V E → World manager.pool.State V E
  emplace_stop_cb t w =
      let w' = set_op t (record (w.ops t) { emplacing = false; stop_cb = true }) w in
      if (w.ops t).asked then stop_callback t w' else w'

  -- The token is asked to stop, which calls the callback that is registered, and calls it once.
  unfoldable pub ask : ℕ → World manager.pool.State V E → World manager.pool.State V E
  ask t w =
      let w' = set_op t (record (w.ops t) { asked = true; stop_cb = false }) w in
      if (w.ops t).stop_cb then stop_callback t w' else w'
