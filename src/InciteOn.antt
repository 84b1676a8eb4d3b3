-- ===== src/InciteOn.antt =====
-- include/async/incite_on.hpp: the operation state, which starts an operation of a trigger scheduler
-- and then calls the function that the first sender sent. The function is the caller's code: a
-- parameter, over the state that the managers and the operations share.
pub mod Order
pub mod Completions
use cpp_baremetal_senders_an.Base.{ℕ, Bool, true, false, List, [], ◌∷◌, if◌then◌else◌}
use cpp_baremetal_senders_an.Channel.{Completion, set_error, set_stopped}
use cpp_baremetal_senders_an.Pool.{Pool, Cancellable}
use cpp_baremetal_senders_an.Schedulers.{Op, World, set_op, deliver}
use cpp_baremetal_senders_an.Schedulers.Trigger

-- What the first sender completes with.
pub data First (W E : Type 0) : Type 0 where
  sends : (W → W) → First W E
  fails : E → First W E
  stops : First W E

module _ (manager : Cancellable) {V E : Type 0} where
  -- `start` of the trigger scheduler's operation, to its end.
  unfoldable pub start_scheduled :
      manager.pool.Request → ℕ → World manager.pool.State V E → World manager.pool.State V E
  start_scheduled r t w =
      let w' = Trigger.start manager r t w in
      let w'' = Trigger.emplace_stop_cb manager t w' in if (w'.ops t).emplacing then w'' else w'

  unfoldable pub complete_first :
      (World manager.pool.State V E → World manager.pool.State V E)
      → manager.pool.Request
      → ℕ
      → World manager.pool.State V E
      → World manager.pool.State V E
  complete_first f r t w = f (start_scheduled r t w)

  unfoldable pub passthrough :
      Completion V E → ℕ → World manager.pool.State V E → World manager.pool.State V E
  passthrough c t w = deliver t c (set_op t (record (w.ops t) { started = true }) w)

  -- `start`, to the completion of the first sender, by its receiver.
  unfoldable pub start :
      First (World manager.pool.State V E) E
      → manager.pool.Request
      → ℕ
      → World manager.pool.State V E
      → World manager.pool.State V E
  start (sends f) r t w = complete_first f r t w
  start (fails e) r t w = passthrough (set_error e) t w
  start stops r t w = passthrough set_stopped t w
