-- ===== src/Schedulers/Priority.antt =====
-- include/async/schedulers/priority_scheduler.hpp: the operation state of the fixed-priority
-- scheduler. The task manager is injected: it is a parameter.
pub mod Once
use cpp_baremetal_senders_an.Base.{ℕ, Bool, true, false, List, [], if◌then◌else◌}
use cpp_baremetal_senders_an.Channel.{Completion, set_value, set_stopped}
use cpp_baremetal_senders_an.Pool.{Pool}
use cpp_baremetal_senders_an.Schedulers.{Op, World, set_op, deliver}

module _ (pool : Pool) {V E : Type 0} where
  -- Where the token can never be asked to stop, the flag `asked` stays false.
  unfoldable pub check_stopped : ℕ → World pool.State V E → World pool.State V E × Bool
  check_stopped t w = if (w.ops t).asked then (deliver t set_stopped w, true) else (w, false)

  unfoldable pub run : ℕ → World pool.State V E → World pool.State V E
  run t w =
      let (w', stopped) = check_stopped t w in if stopped then w' else deliver t (set_value []) w'

  unfoldable pub start : pool.Request → ℕ → World pool.State V E → World pool.State V E
  start r t w =
      let (w', stopped) = check_stopped t (set_op t (record (w.ops t) { started = true }) w) in
      if stopped then w' else record w' { state = (pool.admit r t w'.state).0 }
