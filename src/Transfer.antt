-- ===== src/Transfer.antt =====
-- include/async/just.hpp, start_on.hpp and continue_on.hpp: senders that complete
-- at once, and the transfer of work to a scheduler. A sender is given by what it does when it is
-- started, that of `schedule()` included.
pub mod Values
pub mod Completions
use cpp_baremetal_senders_an.Base.{ℕ, Bool, true, false, List, [], ◌∷◌, ◌++◌}
use cpp_baremetal_senders_an.Sender.{Tag, value_tag, error_tag, stopped_tag, Signal, Run, send}
use cpp_baremetal_senders_an.Sequence.{sequence}
use cpp_baremetal_senders_an.Let.{OpState, new_op, start}

-- The channels that `let_value` handles.
unfoldable pub only_value : Tag → Bool
only_value value_tag = true
only_value error_tag = false
only_value stopped_tag = false

module _ {V : Type 0} where
  -- `_just::sender<Name, Tag, Vs...>`: `just`, `just_error` and `just_stopped`.
  unfoldable pub just : Tag → List V → Run V
  just t vs = record { started = []; completion = send t vs }

  -- `start_on`: `schedule() | seq(s)`.
  unfoldable pub start_on : Run V → Run V → Run V
  start_on schedule s = sequence schedule s

  -- What `continue_on` gives to `let_value`: the values are sent again on the scheduler.
  unfoldable pub resend : Run V → Tag → List V → Run V
  resend schedule t vs = start_on schedule (just value_tag vs)

  -- The operation of `first | continue_on(scheduler)`.
  unfoldable pub continue_on : Run V → Run V → OpState V
  continue_on first schedule = start only_value (resend schedule) first new_op
