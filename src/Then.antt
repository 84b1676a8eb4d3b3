-- ===== src/Then.antt =====
-- include/async/then.hpp: `then`, `upon_error`, `upon_stopped`, `then_error` and
-- `transform_error`. `f` is what the functions give for the arguments together, by the third-party
-- `stdx::call_by_need`.
pub mod Handlers
pub mod Completions
use cpp_baremetal_senders_an.Base.{List, []}
use cpp_baremetal_senders_an.Channel.{set_value, set_error, set_stopped}
use cpp_baremetal_senders_an.Sender.{Tag, value_tag, error_tag, stopped_tag, Signal, send}

module _ {V : Type 0} where
  -- The receiver: a completion on the handled channel is sent on with the results, on the channel
  -- to complete; any other completion passes through.
  unfoldable pub handle : Tag → Tag → (List V → List V) → Signal V → Signal V
  unfolding send
  handle value_tag c f (set_value vs) = send c (f vs)
  handle value_tag c f (set_error vs) = set_error vs
  handle value_tag c f set_stopped = set_stopped
  handle error_tag c f (set_value vs) = set_value vs
  handle error_tag c f (set_error vs) = send c (f vs)
  handle error_tag c f set_stopped = set_stopped
  handle stopped_tag c f (set_value vs) = set_value vs
  handle stopped_tag c f (set_error vs) = set_error vs
  handle stopped_tag c f set_stopped = send c (f [])

  unfoldable pub then : (List V → List V) → Signal V → Signal V
  unfolding handle
  then f s = handle value_tag value_tag f s

  unfoldable pub upon_error : (List V → List V) → Signal V → Signal V
  unfolding handle
  upon_error f s = handle error_tag value_tag f s

  unfoldable pub upon_stopped : (List V → List V) → Signal V → Signal V
  unfolding handle
  upon_stopped f s = handle stopped_tag value_tag f s

  unfoldable pub then_error : (List V → List V) → Signal V → Signal V
  unfolding handle
  then_error f s = handle value_tag error_tag f s

  unfoldable pub transform_error : (List V → List V) → Signal V → Signal V
  unfolding handle
  transform_error f s = handle error_tag error_tag f s
