-- ===== src/Transfer/Completions.antt =====
-- The completion signatures of include/async/just.hpp, of the schedulers' senders, and of
-- `start_on`, which is a sequence. `unstoppable` says that the token of the environment cannot be
-- asked to stop.
use cpp_baremetal_senders_an.Base.{Bool, List, [], ◌∷◌, if◌then◌else◌}
use cpp_baremetal_senders_an.Channel.{set_value, set_stopped}
use cpp_baremetal_senders_an.Sender.{Tag, send}
use cpp_baremetal_senders_an.Mp11.{Mp11}
use cpp_baremetal_senders_an.Signatures.{Signature}
use cpp_baremetal_senders_an.Sequence.Completions.{get_completion_signatures}

module _ {T : Type 0} where
  -- `_just::sender::completion_signatures`.
  unfoldable pub just_completions : Tag → List T → List (Signature T)
  unfolding send
  just_completions t ts = send t ts ∷ []

  -- The senders of the fixed priority and of the time schedulers.
  unfoldable pub priority_completions : Bool → List (Signature T)
  priority_completions unstoppable =
      if unstoppable then set_value [] ∷ [] else set_value [] ∷ set_stopped ∷ []

  unfoldable pub time_completions : Bool → List (Signature T)
  time_completions unstoppable =
      if unstoppable then set_value [] ∷ [] else set_value [] ∷ set_stopped ∷ []

  -- Those of a trigger scheduler, which sends what the trigger is given.
  unfoldable pub trigger_completions : List T → Bool → List (Signature T)
  trigger_completions args unstoppable =
      if unstoppable then set_value args ∷ [] else set_value args ∷ set_stopped ∷ []

  -- Those of the schedulers that always complete at once, and of a run loop's.
  unfoldable pub inline_completions : List (Signature T)
  inline_completions = set_value [] ∷ []

  unfoldable pub thread_completions : List (Signature T)
  thread_completions = set_value [] ∷ []

  unfoldable pub runloop_completions : List (Signature T)
  runloop_completions = set_value [] ∷ set_stopped ∷ []

  unfoldable pub start_on_completions :
      Mp11 (Signature T) → List (Signature T) → List (Signature T) → List (Signature T)
  start_on_completions mp scheduled sigs = get_completion_signatures mp scheduled sigs
