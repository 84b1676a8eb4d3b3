-- ===== src/TimeoutAfter.antt =====
-- include/async/timeout_after.hpp, and `stop_when` of include/async/when_any.hpp: a `when_any` of the
-- trigger and of the sender, in this order, that takes the first completion. The trigger of a timeout
-- is `start_on` of a time scheduler and of the `timeout` sender.
pub mod Advertised
use cpp_baremetal_senders_an.Base.{ℕ, zero, suc, Bool, List, [], ◌∷◌}
use cpp_baremetal_senders_an.Sender.{Tag, Run}
use cpp_baremetal_senders_an.Mp11.{Mp11}
use cpp_baremetal_senders_an.Signatures.{Signature}
use cpp_baremetal_senders_an.Transfer.{just, start_on}
use cpp_baremetal_senders_an.Transfer.Completions.{
  just_completions, time_completions, start_on_completions,
}
use cpp_baremetal_senders_an.WhenAny.{Policy, first_complete}
use cpp_baremetal_senders_an.WhenAny.Completions.{get_completion_signatures}

-- The policy of `stop_when`, and its children by their places.
unfoldable pub stop_when_policy : Policy
stop_when_policy = first_complete

abbrev pub stop_when_children : {A : Type 0} → A → A → ℕ → A
stop_when_children trigger sender zero = trigger
stop_when_children trigger sender (suc i) = sender

-- The sender that the timeout starts, by what it does: `schedule` is the time scheduler's.
unfoldable pub timeout_sender : {V : Type 0} → Run V → Tag → List V → Run V
unfolding just start_on
timeout_sender schedule t vs = start_on schedule (just t vs)

module _ {T : Type 0} (mp : Mp11 (Signature T)) where
  unfoldable pub stop_when_completions :
      List (Signature T) → List (Signature T) → List (Signature T)
  stop_when_completions trigger sigs =
      get_completion_signatures mp (stop_when_children trigger sigs) 2

  unfoldable pub timeout_sender_completions : Tag → List T → Bool → List (Signature T)
  timeout_sender_completions t ts unstoppable =
      start_on_completions mp (time_completions unstoppable) (just_completions t ts)

  -- `s | timeout_after<Domain, Tag>(d, vs...)`.
  unfoldable pub timeout_completions : Tag → List T → Bool → List (Signature T) → List (Signature T)
  unfolding timeout_sender_completions stop_when_completions
  timeout_completions t ts unstoppable sigs =
      stop_when_completions (timeout_sender_completions t ts unstoppable) sigs
