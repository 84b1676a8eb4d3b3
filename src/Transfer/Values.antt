-- ===== src/Transfer/Values.antt =====
-- What arrives downstream of a transfer.
use cpp_baremetal_senders_an.Base.{ℕ, ◌≡◌, refl, ap, List, [], ◌∷◌, ◌++◌, append-nil}
use cpp_baremetal_senders_an.Channel.{set_value, set_error, set_stopped}
use cpp_baremetal_senders_an.Sender.{Signal, Run, send}
use cpp_baremetal_senders_an.Sequence.{sequence}
use cpp_baremetal_senders_an.Let.{new_op, start, handle, complete_first, passthrough}
use cpp_baremetal_senders_an.Transfer.{just, start_on, only_value, resend, continue_on}

-- What a transfer should send: the values where both complete with a value, and otherwise the first
-- completion that is not one.
abbrev pub transferred : {V : Type 0} → Signal V → Signal V → Signal V
transferred (set_value vs) (set_value us) = set_value vs
transferred (set_value vs) (set_error us) = set_error us
transferred (set_value vs) set_stopped = set_stopped
transferred (set_error vs) d = set_error vs
transferred set_stopped d = set_stopped

-- What is started before a transfer is over.
abbrev pub begun : {V : Type 0} → Run V → Run V → List ℕ
begun first schedule = elim first.completion [
  | set_value vs ↦ first.started ++ schedule.started
  | set_error vs ↦ first.started
  | set_stopped ↦ first.started
]

-- `continue_on` completes downstream once: with the values of the first sender where the scheduler
-- then completes with a value, with the scheduler's completion where it does not, and with the first
-- sender's where that sends no value; the scheduler is started after the first sender, and only if it
-- sends a value.
pub continue_on-transferred :
    {V : Type 0} (first schedule : Run V)
    → ((continue_on first schedule).delivered
        ≡ transferred first.completion schedule.completion ∷ [])
      × ((continue_on first schedule).started ≡ begun first schedule)
unfolding continue_on start handle complete_first passthrough resend start_on just send only_value
    sequence new_op
continue_on-transferred {V} first schedule =
    by_completion first.started first.completion schedule.started schedule.completion
  where
    by_completion :
        (l : List ℕ) (c : Signal V) (k : List ℕ) (d : Signal V)
        → ((continue_on
              (record { started = l; completion = c })
              (record { started = k; completion = d })).delivered
            ≡ transferred c d ∷ [])
          × ((continue_on
                (record { started = l; completion = c })
                (record { started = k; completion = d })).started
              ≡ begun
                  (record { started = l; completion = c })
                  (record { started = k; completion = d }))
    by_completion l (set_value vs) k (set_value us) = (refl, ap (λ x. l ++ x) (append-nil k))
    by_completion l (set_value vs) k (set_error us) = (refl, refl)
    by_completion l (set_value vs) k set_stopped = (refl, refl)
    by_completion l (set_error vs) k d = (refl, refl)
    by_completion l set_stopped k d = (refl, refl)
