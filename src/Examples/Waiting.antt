-- ===== src/Examples/Waiting.antt =====
-- The run loop, the blocking wait, the variant senders and the transfer to a scheduler at work.
use cpp_baremetal_senders_an.Base.{
  ℕ, ◌+◌, ◌≤◌, ◌≡◌, bit, Bool-cases, inl, inr, refl, false, none, some, List, [], ◌∷◌, ◌++◌, arith,
  if◌then◌else◌,
}
use cpp_baremetal_senders_an.Channel.{Completion, set_value, set_stopped}
use cpp_baremetal_senders_an.Intrusive.{plain_list}
use cpp_baremetal_senders_an.Sender.{Run}
use cpp_baremetal_senders_an.RunLoop.{Loop, Call, start_op, ask_stop, finish_loop, Outcome, run}
use cpp_baremetal_senders_an.RunLoop.Invariant.{Fresh, Ended}
use cpp_baremetal_senders_an.RunLoop.Drain.{run_ends}
use cpp_baremetal_senders_an.SyncWait.{
  wait, wait_dynamic, Event, starts_op, completes, Ending, new_waiting, occur_all, run_waiting,
}
use cpp_baremetal_senders_an.SyncWait.Draining.{Settled, answer, wait_drains}
use cpp_baremetal_senders_an.SyncWait.Looping.{calls_of, completions_in}
use cpp_baremetal_senders_an.SyncWait.Returning.{idle, values_of, wait_returns}
use cpp_baremetal_senders_an.Variant.{MatchOption, match_if, otherwise, start_matched}
use cpp_baremetal_senders_an.Variant.Matching.{chosen, start-matched}
use cpp_baremetal_senders_an.Transfer.{continue_on}
use cpp_baremetal_senders_an.Transfer.Values.{transferred, begun, continue_on-transferred}
use cpp_baremetal_senders_an.WhenAny.Empty.{
  EmptyState, start, new_empty, starts, here, next, any_empty,
}

abbrev new_loop : Loop ℕ ℕ
new_loop = record { tasks = []; done = false; asked = λ _. false; started = []; executed = [] }

-- While the loop first waits, two operations are started, and the first of them is asked to stop.
first_calls : List ℕ → List Call
first_calls [] = start_op 5 ∷ start_op 7 ∷ ask_stop 5 ∷ []
first_calls (t ∷ q) = []

first_calls-Fresh : (st : List ℕ) → Fresh 2 (first_calls st) st
unfolding first_calls
first_calls-Fresh [] = (refl, omega arith, (refl, omega arith, tt))
first_calls-Fresh (t ∷ q) = tt

run_ends_example :
    (o : Outcome ℕ ℕ) × (run plain_list
        (λ t l. finish_loop ∷ [])
        (λ l. first_calls l.started)
        3
        new_loop
      ≡ some o)
    × Ended o
run_ends_example =
    run_ends plain_list 2 (λ t l. finish_loop ∷ []) (λ l. first_calls l.started) (λ t l. tt)
      (λ l. first_calls-Fresh l.started) 3 new_loop (omega arith)
      (record { order = refl; once = λ t. omega arith; bounded = omega arith })

abbrev seven : Completion ℕ ℕ
seven = set_value (7 ∷ [])

wait_returns_example :
    (wait (idle {V = ℕ} {E = ℕ} 3) ≡ none)
    × (wait (idle 3 ++ some seven ∷ []) ≡ some (values_of seven))
wait_returns_example = wait_returns 3 seven []

abbrev sends : ℕ → ℕ → Run ℕ
sends n a = record { started = n ∷ []; completion = set_value (a ∷ []) }

abbrev never : MatchOption ℕ (Run ℕ)
never = match_if (λ a. false) (sends 1)

start-matched_example :
    start_matched 32 (never ∷ otherwise (sends 2) ∷ []) 9
    ≡ some ((chosen never (otherwise (sends 2) ∷ []) 9).1.invoke 9)
start-matched_example = start-matched 32 never (otherwise (sends 2) ∷ []) 9 (omega arith)

abbrev scheduled : Run ℕ
scheduled = record { started = 4 ∷ []; completion = set_value [] }

continue_on-transferred_example :
    ((continue_on (sends 1 8) scheduled).delivered
      ≡ transferred (sends 1 8).completion scheduled.completion ∷ [])
    × ((continue_on (sends 1 8) scheduled).started ≡ begun (sends 1 8) scheduled)
continue_on-transferred_example = continue_on-transferred (sends 1 8) scheduled

abbrev fresh_any : EmptyState ℕ ℕ
fresh_any = new_empty

new_started : fresh_any.started ≡ false
unfolding new_empty
new_started = refl

any_empty_example : (start fresh_any).delivered ≡ (
    if (start fresh_any).started
    then (if (start fresh_any).asked then set_stopped ∷ [] else [])
    else [])
any_empty_example = any_empty (next here (starts fresh_any new_started))

-- The sender starts an operation on the loop and completes when that is executed.
abbrev sender_starts : List (Event ℕ ℕ)
sender_starts = starts_op 5 ∷ []

abbrev finishes : ℕ → Loop ℕ ℕ → List (Event ℕ ℕ)
finishes t l = if l.done then [] else completes seven ∷ []

abbrev nothing_else : Loop ℕ ℕ → List (Event ℕ ℕ)
nothing_else l = []

finishes-Fresh : (t : ℕ) (l : Loop ℕ ℕ) → Fresh 2 (calls_of (finishes t l)) l.started
finishes-Fresh t l = elim (Bool-cases l.done) [ inl d ↦ rw d tt | inr d ↦ rw d tt ]

finishes_once : (t : ℕ) (l : Loop ℕ ℕ) → completions_in (finishes t l) + bit l.done ≤ 1
finishes_once t l = elim (Bool-cases l.done) [
  | inl d ↦ rw d (omega arith)
  | inr d ↦ rw d (omega arith)
]

nothing_else_once : (l : Loop ℕ ℕ) → completions_in (nothing_else l) + bit l.done ≤ 1
nothing_else_once l = ground arith

wait_drains_example :
    (e : Ending ℕ ℕ) × (run_waiting plain_list finishes nothing_else 3
        (occur_all plain_list sender_starts (new_waiting (λ _. false)))
      ≡ some e)
    × Settled e
    × (wait_dynamic plain_list finishes nothing_else (λ _. false) sender_starts 3 ≡ some (answer e))
wait_drains_example =
    wait_drains plain_list 2 finishes nothing_else finishes-Fresh (λ l. tt) finishes_once
      nothing_else_once (λ _. false) sender_starts 3 (refl, omega arith, tt) (omega arith)
      (omega arith)
