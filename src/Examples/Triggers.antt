-- ===== src/Examples/Triggers.antt =====
-- The trigger manager at work on two tasks.
use cpp_baremetal_senders_an.Base.{
  ℕ, ◌≡◌, refl, true, false, some, List, [], ◌∷◌, ◌++◌, arith, update,
}
use cpp_baremetal_senders_an.Intrusive.{plain_list}
use cpp_baremetal_senders_an.TaskManager.{deferred}
use cpp_baremetal_senders_an.TriggerManager.{Manager, Request, enqueues, run_manager}
use cpp_baremetal_senders_an.TriggerManager.Invariant.{Inv}
use cpp_baremetal_senders_an.TriggerManager.Run.{run_manager-deferred}

abbrev two_waiting : Manager
two_waiting = record {
  tasks = 5 ∷ 7 ∷ [];
  pending = update (update (λ _. false) 5 true) 7 true;
  task_count = 2;
  ran = [];
}

two_waiting-Inv : Inv 0 [] two_waiting
two_waiting-Inv = record { once = λ t. ground arith; counted = refl }

-- A task that waits for the next trigger again.
abbrev again : ℕ → Manager → List Request
again t m = enqueues t ∷ []

run_manager-deferred_example :
    (m' : Manager) × (run_manager plain_list again deferred 3 two_waiting ≡ some m')
    × Inv 0 [] m'
    × (m'.ran ≡ two_waiting.ran ++ two_waiting.tasks)
run_manager-deferred_example =
    run_manager-deferred plain_list again 3 two_waiting (omega arith) (λ t s. (tt, tt))
      two_waiting-Inv
