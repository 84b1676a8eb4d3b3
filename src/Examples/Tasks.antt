-- ===== src/Examples/Tasks.antt =====
-- The priority task manager at work on two priorities.
use cpp_baremetal_senders_an.Base.{
  ℕ, ◌≡◌, refl, false, some, sum_below-zero, List, [], ◌∷◌, ◌++◌, arith,
}
use cpp_baremetal_senders_an.Intrusive.{plain_list}
use cpp_baremetal_senders_an.TaskManager.{
  Manager, new_manager, enqueue_task, service_tasks, deferred, immediate,
}
use cpp_baremetal_senders_an.TaskManager.Invariant.{Inv, enqueue_task-Inv}
use cpp_baremetal_senders_an.TaskManager.Service.{service_tasks-deferred, service_tasks-immediate}
use cpp_baremetal_senders_an.TaskManager.Idle.{enqueue_task_twice}

abbrev one_task : Manager
one_task = (enqueue_task plain_list 5 0 new_manager).0

abbrev two_tasks : Manager
two_tasks = (enqueue_task plain_list 7 0 one_task).0

new_manager-Inv : Inv 2 0 [] new_manager
unfolding new_manager
new_manager-Inv = record {
  once = λ t. omega (arith, sum_below-zero 2);
  counted = omega (arith, sum_below-zero 2);
  in_bounds = λ p h. refl;
}

one_task-Inv : Inv 2 0 [] one_task
one_task-Inv = enqueue_task-Inv plain_list 2 0 [] 5 0 new_manager (omega arith) new_manager-Inv

two_tasks-Inv : Inv 2 0 [] two_tasks
two_tasks-Inv = enqueue_task-Inv plain_list 2 0 [] 7 0 one_task (omega arith) one_task-Inv

-- A task that requests itself again, at priority 0 or 1.
abbrev again : ℕ → Manager → List (ℕ × ℕ)
again t m = (t, 0) ∷ []

abbrev hand_over : ℕ → Manager → List (ℕ × ℕ)
hand_over t m = (t, 1) ∷ []

two_tasks_queue : two_tasks.task_queues 0 ≡ 5 ∷ 7 ∷ []
unfolding enqueue_task new_manager
two_tasks_queue = refl

service_tasks-deferred_example :
    (m' : Manager) × (service_tasks plain_list again deferred 3 0 two_tasks ≡ some m')
    × Inv 2 0 [] m'
    × (m'.ran ≡ two_tasks.ran ++ two_tasks.task_queues 0)
service_tasks-deferred_example =
    service_tasks-deferred plain_list 2 again (λ t m. (omega arith, tt)) 3 0 two_tasks (omega arith)
      (unfold enqueue_task new_manager in omega arith) two_tasks-Inv

service_tasks-immediate_example :
    (m' : Manager) × (service_tasks plain_list hand_over immediate 3 0 two_tasks ≡ some m')
    × Inv 2 0 [] m'
    × (m'.ran ≡ two_tasks.ran ++ 5 ∷ 7 ∷ [])
    × (m'.task_queues 0 ≡ [])
service_tasks-immediate_example =
    service_tasks-immediate plain_list 2 hand_over (λ t m. (omega arith, tt)) 3 0 (5 ∷ 7 ∷ [])
      two_tasks (λ t s. (λ e. absurd (omega (arith, e)), tt)) (omega arith) two_tasks_queue
      (omega arith) two_tasks-Inv

enqueue_task_twice_example :
    enqueue_task plain_list 5 1 (enqueue_task plain_list 5 0 new_manager).0
    ≡ ((enqueue_task plain_list 5 0 new_manager).0, false)
enqueue_task_twice_example = enqueue_task_twice plain_list 5 0 1 new_manager
