-- ===== src/TaskManager.antt =====
-- include/async/schedulers/task_manager.hpp and requeue_policy.hpp: the priority task manager.
-- A task is named by its address. `run` of a task is the caller's code: it is a parameter that
-- gives the calls of `enqueue_task` made while the task runs, by the task itself or by code that
-- interrupts it, and may depend on the state. Each critical section is one step.
pub mod Invariant
pub mod Service
pub mod Idle
pub mod Starvation
pub mod Injected
use cpp_baremetal_senders_an.Base.{
  ℕ, zero, suc, ◌+◌, ◌-◌, Bool, true, false, not, Option, none, some, List, [], ◌∷◌, ◌++◌, ◌==◌,
  if◌then◌else◌, is_empty, update,
}
use cpp_baremetal_senders_an.Intrusive.{IntrusiveList}

-- `scheduled` is the log of the calls `S::schedule(p)`, and `ran` that of the calls `task->run()`.
pub record Manager : Type 0 where
  pub task_queues : ℕ → List ℕ
  pub pending : ℕ → Bool
  pub task_count : ℕ
  pub scheduled : List ℕ
  pub ran : List ℕ

unfoldable pub new_manager : Manager
new_manager = record {
  task_queues = λ _. [];
  pending = λ _. false;
  task_count = 0;
  scheduled = [];
  ran = [];
}

pub data RequeuePolicy : Type 0 where
  immediate deferred : RequeuePolicy

-- `requeue_policy::deferred::get_queue`: the queue is exchanged with an empty one.
unfoldable pub take_queue : ℕ → Manager → List ℕ × Manager
take_queue p m = (m.task_queues p, record m { task_queues = update m.task_queues p [] })

module _ (lists : IntrusiveList) where
  unfoldable pub enqueue_task : ℕ → ℕ → Manager → Manager × Bool
  enqueue_task t p m =
      let added = not (m.pending t) in
      if added
      then (
        record m {
          pending = update m.pending t true;
          task_count = m.task_count + 1;
          task_queues = update m.task_queues p (lists.push_back t (m.task_queues p));
          scheduled = m.scheduled ++ p ∷ [];
        },
        true,
      )
      else (m, false)

  -- The requests, task and priority, that are made while one task runs, in their order.
  unfoldable pub enqueue_all : List (ℕ × ℕ) → Manager → Manager
  enqueue_all [] m = m
  enqueue_all ((t, p) ∷ rs) m = enqueue_all rs (enqueue_task t p m).0

  -- What the service loop does with a task that it has popped: run it, then `--task_count`.
  unfoldable pub run_task : (ℕ → Manager → List (ℕ × ℕ)) → ℕ → Manager → Manager
  unfolding enqueue_all
  run_task run t m =
      let m' = record m { ran = m.ran ++ t ∷ [] } in
      let m'' = enqueue_all (run t m') m' in record m'' { task_count = m''.task_count - 1 }

  -- `requeue_policy::deferred::pop`, from the queue that the service call owns.
  unfoldable pub pop_deferred : List ℕ → Manager → Option (ℕ × List ℕ × Manager)
  pop_deferred q m =
      if is_empty q
      then none
      else (let (t, rest) = lists.pop_front q in
          some (t, rest, record m { pending = update m.pending t false }))

  -- `requeue_policy::immediate::pop`, from the manager's own queue.
  unfoldable pub pop_immediate : ℕ → Manager → Option (ℕ × Manager)
  pop_immediate p m =
      if is_empty (m.task_queues p)
      then none
      else (let (t, rest) = lists.pop_front (m.task_queues p) in
          some (
            t,
            record m {
              task_queues = update m.task_queues p rest;
              pending = update m.pending t false;
            },
          ))

  module _ (run : ℕ → Manager → List (ℕ × ℕ)) where
    -- The loop over a deferred queue; `none` is a loop that has used up its fuel.
    unfoldable pub service_deferred : ℕ → List ℕ → Manager → Option Manager
    service_deferred zero q m = none
    service_deferred (suc fuel) q m = elim (pop_deferred q m) [
      | none ↦ some m
      | some (t, rest, m') ↦ service_deferred fuel rest (run_task run t m')
    ]

    unfoldable pub service_immediate : ℕ → ℕ → Manager → Option Manager
    service_immediate zero p m = none
    service_immediate (suc fuel) p m = elim (pop_immediate p m) [
      | none ↦ some m
      | some (t, m') ↦ service_immediate fuel p (run_task run t m')
    ]

    unfoldable pub service_tasks : RequeuePolicy → ℕ → ℕ → Manager → Option Manager
    unfolding service_deferred service_immediate take_queue
    service_tasks deferred fuel p m = let (q, m') = take_queue p m in service_deferred fuel q m'
    service_tasks immediate fuel p m = service_immediate fuel p m

unfoldable pub is_idle : Manager → Bool
is_idle m = m.task_count == 0
