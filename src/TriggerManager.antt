-- ===== src/TriggerManager.antt =====
-- include/async/schedulers/trigger_manager.hpp: the list of tasks that wait for a trigger.
-- A task is named by its address. `run` of a task is a parameter that gives the calls of the
-- manager made while the task runs. Each critical section is one step.
pub mod Invariant
pub mod Run
pub mod Injected
use cpp_baremetal_senders_an.Base.{
  ℕ, zero, suc, ◌+◌, ◌-◌, Bool, true, false, not, Option, none, some, List, [], ◌∷◌, ◌++◌, ◌==◌,
  if◌then◌else◌, is_empty, update,
}
use cpp_baremetal_senders_an.Intrusive.{IntrusiveList}
use cpp_baremetal_senders_an.TaskManager.{RequeuePolicy, immediate, deferred}

pub record Manager : Type 0 where
  pub tasks : List ℕ
  pub pending : ℕ → Bool
  pub task_count : ℕ
  pub ran : List ℕ

pub data Request : Type 0 where
  enqueues : ℕ → Request
  dequeues : ℕ → Request

-- `requeue_policy::deferred::get_queue` on the one list of the manager.
unfoldable pub take_tasks : Manager → List ℕ × Manager
take_tasks m = (m.tasks, record m { tasks = [] })

module _ (lists : IntrusiveList) where
  unfoldable pub enqueue : ℕ → Manager → Manager × Bool
  enqueue t m =
      let added = not (m.pending t) in
      if added
      then (
        record m {
          pending = update m.pending t true;
          task_count = m.task_count + 1;
          tasks = lists.push_back t m.tasks;
        },
        true,
      )
      else (m, false)

  unfoldable pub dequeue : ℕ → Manager → Manager × Bool
  dequeue t m =
      if m.pending t
      then (
        record m {
          pending = update m.pending t false;
          tasks = lists.remove t m.tasks;
          task_count = m.task_count - 1;
        },
        true,
      )
      else (m, false)

  unfoldable pub request : Request → Manager → Manager
  unfolding enqueue dequeue
  request (enqueues t) m = (enqueue t m).0
  request (dequeues t) m = (dequeue t m).0

  unfoldable pub request_all : List Request → Manager → Manager
  unfolding request
  request_all [] m = m
  request_all (c ∷ cs) m = request_all cs (request c m)

  module _ (run : ℕ → Manager → List Request) where
    -- `task.run(args...)` and `--task_count`.
    unfoldable pub run_task : ℕ → Manager → Manager
    unfolding request_all
    run_task t m =
        let m1 = record m { ran = m.ran ++ t ∷ [] } in
        let m2 = request_all (run t m1) m1 in record m2 { task_count = m2.task_count - 1 }

    -- The loop of `run` over the list that a deferred call owns; `none` is a loop that has used up
    -- its fuel.
    unfoldable pub run_deferred : ℕ → List ℕ → Manager → Option Manager
    unfolding run_task
    run_deferred zero q m = none
    run_deferred (suc fuel) q m =
        let (t, rest) = lists.pop_front q in
        let again =
          run_deferred fuel rest (run_task t (record m { pending = update m.pending t false })) in
        if is_empty q then some m else again

    -- The loop over the manager's own list.
    unfoldable pub run_immediate : ℕ → Manager → Option Manager
    unfolding run_task
    run_immediate zero m = none
    run_immediate (suc fuel) m =
        let (t, rest) = lists.pop_front m.tasks in
        let again =
          run_immediate fuel
            (run_task t (record m { tasks = rest; pending = update m.pending t false })) in
        if is_empty m.tasks then some m else again

    unfoldable pub run_manager : RequeuePolicy → ℕ → Manager → Option Manager
    unfolding run_deferred run_immediate take_tasks
    run_manager deferred fuel m = let (q, m') = take_tasks m in run_deferred fuel q m'
    run_manager immediate fuel m = run_immediate fuel m

unfoldable pub empty : Manager → Bool
empty m = m.task_count == 0
