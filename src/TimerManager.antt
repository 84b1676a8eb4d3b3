-- ===== src/TimerManager.antt =====
-- include/async/schedulers/timer_manager.hpp: the generic timer manager.
-- A task is named by its address, and time points and durations are numbers that do not wrap. The
-- hardware layer `H` is the user's: its calls are logged, newest first, and what `H::now()` and
-- the fused `H::enable(d)` return are arguments of the operation that calls them. `run` of a task
-- is a parameter that gives the calls of the manager made while the task runs. Each critical
-- section is one step.
pub mod Order
pub mod Invariant
pub mod Scheduling
pub mod Service
pub mod Injected
use cpp_baremetal_senders_an.Base.{
  ℕ, zero, suc, ◌+◌, ◌-◌, Bool, true, false, not, Option, none, some, List, [], ◌∷◌, ◌++◌, ◌==◌,
  if◌then◌else◌, is_empty, update, ltb,
}
use cpp_baremetal_senders_an.Intrusive.{IntrusiveList}

pub data HalCall : Type 0 where
  enable : HalCall
  -- The fused form: the duration asked for, and the time point returned.
  enable_for : ℕ → ℕ → HalCall
  disable : HalCall
  set_event_time : ℕ → HalCall

pub record Manager : Type 0 where
  pub task_queue : List ℕ
  pub expiration_time : ℕ → ℕ
  pub pending : ℕ → Bool
  pub task_count : ℕ
  pub hal : List HalCall
  pub ran : List ℕ

unfoldable pub new_manager : Manager
new_manager = record {
  task_queue = [];
  expiration_time = λ _. 0;
  pending = λ _. false;
  task_count = 0;
  hal = [];
  ran = [];
}

-- `std::find_if` for the first queued task that expires after `k`; the length stands for the end.
unfoldable pub find_later : (ℕ → ℕ) → ℕ → List ℕ → ℕ
find_later e k [] = 0
find_later e k (x ∷ q) = if ltb k (e x) then 0 else suc (find_later e k q)

-- The readings of the clock that an operation makes: `H::now()`, and the result of `H::enable(d)`.
pub record Reading : Type 0 where
  pub now : ℕ
  pub enabled_until : ℕ

pub data Request : Type 0 where
  after : ℕ → ℕ → Reading → Request
  at : ℕ → ℕ → Request
  cancels : ℕ → Request

pub front_time : Manager → ℕ
front_time m = elim m.task_queue [ [] ↦ 0 | t ∷ _ ↦ m.expiration_time t ]

unfoldable pub compute_next_event : Manager → Manager
unfolding front_time
compute_next_event m =
    if is_empty m.task_queue
    then record m { hal = disable ∷ m.hal }
    else record m { hal = set_event_time (front_time m) ∷ m.hal }

module _ (lists : IntrusiveList) where
  unfoldable pub enqueue : ℕ → Manager → Manager
  unfolding find_later
  enqueue t m =
      let pos = find_later m.expiration_time (m.expiration_time t) m.task_queue in
      let m' =
        if pos == 0 then record m { hal = set_event_time (m.expiration_time t) ∷ m.hal } else m in
      record m' { task_queue = lists.insert pos t m'.task_queue }

  -- `tp` is what the provider's `compute_expiration` returns.
  unfoldable pub schedule_at : ℕ → ℕ → Manager → Manager
  unfolding enqueue
  schedule_at t tp m =
      if is_empty m.task_queue
      then record m {
        task_queue = lists.push_back t m.task_queue;
        expiration_time = update m.expiration_time t tp;
        hal = set_event_time tp ∷ enable ∷ m.hal;
      }
      else enqueue t (record m { expiration_time = update m.expiration_time t tp })

  -- `fused` says which of the two hardware concepts `H` meets.
  unfoldable pub schedule_after : Bool → ℕ → ℕ → Reading → Manager → Manager
  unfolding enqueue
  schedule_after fused t d r m =
      if is_empty m.task_queue
      then (if fused
          then record m {
            task_queue = lists.push_back t m.task_queue;
            expiration_time = update m.expiration_time t r.enabled_until;
            hal = enable_for d r.enabled_until ∷ m.hal;
          }
          else record m {
            task_queue = lists.push_back t m.task_queue;
            expiration_time = update m.expiration_time t (r.now + d);
            hal = set_event_time (r.now + d) ∷ enable ∷ m.hal;
          })
      else enqueue t (record m { expiration_time = update m.expiration_time t (r.now + d) })

  -- `std::exchange(t.pending, true)` and `++task_count`, which both entry points begin with.
  unfoldable pub admit : ℕ → Manager → Manager
  admit t m = record m { pending = update m.pending t true; task_count = m.task_count + 1 }

  unfoldable pub run_after : Bool → ℕ → ℕ → Reading → Manager → Manager × Bool
  unfolding admit schedule_after
  run_after fused t d r m =
      if not (m.pending t) then (schedule_after fused t d r (admit t m), true) else (m, false)

  unfoldable pub run_at : ℕ → ℕ → Manager → Manager × Bool
  unfolding admit schedule_at
  run_at t tp m = if not (m.pending t) then (schedule_at t tp (admit t m), true) else (m, false)

  unfoldable pub cancel : ℕ → Manager → Manager × Bool
  unfolding compute_next_event
  cancel t m =
      if m.pending t
      then (
        compute_next_event (record m {
          task_queue = lists.remove t m.task_queue;
          pending = update m.pending t false;
          task_count = m.task_count - 1;
        }),
        true,
      )
      else (m, false)

  unfoldable pub request : Bool → Request → Manager → Manager
  unfolding run_after run_at cancel
  request fused (after t d r) m = (run_after fused t d r m).0
  request fused (at t tp) m = (run_at t tp m).0
  request fused (cancels t) m = (cancel t m).0

  unfoldable pub request_all : Bool → List Request → Manager → Manager
  unfolding request
  request_all fused [] m = m
  request_all fused (c ∷ cs) m = request_all fused cs (request fused c m)

  -- The critical section of `service_task`: take the first task off and arm the next event.
  unfoldable pub take_front : Manager → Option (ℕ × Manager)
  unfolding compute_next_event
  take_front m =
      if is_empty m.task_queue
      then none
      else (let (t, rest) = lists.pop_front m.task_queue in
          some (
            t,
            compute_next_event (record m { task_queue = rest; pending = update m.pending t false }),
          ))

  unfoldable pub service_task : Bool → (ℕ → Manager → List Request) → Manager → Manager
  unfolding take_front request_all
  service_task fused run m = elim (take_front m) [
    | none ↦ m
    | some (t, m') ↦
        let m1 = record m' { ran = m'.ran ++ t ∷ [] } in
        let m2 = request_all fused (run t m1) m1 in record m2 { task_count = m2.task_count - 1 }
  ]

unfoldable pub is_idle : Manager → Bool
is_idle m = m.task_count == 0
