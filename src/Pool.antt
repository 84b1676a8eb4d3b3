-- ===== src/Pool.antt =====
-- What a scheduler needs of the manager that is injected into it: the concepts `task_manager` of
-- schedulers/task_manager_interface.hpp and `timer_manager` of
-- schedulers/timer_manager_interface.hpp, with the calls that forward to an injected manager. A
-- manager holds tasks, by their addresses, and hands them out, one at a time, to be run.
use cpp_baremetal_senders_an.Base.{ℕ, ◌≡◌, Bool, true, false, Option, some, update}

-- `admit` is `enqueue_task`, `run_after` or `run_at`, whose further arguments are a `Request`; `take`
-- is the part of a service call that takes the next task off; `proceed` is any other step of a
-- service call.
pub record Pool : Type 1 where
  pub State : Type 0
  pub Request : Type 0
  pub Choice : Type 0
  pub pending : State → ℕ → Bool
  pub admit : Request → ℕ → State → State × Bool
  pub take : Choice → State → Option (ℕ × State)
  pub proceed : Choice → State → Option State
  pub admit_lem :
      (r : Request) (t : ℕ) (s : State)
      → pending s t ≡ false
      → ((admit r t s).1 ≡ true)
        × ((u : ℕ) → pending (admit r t s).0 u ≡ update (pending s) t true u)
  pub take_lem :
      (c : Choice) (t : ℕ) (s s' : State)
      → take c s ≡ some (t, s')
      → (pending s t ≡ true) × ((u : ℕ) → pending s' u ≡ update (pending s) t false u)
  pub proceed_lem :
      (c : Choice) (s s' : State) → proceed c s ≡ some s' → (u : ℕ) → pending s' u ≡ pending s u

-- A manager that can take a task back: `cancel` or `dequeue`.
pub record Cancellable : Type 1 where
  pub pool : Pool
  pub cancel : ℕ → pool.State → pool.State × Bool
  pub cancel_pending :
      (t : ℕ) (s : pool.State)
      → pool.pending s t ≡ true
      → ((cancel t s).1 ≡ true)
        × ((u : ℕ) → pool.pending (cancel t s).0 u ≡ update (pool.pending s) t false u)
  pub cancel_idle :
      (t : ℕ) (s : pool.State)
      → pool.pending s t ≡ false
      → ((cancel t s).1 ≡ false) × ((u : ℕ) → pool.pending (cancel t s).0 u ≡ pool.pending s u)
