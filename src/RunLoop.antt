-- ===== src/RunLoop.antt =====
-- include/async/schedulers/runloop_scheduler.hpp: the run loop, its synchronizer and the operation
-- states of its scheduler. An operation is named by its address. What its receiver does when it is
-- completed, and what other threads do while the loop waits, is the caller's code: two parameters
-- that give the calls made on the loop. Each critical section is one step.
pub mod Invariant
pub mod Drain
use cpp_baremetal_senders_an.Base.{
  ℕ, zero, suc, Bool, true, false, not, ◌||◌, Option, none, some, List, [], ◌∷◌, ◌++◌,
  if◌then◌else◌, is_empty, update,
}
use cpp_baremetal_senders_an.Channel.{Completion, set_value, set_stopped}
use cpp_baremetal_senders_an.Intrusive.{IntrusiveList}

-- `done` is the synchronizer's flag; `started` and `executed` are the logs of the operations that
-- were started, and that the loop has executed, with what their receivers were given.
pub record Loop (V E : Type 0) : Type 0 where
  pub tasks : List ℕ
  pub done : Bool
  pub asked : ℕ → Bool
  pub started : List ℕ
  pub executed : List (ℕ × Completion V E)

-- The calls made on the loop; `ask_stop` asks the token of an operation to stop.
pub data Call : Type 0 where
  start_op : ℕ → Call
  ask_stop : ℕ → Call
  finish_loop : Call

-- A loop that has returned, or one that waits for a notification that does not come.
pub data Outcome (V E : Type 0) : Type 0 where
  returned : Loop V E → Outcome V E
  waiting : Loop V E → Outcome V E

module _ {V E : Type 0} where
  -- `synchronizer::notify` without arguments.
  unfoldable pub finish : Loop V E → Loop V E
  finish l = record l { done = true }

  unfoldable pub ask : ℕ → Loop V E → Loop V E
  ask t l = record l { asked = update l.asked t true }

  -- The predicate that `synchronizer::wait` waits for.
  unfoldable pub ready : Loop V E → Bool
  ready l = not (is_empty l.tasks) || l.done

  unfoldable pub execute : ℕ → Loop V E → Loop V E
  execute t l =
      let c = if l.asked t then set_stopped else set_value [] in
      record l { executed = l.executed ++ (t, c) ∷ [] }

module _ (lists : IntrusiveList) {V E : Type 0} where
  unfoldable pub push_back : ℕ → Loop V E → Loop V E
  push_back t l = record l { tasks = lists.push_back t l.tasks; started = l.started ++ t ∷ [] }

  -- `start` of an operation is `push_back`.
  unfoldable pub call : Call → Loop V E → Loop V E
  call (start_op t) l = push_back t l
  call (ask_stop t) l = ask t l
  call finish_loop l = finish l

  unfoldable pub call_all : List Call → Loop V E → Loop V E
  call_all [] l = l
  call_all (c ∷ cs) l = call_all cs (call c l)

  -- The critical section of `pop_front`, after the wait.
  unfoldable pub pop_front : Loop V E → Option (ℕ × Loop V E)
  pop_front l =
      if is_empty l.tasks
      then none
      else (let (t, rest) = lists.pop_front l.tasks in some (t, record l { tasks = rest }))

  module _ (react : ℕ → Loop V E → List Call) (arrive : Loop V E → List Call) where
    -- On fuel: `none` is a loop that has used it up. Calls may come while the loop waits, and again
    -- between the wait and the critical section that pops.
    unfoldable pub run : ℕ → Loop V E → Option (Outcome V E)
    run zero l = none
    run (suc fuel) l =
        let l1 = call_all (arrive l) l in
        let l2 = call_all (arrive l1) l1 in
        if ready l1
        then (elim (pop_front l2) [
          | none ↦ some (returned l2)
          | some (t, l3) ↦ run fuel (call_all (react t (execute t l3)) (execute t l3))
        ])
        else some (waiting l1)
