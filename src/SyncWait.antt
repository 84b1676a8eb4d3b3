-- ===== src/SyncWait.antt =====
-- include/async/sync_wait.hpp: the receivers of a blocking wait, and the wait of `sync_wait_static`,
-- whose synchronizer, of schedulers/runloop_scheduler.hpp, is one atomic flag that is spun on. What
-- happens elsewhere while the flag is read is a parameter: each turn of the loop comes after nothing,
-- or after a completion of the sender. `sync_wait_dynamic` runs a run loop instead: what happens while
-- the loop waits and while it executes an operation is a parameter.
pub mod Returning
pub mod Looping
pub mod Draining
use cpp_baremetal_senders_an.Base.{
  ℕ, zero, suc, Bool, true, false, Option, none, some, List, [], ◌∷◌, ◌++◌, if◌then◌else◌,
}
use cpp_baremetal_senders_an.Channel.{Completion, set_value, set_error, set_stopped}
use cpp_baremetal_senders_an.Intrusive.{IntrusiveList}
use cpp_baremetal_senders_an.RunLoop.{
  Loop, finish, start_op, ask_stop, call, ready, pop_front, execute,
}

-- `values` and the flag of `sync`.
pub record Waiting (V : Type 0) : Type 0 where
  pub values : Option (List V)
  pub done : Bool

-- `values` and `rl` of a dynamic wait; `completed` is the log of the completions that the receiver
-- was given.
pub record DynamicWaiting (V E : Type 0) : Type 0 where
  pub values : Option (List V)
  pub loop : Loop V E
  pub completed : List (Completion V E)

-- What happens in a dynamic wait: an operation of the loop's scheduler is started, its token is asked
-- to stop, or the sender completes. The receiver, and nothing else, finishes the loop.
pub data Event (V E : Type 0) : Type 0 where
  starts_op : ℕ → Event V E
  asks_stop : ℕ → Event V E
  completes : Completion V E → Event V E

-- A loop that has returned, or one that waits for a notification that does not come.
pub data Ending (V E : Type 0) : Type 0 where
  returns : DynamicWaiting V E → Ending V E
  blocks : DynamicWaiting V E → Ending V E

module _ {V E : Type 0} where
  -- `receiver`: the values are kept, an error or a stop leaves none.
  unfoldable pub receive : Completion V E → Option (List V) → Option (List V)
  receive (set_value vs) values = some vs
  receive (set_error e) values = values
  receive set_stopped values = values

  -- `dynamic_receiver`.
  unfoldable pub dynamic_receive : Completion V E → DynamicWaiting V E → DynamicWaiting V E
  dynamic_receive c d = record d {
    values = receive c d.values;
    loop = finish d.loop;
    completed = d.completed ++ c ∷ [];
  }

  -- `static_receiver`; the notification sets the flag.
  unfoldable pub static_receive : Completion V E → Waiting V → Waiting V
  static_receive c s = record s { values = receive c s.values; done = true }

  -- What happens before the flag is read again.
  unfoldable pub elapse : Option (Completion V E) → Waiting V → Waiting V
  elapse none s = s
  elapse (some c) s = static_receive c s

  -- `synchronizer::wait`: `none` is a loop that still spins when the turns are over.
  unfoldable pub spin : List (Option (Completion V E)) → Waiting V → Option (Waiting V)
  spin [] s = if s.done then some s else none
  spin (e ∷ es) s = let rest = spin es (elapse e s) in if s.done then some s else rest

  -- `wait` of `sync_wait_static`: what is returned, where it returns.
  unfoldable pub wait : List (Option (Completion V E)) → Option (Option (List V))
  wait es = elim (spin es (record { values = none; done = false })) [
    | none ↦ none
    | some s ↦ some s.values
  ]

  -- The loop of `sync_wait_dynamic` before the sender is started.
  unfoldable pub new_loop : (ℕ → Bool) → Loop V E
  new_loop asked = record { tasks = []; done = false; asked = asked; started = []; executed = [] }

  -- `sync_wait_dynamic` before the sender is started.
  unfoldable pub new_waiting : (ℕ → Bool) → DynamicWaiting V E
  new_waiting asked = record { values = none; loop = new_loop asked; completed = [] }

module _ (lists : IntrusiveList) {V E : Type 0} where
  unfoldable pub occur : Event V E → DynamicWaiting V E → DynamicWaiting V E
  occur (starts_op t) d = record d { loop = call lists (start_op t) d.loop }
  occur (asks_stop t) d = record d { loop = call lists (ask_stop t) d.loop }
  occur (completes c) d = dynamic_receive c d

  unfoldable pub occur_all : List (Event V E) → DynamicWaiting V E → DynamicWaiting V E
  occur_all [] d = d
  occur_all (e ∷ es) d = occur_all es (occur e d)

  module _ (react : ℕ → Loop V E → List (Event V E)) (arrive : Loop V E → List (Event V E)) where
    -- `run` of the loop, with the values that the receiver refers to.
    unfoldable pub run_waiting : ℕ → DynamicWaiting V E → Option (Ending V E)
    run_waiting zero d = none
    run_waiting (suc fuel) d =
        let d1 = occur_all (arrive d.loop) d in
        let d2 = occur_all (arrive d1.loop) d1 in
        if ready d1.loop
        then (elim (pop_front lists d2.loop) [
          | none ↦ some (returns d2)
          | some (t, l) ↦
              run_waiting fuel
                (occur_all (react t (execute t l)) (record d2 { loop = execute t l }))
        ])
        else some (blocks d1)

    -- `wait` of `sync_wait_dynamic`: `starts` is what the sender's operation does as it is started.
    -- The inner `none` is a wait that does not return.
    unfoldable pub wait_dynamic :
        (ℕ → Bool) → List (Event V E) → ℕ → Option (Option (Option (List V)))
    wait_dynamic asked starts fuel =
        elim (run_waiting fuel (occur_all starts (new_waiting asked))) [
          | none ↦ none
          | some (blocks d) ↦ some none
          | some (returns d) ↦ some (some d.values)
        ]
