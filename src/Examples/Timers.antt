-- ===== src/Examples/Timers.antt =====
-- The timer manager at work on two tasks.
use cpp_baremetal_senders_an.Base.{ℕ, ◌≡◌, ◌++◌, refl, true, false, List, [], ◌∷◌, erase}
use cpp_baremetal_senders_an.Intrusive.{plain_list}
use cpp_baremetal_senders_an.TimerManager.{
  Manager, new_manager, Reading, Request, at, after, cancels, run_after, cancel, request,
  service_task,
}
use cpp_baremetal_senders_an.TimerManager.Order.{AtLeast}
use cpp_baremetal_senders_an.TimerManager.Invariant.{Inv, deadlines, expiry}
use cpp_baremetal_senders_an.TimerManager.Scheduling.{Schedules, run_after-Schedules}
use cpp_baremetal_senders_an.TimerManager.Service.{
  cancel-pending, timer_request-Inv, service_task-first,
}

abbrev clock : Reading
clock = record { now = 10; enabled_until = 12 }

abbrev one_timer : Manager
one_timer = request plain_list false (at 5 30) new_manager

abbrev two_timers : Manager
two_timers = request plain_list false (at 7 20) one_timer

new_manager-Inv : Inv 0 new_manager
unfolding new_manager
new_manager-Inv = record { once = λ t. refl; sorted = tt; counted = refl; armed = refl }

one_timer-Inv : Inv 0 one_timer
one_timer-Inv = timer_request-Inv plain_list false 0 (at 5 30) new_manager new_manager-Inv

two_timers-Inv : Inv 0 two_timers
two_timers-Inv = timer_request-Inv plain_list false 0 (at 7 20) one_timer one_timer-Inv

-- The later deadline waits behind the earlier one.
two_timers_queue : two_timers.task_queue ≡ 7 ∷ 5 ∷ []
unfolding request new_manager
two_timers_queue = refl

timer_request-Inv_example : Inv 0 (request plain_list true (after 5 3 clock) two_timers)
timer_request-Inv_example =
    timer_request-Inv plain_list true 0 (after 5 3 clock) two_timers two_timers-Inv

run_after-Schedules_example :
    (m' : Manager) × (run_after plain_list false 7 3 clock one_timer ≡ (m', true))
    × Schedules one_timer 7 (expiry false 3 clock one_timer) m'
    × Inv 0 m'
run_after-Schedules_example =
    run_after-Schedules plain_list false 0 7 3 clock one_timer (unfold request new_manager in refl)
      one_timer-Inv

cancel-pending_example :
    (m' : Manager) × (cancel plain_list 7 two_timers ≡ (m', true))
    × (m'.task_queue ≡ erase 7 two_timers.task_queue)
    × (m'.pending 7 ≡ false)
    × Inv 0 m'
cancel-pending_example =
    cancel-pending plain_list 0 7 two_timers (unfold request new_manager in refl) two_timers-Inv

-- A task that cancels the other one.
abbrev cancel_other : ℕ → Manager → List Request
cancel_other t m = cancels 5 ∷ []

service_task-first_example :
    ((service_task plain_list false cancel_other two_timers).ran ≡ two_timers.ran ++ 7 ∷ [])
    × AtLeast (two_timers.expiration_time 7) (deadlines two_timers)
    × Inv 0 (service_task plain_list false cancel_other two_timers)
service_task-first_example =
    service_task-first plain_list false cancel_other 0 7 (5 ∷ []) two_timers two_timers_queue
      two_timers-Inv
