-- ===== src/Examples/Scheduling.antt =====
-- The schedulers over the managers: an operation is started, and its token is then asked to stop.
use cpp_baremetal_senders_an.Base.{ℕ, ◌≡◌, refl, true, false, [], arith, sum_below-zero}
use cpp_baremetal_senders_an.Intrusive.{plain_list}
use cpp_baremetal_senders_an.TaskManager
use cpp_baremetal_senders_an.TimerManager
use cpp_baremetal_senders_an.TaskManager.Injected.{task_pool, priority}
use cpp_baremetal_senders_an.TimerManager.Injected.{after_duration, timer_tasks}
use cpp_baremetal_senders_an.TriggerManager.Injected.{trigger_tasks}
use cpp_baremetal_senders_an.Pool.{Pool, Cancellable}
use cpp_baremetal_senders_an.Schedulers.{Op, World}
use cpp_baremetal_senders_an.Schedulers.Invariant.{Completes}
use cpp_baremetal_senders_an.InciteOn
use cpp_baremetal_senders_an.InciteOn.{sends}
use cpp_baremetal_senders_an.InciteOn.Order.{incite_on-queued}
use cpp_baremetal_senders_an.Schedulers.Priority
use cpp_baremetal_senders_an.Schedulers.Time
use cpp_baremetal_senders_an.Schedulers.Trigger
use cpp_baremetal_senders_an.Schedulers.Time.Once.{time_once}

abbrev idle_op : Op ℕ ℕ
idle_op = record {
  started = false;
  asked = false;
  emplacing = false;
  stop_cb = false;
  delivered = [];
}

-- A manager of two priorities that holds no task.
abbrev tasks : Pool
tasks = task_pool plain_list 2

unfoldable idle_tasks : tasks.State
unfolding TaskManager.new_manager
idle_tasks = record {
  running = 0;
  owned = [];
  manager = TaskManager.new_manager;
  valid = record {
    once = λ t. omega (arith, sum_below-zero 2);
    counted = omega (arith, sum_below-zero 2);
    in_bounds = λ p le. refl;
  };
}

no_tasks : (t : ℕ) → tasks.pending idle_tasks t ≡ false
unfolding idle_tasks TaskManager.new_manager
no_tasks t = refl

abbrev tasks_world : World tasks.State ℕ ℕ
tasks_world = record { state = idle_tasks; ops = λ _. idle_op }

abbrev low : tasks.Request
low = priority 1 (omega arith)

abbrev priority_world : World tasks.State ℕ ℕ
priority_world = Priority.start tasks low 4 tasks_world

abbrev timers : Cancellable
timers = timer_tasks plain_list false

unfoldable idle_timers : timers.pool.State
unfolding TimerManager.new_manager
idle_timers = record {
  running = 0;
  manager = TimerManager.new_manager;
  valid = record { once = λ t. refl; sorted = tt; counted = refl; armed = refl };
}

no_timers : (t : ℕ) → timers.pool.pending idle_timers t ≡ false
unfolding idle_timers TimerManager.new_manager
no_timers t = refl

abbrev timers_world : World timers.pool.State ℕ ℕ
timers_world = record { state = idle_timers; ops = λ _. idle_op }

abbrev ten : timers.pool.Request
ten = after_duration 10 (record { now = 3; enabled_until = 13 })

abbrev time_world : World timers.pool.State ℕ ℕ
time_world = Time.start timers ten 4 timers_world

time_asked : (time_world.ops 4).asked ≡ false
unfolding Time.start Time.schedule
time_asked = refl

time_once_example : Completes timers.pool (Time.ask timers 4 time_world) 4
time_once_example =
    time_once timers (λ t. (refl, refl)) no_timers
      (Time.Once.next (Time.Once.next Time.Once.here (Time.Once.starts timers_world ten 4 refl))
        (Time.Once.asks time_world 4 time_asked))
      4

abbrev triggers : Cancellable
triggers = trigger_tasks plain_list

unfoldable idle_triggers : triggers.pool.State
idle_triggers = record {
  running = 0;
  manager = record { tasks = []; pending = λ _. false; task_count = 0; ran = [] };
  valid = record { once = λ t. refl; counted = refl };
}

no_triggers : (t : ℕ) → triggers.pool.pending idle_triggers t ≡ false
unfolding idle_triggers
no_triggers t = refl

abbrev triggers_world : World triggers.pool.State ℕ ℕ
triggers_world = record { state = idle_triggers; ops = λ _. idle_op }

abbrev trigger_world : World triggers.pool.State ℕ ℕ
trigger_world = Trigger.start triggers tt 4 triggers_world

abbrev trigger_last : World triggers.pool.State ℕ ℕ
trigger_last = Trigger.ask triggers 4 trigger_world

-- The function that is sent asks the operation to stop.
incite_on-queued_example :
    (w' : World triggers.pool.State ℕ ℕ) × (InciteOn.start triggers
        (sends (Trigger.ask triggers 4))
        tt
        4
        triggers_world
      ≡ Trigger.ask triggers 4 w')
    × (triggers.pool.pending w'.state 4 ≡ true)
    × ((w'.ops 4).delivered ≡ [])
    × ((w'.ops 4).stop_cb ≡ true)
incite_on-queued_example =
    incite_on-queued triggers (Trigger.ask triggers 4) tt 4 triggers_world refl (no_triggers 4) refl
