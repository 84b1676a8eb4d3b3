-- ===== src/Lib.antt =====
-- A model of the senders-and-receivers library for bare metal: the schedulers' task managers, the
-- stop sources, the allocator, and the adaptors whose operations have a state of their own.
--
-- Parts, by file (paths of code are under include/async/):
--   Base            shared names, and lemmas on lists, maps and numbers
--   Intrusive       the interface of the linked lists, third-party code that the managers and the
--                   stop source keep their nodes in: a record of operations and laws, which every
--                   client takes as a parameter
--   Channel         completion_tags.hpp: the three ways in which an operation completes
--   TaskManager     schedulers/task_manager.hpp, schedulers/requeue_policy.hpp: enqueue_task,
--                   service_tasks, is_idle, under the immediate and the deferred policy
--   TimerManager    schedulers/timer_manager.hpp: run_after, run_at, cancel, service_task, is_idle
--   TriggerManager  schedulers/trigger_manager.hpp: enqueue, dequeue, run, empty
--   StopToken       stop_token.hpp: the in-place stop source, its callbacks and tokens
--   StaticAllocator static_allocator.hpp: construct and destruct, for one slot and for several
--   Pool            what a scheduler needs of the manager that is injected into it, as an interface
--   Schedulers      the operation states of schedulers/priority_scheduler.hpp, time_scheduler.hpp and
--                   trigger_scheduler.hpp, over any such manager; the Injected child of each manager
--                   shows that it is one, the trigger manager's under the immediate policy
--   InciteOn        incite_on.hpp: the operation state, over the trigger scheduler's
--   RunLoop         schedulers/runloop_scheduler.hpp: start, execute, push_back, pop_front, finish, run
--   SyncWait        sync_wait.hpp: the receivers, and the static and the dynamic wait
--   StartDetached   start_detached.hpp, allocator.hpp: start, completion, stop_detached, over any
--                   allocator, with senders of several types under one name;
--                   StartDetached/Single fills it with the static allocators of one object
--   Split           split.hpp: the operations that share one
--   Variant         variant_sender.hpp: the choice among options, and the senders of a variant
--   Sender          senders by what they do when they are started, for the next four
--   Then            then.hpp: then, upon_error, upon_stopped, then_error, transform_error
--   Let             let.hpp: the operation state behind let_value, let_error and let_stopped
--   Sequence        sequence.hpp: sequence and seq
--   Transfer        just.hpp, start_on.hpp, continue_on.hpp, over Let and Sequence
--   WhenAll         when_all.hpp: the three operation states of when_all
--   WhenAny         when_any.hpp: the three policies and the two operation states of when_any;
--                   WhenAny/Empty has those of no senders, of when_all as well
--   Repeat, Retry   repeat.hpp, retry.hpp: the loops over one sender
--   Periodic        periodic.hpp: the expiration providers and the loop over one sender
--   Mp11            Boost.Mp11, third-party code that computes on lists of types: a record of
--                   operations and laws, which every computation of signatures takes
--   Signatures      type_traits.hpp: the completion signatures and what is computed of them; the
--                   child Completions of an adaptor has its get_completion_signatures, and the
--                   proof that what it sends is one of them, for when_all and when_any in the
--                   child Advertised
--   TimeoutAfter    timeout_after.hpp, and stop_when of when_any.hpp
--   IntoVariant     into_variant.hpp
--   Environments    env.hpp, forwarding_query.hpp, read_env.hpp
--   Examples        the theorems at concrete inputs, and tests
-- The children of a module are named for what they prove.
--
-- How state corresponds: a struct of the code is a record, its member functions are functions from
-- the record to the record, and calls to the outside (the hardware layer, `task->run()`, the
-- downstream receiver) are appended to logs of the record. Tasks and callbacks are named by their
-- addresses; a flag that the code keeps in the object (`pending`, `expiration_time`) is a function
-- of the address in the record. A critical section, or an atomic operation, is one step. What code
-- of the user does while it is called back is a parameter that lists its calls of the component
-- and may depend on the state. The children of when_all and when_any, the operations of a
-- scheduler, of split and of start_detached take their steps in any order: their concurrency is a
-- step relation, and the theorems are about every state that it reaches. The choice of the
-- operation state and the synchronicity of a sender are computed by the compiler: they are
-- arguments here. C++ types are the elements of a type T, and a completion signature is a
-- completion whose arguments are such elements; the signatures of a sender depend on the
-- environment only by whether its token can be asked to stop, where they depend on it at all.
--
-- Loops that the code does not bound carry fuel, and `none` is a loop that has used it up. The
-- theorems that give a result also give the fuel that is enough: one round for each task or
-- callback and one to find the list empty, and for repeat and retry the number of the starts of
-- the child and two. The run loop needs one round more than operations are started in all, and the
-- notification of split one for each operation that waits.
--
-- Numbers: counts, time points and addresses are numbers without wrap; the count of repeat_n wraps
-- at 32 bits, as the code's unsigned integer does.
--
-- Not modelled: just_result_of, whose functions are called in an order that C++ leaves open; of
-- incite_on_any all but its signatures; the stack allocator; the schedulers that run inline or on a
-- thread, but for their signatures; debugging signals; concepts and the dispatch of the
-- customisation points. A callback that is made on a source that was asked to stop already is logged
-- as called, and what its own code then makes or destroys is left out. Of a variant sender, options
-- whose senders have one type are kept apart, where the code merges their operation states. The
-- trigger scheduler is not related to a trigger manager that runs under the deferred policy.
mod Base
mod Examples
pub mod Intrusive
pub mod TaskManager
pub mod StopToken
pub mod StaticAllocator
pub mod Channel
pub mod Environments
pub mod Pool
pub mod Schedulers
pub mod Split
pub mod InciteOn
pub mod RunLoop
pub mod StartDetached
pub mod Variant
pub mod Transfer
pub mod TimeoutAfter
pub mod IntoVariant
pub mod SyncWait
pub mod Sender
pub mod Mp11
pub mod Signatures
pub mod Then
pub mod Let
pub mod Sequence
pub mod WhenAll
pub mod WhenAny
pub mod Repeat
pub mod Retry
pub mod Periodic
pub mod TimerManager
pub mod TriggerManager
