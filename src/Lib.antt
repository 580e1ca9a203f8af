-- ===== src/Lib.antt =====
-- The two thread pools of the repository, and the programs beside them that have state of their own.
-- The pools are posix/threadpool.{hpp,cpp} (namespace AgentppCK, on pthreads) and threadpool.{hpp,cpp}
-- (namespace Agentpp, on Boost.Thread). Both give a class Synchronized (a mutex and a condition
-- variable), Thread, TaskManager (a thread that runs one task after the other), ThreadPool (a list of
-- task managers) and QueuedThreadPool.
--
-- posix/threadpool. A QueuedThreadPool has a queue, a thread of its own (the dispatcher) and task
-- managers. `execute` puts a task into the queue under the mutex of the member `thread` and signals
-- the dispatcher; `run` takes the front of the queue and, in `assign`, asks each task manager
-- `is_idle` and gives the task to the first that accepts it by `set_task`; the task manager's thread,
-- in `TaskManager::run`, executes it under the task manager's own mutex and calls
-- `idle_notification`. The destructor stops and joins all of them.
--   Posix/Clock          Synchronized::wait(long), the deadline; Thread::sleep, Thread::nsleep
--   Posix/Synchronized   lock, trylock, unlock, wait by what pthreads returns; Plain: a concrete mutex
--   Posix/Thread         Thread: start, join, the destructor
--   Posix/Pool/State     the objects, the program counters, QueuedThreadPool::execute
--   Posix/Pool/Worker    TaskManager::run, and a task that calls execute
--   Posix/Pool/Dispatcher  QueuedThreadPool::run and assign, TaskManager::is_idle and set_task
--   Posix/Pool/Shutdown  QueuedThreadPool::terminate and the destructor, with EmptyTaskList,
--                        EmptyQueue, TaskManager::stop, its destructor, Thread::join
--   Posix/Pool/System    all threads, one step at a time; the constructors
--   Posix/Pool/Queries   is_idle and is_busy of ThreadPool and QueuedThreadPool
--   Posix/Direct         a ThreadPool by itself, whose clients call ThreadPool::execute: State, System;
--                        Account, Changes, Steps, Stranded: what every step keeps, and what follows
--   Posix/Pool/...       After, Flow, Locks, Account, Stop, Lifecycle: what every step keeps;
--                        Safety, Termination, Wakeup, Deadlock: what follows
--
-- threadpool. Here ThreadPool::execute, called by clients, gives a task to a task manager itself,
-- under the pool's mutex, and waits with a timeout if there is none to take it. QueuedThreadPool
-- passes tasks on to a boost::basic_thread_pool.
--   Agentpp/Synchronized  lock, trylock, unlock with `tid_`; Timed: lock(timeout), while other threads
--                         use the object between its attempts
--   Agentpp/Thread        Thread::start, thread_starter and join, with the race on the status
--   Agentpp/Pool/State    the objects and the program counters
--   Agentpp/Pool/Manager  TaskManager::run and the end of Thread::thread_starter
--   Agentpp/Pool/Client   ThreadPool::execute, with both variants of TaskManager::set_task
--   Agentpp/Pool/Shutdown ThreadPool::terminate, the destruction of the task managers
--   Agentpp/Pool/System   all threads, one step at a time; the constructors
--   Agentpp/Pool/...      Invariant (Threads, Steps), After: what every step keeps;
--                         Safety, Termination, Deadlock, Loss: what follows
--   Agentpp/Queued        QueuedThreadPool over an executor; Plain: a concrete executor;
--                         Account, Terminated: what any calls keep, and what holds after terminate
--
-- alarm_cond.cpp. main enters alarms into a list that is sorted by time; a thread takes the first,
-- waits until its time, and handles it, or puts it back when an earlier one is entered.
--   Alarm/Queue          alarm_t, the loop of alarm_insert, `longest`
--   Alarm/System         alarm_insert, alarm_thread and main, one step at a time, with the clock
--   Alarm/Attends, Waiting, Account  what every step keeps, and what follows
--
-- priority_scheduler.cpp. Executors post functions with priorities; run takes them by priority until
-- stop is called.
--   Scheduler/Queue      items, item_comp, an interface for std::priority_queue; Plain: a concrete one
--   Scheduler/System     post, stop, get_executor and run, one step at a time
--   Scheduler/Order, Stop  what every step keeps, and what follows
--
-- parallel_quick_sort.cpp. QuickSort has do_sort over interfaces for the order and for std::partition
-- (Plain: concrete ones); Sorted has what it returns.
--
-- lockfree_spsc_queue.cpp. SpscQueue has the producer, the consumer and main over an interface for the
-- queue (Plain: a concrete one); Invariant and Steps have what every step keeps, Order what follows.
--
-- perf_condition_variable.cpp. PingPong has the producer, which begins a round when all consumers have
-- taken part in the last one, and the consumers; Invariant, Rounds and Progress have the proofs.
--
-- shared_mutex.cpp. Loops lock a mutex in every way and assert that the readers' state is right.
--   SharedMutex/Modes    an interface for boost::upgrade_mutex (and, without upgrades, for
--                        boost::shared_mutex); Plain: a concrete one
--   SharedMutex/Loops    the statements of the loops, and `checked`, a check of a loop's text
--   SharedMutex/S, U     the loops and test functions of the namespaces S and U
--   SharedMutex/System   the threads of one group, one step at a time
--   SharedMutex/Invariant, Assertions, Groups  what every step keeps, and what follows
--
-- Prelude has the names that all of them use. The modules called Tests run the models.
--
-- How the code is modelled. A thread stands at a program counter; `step` makes one step of one thread,
-- up to its next access to shared state, and is `none` while the thread waits for a mutex, a signal or
-- another thread's end. `Reach` is every state that any sequence of steps leads to. Tasks are numbers,
-- the addresses of Runnables that are not null; `run()` of a task ends, by a return or by an exception
-- that the code catches.
-- The states carry a history of the tasks (submitted, dispatched or accepted, executed, dropped,
-- drained, entered, handled, posted), which no step reads. A mutex is the fact of who holds it. A
-- thread in a wait is moved on by a signal, or by a spurious wakeup, which is a step of its own.
-- Reads and writes of `go` and `task` without a mutex are single steps in one order. In
-- Agentpp/Queued a call is one step, but for `execute`, whose test and boost::async are two; the
-- executor takes the tasks that wait for it in any order. The calls of `terminate` in Posix/Direct,
-- that of the destructor being the last, follow one another. The pthread mutex, the boost::mutex,
-- the boost::basic_thread_pool, the std::priority_queue, std::partition, the
-- boost::lockfree::spsc_queue and the boost::upgrade_mutex are parameters: records of operations
-- with the laws that their documentation gives, and Plain modules show that the laws can hold.
-- Numbers are natural: a timeout, a number of milliseconds, the seconds of an alarm are not
-- negative; the priorities of the scheduler are only compared.
--
-- Fuel: that of Agentpp/Synchronized/Timed is one more than the timeout in milliseconds, which is enough
-- since each round takes ten milliseconds off it; that of QuickSort is the number of elements, which is
-- enough since both parts of a list without its first element are shorter than the list.
--
-- Not modelled: logging, names, priorities and stack sizes of threads, which have no effect on the
-- state; the mutex of posix ThreadPool in its `terminate`, for which nobody contends in a
-- QueuedThreadPool; that pthread_create fails for the dispatcher; a task that calls execute on a
-- ThreadPool without a queue; the threads of the pool behind parallel_quick_sort's futures; `wait` and `notify` of the Boost
-- variant apart from the pool that uses them; the parsing of alarm_cond's input and what it prints;
-- class A in shared_mutex.cpp; the other examples and the tests, and copies of other libraries.
pub mod Prelude
pub mod Posix
pub mod Agentpp
pub mod Alarm
pub mod Scheduler
pub mod SharedMutex
pub mod QuickSort
pub mod SpscQueue
pub mod PingPong
