-- ===== src/Lib.antt =====
-- TaskR: a model of the tasking runtime in include/taskr, of its wrapper in include/pytaskr, and of two
-- examples that use it.
--
-- The program. A user makes tasks (task.hpp) with dependencies among them, and adds them to a runtime
-- (runtime.hpp). The runtime keeps the ready ones in lock-free queues (queue.hpp), one common queue
-- and one for each task worker (worker.hpp), and its workers pull tasks from there, poll the pending
-- operations of each and run it. A finished task makes its dependents ready. Services (service.hpp)
-- are functions that the workers run now and then. A running task may wait for a mutex (mutex.hpp) or
-- a condition variable (conditionVariable.hpp): it then suspends with a pending operation.
--
-- The files.
--   Base          the shared names: lists, Boolean tests and integers over the native numbers, 64-bit
--                 counters (Base/Word), calls that throw, spin or go out of bounds (Base/Results), and
--                 the rules of loops (Base/Loops) and of code that writes to each place only what
--                 belongs there (Base/Writing)
--   Common        include/taskr/common.hpp, the capacities of the queues
--   Clock         durations between readings of the clock, as the standard library casts them
--   Queue         include/taskr/queue.hpp over an interface to atomic_queue (Queue/Interface), with a
--                 bounded list as an instance of it (Queue/ListQueue)
--   Task          include/taskr/task.hpp, taskImpl.hpp and function.hpp; Task/Graph relates the
--                 counters and the lists of output dependencies, and Task/Order is about lists of
--                 tasks in which each depends on older ones only
--   Service       include/taskr/service.hpp
--   Worker        include/taskr/worker.hpp
--   Runtime       include/taskr/runtime.hpp: State (the class), Config (the constructor), Tasks
--                 (addTask, resumeTask, setFinishedTask, the callbacks of tasks), Lifecycle
--                 (initialize, run, await, finalize), Services (tryRunService, serviceWorkerLoop,
--                 checkTermination), Scheduling (taskWorkerLoop, checkResumeWorker,
--                 checkTaskWorkerSuspension), Callbacks (the callback maps and their setters); Queued
--                 counts the ready queues that hold a task, Frame says what no operation changes, and
--                 Execution is the interleaving of the turns of the workers with the calls of tasks
--                 that are added, suspended and finished
--   Mutex         include/taskr/mutex.hpp; System is the interleaving of the tasks that use one
--   ConditionVariable
--                 include/taskr/conditionVariable.hpp; System is the interleaving of the tasks that
--                 wait without a timeout and notify, Timed that of all calls, both with the calls
--                 that the release of a mutex of another task leaves by an exception
--   PyRuntime     include/pytaskr/pyruntime.hpp; Chosen and Selection say which resources it takes
--   Examples      examples/cholesky: Cholesky is the graph of tasks of source/cholesky.hpp, an addition of
--                 a run for each kernel (Cholesky/Graph), in an order in which no kernel writes what
--                 an earlier one only reads (Cholesky/Schedule); Blocks is the conversions of utils.hpp.
--                 examples/jacobi3d, source/grid.cpp: Jacobi is the numbering of processes and
--                 subgrids, and what it finds beside each subgrid; Jacobi/Grid is compute, the
--                 stencil, and relates it to one grid of all processes (Grid/Global), Jacobi/Reset
--                 is reset, Jacobi/Halo is pack and unpack, which exchange the cells at the faces,
--                 and Jacobi/Channels is the slots of the channels between
--                 neighbours; Jacobi/TaskNames is the identifiers of source/task.hpp
--   Tests         runs on small inputs
--
-- How the code is read. An object is its address, a number, and tasks stand in a store. A call is a
-- function of the state that returns the state after it and an outcome: a value, an exception, a spin
-- that does not end, or an access out of bounds. `std::size_t` and the atomic counters wrap at 2 ^ 64.
-- A read of the clock is a step of the world, in nanoseconds. Each turn of a worker, and each
-- operation of a mutex, is one sequential step; the mutex and the condition variable have step
-- relations on top, in which the tasks take turns in any order, and so has the whole run
-- (Runtime/Execution): there the frontend asks for a task only on behalf of a worker that executes
-- none, tasks get their dependencies before they are added, and the ready queues have room.
--
-- Bounds. The two loops of a forced termination run on fuel, the size of the queue and one more,
-- which is enough because each round takes one item. A push into a full queue spins, so that the
-- theorems that a call returns ask for room. A service compares its interval as floating-point
-- numbers, which agrees with the integers up to 2 ^ 53. The indices of the conversions of matrices have
-- 32 bits, and their theorems ask that the number of elements fits. The loops over tiles of compute run
-- on fuel, the length of the range, which is enough because each tile takes at least one index. The
-- indices and keys of jacobi3d are taken not to wrap around.
--
-- Given from outside: the lock-free queue, the clock, the functions of the user (pending operations,
-- services, callbacks), the state of the frontend's workers and the backend's processing units
-- (Runtime/State), the JSON library (Runtime/Config), the frontend's map of callbacks
-- (Runtime/Callbacks), and the addition and scaling of the numbers of a grid (Jacobi/Grid),
-- and the hash of a printed name (Jacobi/TaskNames).
--
-- Not modelled: preemption inside a turn of a worker, the threads and the execution of tasks, which
-- are the tasking frontend's and are recorded as calls; the instrumentation; the declarations
-- of the Python bindings; the kernels of the decomposition, which are LAPACK's and BLAS's, and of which
-- only the blocks are known that they get, the last one changed in place; the channels of the stencil,
-- which are HiCR's and carry a message as it is; and the other examples.
pub mod Base
pub mod Queue
pub mod Common
pub mod Clock
pub mod Service
pub mod Task
pub mod Worker
pub mod Runtime
pub mod Mutex
pub mod ConditionVariable
pub mod PyRuntime
pub mod Tests
pub mod Examples
