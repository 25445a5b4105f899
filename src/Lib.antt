-- ===== src/Lib.antt =====
-- Verification library of SimCore, a discrete-event simulation engine whose processes are
-- futures.
--
-- The program. A `SimEnv` (src/env.rs) owns a clock, a heap of scheduled wakers and a table of
-- processes (src/executor/). `run` and `run_until` take the earliest event, move the clock to
-- it, wake its process and poll everything that is ready; polling a process may schedule events,
-- spawn processes and wake others. Processes wait for timeouts (src/timeout.rs), events
-- (src/event.rs), each other (src/process.rs), races and joins (src/combinator.rs) and resources
-- (src/resource/). Random numbers come from src/rng.rs, and src/monte_carlo.rs runs one
-- simulation per seed. The Python binding (simcore-python/src/lib.rs) makes a process of a stack
-- of generators: what the top one yields is classified and awaited as a kernel future.
--
-- Correspondence.
-- - Base, Heap: shared helpers. `Base.Store` is the store of shared cells: where the source
--   shares an `Rc<Cell<_>>`, the model has an address into it. `Heap` is `BinaryHeap`, a
--   standard container, seen as the sorted list of what it pops. It documents no order among
--   elements that compare as equal, and none such occur where numbers break ties; the model puts
--   the newest of them first, so that no tie is broken by the container.
-- - Float: `f64` is a parameter, a record of the operations that are used; `IsIeee` lists what
--   IEEE 754 says of them. `Float.Sample` is an instance.
-- - Executor (src/executor/): `SimState`, `ScheduledWaker` and its order, `schedule_wakeup`,
--   `alloc_process_id`, `SimWaker`. The `debug_assert!` of `schedule_wakeup` is in force or not
--   by a Boolean argument, and its panic is `none`.
-- - Env (src/env.rs): `spawn`, `drain_pending_spawns`, `poll_ready`, `run`, `run_until`, `drop`.
--   A process is a parameter: a function from the clock, its waker and the state that processes
--   share to the calls that it makes and what is left of it. `Env.Source` has the environment's
--   random source, its reseeding and the guards that borrow it. `Env.Trace` has the events that
--   a run fires, one after the other. `Env.Preserved` carries what each step keeps over whole
--   runs, `Env.Conservation` follows each process through its slot, `Env.Effects` says what a
--   poll does to the slots, the ready queue and the events, and `Env.Tended` carries a predicate
--   of what is still to be polled through a run.
-- - Timeout, Event, Process, Combinator (src/timeout.rs, src/event.rs, src/process.rs,
--   src/combinator.rs): one function per poll, `fire`, `finish`. The children of a race or a
--   join are a parameter. `Timeout.Calls` has a poll of a timeout by the calls of the
--   environment that it makes, for processes that are programs of the event loop.
-- - WaitQueue (src/resource/wait_queue.rs): `try_acquire`, `register`, `release`, generic in the
--   key. `WaitQueue.Refinement` has the specification of a queue that takes a canceled waiter
--   out at once, which the code does only when `release` meets it.
-- - Request (src/resource/mod.rs, src/resource/priority.rs): the request future and the guard
--   that both pools write out, and a pool with all its requests and guards as a system that
--   operations move in any order. `Request.Invariant` links its books to its requests. Resource
--   and PriorityResource are the two instances.
-- - Preemptive (src/resource/preemptive.rs): holders, the choice of a victim, `grant`, and the
--   polls and drops of requests and guards; `Preemptive.Pool` is a pool with all its requests
--   and guards as a system, and `Preemptive.Books` links its holders, its guards and its units.
-- - Container (src/resource/container.rs): the level and the two queues, the wake cascade, both
--   request futures, and a container with all its requests as a system.
-- - Rng (src/rng.rs): SplitMix64 in arithmetic modulo 2^64, and `fill_bytes`; `Rng.Sample` has
--   the transforms of `sample` over any generator, with the logarithm, the square root and the
--   cosine as parameters.
-- - Python (simcore-python/src/lib.rs): the request objects and their classification (Objects),
--   the arms of races and joins (Arms), the loop of the process that `Simulation::spawn` makes
--   (Trampoline) and its reading as plain calls (Composition), the checks of arguments (Checks),
--   guards and events (Guards), draws (Draws), the iterators that Python awaits (Driver,
--   Awaiting), and the runs of a `Simulation` (Simulation). What `send` does to a generator and
--   what the await of a kernel future does meanwhile are parameters.
-- - MonteCarlo (src/monte_carlo.rs): the default backend.
-- - Compare (examples/compare.rs): the command line (Args), the report as JSON and what is read
--   back from it (Json, Events), the queue and priority models (Queue, with the books of what
--   each process has of the resource in Queue.Books and what wakes each process in
--   Queue.Tended), the container model (Container), and a replication of each with its metrics
--   (Reports). Each `async fn` is a process of the event loop: a state for each `.await` that it
--   may stop at, and a function for the code from there to the next. How the standard library
--   prints and reads a number is a parameter.
-- - Tests: small runs, each a case of a theorem.
--
-- Bounds and fuel. `usize` and `u64` are natural numbers with the wrap-around written out;
-- theorems that need it ask that fewer than 2^64 operations have been made. The cascade runs on
-- fuel, one more than the number of waiters, since each round but the last takes one out of a
-- queue. The event loop runs on fuel for events and for batches: processes are arbitrary and may
-- never stop, so running out is a result of its own. For processes that pay for what they ask
-- for, more fuel than the weight of Env.Weight is enough, which is 6n + 1 for a queue of n
-- customers; what is said of other runs is said of one that returns. The loop of a Python
-- process runs on fuel for the turns of its generators, which may never stop.
--
-- Not modelled. `StdRng` and the rayon backend, which are third-party code; `Debug` output;
-- `rng_range_int`, the getters and the registration of the Python binding; the hospital model
-- and the main function of examples/compare.rs; the other examples, the benches and the
-- comparison harness.
pub mod Base
pub mod Heap
pub mod WaitQueue
pub mod Request
pub mod Float
pub mod Container
pub mod Resource
pub mod PriorityResource
pub mod Executor
pub mod Env
pub mod Timeout
pub mod Rng
pub mod Event
pub mod Process
pub mod Preemptive
pub mod MonteCarlo
pub mod Combinator
pub mod Python
pub mod Compare
pub mod Tests
