-- ===== src/Lib.antt =====
-- A verification library for the backend components of this repository: connection pools for Redis,
-- MySQL and RabbitMQ, thread pool, sockets, INI reader, errors and results, logger, and the inventory
-- demo that uses them. Each part but the demo is a C++ library of its own. The pools lend connections
-- or channels through guards, and a guard gives back what it holds when it is destroyed.
--
-- Parts and files:
--   * Objects: the connection objects that exist, as a heap of numbered objects with `delete`, and
--     the predicate that each stands exactly once, in the queue of a pool or with a client. Both
--     pools use it.
--   * RedisPool: redis-connection-pool/src/RedisConnectionPool.cpp, RedisConnectionFactory.cpp and
--     RedisHealthChecker.cpp. Types has the members of the pool and its statistics, Factory the
--     factory and the health check, Connections what creates and destroys connections, Borrow
--     `get_connection` and `return_connection`, Recycle the recycle thread's work and `shutdown`,
--     Settings the setters and getters.
--     System has the steps of clients and recycle thread. The other modules are proofs: Ownership
--     and Custody on who holds an object, Sizes, Bounds and Invariant on counters and statistics,
--     RecycleLaw, Exhaustion and Calls on single operations.
--   * DbPool: database-connection-pool/src/ConnectionPool.cpp, with the same division on a smaller
--     scale: Pool, Settings, System, Parts, Invariant. Registry has the instances by type.
--   * Guards: RedisConnGuard.cpp and pooledConnGuard.cpp, over a store of guard objects (Store).
--   * ThreadPool: thread-pool/stl-implementation/src/threadPool.cpp. Pool has the critical sections
--     of workers, manager and `submit`; Counts, Invariant, Schedules and Shutdown the proofs.
--   * Pthread: thread-pool/linux-implementation/src/threadPool.cpp. Pool has the same critical sections
--     with thread ids; Counts and Group are about the loops and the work group, Invariant, Steps and
--     Schedules about all schedules.
--   * Ini: ini/src/ini.cpp. Reader is `trim` and `load`, Values is value.cpp; Texts and
--     RoundTrip are about the reader.
--   * Result: error/include/result.h. Storage is the tagged union over raw storage and the macro
--     EF_TRY; Laws and Propagation are about it.
--   * Logger: log/include/log.h and log/src/log.cpp. Format is the line in the stack buffer, Sink the
--     file buffer and rotation, Levels the names of levels, Laws what a sequence of calls leaves.
--   * Inventory: the demo in demos/demo1/src. Store is the MySQL row and the Redis key of one item
--     (inventory_repository.cpp, redis_lua.cpp), Service is inventory_service.cpp and
--     consistency_checker.cpp. Ledger and Sales are about what is sold, Rollback and Agreement about
--     the two stores, Report about the consistency check.
--     Calls is `deduct` in steps and Concurrent concurrent_test.cpp; Steps, Balance, Finishing and
--     TestRun are about calls in any interleaving. Controller is inventory_controller.cpp, Answers about it.
--   * App: app.cpp of the demo. Keys and Config are the configuration, Start `init` and the clean-up;
--     Writing, Loading and Ready are about them.
--   * Rabbit: rabbitMQ-pool/src. Connection is connection.cpp, Channel and Wire are channel.cpp (the
--     life of a channel, and the request of each operation), Broker is broker.cpp with queue.cpp and
--     exchange.cpp, ChannelPool is channelPool.cpp with channelGuard.cpp, Message, Producer and
--     Consumer are the files of these names. Handles, Custody, Topology, Asked, Effects, Rotation and
--     Consumed are about them; Topology has the record of what a server promises.
--   * Cdc: cross-domain-communication/src. Communicator is communicator_factory.cpp and the life of
--     a communicator in communicator.cpp and protocol_strategy.cpp, Io the calls that use a socket,
--     Address is address.cpp. Descriptors and Sealed are about them.
--   * Errors: error/include/error_kind.h (Kinds), error.h and error/src/error.cpp (Chain); Laws.
--   * MySql: database-connection-pool/src/MySQLConnection.cpp (Connection) and MySQLResultSet.cpp
--     (ResultSet); Pointers is about the connection.
--   * Strings: C strings, which Errors and Cdc share.
--   * Prelude: lists, tests and integers that all parts share. Tests: runs at concrete inputs.
--
-- Correspondence: a struct is a record with the members' names without `m_`; an operation is a
-- function from the old state to the new one with the name of the source. A function that waits on a
-- condition variable is divided where it gives the lock up: `get_connection` is `get_enter` and
-- `get_wake`. Threads are steps of a relation (Step) or actions of a schedule (run), one critical
-- section at a time, in any order. The return of a broken connection to the Redis
-- pool is two steps, its destruction before the lock and the rest under it. A thread that waits on a
-- condition variable may look at its condition in any turn: signals and broadcasts have no effect in the
-- models, which have more schedules than the program, and say nothing about a signal that is missing.
--
-- Parameters: what a client library does is chosen from outside. `attempt n` says whether the n-th
-- construction of a connection succeeds, and what its first PING answers; `ping` and `valid` are the
-- answers of one connection; `clock` and `now` are readings of the clock; a `Rotation` has the
-- second that names a backup and the results of the file system's calls; a rename replaces a file that
-- has the name; a message in the stack buffer is the list of the lengths that
-- `snprintf` returns; an `Outside` says for each server call of `deduct` whether it fails, and whether
-- it took effect before it failed. `serve` answers a request to RabbitMQ, `sys` a system call;
-- `unused` is the kernel's choice of a descriptor, `registered` the table of a program's own errors,
-- `to_text` the decimal form of a number; `create n` is the id that
-- `pthread_create` returns for thread n, and it always succeeds. The commands of Redis and MySQL act as
-- documented.
--
-- Bounds: counters that are `uint64_t` wrap at 2 ^ 64. An `int` is an integer without bounds,
-- but for the casts to `int` in redis_lua.cpp, which are written out. The loop of a consumer runs over
-- the list of its turns. Other loops are structural recursion on the number of rounds that the source
-- computes before. The digits of a number n are computed in n + 1 rounds, which are enough: they are
-- read back as n. A schedule is a list of threads; a call of `deduct` ends in four turns more than it
-- may attempt to roll back.
--
-- Not modelled: logging to the console, time stamps, the timeout of a consumer, the singleton of the Redis
-- pool, the memory model (critical sections are atomic), the MySQL, Redis and AMQP clients, the tables of
-- arguments in requests to RabbitMQ, the columns of MySQL's result sets, INI values of type double, the
-- tables of error_def.h, the demo's console, the HTTP server, and handlers of a consumer that throw.
-- In the demo, a transaction that an exception of `commit` leaves open is not kept for the next call on
-- that connection, a key holds the decimal form of an `int`, and an exception that leaves a thread does
-- not end the program.
-- The recycle loops read an element of a queue after its removal; the model reads it before.

pub mod Prelude
pub mod Objects
pub mod RedisPool
pub mod DbPool
pub mod Guards
pub mod App
pub mod Pthread
pub mod ThreadPool
pub mod Ini
pub mod Result
pub mod Logger
pub mod Inventory
pub mod Cdc
pub mod Errors
pub mod MySql
pub mod Strings
pub mod Rabbit
mod Tests
