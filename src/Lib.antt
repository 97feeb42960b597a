-- ===== src/Lib.antt =====
-- Verification library of the C++ programs of this repository: models of the code as functions
-- on explicit states, and theorems about them. The programs do not share code, but for the
-- directory 线程池连接池, where the thread pool runs jobs that use the connection pool, and the table
-- of users uses a connection, prepared statements and result sets.
--
-- Base passes on the library's names and adds tests on numbers, lists over native numbers,
-- functions updated at a point, and Run, the outcome of code that follows pointers and loops: a
-- value, a fault (an access that C++ leaves undefined) or fuel that ran out. Memory is a
-- function from addresses to optional contents; what new and malloc return is an argument, as
-- an unused address.
--
-- SkipListTimer models SkipListTimer/:
-- Node: skiplistnode.cpp; a node's 32 levels may be unset, NULL or set.
-- SkipList: skiplist.cpp, each method as a function of the same name.
-- Clock, Expire: common.h, Add_timer and expire_timer of main.cpp.
-- Represents: what it means that a skip list stands for a list of timers.
-- Contract, Due, Reach: the methods against this list. Faults: where they fail.
-- Undo: Del_timer after Add_timer. Frame, Main: main and its loop. Ending: the destructor.
-- ThreadPool models 线程池连接池/ThreadPool.h:
-- ThreadPool: the queue, and what AddJob, a worker and Destroy do with the mutex.
-- System: the threads as a step relation, with the waits and wake-ups.
-- Invariant, Adding, Taking, Shutdown, Safety: what holds in every reachable state.
-- Progress, Emptying, Ending: the runs by which the pool comes to its end. Leaks: what is
-- left in memory then.
-- DbPool models 线程池连接池/DBPool.cpp: GetDBConn and RelConn, and their users as steps.
-- DbConn models 线程池连接池/DBConn.cpp. PrepareStatement models PrepareStatement.cpp and
-- ResultSet models ResultSet.cpp beside it. UserTable models TableOPerator.h there.
-- PoolUse models the jobs workUsePool and WorkNoPool of ThreadPool.h and the destructor of
-- the connection pool, on the models of the pool, the connection and the table.
-- Programs models 线程池连接池/main_DBPool.cpp, main_ThreadPool.cpp up to the start of the threads,
-- config.h and the statements of Common.h. Runs: what they do to the server.
-- ThreadNotify models WaitTime of 线程池连接池/ThreadNotify.cpp.
-- Allocator models STL/stl_alloc.cpp: the pool, the free lists, allocate and deallocate.
-- Layout, Chains: blocks and pool within the regions of malloc; links of free blocks.
-- Linking, Search, Growth, Chunks, Refilling, Requests: the functions on these.
-- Client: a program that uses the allocator, as steps; Ledgers, Usage, Reached, Safety, Exhaustion:
-- what it can rely on, and what happens without memory.
-- HttpClient models HttpClient/http.c; Receiving is about its receive loop.
-- Async: async_http.c, its requests and its thread; System their steps in any order,
-- Entries, Requested, Served, Safety what holds of them; Program the start, the end and main.
-- Guid models MakeGuid.c.
-- Text: texts as bytes, and int2string of TableOPerator.h.
-- HttpReactor models the files of HttpReactor/ with the names of those of Reactor/. Alike, Entries,
-- Registering, Handlers, Agrees: its steps beside those of Reactor. History: its runs. Buffers: the
-- buffers of its handles.
-- Reactor models Reactor/Reactor.cpp, EventDemultiplex.cpp and EventHandle.cpp beside it, and
-- main.cpp there after its socket is open. Invariant, Loop, History, Kept, Keys: what holds of the
-- map. Registered: the calls of epoll_ctl behind it. Ending: the rounds of Run and the destructor.
--
-- Parameters. The numbers that random gives are a list, which must be long enough to end the
-- draw. The client library of MySQL is a record of functions on a state of its own
-- (DbConn.Mysql, PrepareStatement.StmtApi, UserTable.Results), and so are the system calls of
-- the reactor (Reactor.Calls). What malloc and the socket calls give the allocator and the HTTP
-- clients is a list or a record of answers. The handlers of timers and the jobs are numbers;
-- calling one is noted and changes nothing else.
--
-- Bounds and fuel. Scores and due times are taken modulo 2^32 or extended in sign to 64 bits as
-- the code does. The walk along a level of a skip list has one round more than there are
-- timers, and expire_timer as many as it is given; the theorems on both say that they end. The
-- loop that frees the queue of a destroyed pool gets fuel, of which one round is enough, since
-- the queue is empty then. Counters of the pools are unbounded numbers. _S_chunk_alloc has fuel
-- for three calls, of which two are made at most where malloc gives memory; sizes and addresses
-- of the allocator are below 2^64.
--
-- Threads. A step of a thread is what it does between taking the mutex and giving it back, or
-- at a wait; a thread that waits may be woken at any time. One thread destroys a thread pool.
-- The users of a connection pool give back what they were given, NULL too; one that was given
-- NULL may also leave without. The state records which connections exist. In the thread pool
-- the jobs accepted and taken are recorded in order.
--
-- Not modelled: printing, socket set-up, the reading of arguments, and
-- HttpReactor/HttpServer.cpp, which does not compile. Of HttpReactor/ the destructor and the
-- loop of Run are not modelled again: their text is that of Reactor/.
pub mod Base
pub mod Text
pub mod SkipListTimer
pub mod ThreadPool
pub mod DbConn
pub mod DbPool
pub mod PrepareStatement
pub mod ResultSet
pub mod UserTable
pub mod Reactor
pub mod ThreadNotify
pub mod Allocator
pub mod HttpClient
pub mod PoolUse
pub mod Guid
pub mod Programs
pub mod HttpReactor
