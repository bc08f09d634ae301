-- ===== src/Lib.antt =====
-- CommunicationSpeed measures how fast a machine reaches its memory, its disk, its network and a
-- peer's memory over RDMA. This library models the parts that compute or that keep state.
--
-- The parts, and the file of each:
--   - Cache.antt, mem/permutate.cpp: `l1h`, `l1ml2h`, `l2ml3h`, `l3m` fill an array of indices;
--     `warmUpL1` to `warmUpL4` (`warm_up_l1` to `warm_up_l4`) walk it. An array is a buffer with a
--     length, and an access out of range is a fault. Cache/Fill is about what a fill leaves,
--     Cache/Chase about what a walk reads, Cache/Cycle about walks of a filled array, Cache/WarmUp
--     about the two together.
--   - Atomic.antt, atomic.h: the locked operations, one step on a cell of `w` bits each, for the
--     overloads of 8, 16, 32 and 64 bits. Atomic/Laws is about one operation, Atomic/Threads about
--     the operations of several threads in the order in which they reach the cell.
--   - Speed.antt, mem/numatest.cpp and mem/smptest.cpp: `memthread`, `casthread`, `smpmemthread`
--     and `cassmpthread`, which time the walks of Cache.antt, and the tests that run them. The
--     clock, the counters and the allocators are the parameter `Host`, one for each thread of a
--     test. Speed/Walks compares the two kinds of walk, Speed/Measures is about one measurement,
--     Speed/Threads about whole threads, Speed/Programs about the tests. Speed/Counters is
--     mem/mypcm.cpp and mem/mypcm.h, and Speed/Counters/Counts is about what it prints. Speed/Draw
--     is `permuate1`. Speed/Barrier has `barrierThread1` and `barrierThread2`, whose steps come in
--     any order: Speed/Barrier/Order is about the two cells, Speed/Barrier/Overflow about the
--     writer's loop.
--   - Clock.antt: Clock/Stopwatch is clc/MyClock.cpp, an operation taking the time that
--     `gettimeofday` stored; Clock/Stopwatch/Runs and Bounds are about sequences of operations and
--     what they show. Clock/Readings is clock.h, the two registers of `rdtsc` and the time being
--     arguments.
--   - Disk.antt, disk/Generate.cpp: `Generate` and `diskmain`, over `rand`, `posix_memalign`, the
--     file calls and what `getopt` finds. Disk/Record is about the record, Disk/Written about the
--     loop, Disk/Run about whole runs.
--   - Net.antt, net/Network.cpp: the buffers and calls; Net/Server has `receiveHandler` and
--     `serverThread`, Net/Client `clientThread`, which times its rounds with Clock/Stopwatch, and
--     `netmain`. Net/Texts has the lemmas on texts in buffers, Net/Server/Echo is about the
--     handler's answers, Net/Server/Ends about the ends of the server, Net/Client/Rounds about the
--     rounds, Net/Client/Whole about the client, Net/Client/Unconnected about a client that has no
--     connection, Net/Served about the client against the handler. An answer to a write on a
--     socket says whether the connection is broken or was never made; there the signal SIGPIPE,
--     which the program leaves as it is, ends the process.
--   - Rdma.antt, rdma/rc_example.c: Rdma/Types has the structs and the calls of the sockets and the
--     verbs library, Rdma/Machine the state and the environment that answers the calls, Rdma/Socket
--     `sock_connect`, `sock_sync_data` and `poll_completion`, Rdma/Post `post_send` (`send`) and
--     `post_recv` (`receive`), Rdma/Qp the transitions of the queue pair, Rdma/Create
--     `resources_create`, Rdma/Destroy `resources_destroy`, Rdma/Connect `connect_qp`, Rdma/Options
--     the command line, Rdma/Main `rcmain`. Rdma/Socket/Sync and Rdma/Socket/Poll are about the two
--     loops, Rdma/Connect/Wire and Bytes about the connection data as bytes, Rdma/Connect/States,
--     Raises, Came and Order about the states of the queue pair and what the peer sent,
--     Rdma/Connect/Gives and Meets about a connection
--     in which no call fails, Rdma/Options/Accepts about the command line. Rdma/Stays carries what
--     holds of the world through a piece of code, Rdma/Stops the fuel that it needs, as
--     Rdma/Create/Stops, Rdma/Connect/Stops and Rdma/Main/Stops do for its functions. Below
--     Rdma/Create, Counts counts what is acquired and given back, and Owns, Devices, Stages, Back
--     and Balance carry an invariant through the stages; Rdma/Main/Keeps, Body and Balance carry it
--     through the whole program. Rdma/Main/Protocol is the protocol of the two sides as phases that
--     calls lead through, written apart from the code; Rdma/Main/Phases, Waits and Talks take the
--     steps of the program through them, and Rdma/Main/Whole is about whole runs.
--   - Prelude.antt: the names that all share, comparisons, machine words, integers, the bit
--     operations, and Prelude/Io, the monad of code that calls the operating system.
--
-- Bounds and fuel: the fills take one unit of fuel more than their range, which is enough
-- (Cache/Fill). `atomic_exchange`, the read loop of `sock_sync_data` and the loop of
-- `poll_completion` wait for other parties and take their fuel as an argument (Rdma/Stops says what
-- is enough for the last two), as does the loop of `receiveHandler`, which has no end; a run that
-- lacks it says so by a result of its own.
--
-- The operating system and the verbs library are the parameter `Env` of the RDMA functions: any
-- function from the calls made so far to an answer. Prints are left out. The texts of the
-- configuration are values, so that `strdup` and the `free` of `config.dev_name` at the end make no
-- call.
--
-- The barrier threads are commented out where they would be started. C++ promises nothing of what the
-- reader finds in the plain variables of the writer, so what it loads is an argument of its steps; the
-- cells are as the writer has them.
--
-- Not modelled: the headers of the Intel performance counter library under pcm/, a copy of another
-- project; debuglog.h, a copy of the log macros of another project; murmur_hash.cpp and
-- murmur_hash.h, a copy of a part of the common library of OceanBase, which is included and never
-- called; `testCache` of mem/numatest.cpp, which has no body; test.cpp, the one call of the test
-- that a build registers. The disk and network calls are any function from the calls made so far to
-- an answer, as in the RDMA part; floating-point quotients are left as the two numbers divided; the
-- addresses of the sockets, and in net/Network.cpp the ports, are left out. `long` in
-- clc/MyClock.cpp is an integer with no bound, far above the microseconds of real times. In
-- rdma/rc_example.c a write to a broken connection is taken as answered: the runs that SIGPIPE
-- would end there are not told apart. `diskmain` has no `return`; what C++ leaves undefined at its
-- end has no place in the model, which says that the end was reached.
pub mod Prelude
pub mod Cache
pub mod Atomic
pub mod Speed
pub mod Clock
pub mod Disk
pub mod Net
pub mod Rdma
