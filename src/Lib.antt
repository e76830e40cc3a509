-- ===== src/Lib.antt =====
-- The chained block storage: a volume of blocks that a chain of servers replicates. A master keeps
-- the list of the servers; clients write at the head and read at the tail, writes travel down the
-- chain and acknowledgements travel back.
--
-- Parts, with the code that they model:
-- - Tables: the tables of a server node (src/headers/tables.hpp, src/tablesImpl). PendingQueue
--   holds writes that wait for their turn, SentList writes that wait for their commit, ReplayLog
--   the requests that a node has seen. Request has their keys, Identifier the text that names a
--   client, Int the conversion of a number to `int`.
-- - Node: a server node (src/server_main.cpp, src/interfaceImpl/serverService), over the storage as
--   an interface (src/headers/storage.hpp) and with those tables. Handlers has the calls of clients
--   and other nodes, Background the rounds of the two loops, Arguments and Startup the start,
--   ChangeMode the call by which the master sets the node's state and neighbours, Checksum the check
--   of the whole chain. Steps puts handlers and rounds into one sequence; Order and Interleaving
--   follow the volume through it, Entries the writes that wait, Progress and Served the rounds that
--   work them off, Numbering the sequence numbers that the head gives, Overflow those beyond an
--   `int`. Volume puts the copy-on-write storage behind the interface, and Contents follows what is
--   in it. System has several nodes and the writes that they pass on, Promotion a node that becomes
--   the head.
-- - AtomicStorage: the storage of a node (src/storage.cpp). Block has blocks of bytes and the
--   numbers in them, Index the place of an offset in the tree of blocks, State the globals and the
--   reads, Write the writes, Commit the commit and the reads of versions, Open the start, Strings
--   the calls that take strings. Alloc, Tree and the modules below Write follow one write; Versions
--   has the invariant of all versions, Disk what the storage promises, Refinement, Crash, Restart,
--   Recovered and Reads that it keeps it, Holds the numbers of its writes and commits.
-- - Client: the client library (src/client_api.cpp), with its retries followed to the head.
-- - FlatStorage: the other storage (src/storage-nonatomic.cpp), with a table that commits overwrite.
-- - Crash: the offsets that stand for a crash (src/crash.cpp). Timing: the measuring of times
--   (src/headers/timing.h).
-- - Protocol: the states of a node and the messages of the protocol (src/headers/server.h, protos).
-- - Master: the master. Nodes has its state, Failure `hlp_Manage_Failure` and
--   Heartbeat a round of `run_heartbeat` (src/master_main.cpp),
--   Registration `Register` and `GetConfig` (src/interfaceImpl/masterService). Chain says what it
--   means that the chain is in order; the modules below it follow the repair.
-- - OrderedMap and UnorderedMap: the containers of the C++ standard library, as far as the code uses
--   them; Base: the shared names and lemmas. Tests: fixed inputs.
--
-- How the code is modelled: a class or a set of globals is a record, a method is a function that
-- gives the new state. A call that holds a lock throughout is one step, and so is a handler of a node
-- or a round of its loops; the round that relays and stores a write is three steps, between which
-- others come. A handler that waits for a number is a step that leaves the node as it was. A text is
-- the list of its bytes. An exception is a value of `Result` or `Answer`; behaviour that C++
-- leaves undefined (an iterator moved past the end, the top of an empty queue) is `fault` or `none`,
-- and the theorems show where it does not arise. Numbers have no upper bound, except where the code
-- cuts them to an `int`. So are the numbers of blocks, which the code keeps in an `int`
-- (`num_total_blocks`) and multiplies by the size of a block as a `long`: `next_block_num` and
-- `write_block` are the code for total numbers below 2^31 and numbers below 2^51. Theorems on the
-- storage alone bound them by 2^64 or not at all, those on a node's volume by these numbers.
--
-- The answers of other nodes to remote calls are parameters: a function where each call is made
-- once (`Answers`), a list of answers where a loop repeats a call. A loop that has used up its
-- answers is still waiting. A call that is repeated with the `ClientContext` of the one before, as in
-- `Register`, is taken for a plain call.
--
-- The events of Node.Steps are the handlers Write, RelayWrite, RelayWriteAck and AckReplayLog, the rounds
-- of the loops, and the change of state and neighbours that ChangeMode makes. Restore, UpdateReplayLog
-- and the resend of ChangeMode are functions of their own and no events: what is stated of runs of a
-- node or of several holds between them, and after a registration only of the first server, since a
-- tail has been restored by then.
--
-- The storage: a file is a block for each number, of any size, and a block is a byte for each place.
-- The three new numbers of a write that the code may leave uninitialised are a parameter.
--
-- Fuel: `manage_failure` takes the depth of its calls of itself. Two is enough, since a call for a
-- failed endpoint calls itself no more.
--
-- Not modelled: gRPC, protobuf and OpenSSL, printing and the clock, which are not the program's own;
-- the test programs and benchmarks. A call of the system on the volume that fails ends the process.
pub mod Base
pub mod OrderedMap
pub mod UnorderedMap
pub mod Tables
pub mod Protocol
pub mod Master
pub mod AtomicStorage
pub mod Node
pub mod Client
pub mod Crash
pub mod Timing
pub mod FlatStorage
pub mod Tests
