-- ===== src/Lib.antt =====
-- raftfs: a file system name space that is replicated by Raft. Servers keep a log of operations
-- (storage/LogManager), agree on it (server/RaftConsensus), apply its committed entries to a tree of
-- files and directories (filesystem/INode, filesystem/FSNamespace), and answer clients
-- (server/ClientRPCService, client/RaftFS).
--
-- The files, in the order in which they build on each other:
--   Prelude: numbers, lists, options, bytes, and the tests on them.
--   Protocol: the values of protocol/Raft.thrift and protocol/Client.thrift.
--   Log: LogManager. `append_entry` and `append_entries` are the two `Append`s; every other operation
--     has the name of its method.
--   Raft: RaftConsensus. The role changes, `init` (the constructor) and `check_leader` (a round of
--     CheckLeaderLoop) stand in Raft; OnAppendEntries, OnRequestVote and OnMetaOperation in Raft/Rpc,
--     the latter in two parts, before and after its wait; RemoteHostLoop in Raft/Remote, as the
--     requests that it builds and the handling of the responses; Raft/Step has the steps of a server.
--   Cluster: several servers of RaftConsensus and the calls between them. A move of a server is a round
--     of CheckLeaderLoop, a request of RemoteHostLoop, a handler of server/RaftRPCService, the return
--     of a call in RemoteHostLoop, or OnMetaOperation up to its wait. Votes has the pools of the
--     candidates, Numbered the logs and the requests, Book the entries that leaders have written,
--     Trees the trees that the followers build.
--   Inode, Namespace: INode, INodeFile, INodeDirectory and FSNamespace. Inode has trees of values;
--     Inode/Table has a directory as the code stores it, a vector of nodes and a map of pointers.
--   Apply: FSUpdateLoop. `update_fs` is one round of its outer loop, in Apply/Interleaved while the
--     other threads go on.
--   Service: ClientRPCService. The four handlers that change the tree share the body `change`.
--   Client: FSClient of client/RaftFS.
--   PerfTest: client/PerfTest, in PerfTest/Run its loop. It uses the client through `FileSystem`.
--   Options: the ids of hosts in utils/Options.
--   Tests: runs of the operations, and the theorems at concrete states.
--
-- How the code is read. A method is a function from the state to the new state and the result. A
-- method that locks the mutex is one step, and the loops of the threads are the steps that they
-- make between two waits. `none` in a result of type Option is undefined behaviour of the C++ program,
-- unless the definition says that it is a null pointer. Objects are values: an inode and a
-- socket have one owner each. Names alias at two places: in a directory, where the nodes are a store in
-- Inode/Table; and in OnMetaOperation, which keeps a pointer to the entry that it gave to the log, where
-- a `Wait` says whether the log still owns the entry. Clocks, random numbers, connections, the answers
-- of remote calls and `boost::split` are arguments. A signed id is a ℤ, for -1; terms, indexes and
-- counts are natural numbers without a bound, since a program that counts them up from 0 in 64 bits
-- does not come to the end. Sets and maps are lists without repetitions and functions.
--
-- Loops are structural recursion, but for four: `lower_bound` has the length of the range as fuel,
-- which halves in each round; `apply_from` and `try_followers` count the rounds that are left, which
-- the loops of the code bound in the same way; `apply_between` has fuel, and one round more than the
-- entries that are ever committed is enough. The loop of PerfTest::run goes through a list of draws.
--
-- In Cluster a call may be lost or late, several calls may be under way between two hosts, and any host
-- that knows a leader may begin a change, so that it has every run of the program in which nothing comes
-- between the steps of OnMetaOperation up to its wait, and more. Two conditions are stated with the
-- theorems that need them, `Timely` with the first, and `Led` with both: that the answer to a vote
-- request comes back in the term of the request; and that a host which begins a change leads when it
-- comes to the log. The code has no test for the first, and makes the one for the second too early, in
-- the handler of ClientRPCService, without the mutex of the consensus.
--
-- Not modelled: the thrift transport, threads and condition variables as such, start-up
-- (server/RaftMetaServer, server/server_main, the command line), output but for what `operator<<` reads
-- of the log, the test hooks, and client/client_main. In OnMetaOperation up to its wait, and in the rounds of FSUpdateLoop but those of
-- Apply/Interleaved, the consensus state does not change, although the code does not hold its mutex
-- there.
pub mod Prelude
pub mod Protocol
pub mod Log
pub mod Raft
pub mod Cluster
pub mod Inode
pub mod Namespace
pub mod Apply
pub mod Service
pub mod Client
pub mod PerfTest
pub mod Options
pub mod Tests
