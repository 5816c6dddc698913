-- ===== src/Lib.antt =====
-- doge-connect: the dispatcher between a Dogecoin mining pool and the Qubic network.
--
-- The dispatcher (dispatcher/src) receives jobs from a pool over the Stratum protocol, turns each
-- into a signed packet that it gives to its Qubic peers, receives the solutions of miners from
-- them, validates these against the pool's target, and submits the valid ones to the pool. The test
-- miner (dispatcher/test/testminer) stands at the other end of the Qubic network. The threads share
-- queues, a map of the active tasks, and counters; they meet only in these, so each is modelled by
-- itself, and theorems connect what one writes with what another reads.
--
-- A byte is a number below 256 and a byte array a list of such; a std::string is the list of its
-- character codes. Machine integers are natural numbers with their wrap-around written out. The
-- packed structs are not copied into records: the code reads and writes them in place in buffers,
-- and so does the model, at the same offsets.
--
-- - Prelude: shared names, tests, lists, byte strings and the numbers they stand for, bits.
-- - Concurrency: dispatcher/src/concurrency, a map and a queue. Every operation holds the lock from
--   its beginning to its end, and is one step. Unordered forgets the order of the map's entries.
-- - Difficulty: dispatcher/src/hash_util/difficulty.{h,cpp}, and verifyHashVsTarget of
--   hash_util.cpp. Base is the target of the start, Compact says what a compact target stands for,
--   Precision what is lost in making one, Divide that the long division divides, Compare that the
--   comparison compares.
-- - HashUtil: the rest of dispatcher/src/hash_util/hash_util.{h,cpp}. SHA-256 is a parameter. Hex
--   has the reading and the printing of bytes, Merkle the root against trees.
-- - Signing: dispatcher/src/crypto/dispatcher_signing.{h,cpp} with the derivation of keys in
--   key_utils.cpp.
-- - KeyUtils: the rest of dispatcher/src/crypto/key_utils.cpp. Identity has the text form of public
--   keys, Siblings the digests from siblings, against trees.
-- - Structs: dispatcher/src/structs.h. Header has RequestResponseHeader, Fields finds members.
-- - TaskDist: dispatcher/src/threads/task_dist_thread.cpp: distributeTask from a job's strings to
--   the packet. Loop has the JSON messages and taskDistributionLoop, a round at a time, Messages
--   what one message does, Draining and Latest what a round picks out of the queue; Packet,
--   Received and Reading have the parts of the packet as the miner finds them, Delivery the whole
--   way.
-- - ShareValid: dispatcher/src/threads/share_valid_thread.cpp, a round of shareValidationLoop and
--   runs of it. Cases has the checks of a solution, Accept what is submitted, Counters the
--   statistics, Key and Dedupe the set of recent submissions, HashDifficulty hashDifficulty.
-- - QubicRecv: dispatcher/src/threads/qubic_recv_thread.cpp: processSolution and processRecvBuffer.
--   Framing compares the loop with a reader that needs no positions, Chunks cuts the stream.
--   Reconnect has qubicReceiveLoop, a round at a time: what `poll`, `read` and `reconnect()` report
--   are inputs of the round. Tracked and Scan are about the peers that are to be reconnected.
-- - Connection: dispatcher/src/connection/connection.{h,cpp}: sendMessage and receiveAllData over
--   what the system's `send` and `read` answer. Send and Receive are about these loops, Left about
--   the answers that later calls find. Sockets has the Socket objects and the descriptors they
--   hold, which construction, moves, reset, destruction and openConnection pass on; Ownership and
--   Steps say who holds which.
-- - QubicConnection: dispatcher/src/connection/qubic_connection.{h,cpp}: the next packet of a type.
--   Drained, Skipping, Rounds and Extra compare the two loops with the stream of packets, Bounds is
--   about the writes to m_buffer. Open has openQubicConnection and reconnect, Opening what they
--   promise.
-- - StratumRecv: dispatcher/src/threads/stratum_recv_thread.cpp. Split and Lines are about the
--   lines of the stream, Init has initStratumProtocol, with its Requests, Replies what the pool's
--   replies must be, and Begins when it succeeds, Retry a round of stratumReceiveLoop with the
--   reconnection, and Delays what a reconnection leaves.
-- - TestMiner: dispatcher/test/testminer: the packet of a solution (mining_thread.cpp) and the
--   reading of a task (task_recv_thread.cpp). Search has the two loops of miningLoop, and Threads
--   that loop, taskReceiveLoop and the end of main (test_miner.cpp) over what they share: a list of
--   events says which of them takes a turn. Tried is about the search, Order about the tasks that
--   are taken, Races about the signal of a clean job, Stop about the end.
-- - Config: dispatcher/src/config/config.{h,cpp}. Keys has the names in the files, Accepts what an
--   accepted configuration promises.
-- - EndToEnd: a share's way through the parts, from distributeTask to the miner and back to the
--   pool; Found compares the headers, and Mining begins with the miner's search.
-- - Dispatcher: dispatcher/src/dispatcher.cpp. StartUp has main up to the start of its threads,
--   Initial and Runs what holds then; DryRun is the thread of the dry run, Effects what its
--   messages do, Tally compares it with the distribution loop; Activity counts the computors of the
--   statistics; Rates has the hash rates of the status loop, Windows a window at a time, Idle what
--   becomes of them without shares; PeerFile has the file of the peers, and Peers its entries;
--   Shutdown has main's end with a thread that it stops, and Ends that the thread ends.
-- - TestDispatcher: dispatcher/test/testdispatcher/dummy_stratum_recv_thread.cpp, the thread that
--   stands for the pool; Jobs says which jobs it pushes.
-- Each part has its examples in a module Tests.
--
-- Parameters: scrypt, SHA-256, KangarooTwelve, the signature scheme, floating point and the JSON
-- library, which are not this repository's code. The clock, the state of a connection and what a
-- system call answers are inputs of a step.
--
-- Fuel: `to_string` has 20 rounds, as a 64-bit number has at most 20 digits; `recv_loop` has as
-- many rounds as the buffer has bytes, as a packet takes 8 of them at least; `drain_bytes` has a
-- round for each 4096 bytes and one more; `extra_loop` has one more round than there are answers,
-- each of which uses one up; `take_lines` and `authorize_lines` have a round for each character,
-- as a line takes one at least, its newline.
--
-- Not modelled: setTimeout, which only changes how long a call may wait, the opening of the
-- configuration file, the status loop's log line and the layout of its JSON (dispatcher.cpp), the
-- sockets that the test miner opens, logging and the console; scrypt.c and k12_and_key_utils.h,
-- which are copies of other libraries, as are foundation-v2-dogecoin and foundation-v2-litecoin;
-- test_dispatcher.cpp, test_signing.cpp and test_scrypt.cpp, which run the parts on example data;
-- the programs under relay, stats and tools.
pub mod Prelude
pub mod Concurrency
pub mod Difficulty
pub mod HashUtil
pub mod Signing
pub mod Structs
pub mod ShareValid
pub mod QubicRecv
pub mod TestMiner
pub mod TaskDist
pub mod KeyUtils
pub mod Connection
pub mod QubicConnection
pub mod StratumRecv
pub mod Config
pub mod EndToEnd
pub mod Dispatcher
pub mod TestDispatcher
