-- ===== src/Lib.antt =====
-- A verification library for a replicated key-value store after Dynamo: servers on a consistent
-- hashing ring keep values with version vectors, any replica of a key coordinates its reads and
-- writes over a quorum, clients reconcile siblings, and servers join, leave and gossip.
--
-- The parts and the files that model them (paths from the root of the repository):
--   Versions       src/state_machine.cpp: check_conflict_version, update_version,
--                  reconcile_version, remove_duplicate_data, remove_unconflict_data,
--                  get_latest_data. A vector<pair<string, uint64_t>> is a list of pairs. Clocks
--                  has the quotient of these vectors by the order of their pairs, and
--                  Latest/Overtaken what the verdict `earlier` means in the clock order.
--   StateMachine   src/state_machine.h and .cpp: the class with its two maps and its file; File
--                  has the format of the file, Store what reads give after a put or a remove,
--                  Words and Numbers what its readers make of printed text, RoundTrip
--                  what a process finds in a file, and Config the file of the nodes configuration.
--   Ring           src/consistent_hashing_ring.h and .cpp: std::map<size_t, string> as the list of
--                  its entries in order, addNode, removeNode, getNode, getReplicasNodes,
--                  checkDataBelonging. std::hash is a parameter; only its range is used.
--   Node           src/gossip_node.h and .cpp: the state of a server and the handlers that call no
--                  other one: PeerPut, PeerGet, Gossip, LeaveNetwork.
--   Cluster        the servers together, and a call from one to another: peerPut, peerGet,
--                  assigned_coordinator. A call runs the peer's handler on the peer's state, or
--                  its request or reply is lost. Readings of the clock and the fates of calls are
--                  sequences, parameters of every run. A call through a missing stub is a fault.
--   Coordinator    ClientGet and ClientPut of src/gossip_node.cpp. Acked and Quorum follow what a
--                  write leaves, Polling and Reading what a read finds, Consistency the two
--                  together; Returns is about missing stubs, Available and Succeeds about writes
--                  that succeed.
--   Membership     joinNetwork, JoinNetwork, leaveNetwork, gossip and AdminCmd of
--                  src/gossip_node.cpp; Readings says what a server holds, Moved what it is for
--                  keys to move; HandOver and Join follow the data that a joining server takes
--                  over, GiveAway and Leave those of a server that leaves, Grown and Spread the
--                  heartbeats of a round of gossip.
--   Client         src/client_grpc.h and .cpp: the client's Put, Get and reconcile against the
--                  servers. What is read from the terminal and the random numbers are parameters.
--                  A call through a missing stub, and a pick from an empty map, are `undefined`.
--                  Client/Cli has the loop of src/client_cli.cpp over the lines that it is given,
--                  and Client/Throughput the load test of src/performance/throughput.cpp.
--   Admin          src/admin_grpc.h and .cpp: the commands to the servers. Admin/Cli has the loops
--                  of src/admin_cli.cpp and src/performance/admin_auto_start.cpp.
--   Server         src/gossip_node_test.cpp: the start of a server, and the rounds of its loop;
--                  Fixed has the start with FIXED_CONFIG_TEST true (constructor of
--                  src/gossip_node.cpp).
--   System         clients and servers together: the steps of all of them, each an operation that
--                  runs to its end, and the states that they can come to.
--   Lambda         s3_related/key_value_storage.cpp and s3_related/lambda_function_handler.cpp;
--                  the client of S3 and the parser of JSON are parameters. Lambda/Runtime has the
--                  entry of s3_related/lambda_runtime.cpp, and s3_related/main.cpp, where the
--                  LevelDB wrapper is a parameter.
--   S3Manager      example/s3_manager.h and example/tmp.cpp, over the client of S3 and the local
--                  files, which are parameters with their laws in Laws; Uploaded and RoundTrip
--                  follow the files.
--   Encoder        example/main.cpp: the handler, and in Stream its loop over a stream of the C++
--                  library. The parser of JSON, the client of S3 and Base64 are parameters.
--   Common         texts, maps, numbers and tests that all of them use.
--   Tests          concrete runs.
--
-- Bounds and fuel: a uint64_t version wraps at 2^64 (`u64`), and so does the position after an
-- entry (`size_mod`). The loops of getReplicasNodes and checkDataBelonging run on fuel, one round
-- for each entry of the map: a walk meets each entry at most once before it is back where it began.
-- The client's loops, which wait for replies and for the terminal, and that of the load test, which
-- waits for enough different keys, run on fuel that the caller chooses, where to want more is a
-- result of its own. The int node_count_ is an unbounded signed number, with the conversion to
-- size_t that its comparison makes. The loop of encode runs on fuel for each whole buffer of the
-- stream, and one round more. All other loops are structural.
--
-- Not modelled: what is printed, but for the results of the command lines; deadlines and error
-- texts of gRPC; a call that never returns, though peerPut and peerGet set no deadline (each call
-- returns, or fails, before the caller goes on); the orders of iteration of unordered containers, for which that of insertion
-- stands; handlers of one process that run at the same time on several threads;
-- src/performance/multiple_client_test.cpp, which starts threads; the start and end of the AWS SDK,
-- its logging, and the runtime of Lambda.
pub mod Encoder
pub mod S3Manager
pub mod Common
pub mod Versions
pub mod StateMachine
pub mod Ring
pub mod Node
pub mod Cluster
pub mod Coordinator
pub mod Client
pub mod Membership
pub mod Server
pub mod System
pub mod Lambda
pub mod Admin
pub mod Tests
