-- ===== src/Lib.antt =====
-- erizo_controller: the signaling server that lets browsers publish streams in a room and subscribe
-- to them, over agents that carry the media. Paths are from the repository's root.
--
-- The program (erizo_controller_cpp/) is one process with singletons. Browsers send events over
-- Socket.IO (websocket/), which `ErizoController::onMessage` (core/) dispatches to `handleToken`,
-- `handlePublish`, `handleSubscribe` and `handleSignaling`. The handlers keep the rows of a room in
-- Redis (redis/), under a lock that all controllers share, as JSON (model/), and tell agents and
-- other controllers what to do by messages over AMQP (rabbitmq/). Answers come back to
-- `onSignalingMessage`, which posts a task to the thread pool (thread/) that sends events to the
-- browser. A heartbeat thread watches the other controllers and clears out those that it takes for
-- dead; `removeClient` clears a client out of its room. An agent is chosen by the address of the
-- browser, which route/ looks up in a table of ranges that it loads from a file; common/ holds the
-- configuration, read from config.json.
--
-- Which file models which part:
--   External            what is linked and not in the repository, as parameters: jsoncpp (External/Json),
--                       the Redis cluster (External/Redis), clocks, `rand`, and the answers of agents,
--                       as the record `Platform`. `JsonLaws` and `RedisLaws` are the documented
--                       behaviour that theorems name as hypotheses, and `Answers` and `HashAnswers`
--                       say that the cluster replies to the commands on a key; Demo is an instance.
--   Config              common/config.h and common/config.cpp: Config has the fields and the values of
--                       the constructor, Config/Load is `Config::init`, Config/Servers its list of
--                       media servers; Config/RoundTrip and Config/Loaded hold the proofs.
--   Route               Enums is route/IP_TABLE.h (enumerations and values) and `isp2String` of
--                       common/utils.h; Table is route/IP_TABLE.h and the queries of route/IpTable.cpp,
--                       with the proofs in Table/; Text is the `StringUtil` of route/Utility.cpp; Loader
--                       is `loadIspIpDataFile` and the names of route/IpTable.cpp; Query is
--                       route/route.cpp.
--   Model               model/*.h and `HEARTBEAT` of core/erizo_controller.h: a record for each struct;
--                       `X_value` and `X_to_json` are `toJSON`, `X_has_fields`, `read_X` and
--                       `X_from_json` are `fromJSON`. Model/Outcome is a call that returns or throws.
--   Process             Process/State is the process as one state `World` (the server, the queues and
--                       the posted tasks) and calls on it, `Exec`, which return or throw. Process/Clock
--                       is common/utils.h, Process/StreamId its `getStreamID` and Process/Path its
--                       `initPath`. Process/Frame and Process/Ends hold the rules by which what a call
--                       does is proved from its parts.
--   Redis               Redis/Acl is redis/acl_redis.cpp, Redis/Helper redis/redis_helper.cpp,
--                       Redis/Locker redis/redis_locker.cpp, Redis/Decimal the printing and reading of
--                       the lock's time. Scope is the critical section; Exclusion, Takeover, Handoff,
--                       Handover, Quiet and Store hold proofs. Contention is the lock once more, as a step
--                       relation of several lockers whose commands interleave; Rows is a hash of rows
--                       as a map from ids to rows.
--   Amqp                Amqp/Client is rabbitmq/amqp_cli.cpp over a record `Broker` of what librabbitmq
--                       returns, Amqp/Receiver rabbitmq/amqp_recv.cpp, Amqp/Sender the start, the sending,
--                       the receiving and the close of rabbitmq/amqp_rpc.cpp, and Amqp/Ask its `rpc`
--                       without a callback, which nothing calls.
--   Rpc                 rabbitmq/amqp_rpc.cpp: the callback slots of `AMQPRPC`, `rpc`, `handleCallback` and
--                       a round of the check thread.
--   Thread              thread/: Pool is `ThreadPool`, Scheduler is `Scheduler`, whose threads
--                       Scheduler/Service composes as a step relation, Worker is `Worker`, whose
--                       thread takes posted functions in any order and tests and calls each in two
--                       moments, Closing the start and close of a worker and of the pool, and
--                       Simulated is `SimulatedWorker`.
--   Websocket           Handler is websocket/socket_io_client_handler.cpp (one connection), Server is
--                       websocket/socket_io_server.cpp (the map of connections, the send thread, and the
--                       start and close). What is called on a message is a parameter, which
--                       Controller/Socket gives.
--   Controller          core/erizo_controller.cpp: Message (the messages to agents), Alloc and Answer
--                       (`allocAgent`, `allocErizo`), Token, Publish, Subscribe (the handlers), Bridge
--                       and Remove (`removeClient` and the bridges), Event and Signaling
--                       (`onSignalingMessage`), Dispatch (`onMessage`, `onClose`), Socket (the handlers
--                       that `init` gives to the server), Start (`init` and `close`), Heartbeat (the heartbeat
--                       thread).
--   Entry               main.cpp: `main` up to its waiting loop and after it, over a record `Surroundings` of
--                       the files and brokers that it meets; the singletons are the record `Program`.
--   Demo, Tests         an executable platform, and the theorems at concrete inputs.
--
-- Bounds. Every loop is as long as in the source: `lock` makes `redis_lock_try_time` attempts
-- after the first, `handleSubscribe` ten rounds after the first, `allocErizo` three questions. A
-- 64-bit number has at most 20 decimal digits, which is the fuel of `digits_before`. Unsigned
-- arithmetic is written with its modulus: 2 ^ 16 for ports, 2 ^ 32 for the counter of the pool,
-- 2 ^ 64 for times; an `int` that is read from a message has the bound 2 ^ 31, above which
-- `std::stoi` throws. The clock of Redis/Contention stays below 2 ^ 63, up to which `std::stoll`
-- reads the lock's time. `subscribe_count` is a number without bound, where the source has an
-- `int`.
--
-- Handlers run one call after another here: a call is a function of the state that it meets, and
-- the theorems hold from every state, so from those that other controllers leave between two
-- critical sections. What others do to the server inside one is modelled for the lock alone,
-- whose commands Redis/Contention interleaves. Waiting (`usleep`) and logging have no effect in
-- the model. A posted task is a value in a queue; which worker runs it, and when, is left open.
-- The numbers that `handlePublish` leaves uninitialised are parameters. In the handlers the
-- callback of an `rpc` is given what the environment answers; that the slots hand on an answer
-- is Rpc's part. There `handleCallback` and a round of the check thread are one step each: the
-- source means to hold a slot's mutex in them, but its `unique_lock` temporaries hold nothing, so
-- what two threads on one slot do to each other is left out.
--
-- Not modelled: the signal handler and the waiting loop of main.cpp; the start and the joining
-- of threads; the hubs of websocket/ and their listening, which are uWS; the calls of
-- librabbitmq, acl, log4cxx and boost::asio themselves; `scheduleEvery` and `DumpHex`, which
-- nothing calls; the clause of `serviceQueue` that catches an exception; logger.h.
pub mod Amqp
pub mod Base
pub mod Config
pub mod Controller
pub mod Demo
pub mod Entry
pub mod External
pub mod Model
pub mod Process
pub mod Redis
pub mod Route
pub mod Rpc
pub mod Tests
pub mod Thread
pub mod Websocket
