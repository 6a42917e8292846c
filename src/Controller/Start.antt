-- ===== src/Controller/Start.antt =====
-- core/erizo_controller.cpp: `init` and `close` of `ErizoController`, with the pool, the connections to
-- RabbitMQ and the heartbeat that they start. The rounds of the heartbeat thread are in Heartbeat.
pub mod Addressed
use erizo_controller.Base.{
  ℕ, zero, suc, Bool, true, false, String, ◌++ₛ◌, Option, none, some, List, [], ◌∷◌, if◌then◌else◌,
}
use erizo_controller.Base.Int.{to_unsigned}
use erizo_controller.External.Json.{JsonCpp}
use erizo_controller.Config.{Config}
use erizo_controller.Model.Heartbeat.{Heartbeat}
use erizo_controller.Thread.Pool.{ThreadPool, new_pool}
use erizo_controller.Amqp.Client.{Broker}
use erizo_controller.Amqp.Receiver.{AmqpRecv, new_recv, recv_init}
use erizo_controller.Amqp.Sender.{AmqpRpc, new_amqp_rpc, rpc_init}

-- The workers of a pool, by their numbers.
unfoldable pub worker_ids : ℕ → ℕ → List ℕ
worker_ids i zero = []
worker_ids i (suc n) = i ∷ worker_ids (suc i) n

module _ (J : JsonCpp) where
  -- `ErizoController`; `none` is a null pointer, and `socket_io` tells whether that one is not null.
  pub record ErizoController : Type 0 where
    pub id : String
    pub heartbeat : Heartbeat
    pub thread_pool : Option (ThreadPool ℕ)
    pub amqp : Option (AmqpRpc J)
    pub amqp_signaling : Option AmqpRecv
    pub socket_io : Bool
    pub running : Bool
    pub initialized : Bool

  abbrev pub new_controller : ErizoController
  new_controller = record {
    id = "";
    heartbeat = record { id = ""; last_update = 0 };
    thread_pool = none;
    amqp = none;
    amqp_signaling = none;
    socket_io = false;
    running = false;
    initialized = false;
  }

  module _ (rpc_broker signaling_broker : Broker) (config : Config) where
    -- From the connection for signaling on. `SocketIOServer::init` of a new server returns 0.
    unfoldable pub start_signaling : ErizoController → Bool × ErizoController
    start_signaling c =
        let (refused, signaling) = recv_init signaling_broker config c.id new_recv in
        if refused then (true, record c { amqp_signaling = some signaling }) else (
          false,
          record c {
            amqp_signaling = some signaling;
            socket_io = true;
            running = true;
            initialized = true;
          },
        )

    -- `init`, where `getUUID` returns `uuid`; `true` is the return value 1.
    unfoldable pub controller_init : String → ErizoController → Bool × ErizoController
    controller_init uuid c =
        if c.initialized
        then (false, c)
        else let id = "ec_" ++ₛ uuid in
          let (refused, amqp) = rpc_init J rpc_broker config (id ++ₛ "_rpc") (new_amqp_rpc J) in
          let c' = record c {
            id = id;
            heartbeat = record { id = id; last_update = 0 };
            thread_pool = some (
                new_pool
                  (worker_ids 0 (to_unsigned 4294967296 config.erizo_controller_worker_num)));
            amqp = some amqp;
          } in
          if refused then (true, c') else start_signaling c'

  -- `close`
  unfoldable pub controller_close : ErizoController → ErizoController
  controller_close c =
      if c.initialized then record (new_controller) { heartbeat = c.heartbeat } else c
