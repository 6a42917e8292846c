-- ===== src/Tests/Amqp.antt =====
-- The controller and its connections to RabbitMQ, over a broker that takes each call, or each but the
-- binding of the queue.
use erizo_controller.Base.{
  ◌⊎◌, ◌++ₛ◌, ◌==◌, not, Bool, true, false, String, some, [], ◌∷◌, ◌≡◌, refl,
}
use erizo_controller.Config.{new_config}
use erizo_controller.Amqp.Client.{
  Broker, Reply, response_normal, response_server_exception, new_cli, open_queue, bind_queue,
  check_error, cli_init, stringify_bytes,
}
use erizo_controller.Amqp.Receiver.{AmqpRecv}
use erizo_controller.Amqp.Sender.{AmqpRpc, send, send_pending}
use erizo_controller.Process.State.{AmqpData}
use erizo_controller.Demo.Library.{demo_json}
use erizo_controller.Controller.Start.{ErizoController, new_controller, controller_init}
use erizo_controller.Controller.Start.Addressed.{brokers_ready, controller_init_lem}
use mathlib.Core.Option.{map}

abbrev broker : Reply → Broker
broker bound = record {
  socket_new = true;
  socket_open = λ _ _. true;
  login = λ _ _. response_normal;
  channel_open = response_normal;
  exchange_declare = λ _ _. response_normal;
  queue_declare = response_normal;
  queue_name = some (97 ∷ []);
  queue_bind = λ _ _ _. bound;
  basic_consume = λ _. response_normal;
  bytes = λ _. 98 ∷ [];
  text = λ _. "a";
}

abbrev controller : Bool × ErizoController demo_json
controller =
    controller_init demo_json (broker response_normal) (broker response_normal) (new_config false)
      "7" (new_controller demo_json)

controller_init_example :
    ((brokers_ready demo_json
          (broker response_normal)
          (broker response_normal)
          (new_config false)
          "7"
        ≡ true)
      × (controller.0 ≡ false)
      × (controller.1.initialized ≡ true)
      × (controller.1.heartbeat.id ≡ controller.1.id)
      × (map (λ (r : AmqpRecv). r.reply_to) controller.1.amqp_signaling ≡ some controller.1.id)
      × (map (λ (r : AmqpRpc demo_json). r.slots.reply_to) controller.1.amqp
          ≡ some (controller.1.id ++ₛ "_rpc")))
    ⊎ ((brokers_ready demo_json
            (broker response_normal)
            (broker response_normal)
            (new_config false)
            "7"
          ≡ false)
        × (controller.0 ≡ true)
        × (controller.1.initialized ≡ false))
controller_init_example =
    controller_init_lem demo_json (broker response_normal) (broker response_normal)
      (new_config false) "7" (new_controller demo_json) refl

refused :
    cli_init (broker response_server_exception) (new_config false) "ex" "direct" "ec_1" new_cli
    ≡ (true, record { reply_to = "ec_1"; connected = true; initialized = false })
unfolding cli_init open_queue bind_queue check_error
refused = refl

-- The byte 1, whose escape has six digits.
escaped : stringify_bytes (1 ∷ []) ≡ b'\\' ∷ 52 ∷ 56 ∷ 52 ∷ 56 ∷ 52 ∷ 57 ∷ []
unfolding stringify_bytes
escaped = refl

abbrev message_to : String → AmqpData
message_to queue = record { exchange = "ex"; queuename = queue; binding_key = queue; msg = "{}" }

-- A message whose queue cannot be named is dropped, and the next one is published.
dropped :
    send_pending (λ q. not (q == "q1")) (message_to "q1" ∷ message_to "q2" ∷ []) []
    ≡ message_to "q2" ∷ []
unfolding send_pending send
dropped = refl
