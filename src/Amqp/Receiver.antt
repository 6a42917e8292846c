-- ===== src/Amqp/Receiver.antt =====
-- rabbitmq/amqp_recv.cpp: `AMQPRecv`, whose thread hands each message to a function.
use erizo_controller.Base.{
  Bool, true, false, String, Option, none, some, List, [], ◌∷◌, if◌then◌else◌,
}
use erizo_controller.External.{Platform}
use erizo_controller.Config.{Config}
use erizo_controller.Process.State.{Exec, pure, ◌>>◌}
use erizo_controller.Amqp.Client.{Broker, AmqpCli, new_cli, cli_init}

-- What `amqp_consume_message` comes to: a message, nothing for 100 ms, or another error.
pub data Consumed : Type 0 where
  message : String → Consumed
  timed_out : Consumed
  failed : Consumed

-- `AMQPRecv`; `running` is `run_`, and `none` is the null `amqp_cli_`.
pub record AmqpRecv : Type 0 where
  pub reply_to : String
  pub cli : Option AmqpCli
  pub running : Bool
  pub initialized : Bool

abbrev pub new_recv : AmqpRecv
new_recv = record { reply_to = ""; cli = none; running = false; initialized = false }

module _ (B : Broker) (config : Config) where
  -- `init`; `true` is the return value 1.
  unfoldable pub recv_init : String → AmqpRecv → Bool × AmqpRecv
  recv_init binding_key r =
      if r.initialized
      then (false, r)
      else let (refused, cli) =
          cli_init B config config.uniquecast_exchange "direct" binding_key new_cli in
        if refused then (true, record r { cli = some cli }) else (
          false,
          record { reply_to = cli.reply_to; cli = some cli; running = true; initialized = true },
        )

-- `close`, of which the client's own is `cli_close`
unfoldable pub recv_close : AmqpRecv → AmqpRecv
recv_close r =
    if r.initialized then record r { running = false; cli = none; initialized = false } else r

module _ (P : Platform) (func : String → Exec P (Unit {0})) where
  -- The rounds of the thread until `run_` is cleared: a timeout is passed over, and any other error
  -- ends the thread.
  unfoldable pub receive : List Consumed → Exec P (Unit {0})
  receive [] = pure tt
  receive (message msg ∷ rest) = do func msg; receive rest
  receive (timed_out ∷ rest) = receive rest
  receive (failed ∷ rest) = pure tt
