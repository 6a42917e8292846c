-- ===== src/Amqp/Sender.antt =====
-- rabbitmq/amqp_rpc.cpp: `init`, `close` and the threads of `AMQPRPC`, whose slots are in Rpc.
use erizo_controller.Base.{
  ℕ, zero, suc, Bool, true, false, String, Option, none, some, List, [], ◌∷◌, ◌++◌, ◌≡◌, sym, ◌∙◌,
  Bool-cases, inl, inr, keep_if, if◌then◌else◌,
}
use mathlib.Core.List.{append_assoc, append-nil}
use erizo_controller.External.Json.{JsonCpp}
use erizo_controller.Config.{Config}
use erizo_controller.Process.State.{AmqpData}
use erizo_controller.Rpc.{
  Callback, free_slot, Rpc, new_rpc, Handled, handled, raised, overran, handle_callback,
}
use erizo_controller.Amqp.Receiver.{Consumed, message, timed_out, failed}
use erizo_controller.Amqp.Client.{Broker, AmqpCli, new_cli, cli_init}

-- `cb_queue_.resize(n)`
unfoldable pub resize : ℕ → List Callback → List Callback
resize zero cbs = []
resize (suc n) [] = free_slot ∷ resize n []
resize (suc n) (cb ∷ cbs) = cb ∷ resize n cbs

-- `send`; `copied` tells whether the name of the queue could be copied, `published` is the log of
-- `amqp_basic_publish`, and `true` the return value 1.
unfoldable pub send : (String → Bool) → AmqpData → List AmqpData → Bool × List AmqpData
send copied item published =
    if copied item.queuename then (false, published ++ (item ∷ [])) else (true, published)

-- `while (!send_queue_.empty())`
unfoldable pub send_pending : (String → Bool) → List AmqpData → List AmqpData → List AmqpData
send_pending copied [] published = published
send_pending copied (item ∷ queue) published =
    send_pending copied queue (send copied item published).1

module _ (J : JsonCpp) where
  -- `AMQPRPC`; `running` is `run_`, and `none` is the null `amqp_cli_`.
  pub record AmqpRpc : Type 0 where
    pub slots : Rpc J
    pub cli : Option AmqpCli
    pub running : Bool
    pub initialized : Bool

  abbrev pub new_amqp_rpc : AmqpRpc
  new_amqp_rpc = record {
    slots = record (new_rpc J "") { cb_queue = [] };
    cli = none;
    running = false;
    initialized = false;
  }

  -- `init`; `true` is the return value 1.
  unfoldable pub rpc_init : Broker → Config → String → AmqpRpc → Bool × AmqpRpc
  rpc_init B config binding_key r =
      if r.initialized
      then (false, r)
      else let (refused, cli) =
          cli_init B config config.uniquecast_exchange "direct" binding_key new_cli in
        if refused then (true, record r { cli = some cli }) else (
          false,
          record {
            slots = record (r.slots) {
              reply_to = cli.reply_to;
              cb_queue = resize 256 r.slots.cb_queue;
            };
            cli = some cli;
            running = true;
            initialized = true;
          },
        )

  -- `close`, of which the client's own is `cli_close`; the counter of the slots goes on.
  unfoldable pub rpc_close : AmqpRpc → AmqpRpc
  rpc_close r =
      if r.initialized
      then record {
        slots = record (r.slots) { cb_queue = []; send_queue = [] };
        cli = none;
        running = false;
        initialized = false;
      }
      else r

  -- The rounds of the receive thread until `run_` is cleared: a timeout is passed over, any other error
  -- ends the thread, and what `handleCallback` throws ends the process.
  unfoldable pub receive_answers : List Consumed → Rpc J → Handled J
  receive_answers [] r = handled r
  receive_answers (message msg ∷ rest) r = elim (handle_callback J msg r) [
    | handled r' ↦ receive_answers rest r'
    | raised ↦ raised
    | overran ↦ overran
  ]
  receive_answers (timed_out ∷ rest) r = receive_answers rest r
  receive_answers (failed ∷ rest) r = handled r

  -- A round of the send thread.
  unfoldable pub send_queued : (String → Bool) → Rpc J → List AmqpData → Rpc J × List AmqpData
  send_queued copied r published =
      (record r { send_queue = [] }, send_pending copied r.send_queue published)

-- A round publishes the messages of the queue, each once and in order, but for those the name of
-- whose queue could not be copied.
send_pending-keep_if :
    (copied : String → Bool) (queue published : List AmqpData)
    → send_pending copied queue published ≡ published ++ keep_if (λ d. copied d.queuename) queue
unfolding send_pending send keep_if
send_pending-keep_if copied [] published = sym (append-nil published)
send_pending-keep_if copied (item ∷ queue) published = elim (Bool-cases (copied item.queuename)) [
  | inl t ↦ rw t (
      send_pending-keep_if copied queue (published ++ (item ∷ []))
      ∙ append_assoc published (item ∷ []) (keep_if (λ d. copied d.queuename) queue))
  | inr f ↦ rw f (send_pending-keep_if copied queue published)
]
