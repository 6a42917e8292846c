-- ===== src/Controller/Message.antt =====
-- The messages of core/erizo_controller.cpp to agents and to other controllers, as
-- `AMQPRPC::rpcNotReply` and `AMQPRPC::rpc` of rabbitmq/amqp_rpc.cpp queue them.
use erizo_controller.Base.{◌+◌, ◌%◌, ◌^◌, pos, String, ◌++ₛ◌, List, [], ◌∷◌, ◌++◌}
use erizo_controller.External.{Platform}
use erizo_controller.Route.Enums.{isp_to_string}
use erizo_controller.Model.Fields.{object, array}
use erizo_controller.Model.Client.{Client}
use erizo_controller.Model.Publisher.{Publisher}
use erizo_controller.Model.Subscriber.{Subscriber}
use erizo_controller.Model.BridgeStream.{BridgeStream}
use erizo_controller.Process.State.{AmqpData, Exec, pure, gets, modify, ◌>>=◌, ◌>>◌}

module _ (P : Platform) where
  open P.json use {Value, of_string, of_int, of_uint, write}

  -- What `rpcNotReply(queuename, data)` puts into the send queue.
  unfoldable pub one_way : String → String → Value → AmqpData
  one_way exchange queuename body = record {
    exchange = exchange;
    queuename = queuename;
    binding_key = queuename;
    msg = write (object P.json (("data", body) ∷ []));
  }

  unfoldable pub rpc_not_reply : String → Value → Exec P (Unit {0})
  rpc_not_reply queuename body = modify (λ w. record w {
    sent = w.sent ++ (one_way w.config.uniquecast_exchange queuename body ∷ []);
  })

  -- `AMQPRPC::rpc`, and the wait for its callback: the message carries the slot of the callback,
  -- and the callback is given what the environment answers.
  unfoldable pub rpc : String → Value → Exec P Value
  rpc queuename body = do
    n ← gets (λ w. w.asked)
    modify (λ w. record w {
      asked = w.asked + 1;
      sent =
          w.sent
          ++ (record {
            exchange = w.config.uniquecast_exchange;
            queuename = queuename;
            binding_key = queuename;
            msg = write (
                object P.json (
                  ("corrID", of_int (pos (w.asked % 2 ^ 32 % 256)))
                  ∷ ("replyTo", of_string (w.id ++ₛ "_rpc"))
                  ∷ ("data", body)
                  ∷ []));
          }
              ∷ []);
    })
    pure (P.rpc_answer n)

  -- `data["method"] = method; data["args"] = args;`
  abbrev pub call : String → List Value → Value
  call method args = object P.json (("method", of_string method) ∷ ("args", array P.json args) ∷ [])

  unfoldable pub remove_publisher : Publisher → Exec P (Unit {0})
  remove_publisher p =
      rpc_not_reply p.erizo_id
        (call "removePublisher" (of_string p.client_id ∷ of_string p.id ∷ []))

  unfoldable pub remove_subscriber : Subscriber → Exec P (Unit {0})
  remove_subscriber s =
      rpc_not_reply s.erizo_id
        (call "removeSubscriber" (of_string s.client_id ∷ of_string s.subscribe_to ∷ []))

  unfoldable pub add_publisher : Client → Publisher → Exec P (Unit {0})
  add_publisher c p = do
    reply_to ← gets (λ w. w.reply_to)
    rpc_not_reply p.erizo_id (
        call "addPublisher" (
          of_string c.room_id
          ∷ of_string p.client_id
          ∷ of_string p.id
          ∷ of_string p.label
          ∷ of_string reply_to
          ∷ of_string (isp_to_string c.ip_info.isp)
          ∷ []))

  unfoldable pub add_virtual_publisher : Publisher → BridgeStream → Exec P (Unit {0})
  add_virtual_publisher p b = rpc_not_reply b.recver_erizo_id (
      call "addVirtualPublisher" (
        of_string b.id
        ∷ of_string b.src_stream_id
        ∷ of_string b.sender_ip
        ∷ of_int (pos b.sender_port)
        ∷ of_uint p.video_ssrc
        ∷ of_uint p.audio_ssrc
        ∷ []))

  unfoldable pub add_subscriber : Client → Publisher → Subscriber → Exec P (Unit {0})
  add_subscriber c p s = do
    reply_to ← gets (λ w. w.reply_to)
    rpc_not_reply s.erizo_id (
        call "addSubscriber" (
          of_string s.client_id
          ∷ of_string s.subscribe_to
          ∷ of_string p.label
          ∷ of_string reply_to
          ∷ of_string (isp_to_string c.ip_info.isp)
          ∷ []))

  unfoldable pub add_virtual_subscriber : BridgeStream → Exec P (Unit {0})
  add_virtual_subscriber b = rpc_not_reply b.sender_erizo_id (
      call "addVirtualSubscriber" (
        of_string b.id
        ∷ of_string b.src_stream_id
        ∷ of_string b.recver_ip
        ∷ of_int (pos b.recver_port)
        ∷ []))

  unfoldable pub process_signaling : String → String → String → Value → Exec P (Unit {0})
  process_signaling erizo_id client_id stream_id msg =
      rpc_not_reply erizo_id
        (call "processSignaling" (of_string client_id ∷ of_string stream_id ∷ msg ∷ []))

  unfoldable pub notify_to_remove_subscriber : Subscriber → Exec P (Unit {0})
  notify_to_remove_subscriber s = rpc_not_reply s.reply_to (
      object P.json (
        ("type", of_string "remove_subscriber")
        ∷ ("streamId", of_string s.subscribe_to)
        ∷ ("clientId", of_string s.client_id)
        ∷ []))

  unfoldable pub remove_virtual_publisher : BridgeStream → Exec P (Unit {0})
  remove_virtual_publisher b =
      rpc_not_reply b.recver_erizo_id
        (call "removeVirtualPublisher" (of_string b.src_stream_id ∷ []))

  unfoldable pub remove_virtual_subscriber : BridgeStream → Exec P (Unit {0})
  remove_virtual_subscriber b =
      rpc_not_reply b.sender_erizo_id
        (call "removeVirtualSubscriber" (of_string b.id ∷ of_string b.src_stream_id ∷ []))
