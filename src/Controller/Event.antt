-- ===== src/Controller/Event.antt =====
-- core/erizo_controller.cpp: the events for browsers that `onSignalingMessage` builds, and
-- `SocketIOServer::sendEvent` and `closeConnection` of websocket/socket_io_server.cpp.
use erizo_controller.Base.{true, String, ◌++ₛ◌, List, [], ◌∷◌, ◌++◌}
use erizo_controller.External.Json.{JsonCpp}
use erizo_controller.External.{Platform}
use erizo_controller.Model.Fields.{object, array}
use erizo_controller.Process.State.{Exec, modify, pure, ◌>>◌}

module _ (J : JsonCpp) where
  open J use {Value, of_string, of_bool}

  -- `event[0] = name; event[1] = event_data;`
  abbrev pub event : String → Value → Value
  event name event_data = array J (of_string name ∷ event_data ∷ [])

  unfoldable pub initializing_event : String → String → String → Value
  initializing_event agent_id erizo_id stream_id = event "signaling_message_erizo" (
      object J (
        ("streamId", of_string stream_id)
        ∷ (
          "mess",
          object J (
              ("agentId", of_string agent_id)
              ∷ ("erizoId", of_string erizo_id)
              ∷ ("type", of_string "initializing")
              ∷ []),
        )
        ∷ []))

  unfoldable pub started_event : String → Value
  started_event stream_id = event "signaling_message_erizo" (
      object J (
        ("streamId", of_string stream_id)
        ∷ ("mess", object J (("type", of_string "started") ∷ []))
        ∷ []))

  unfoldable pub publisher_answer_event : String → String → Value
  publisher_answer_event stream_id sdp = event "signaling_message_erizo" (
      object J (
        ("streamId", of_string stream_id)
        ∷ ("mess", object J (("type", of_string "answer") ∷ ("sdp", of_string sdp) ∷ []))
        ∷ []))

  unfoldable pub subscriber_answer_event : String → String → String → Value
  subscriber_answer_event stream_id sdp erizo_id = event "signaling_message_erizo" (
      object J (
        ("peerId", of_string stream_id)
        ∷ (
          "mess",
          object J (
              ("type", of_string "answer")
              ∷ ("sdp", of_string sdp)
              ∷ ("erizoId", of_string erizo_id)
              ∷ []),
        )
        ∷ []))

  unfoldable pub add_stream_event : String → String → Value
  add_stream_event stream_id label = event "onAddStream" (
      object J (
        ("id", of_string stream_id)
        ∷ ("audio", of_bool true)
        ∷ ("video", of_bool true)
        ∷ ("data", of_bool true)
        ∷ ("label", of_string label)
        ∷ ("screen", of_string "")
        ∷ []))

  unfoldable pub remove_stream_event : String → Value
  remove_stream_event stream_id =
      event "onRemoveStream" (object J (("id", of_string stream_id) ∷ []))

module _ (P : Platform) where
  unfoldable pub send_event : String → String → Exec P (Unit {0})
  send_event client_id msg = modify (λ w. record w {
    events = w.events ++ (record { client_id = client_id; message = "42" ++ₛ msg } ∷ []);
  })

  unfoldable pub close_connection : String → Exec P (Unit {0})
  close_connection client_id = modify (λ w. record w {
    events = w.events ++ (record { client_id = client_id; message = "41" } ∷ []);
  })

  -- `for (const std::string &event : events) socket_io_->sendEvent(client_id, event);`
  unfoldable pub send_events : String → List P.json.Value → Exec P (Unit {0})
  send_events client_id [] = pure tt
  send_events client_id (e ∷ events) = do
    send_event client_id (P.json.write e)
    send_events client_id events
