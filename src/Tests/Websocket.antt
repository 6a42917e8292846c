-- ===== src/Tests/Websocket.antt =====
-- Examples for websocket/: a client that publishes with a message id, and the send thread.
use erizo_controller.Base.{true, false, none, some, String, ◌++ₛ◌, [], ◌∷◌, ◌++◌, ◌≡◌, refl, arith}
use erizo_controller.Model.Outcome.{done, thrown}
use erizo_controller.Model.Client.{Client}
use erizo_controller.Process.State.{World, Exec}
use erizo_controller.Controller.Dispatch.{is_event}
use erizo_controller.Controller.Socket.{controller_frame}
use erizo_controller.Controller.Socket.Garbage.{controller_frame_garbage}
use erizo_controller.Redis.Decimal.{show_u64, digits_before, stoll, read_digits}
use erizo_controller.Websocket.Handler.{
  Connection, on_frame, handle_message, message_id, char_at, find_bracket, drop_text, take_text,
  stoi,
}
use erizo_controller.Websocket.Handler.Acknowledged.{event_message, on_frame-event_message}
use erizo_controller.Websocket.Server.{Clients, find_client, send_round}
use erizo_controller.Websocket.Server.Delivered.{messages_for, send_round_lem}
use erizo_controller.Demo.Tree.{Tree}
use erizo_controller.Demo.Codec.{read-bracket}
use erizo_controller.Demo.Library.{demo_json}
use erizo_controller.Demo.World.{demo, start, alice, bob}

-- A handler that takes every event.
abbrev agrees : Client → String → Exec demo (String × Client)
agrees c event w = (done ("[\"ok\"]", record c { room_id = "room" }), w)

abbrev socket : Connection
socket = record { client = alice; connected = true; sent = [] }

abbrev event_rest : String
event_rest = "\"publish\",{\"label\":\"camera\"}]"

on_frame-event_message_example : on_frame demo agrees (event_message 17 event_rest) socket start ≡ (
  done (record socket {
    client = record alice { room_id = "room" };
    sent = ("43" ++ₛ (show_u64 17 ++ₛ "[\"ok\"]")) ∷ [];
  }),
  start,
)
on_frame-event_message_example =
    on_frame-event_message demo agrees 17 event_rest "[\"ok\"]" (record alice { room_id = "room" })
      socket start start (omega arith) refl refl refl refl

-- The message is the text that a browser sends, and the reply the text that it waits for.
event_message_text :
    (event_message 17 event_rest ≡ "4217[\"publish\",{\"label\":\"camera\"}]")
    × (("43" ++ₛ (show_u64 17 ++ₛ "[\"ok\"]")) ≡ "4317[\"ok\"]")
unfolding event_message show_u64 digits_before
event_message_text = (refl, refl)

abbrev queued : World demo
queued = record start {
  events =
      record { client_id = "cli_bob"; message = "42a" }
      ∷ record { client_id = "cli_alice"; message = "42b" }
      ∷ record { client_id = "cli_bob"; message = "41" }
      ∷ [];
}

abbrev two_clients : Clients
two_clients = ("cli_alice", socket) ∷ ("cli_bob", record socket { client = bob }) ∷ []

send_round_example :
    (after : Clients) × (send_round demo two_clients queued
      ≡ (done after, record queued { events = [] }))
    × ((id : String) (h : Connection)
        → find_client id two_clients ≡ some h
        → h.connected ≡ true
        → find_client id after ≡ some (record h { sent = h.sent ++ messages_for id queued.events }))
send_round_example = send_round_lem demo two_clients queued

messages_for_bob : messages_for "cli_bob" queued.events ≡ "42a" ∷ "41" ∷ []
unfolding messages_for
messages_for_bob = refl

-- A message whose id is no number makes the handler throw.
bad_id : on_frame demo agrees "42x[]" socket start ≡ (thrown, start)
unfolding on_frame handle_message message_id char_at find_bracket drop_text take_text stoi stoll
    read_digits
bad_id = refl

-- A text that the demo library does not read.
garbage_read : (root : Tree) → demo_json.parse "[nn" ≡ some root → is_event demo root ≡ false
garbage_read root e = absurd (nothing (rw (read-bracket "nn") at e))
  where
    nothing : {A : Type 0} {a : A} → none ≡ some a → ⊥
    nothing h = cc

controller_frame_garbage_example :
    controller_frame demo 0 0 (event_message 5 "nn") socket start
    ≡ (done (record socket { sent = "41" ∷ [] }), start)
controller_frame_garbage_example =
    controller_frame_garbage demo 0 0 5 "nn" socket start (omega arith) refl garbage_read
