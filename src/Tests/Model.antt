-- ===== src/Tests/Model.antt =====
-- The texts of the rows at concrete rows.
use erizo_controller.Base.{pos, none, some, true, ◌≡◌, refl, arith}
use erizo_controller.Route.Enums.{unknown_value}
use erizo_controller.Model.Outcome.{done}
use erizo_controller.Model.Client.{client_to_json, client_from_json}
use erizo_controller.Model.Publisher.{publisher_to_json, publisher_from_json}
use erizo_controller.Model.Subscriber.{Subscriber, subscriber_to_json, subscriber_from_json}
use erizo_controller.Model.BridgeStream.{
  BridgeStream, bridge_stream_to_json, bridge_stream_from_json,
}
use erizo_controller.Model.Room.{Room, room_to_json, room_from_json}
use erizo_controller.Model.ErizoAgent.{ErizoAgent, agent_to_json, agent_from_json}
use erizo_controller.Model.Heartbeat.{Heartbeat, heartbeat_to_json, heartbeat_from_json}
use erizo_controller.Model.RoundTrip.Rows.{rows_round_trip, timed_round_trip}
use erizo_controller.Demo.Library.{demo_json, demo_laws}
use erizo_controller.Demo.World.{alice, camera}

abbrev watcher : Subscriber
watcher = record {
  id = "sub";
  client_id = "cli_bob";
  erizo_id = "erizo_2";
  agent_id = "agent_2";
  subscribe_to = "cam";
  reply_to = "ec_1";
  is_bridge = true;
}

abbrev bridge : BridgeStream
bridge = record {
  id = "bridge";
  sender_erizo_id = "erizo_1";
  sender_ip = "10.0.0.1";
  sender_port = 9000;
  recver_erizo_id = "erizo_2";
  recver_ip = "10.0.0.2";
  recver_port = 9000;
  src_stream_id = "cam";
  label = "camera";
  subscribe_count = pos 2;
}

abbrev room : Room
room = record { id = "room"; name = "lecture" }

abbrev agent : ErizoAgent
agent = record { id = "agent_1"; last_update = 1540000000000; erizo_process_num = pos 3 }

rows_round_trip_example :
    (room_from_json demo_json (room_to_json demo_json room) ≡ done (some room))
    × (client_from_json demo_json (client_to_json demo_json alice)
        ≡ done (some (record alice { ip_info = unknown_value })))
    × (publisher_from_json demo_json (publisher_to_json demo_json camera) ≡ done (some camera))
    × (subscriber_from_json demo_json (subscriber_to_json demo_json watcher) ≡ done (some watcher))
    × (bridge_stream_from_json demo_json (bridge_stream_to_json demo_json bridge)
        ≡ done (some bridge))
rows_round_trip_example =
    rows_round_trip demo_json demo_laws room alice camera watcher bridge (omega arith) (omega arith)
      (omega arith) (omega arith) (omega arith) (omega arith) (omega arith) refl

abbrev early : Heartbeat
early = record { id = "ec_1"; last_update = 2147483647 }

timed_round_trip_example :
    (agent_from_json demo_json (agent_to_json demo_json agent) ≡ done (some agent))
    × (heartbeat_from_json demo_json (heartbeat_to_json demo_json early) ≡ done none)
timed_round_trip_example =
    timed_round_trip demo_json demo_laws agent early (omega arith) (omega arith) refl (omega arith)
