-- ===== src/Tests/Controller.antt =====
-- The handlers at concrete messages, clients and rows.
use erizo_controller.Base.{
  ◌+◌, ◌≤◌, ◌<◌, pos, true, some, [], ◌∷◌, keep_if, ◌≡◌, refl, ◌⊎◌, ◌↔◌, arith, Option, lookup,
}
use erizo_controller.Model.Outcome.{done}
use erizo_controller.Model.Subscriber.{Subscriber}
use erizo_controller.Model.ErizoAgent.{ErizoAgent, agent_to_json, agent_from_json}
use erizo_controller.Model.Heartbeat.{Heartbeat}
use erizo_controller.Process.State.{World}
use erizo_controller.Process.Ends.{Ends, Leaves}
use erizo_controller.Redis.Helper.{add_publisher_row, read_all}
use erizo_controller.Controller.Alloc.{alloc_agent, alloc_erizo}
use erizo_controller.Controller.Alloc.Chosen.{read_all-cons, allocated, alloc_agent_lem}
use erizo_controller.Config.{as_u64, find_server}
use erizo_controller.Route.Enums.{area_code}
use erizo_controller.External.{Platform}
use erizo_controller.Model.RoundTrip.Timed.{agent_round_trip}
use erizo_controller.Demo.Server.{demo_redis_laws}
use erizo_controller.Controller.Alloc.Asks.{Asked, alloc_erizo_lem}
use erizo_controller.Controller.Alloc.Choice.{IsChoice}
use erizo_controller.Controller.Publish.{handle_publish}
use erizo_controller.Controller.Publish.Atomic.{Published, handle_publish_lem}
use erizo_controller.Controller.Subscribe.{handle_subscribe}
use erizo_controller.Controller.Subscribe.Atomic.{Subscribed, handle_subscribe_lem}
use erizo_controller.Controller.Remove.{end_publications, end_subscriptions}
use erizo_controller.External.Redis.{HashAnswers}
use erizo_controller.Controller.Remove.Released.{Unreadable}
use erizo_controller.Controller.Remove.Cleared.{end_publications_lem, end_subscriptions_lem}
use erizo_controller.Controller.Heartbeat.{is_expired}
use erizo_controller.Controller.Heartbeat.Expiry.{is_expired_iff}
use erizo_controller.Demo.Tree.{Tree, str, null, field}
use erizo_controller.Demo.Library.{demo_json, demo_laws}
use erizo_controller.Demo.Server.{once, without}
use erizo_controller.Demo.World.{demo, demo_config, start, alice, bob, camera}

-- The camera of alice is in the room.
abbrev stage : World demo
stage = (add_publisher_row demo "room" camera start).1

abbrev wants_camera : Tree
wants_camera = field "streamId" (str "cam") null

handle_subscribe_example :
    Leaves
      (Subscribed demo stage bob wants_camera)
      (λ v. v.sent ≡ stage.sent)
      (handle_subscribe demo bob wants_camera stage)
handle_subscribe_example = handle_subscribe_lem demo stage bob wants_camera

abbrev offers_camera : Tree
offers_camera = field "label" (str "camera") null

handle_publish_example :
    Leaves
      (Published demo start 0 0 alice offers_camera)
      (λ w'. w'.sent ≡ start.sent)
      (handle_publish demo 0 0 alice offers_camera start)
handle_publish_example = handle_publish_lem demo 0 0 alice offers_camera start

abbrev busy : ErizoAgent
busy = record { id = "agent_1"; last_update = 1540000000095; erizo_process_num = pos 7 }

abbrev idle : ErizoAgent
idle = record { id = "agent_2"; last_update = 1540000000096; erizo_process_num = pos 2 }

-- A clock of 2018, and the two agents in the rows of the area.
abbrev today : Platform
today = record demo { system_ms = λ n. 1540000000097 + n }

abbrev in_area : World today
in_area = record {
  config = record demo_config { erizo_agent_timeout = pos 10 };
  id = "ec_1";
  reply_to = "ec_1";
  redis_ready = true;
  db = record {
    texts = [];
    rows =
        (
          "erizo_agent_default_heartbeat",
          ("agent_1", agent_to_json demo_json busy)
              ∷ ("agent_2", agent_to_json demo_json idle)
              ∷ [],
        )
        ∷ [];
  };
  sent = [];
  events = [];
  tasks = [];
  ticks = 0;
  draws = 0;
  asked = 0;
}

both_read :
    read_all
      (agent_from_json demo_json)
      (agent_to_json demo_json busy ∷ agent_to_json demo_json idle ∷ [])
    ≡ done (busy ∷ idle ∷ [])
unfolding read_all
both_read =
    read_all-cons (agent_from_json demo_json) (agent_to_json demo_json busy) busy
      (agent_to_json demo_json idle ∷ []) (idle ∷ [])
      (agent_round_trip demo_json demo_laws busy (omega arith) (omega arith) refl)
      (read_all-cons (agent_from_json demo_json) (agent_to_json demo_json idle) idle [] []
        (agent_round_trip demo_json demo_laws idle (omega arith) (omega arith) refl) refl)

alloc_agent_example :
    Ends
      (λ r _.
        (o : Option ErizoAgent) × IsChoice 1540000000097 10 (busy ∷ idle ∷ []) o
        × (r ≡ allocated today alice o))
      (alloc_agent today alice in_area)
unfolding as_u64 find_server lookup area_code once without
alloc_agent_example =
    alloc_agent_lem today alice in_area "default" (busy ∷ idle ∷ []) demo_redis_laws refl refl refl
      both_read

-- Bob watches the camera of alice.
abbrev watch : Subscriber
watch = record {
  id = "sub";
  client_id = "cli_bob";
  erizo_id = "erizo_2";
  agent_id = "agent_2";
  subscribe_to = "cam";
  reply_to = "ec_1";
  is_bridge = true;
}

demo_bridges : HashAnswers demo.redis "bridge_stream_room"
demo_bridges = record {
  hgetall = λ db. refl;
  hset = λ db f v. refl;
  hget = λ db f. refl;
  hdel = λ db f. refl;
  hdel_fields = λ db fs. refl;
}

end_subscriptions_example :
    Leaves
      (λ ids _. ids ≡ some ("sub" ∷ []))
      (Unreadable demo "room" demo_bridges)
      (end_subscriptions demo alice (camera ∷ []) (watch ∷ []) stage)
unfolding keep_if
end_subscriptions_example =
    end_subscriptions_lem demo alice demo_bridges (camera ∷ []) (watch ∷ []) stage

end_publications_example :
    Leaves
      (λ ids _. ids ≡ some ("cam" ∷ []))
      (Unreadable demo "room" demo_bridges)
      (end_publications demo alice (camera ∷ []) stage)
unfolding keep_if
end_publications_example = end_publications_lem demo alice demo_bridges (camera ∷ []) stage

abbrev stale : Heartbeat
stale = record { id = "ec_2"; last_update = 99 }

is_expired_example : (is_expired 100 3000 stale ≡ true) ↔ ((99 < 100) ⊎ (100 + 3000 < 99))
is_expired_example = is_expired_iff 100 3000 stale (omega arith) (omega arith) (omega arith)

alloc_erizo_example :
    Leaves
      (Asked demo 3 alice start)
      (λ w'. w'.asked ≤ start.asked + 3)
      (alloc_erizo demo alice start)
alloc_erizo_example = alloc_erizo_lem demo alice start
