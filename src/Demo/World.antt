-- ===== src/Demo/World.antt =====
-- A process over the libraries of this folder, with values of config.json.
use erizo_controller.Base.{◌+◌, ◌*◌, pos, true, false, [], ◌∷◌}
use erizo_controller.External.{Platform}
use erizo_controller.Config.{Config, new_config}
use erizo_controller.Route.Enums.{ctl, ctl_east}
use erizo_controller.Model.Client.{Client}
use erizo_controller.Model.Publisher.{Publisher}
use erizo_controller.Process.State.{World}
use erizo_controller.Demo.Tree.{Tree, int, str, null, field}
use erizo_controller.Demo.Library.{demo_json}
use erizo_controller.Demo.Server.{demo_redis, empty_db}

-- Every agent answers with the same process.
abbrev erizo_answer : Tree
erizo_answer =
    field "erizoID" (str "erizo_1")
      (field "bridgeIP" (str "10.0.0.1") (field "bridgePort" (int (pos 9000)) null))

abbrev pub demo : Platform
demo = record {
  json = demo_json;
  redis = demo_redis;
  system_ms = λ n. 100 + n;
  current_ms = λ n. 100 + n;
  rand = λ n. 7 * n + 3;
  rpc_answer = λ n. erizo_answer;
}

abbrev pub demo_config : Config
demo_config = record (new_config false) {
  redis_lock_timeout = pos 10000;
  redis_lock_try_time = pos 3;
  server_mapping = (pos 16, "default") ∷ [];
}

abbrev pub start : World demo
start = record {
  config = demo_config;
  id = "ec_1";
  reply_to = "ec_1";
  redis_ready = true;
  db = empty_db;
  sent = [];
  events = [];
  tasks = [];
  ticks = 0;
  draws = 0;
  asked = 0;
}

abbrev pub alice : Client
alice = record {
  id = "cli_alice";
  agent_id = "agent_1";
  erizo_id = "erizo_1";
  bridge_ip = "10.0.0.1";
  bridge_port = 9000;
  room_id = "room";
  ip = "192.0.2.1";
  port = 4000;
  family = "IPv4";
  reply_to = "ec_1";
  ip_info = record { isp = ctl; area = ctl_east };
}

abbrev pub bob : Client
bob = record alice {
  id = "cli_bob";
  agent_id = "agent_2";
  erizo_id = "erizo_2";
  bridge_ip = "10.0.0.2";
}

abbrev pub camera : Publisher
camera = record {
  id = "cam";
  client_id = "cli_alice";
  erizo_id = "erizo_1";
  bridge_ip = "10.0.0.1";
  bridge_port = 9000;
  agent_id = "agent_1";
  label = "camera";
  video_ssrc = 5;
  audio_ssrc = 6;
}
