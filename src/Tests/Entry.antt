-- ===== src/Tests/Entry.antt =====
-- The start of the program on the files and brokers of an example.
use erizo_controller.Base.{◌==◌, pos, false, some, [], ◌∷◌, refl, true}
use erizo_controller.Config.{new_config}
use erizo_controller.Route.Loader.{new_names}
use erizo_controller.Amqp.Client.{Broker, response_normal}
use erizo_controller.Controller.Start.{new_controller}
use erizo_controller.Entry.{Program, Surroundings, start_program}
use erizo_controller.Entry.Started.{Comes, start_program_lem}
use erizo_controller.Config.RoundTrip.{config_file}
use erizo_controller.Demo.Tree.{Tree, item, field, int, str, null}
use erizo_controller.Demo.Codec.{write}
use erizo_controller.Demo.Library.{demo_json}

abbrev broker : Broker
broker = record {
  socket_new = true;
  socket_open = λ _ _. true;
  login = λ _ _. response_normal;
  channel_open = response_normal;
  exchange_declare = λ _ _. response_normal;
  queue_declare = response_normal;
  queue_name = some (97 ∷ []);
  queue_bind = λ _ _ _. response_normal;
  basic_consume = λ _. response_normal;
  bytes = λ _. 98 ∷ [];
  text = λ _. "a";
}

-- The values that `Config` has, one media server, and an empty address table.
abbrev servers : Tree
servers = item (field "id" (int (pos 1)) (field "name" (str "default") null)) null

abbrev surroundings : Surroundings demo_json
surroundings = record {
  files = record {
    enters_proc = true;
    listed = some "/opt/ec/bin/ec";
    enters = λ dir. dir == "/opt/ec/bin";
  };
  config_file = some (write (config_file demo_json (new_config true) servers));
  ip_lines = some [];
  address = λ _. 0;
  names = new_names;
  rpc_broker = broker;
  signaling_broker = broker;
  uuid = "7";
}

abbrev program : Program demo_json
program = record {
  config = new_config false;
  table = [];
  redis_ready = false;
  controller = new_controller demo_json;
}

start_program_example :
    Comes demo_json surroundings program (start_program demo_json surroundings program)
start_program_example = start_program_lem demo_json surroundings program refl
