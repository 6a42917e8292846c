-- ===== src/Tests/Config.antt =====
-- Examples for common/config.cpp, with the values of config.json.
use erizo_controller.Base.{
  ℤ, pos, negsuc, false, true, String, none, some, List, [], ◌∷◌, ◌≡◌, refl, arith,
}
use erizo_controller.Model.Outcome.{done, thrown}
use erizo_controller.Config.{Config, new_config, find_server, put_server}
use erizo_controller.Config.Load.{init, read_servers, read_server, is_server}
use erizo_controller.Config.Servers.{LastName}
use erizo_controller.Config.Loaded.{init-LastName}
use erizo_controller.Config.RoundTrip.{
  IsStorable, config_file, websocket_section, redis_section, rabbitmq_section, other_section,
  init_round_trip,
}
use erizo_controller.Demo.Tree.{Tree, null, int, str, field, item, reread}
use erizo_controller.Demo.Codec.{write, read-write}
use erizo_controller.Demo.Library.{demo_json, demo_laws}

abbrev entry : ℤ → String → Tree
entry id name = field "id" (int id) (field "name" (str name) null)

-- The id 16 stands twice, and one item has no name.
abbrev servers : Tree
servers = item (entry (pos 16) "old") (
    item (field "id" (int (pos 4)) null)
      (item (entry (pos 1) "default") (item (entry (pos 16) "default") null)))

abbrev stored : Config
stored = record (new_config true) { ssl_passwd = "cathy978"; redis_conn_timeout = negsuc 0 }

stored-IsStorable : IsStorable stored
stored-IsStorable = record {
  port = omega arith;
  ssl_port = omega arith;
  redis_port = omega arith;
  redis_conn_timeout = refl;
  redis_rw_timeout = refl;
  redis_max_conns = refl;
  redis_lock_timeout = refl;
  redis_lock_try_time = refl;
  rabbitmq_port = omega arith;
  rabbitmq_timeout = refl;
  erizo_controller_worker_num = refl;
  socket_io_thread_num = refl;
  erizo_agent_timeout = refl;
  erizo_controller_update_interval = refl;
  erizo_controller_timeout = refl;
}

abbrev mapping : List (ℤ × String)
mapping = (pos 16, "default") ∷ (pos 1, "default") ∷ []

mapping_read : read_servers demo_json 4 0 (reread servers) [] ≡ done mapping
unfolding read_servers read_server is_server put_server
mapping_read = refl

init_round_trip_example :
    init demo_json (some (write (config_file demo_json stored servers))) (new_config false)
    ≡ done (false, record stored { server_mapping = mapping })
init_round_trip_example =
    init_round_trip demo_json demo_laws stored stored-IsStorable servers refl (new_config false)
      mapping mapping_read

init-LastName_example : LastName demo_json servers 4 0 (pos 16) none (some "default")
unfolding config_file other_section rabbitmq_section redis_section websocket_section find_server
init-LastName_example =
    init-LastName demo_json (write (config_file demo_json stored servers))
      (config_file demo_json stored servers) (new_config false)
      (record stored { server_mapping = mapping }) (pos 16)
      (demo_laws.parse-write (config_file demo_json stored servers) refl) init_round_trip_example

-- A root that is an array makes `init` throw.
init_array : init demo_json (some (write servers)) stored ≡ thrown
unfolding init
init_array = rw (read-write servers, init) refl
