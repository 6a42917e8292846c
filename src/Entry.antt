-- ===== src/Entry.antt =====
-- main.cpp: what is started, and in which order, on the files and brokers that it meets. What the
-- singletons keep is one state.
pub mod Started
use erizo_controller.Base.{ℕ, Bool, true, false, String, Option, List, if◌then◌else◌}
use erizo_controller.External.Json.{JsonCpp}
use erizo_controller.Model.Outcome.{Outcome, done, ◌>>=◌}
use erizo_controller.Process.Path.{Files, init_path}
use erizo_controller.Config.{Config}
use erizo_controller.Config.Load.{init}
use erizo_controller.Route.Table.{IpTableMap}
use erizo_controller.Route.Loader.{Names}
use erizo_controller.Route.Query.{route_init}
use erizo_controller.Amqp.Client.{Broker}
use erizo_controller.Controller.Start.{ErizoController, controller_init, controller_close}

module _ (J : JsonCpp) where
  -- The singletons: `Config`, the table of `Route`, whether `ACLRedis` is initialised, and the controller.
  pub record Program : Type 0 where
    pub config : Config
    pub table : IpTableMap
    pub redis_ready : Bool
    pub controller : ErizoController J

  -- What the program meets: the files of `Utils::initPath`, the text of config.json and the lines of the
  -- address table where they open, the address of a text, the brokers, and a UUID.
  pub record Surroundings : Type 0 where
    pub files : Files
    pub config_file : Option String
    pub ip_lines : Option (List String)
    pub address : String → ℕ
    pub names : Names
    pub rpc_broker : Broker
    pub signaling_broker : Broker
    pub uuid : String

  module _ (E : Surroundings) where
    -- From the table on; `ACLRedis::init` returns 0.
    unfoldable pub start_services : Program → Outcome (Bool × Program)
    start_services p = do
      (failed, table) ← route_init E.address E.names E.ip_lines p.table
      let q = record p { table = table }
      if failed
          then done (true, q)
          else (let (failed', c) =
                controller_init J E.rpc_broker E.signaling_broker q.config E.uuid q.controller in
              done (failed', record q { redis_ready = true; controller = c }))

    -- `main` up to its loop; `true` is the return value 1.
    unfoldable pub start_program : Program → Outcome (Bool × Program)
    start_program p = if init_path E.files then done (true, p) else (do
      (failed, config) ← init J E.config_file p.config
      let q = record p { config = config }
      if failed then done (true, q) else start_services q)

  -- `main` after the loop.
  unfoldable pub stop_program : Program → Program
  stop_program p = record p { redis_ready = false; controller = controller_close J p.controller }
