-- ===== src/Config/Load.antt =====
-- common/config.cpp: `Config::init`, which reads config.json.
use erizo_controller.Base.{
  ℕ, zero, suc, ◌^◌, ℤ, Bool, true, false, ◌&&◌, not, String, Option, none, some, List,
  if◌then◌else◌,
}
use erizo_controller.Base.Int.{to_unsigned}
use erizo_controller.External.Json.{
  JsonCpp, int_value, string_value, boolean_value, array_value, object_value,
}
use erizo_controller.Model.Outcome.{Outcome, done, thrown, ◌>>=◌, or_throw}
use erizo_controller.Model.Fields.{is_kind, has, has_members}
use erizo_controller.Config.{Config, put_server}

module _ (J : JsonCpp) where
  open J use {Value, kind, member, element, size, parse, as_int, as_bool, as_string}

  -- The tests on the four sections.
  unfoldable pub websocket_has_fields : Value → Bool
  websocket_has_fields websocket =
      has J websocket "port" int_value
      && has J websocket "ssl" boolean_value
      && has J websocket "ssl_key" string_value
      && has J websocket "ssl_cert" string_value
      && has J websocket "ssl_passwd" string_value
      && has J websocket "ssl_port" int_value

  unfoldable pub redis_has_fields : Value → Bool
  redis_has_fields redis =
      has J redis "ip" string_value
      && has J redis "port" int_value
      && has J redis "password" string_value
      && has J redis "conn_timeout" int_value
      && has J redis "rw_timeout" int_value
      && has J redis "max_conns" int_value
      && has J redis "lock_timeout" int_value
      && has J redis "lock_try_time" int_value

  unfoldable pub rabbitmq_has_fields : Value → Bool
  rabbitmq_has_fields rabbitmq =
      has J rabbitmq "host" string_value
      && has J rabbitmq "port" int_value
      && has J rabbitmq "username" string_value
      && has J rabbitmq "password" string_value
      && has J rabbitmq "timeout" int_value
      && has J rabbitmq "boardcast_exchange" string_value
      && has J rabbitmq "uniquecast_exchange" string_value

  unfoldable pub other_has_fields : Value → Bool
  other_has_fields other =
      has J other "erizo_controller_worker_num" int_value
      && has J other "socket_io_thread_num" int_value
      && has J other "server" array_value
      && has J other "erizo_agent_timeout" int_value
      && has J other "erizo_controller_update_interval" int_value
      && has J other "erizo_controller_timeout" int_value

  unfoldable pub has_sections : Value → Bool
  has_sections root =
      (has J root "websocket" object_value && websocket_has_fields (member root "websocket"))
      && (has J root "redis" object_value && redis_has_fields (member root "redis"))
      && (has J root "rabbitmq" object_value && rabbitmq_has_fields (member root "rabbitmq"))
      && (has J root "other" object_value && other_has_fields (member root "other"))

  -- A field of a section as an `int`, an `unsigned short` or a text.
  abbrev pub int_of : Value → String → Outcome ℤ
  int_of section k = or_throw (as_int (member section k))

  abbrev pub text_of : Value → String → Outcome String
  text_of section k = or_throw (as_string (member section k))

  abbrev pub port_of : Value → String → Outcome ℕ
  port_of section k = do i ← int_of section k; done (to_unsigned (2 ^ 16) i)

  -- The assignments from the four sections.
  unfoldable pub read_websocket : Value → Config → Outcome Config
  read_websocket websocket c = do
    port ← port_of websocket "port"
    ssl ← or_throw (as_bool (member websocket "ssl"))
    ssl_key ← text_of websocket "ssl_key"
    ssl_cert ← text_of websocket "ssl_cert"
    ssl_passwd ← text_of websocket "ssl_passwd"
    ssl_port ← port_of websocket "ssl_port"
    done (record c {
      port = port;
      ssl = ssl;
      ssl_key = ssl_key;
      ssl_cert = ssl_cert;
      ssl_passwd = ssl_passwd;
      ssl_port = ssl_port;
    })

  unfoldable pub read_redis : Value → Config → Outcome Config
  read_redis redis c = do
    ip ← text_of redis "ip"
    port ← port_of redis "port"
    passwd ← text_of redis "password"
    conn_timeout ← int_of redis "conn_timeout"
    rw_timeout ← int_of redis "rw_timeout"
    max_conns ← int_of redis "max_conns"
    lock_timeout ← int_of redis "lock_timeout"
    lock_try_time ← int_of redis "lock_try_time"
    done (record c {
      redis_ip = ip;
      redis_port = port;
      redis_passwd = passwd;
      redis_conn_timeout = conn_timeout;
      redis_rw_timeout = rw_timeout;
      redis_max_conns = max_conns;
      redis_lock_timeout = lock_timeout;
      redis_lock_try_time = lock_try_time;
    })

  unfoldable pub read_rabbitmq : Value → Config → Outcome Config
  read_rabbitmq rabbitmq c = do
    hostname ← text_of rabbitmq "host"
    port ← port_of rabbitmq "port"
    username ← text_of rabbitmq "username"
    passwd ← text_of rabbitmq "password"
    timeout ← int_of rabbitmq "timeout"
    uniquecast ← text_of rabbitmq "uniquecast_exchange"
    boardcast ← text_of rabbitmq "boardcast_exchange"
    done (record c {
      rabbitmq_hostname = hostname;
      rabbitmq_port = port;
      rabbitmq_username = username;
      rabbitmq_passwd = passwd;
      rabbitmq_timeout = timeout;
      uniquecast_exchange = uniquecast;
      boardcast_exchange = boardcast;
    })

  unfoldable pub read_other : Value → Config → Outcome Config
  read_other other c = do
    worker_num ← int_of other "erizo_controller_worker_num"
    thread_num ← int_of other "socket_io_thread_num"
    agent_timeout ← int_of other "erizo_agent_timeout"
    controller_timeout ← int_of other "erizo_controller_timeout"
    update_interval ← int_of other "erizo_controller_update_interval"
    done (record c {
      erizo_controller_worker_num = worker_num;
      socket_io_thread_num = thread_num;
      erizo_agent_timeout = agent_timeout;
      erizo_controller_timeout = controller_timeout;
      erizo_controller_update_interval = update_interval;
    })

  -- The tests on an item of `server`; other items are skipped.
  unfoldable pub is_server : Value → Bool
  is_server item =
      is_kind (kind item) object_value
      && has J item "id" int_value
      && has J item "name" string_value

  -- The body of the loop over the items.
  unfoldable pub read_server : Value → List (ℤ × String) → Outcome (List (ℤ × String))
  read_server item m =
      if not (is_server item)
      then done m
      else do id ← int_of item "id"; name ← text_of item "name"; done (put_server id name m)

  -- The rounds of the loop from the item `i` on, `n` of them.
  unfoldable pub read_servers : ℕ → ℕ → Value → List (ℤ × String) → Outcome (List (ℤ × String))
  read_servers zero i items m = done m
  read_servers (suc n) i items m = do
    m' ← read_server (element items i) m
    read_servers n (suc i) items m'

  -- All the assignments, in the order of `init`.
  unfoldable pub assign : Value → Config → Outcome Config
  assign root c0 = do
    c1 ← read_websocket (member root "websocket") c0
    c2 ← read_redis (member root "redis") c1
    c3 ← read_rabbitmq (member root "rabbitmq") c2
    c ← read_other (member root "other") c3
    let items = member (member root "other") "server"
    m ← read_servers (size items) 0 items c.server_mapping
    done (record c { server_mapping = m })

  -- `init` on the text of the file, `none` where it does not open: `true` is the return value 1.
  unfoldable pub init : Option String → Config → Outcome (Bool × Config)
  init none c = done (true, c)
  init (some text) c = elim (parse text) [
    | none ↦ done (true, c)
    | some root ↦
        if not (has_members J root)
        then thrown
        else if not (has_sections root)
        then done (true, c)
        else (do c' ← assign root c; done (false, c'))
  ]
