-- ===== src/Config.antt =====
-- common/config.h and common/config.cpp: the values of `Config`, and `server_mapping`.
pub mod Load
pub mod Servers
pub mod Loaded
pub mod RoundTrip
use erizo_controller.Base.{
  ℕ, ℤ, pos, Bool, String, Option, none, some, List, [], ◌∷◌, if◌then◌else◌,
}
use erizo_controller.Base.Int.{eqb_int, to_unsigned}

-- `Config`: an `unsigned short` is a number below 2 ^ 16, an `int` a ℤ.
pub record Config : Type 0 where
  pub port : ℕ
  pub ssl : Bool
  pub ssl_key : String
  pub ssl_cert : String
  pub ssl_passwd : String
  pub ssl_port : ℕ
  pub redis_ip : String
  pub redis_port : ℕ
  pub redis_passwd : String
  pub redis_conn_timeout : ℤ
  pub redis_rw_timeout : ℤ
  pub redis_max_conns : ℤ
  pub redis_lock_timeout : ℤ
  pub redis_lock_try_time : ℤ
  pub rabbitmq_username : String
  pub rabbitmq_passwd : String
  pub rabbitmq_hostname : String
  pub rabbitmq_port : ℕ
  pub rabbitmq_timeout : ℤ
  pub uniquecast_exchange : String
  pub boardcast_exchange : String
  pub socket_io_thread_num : ℤ
  pub erizo_controller_worker_num : ℤ
  pub erizo_agent_timeout : ℤ
  pub erizo_controller_update_interval : ℤ
  pub erizo_controller_timeout : ℤ
  pub server_mapping : List (ℤ × String)

-- The constructor, which gives `ssl` no value: it has the one that the memory holds.
abbrev pub new_config : Bool → Config
new_config ssl = record {
  port = 8080;
  ssl = ssl;
  ssl_key = "cert/key.pem";
  ssl_cert = "cert/cert.pem";
  ssl_passwd = "";
  ssl_port = 443;
  redis_ip = "127.0.0.1";
  redis_port = 6379;
  redis_passwd = "cathy978";
  redis_conn_timeout = pos 10;
  redis_rw_timeout = pos 10;
  redis_max_conns = pos 100;
  redis_lock_timeout = pos 2000;
  redis_lock_try_time = pos 1000;
  rabbitmq_username = "linmin";
  rabbitmq_passwd = "linmin";
  rabbitmq_hostname = "127.0.0.1";
  rabbitmq_port = 5672;
  rabbitmq_timeout = pos 1000;
  uniquecast_exchange = "erizo_uniquecast_exchange";
  boardcast_exchange = "erizo_boardcast_exchange";
  socket_io_thread_num = pos 20;
  erizo_controller_worker_num = pos 5;
  erizo_agent_timeout = pos 10000;
  erizo_controller_update_interval = pos 1000;
  erizo_controller_timeout = pos 3000;
  server_mapping = [];
}

-- An `int` beside a `uint64_t` in a sum or a comparison.
unfoldable pub as_u64 : ℤ → ℕ
as_u64 i = to_unsigned 18446744073709551616 i

-- How often `x--` is not 0 from an `int` on; a negative one counts down through the overflow.
unfoldable pub countdown : ℤ → ℕ
countdown i = to_unsigned 4294967296 i

-- `server_mapping.find(id)`
unfoldable pub find_server : ℤ → List (ℤ × String) → Option String
find_server id [] = none
find_server id ((j, name) ∷ m) = if eqb_int j id then some name else find_server id m

-- `server_mapping[id] = name`
unfoldable pub put_server : ℤ → String → List (ℤ × String) → List (ℤ × String)
put_server id name [] = (id, name) ∷ []
put_server id name ((j, old) ∷ m) =
    let rest = put_server id name m in if eqb_int j id then (j, name) ∷ m else (j, old) ∷ rest
