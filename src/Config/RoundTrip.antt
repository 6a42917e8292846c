-- ===== src/Config/RoundTrip.antt =====
-- common/config.cpp: a config.json with the values of a `Config` is read back as this `Config`.
use erizo_controller.Base.{
  ℕ, ◌<◌, ◌%◌, ℤ, pos, true, false, String, some, List, [], ◌∷◌, ◌≡◌, arith,
}
use erizo_controller.External.Json.{JsonCpp, JsonLaws, array_value, object_value, fits_int}
use erizo_controller.Model.Outcome.{done}
use erizo_controller.Model.Fields.{object}
use erizo_controller.Config.{Config}
use erizo_controller.Config.Load.{
  websocket_has_fields, redis_has_fields, rabbitmq_has_fields, other_has_fields, has_sections,
  read_websocket, read_redis, read_rabbitmq, read_other, read_servers, assign, init,
}

-- The ports are 16-bit numbers, and the others fit an `int`.
pub record IsStorable (c : Config) : Type 0 where
  pub port : c.port < 65536
  pub ssl_port : c.ssl_port < 65536
  pub redis_port : c.redis_port < 65536
  pub rabbitmq_port : c.rabbitmq_port < 65536
  pub redis_conn_timeout : fits_int c.redis_conn_timeout ≡ true
  pub redis_rw_timeout : fits_int c.redis_rw_timeout ≡ true
  pub redis_max_conns : fits_int c.redis_max_conns ≡ true
  pub redis_lock_timeout : fits_int c.redis_lock_timeout ≡ true
  pub redis_lock_try_time : fits_int c.redis_lock_try_time ≡ true
  pub rabbitmq_timeout : fits_int c.rabbitmq_timeout ≡ true
  pub erizo_controller_worker_num : fits_int c.erizo_controller_worker_num ≡ true
  pub socket_io_thread_num : fits_int c.socket_io_thread_num ≡ true
  pub erizo_agent_timeout : fits_int c.erizo_agent_timeout ≡ true
  pub erizo_controller_update_interval : fits_int c.erizo_controller_update_interval ≡ true
  pub erizo_controller_timeout : fits_int c.erizo_controller_timeout ≡ true

module _ (J : JsonCpp) where
  open J use {Value, of_int, of_bool, of_string}

  -- The section `websocket` of a file.
  unfoldable pub websocket_section : Config → Value
  websocket_section c = object J (
      ("port", of_int (pos c.port))
      ∷ ("ssl", of_bool c.ssl)
      ∷ ("ssl_key", of_string c.ssl_key)
      ∷ ("ssl_cert", of_string c.ssl_cert)
      ∷ ("ssl_passwd", of_string c.ssl_passwd)
      ∷ ("ssl_port", of_int (pos c.ssl_port))
      ∷ [])

  -- The section `redis` of a file.
  unfoldable pub redis_section : Config → Value
  redis_section c = object J (
      ("ip", of_string c.redis_ip)
      ∷ ("port", of_int (pos c.redis_port))
      ∷ ("password", of_string c.redis_passwd)
      ∷ ("conn_timeout", of_int c.redis_conn_timeout)
      ∷ ("rw_timeout", of_int c.redis_rw_timeout)
      ∷ ("max_conns", of_int c.redis_max_conns)
      ∷ ("lock_timeout", of_int c.redis_lock_timeout)
      ∷ ("lock_try_time", of_int c.redis_lock_try_time)
      ∷ [])

  -- The section `rabbitmq` of a file.
  unfoldable pub rabbitmq_section : Config → Value
  rabbitmq_section c = object J (
      ("host", of_string c.rabbitmq_hostname)
      ∷ ("port", of_int (pos c.rabbitmq_port))
      ∷ ("username", of_string c.rabbitmq_username)
      ∷ ("password", of_string c.rabbitmq_passwd)
      ∷ ("timeout", of_int c.rabbitmq_timeout)
      ∷ ("boardcast_exchange", of_string c.boardcast_exchange)
      ∷ ("uniquecast_exchange", of_string c.uniquecast_exchange)
      ∷ [])

  -- The section `other` of a file.
  unfoldable pub other_section : Config → Value → Value
  other_section c servers = object J (
      ("erizo_controller_worker_num", of_int c.erizo_controller_worker_num)
      ∷ ("socket_io_thread_num", of_int c.socket_io_thread_num)
      ∷ ("server", servers)
      ∷ ("erizo_agent_timeout", of_int c.erizo_agent_timeout)
      ∷ ("erizo_controller_update_interval", of_int c.erizo_controller_update_interval)
      ∷ ("erizo_controller_timeout", of_int c.erizo_controller_timeout)
      ∷ [])

  -- The whole file, with the array `servers` in it.
  unfoldable pub config_file : Config → Value → Value
  config_file c servers = object J (
      ("websocket", websocket_section c)
      ∷ ("redis", redis_section c)
      ∷ ("rabbitmq", rabbitmq_section c)
      ∷ ("other", other_section c servers)
      ∷ [])

module _ (J : JsonCpp) (L : JsonLaws J) (c : Config) (h : IsStorable c) where
  port_back : (n : ℕ) → n < 65536 → J.as_int (J.of_int (pos n)) ≡ some (pos n)
  port_back n k = L.int-int (pos n) (ground arith)

  port_mod : (n : ℕ) → n < 65536 → n % 65536 ≡ n
  port_mod n k = omega arith

  websocket_fields : websocket_has_fields J (J.reread (websocket_section J c)) ≡ true
  unfolding websocket_has_fields websocket_section
  websocket_fields = simp (
    L.is_member-reread, L.member-reread, L.is_member-put, L.member-put, L.reread-string,
    L.kind-string, L.reread-int, L.kind-int, L.reread-bool, L.kind-bool,
  )

  websocket_back :
      (c0 : Config)
      → read_websocket J (J.reread (websocket_section J c)) c0
        ≡ done (record c0 {
          port = c.port;
          ssl = c.ssl;
          ssl_key = c.ssl_key;
          ssl_cert = c.ssl_cert;
          ssl_passwd = c.ssl_passwd;
          ssl_port = c.ssl_port;
        })
  unfolding read_websocket websocket_section
  websocket_back c0 = simp (
    L.member-reread,
    L.member-put,
    L.reread-string,
    L.string-string,
    L.reread-int,
    L.reread-bool,
    L.bool-bool,
    port_back c.port h.port,
    port_mod c.port h.port,
    port_back c.ssl_port h.ssl_port,
    port_mod c.ssl_port h.ssl_port,
  )

  redis_fields : redis_has_fields J (J.reread (redis_section J c)) ≡ true
  unfolding redis_has_fields redis_section
  redis_fields = simp (
    L.is_member-reread, L.member-reread, L.is_member-put, L.member-put, L.reread-string,
    L.kind-string, L.reread-int, L.kind-int,
  )

  redis_back :
      (c0 : Config)
      → read_redis J (J.reread (redis_section J c)) c0
        ≡ done (record c0 {
          redis_ip = c.redis_ip;
          redis_port = c.redis_port;
          redis_passwd = c.redis_passwd;
          redis_conn_timeout = c.redis_conn_timeout;
          redis_rw_timeout = c.redis_rw_timeout;
          redis_max_conns = c.redis_max_conns;
          redis_lock_timeout = c.redis_lock_timeout;
          redis_lock_try_time = c.redis_lock_try_time;
        })
  unfolding read_redis redis_section
  redis_back c0 = simp (
    L.member-reread,
    L.member-put,
    L.reread-string,
    L.string-string,
    L.reread-int,
    port_back c.redis_port h.redis_port,
    port_mod c.redis_port h.redis_port,
    L.int-int c.redis_conn_timeout h.redis_conn_timeout,
    L.int-int c.redis_rw_timeout h.redis_rw_timeout,
    L.int-int c.redis_max_conns h.redis_max_conns,
    L.int-int c.redis_lock_timeout h.redis_lock_timeout,
    L.int-int c.redis_lock_try_time h.redis_lock_try_time,
  )

  rabbitmq_fields : rabbitmq_has_fields J (J.reread (rabbitmq_section J c)) ≡ true
  unfolding rabbitmq_has_fields rabbitmq_section
  rabbitmq_fields = simp (
    L.is_member-reread, L.member-reread, L.is_member-put, L.member-put, L.reread-string,
    L.kind-string, L.reread-int, L.kind-int,
  )

  rabbitmq_back :
      (c0 : Config)
      → read_rabbitmq J (J.reread (rabbitmq_section J c)) c0
        ≡ done (record c0 {
          rabbitmq_hostname = c.rabbitmq_hostname;
          rabbitmq_port = c.rabbitmq_port;
          rabbitmq_username = c.rabbitmq_username;
          rabbitmq_passwd = c.rabbitmq_passwd;
          rabbitmq_timeout = c.rabbitmq_timeout;
          boardcast_exchange = c.boardcast_exchange;
          uniquecast_exchange = c.uniquecast_exchange;
        })
  unfolding read_rabbitmq rabbitmq_section
  rabbitmq_back c0 = simp (
    L.member-reread,
    L.member-put,
    L.reread-string,
    L.string-string,
    L.reread-int,
    port_back c.rabbitmq_port h.rabbitmq_port,
    port_mod c.rabbitmq_port h.rabbitmq_port,
    L.int-int c.rabbitmq_timeout h.rabbitmq_timeout,
  )

  other_fields :
      (servers : J.Value)
      → J.kind (J.reread servers) ≡ array_value
      → other_has_fields J (J.reread (other_section J c servers)) ≡ true
  unfolding other_has_fields other_section
  other_fields servers k = simp (
    L.is_member-reread, L.member-reread, L.is_member-put, L.member-put, L.reread-int, L.kind-int, k,
  )

  other_back :
      (servers : J.Value) (c0 : Config)
      → read_other J (J.reread (other_section J c servers)) c0
        ≡ done (record c0 {
          erizo_controller_worker_num = c.erizo_controller_worker_num;
          socket_io_thread_num = c.socket_io_thread_num;
          erizo_agent_timeout = c.erizo_agent_timeout;
          erizo_controller_update_interval = c.erizo_controller_update_interval;
          erizo_controller_timeout = c.erizo_controller_timeout;
        })
  unfolding read_other other_section
  other_back servers c0 = simp (
    L.member-reread,
    L.member-put,
    L.reread-int,
    L.int-int c.erizo_controller_worker_num h.erizo_controller_worker_num,
    L.int-int c.socket_io_thread_num h.socket_io_thread_num,
    L.int-int c.erizo_agent_timeout h.erizo_agent_timeout,
    L.int-int c.erizo_controller_update_interval h.erizo_controller_update_interval,
    L.int-int c.erizo_controller_timeout h.erizo_controller_timeout,
  )

  websocket_kind : J.kind (J.reread (websocket_section J c)) ≡ object_value
  unfolding websocket_section
  websocket_kind = L.kind-reread _ (L.kind-put _ _ _)

  redis_kind : J.kind (J.reread (redis_section J c)) ≡ object_value
  unfolding redis_section
  redis_kind = L.kind-reread _ (L.kind-put _ _ _)

  rabbitmq_kind : J.kind (J.reread (rabbitmq_section J c)) ≡ object_value
  unfolding rabbitmq_section
  rabbitmq_kind = L.kind-reread _ (L.kind-put _ _ _)

  other_kind : (servers : J.Value) → J.kind (J.reread (other_section J c servers)) ≡ object_value
  unfolding other_section
  other_kind servers = L.kind-reread _ (L.kind-put _ _ _)

  module _ (servers : J.Value) (k : J.kind (J.reread servers) ≡ array_value) where
    has_sections_back : has_sections J (J.reread (config_file J c servers)) ≡ true
    unfolding has_sections config_file
    has_sections_back = simp (
      L.is_member-reread,
      L.member-reread,
      L.is_member-put,
      L.member-put,
      websocket_kind,
      redis_kind,
      rabbitmq_kind,
      other_kind servers,
      websocket_fields,
      redis_fields,
      rabbitmq_fields,
      other_fields servers k,
    )

    server_back : J.reread (J.member (other_section J c servers) "server") ≡ J.reread servers
    unfolding other_section
    server_back = simp L.member-put

    file_kind : J.kind (config_file J c servers) ≡ object_value
    unfolding config_file
    file_kind = L.kind-put _ _ _

    assign_back :
        (c0 : Config) (m : List (ℤ × String))
        → read_servers J (J.size (J.reread servers)) 0 (J.reread servers) c0.server_mapping ≡ done m
        → assign J (J.reread (config_file J c servers)) c0 ≡ done (record c { server_mapping = m })
    unfolding assign config_file
    assign_back c0 m e =
        simp
          (
            L.member-reread,
            L.member-put,
            websocket_back,
            redis_back,
            rabbitmq_back,
            other_back servers,
            server_back,
          )
          (rw e)

    -- The file that has the values of a `Config`, each in the range of its type, and a `server` that is
    -- an array from which the loop makes `m`, is read without an error: `init` returns 0 and leaves
    -- these values and `m`, whatever the values were before.
    pub init_round_trip :
        (c0 : Config) (m : List (ℤ × String))
        → read_servers J (J.size (J.reread servers)) 0 (J.reread servers) c0.server_mapping ≡ done m
        → init J (some (J.write (config_file J c servers))) c0
          ≡ done (false, record c { server_mapping = m })
    unfolding init
    init_round_trip c0 m e =
        rw (L.parse-write (config_file J c servers) file_kind, init)
          (rw (L.kind-reread _ file_kind) (rw has_sections_back (rw (assign_back c0 m e))))
