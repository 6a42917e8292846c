-- ===== src/Config/Loaded.antt =====
-- common/config.cpp: a successful `init` leaves in `server_mapping` the items of the file.
use erizo_controller.Base.{
  ℤ, false, Bool, String, some, ◌≡◌, refl, ◌∙◌, ap, sym, Bool-cases, inl, inr,
}
use erizo_controller.External.Json.{JsonCpp}
use erizo_controller.Model.Outcome.{
  done, or_throw, bind_done, done_back, not_thrown, Always, Always-bind, Always-at, always_done,
}
use erizo_controller.Model.Fields.{has_members}
use erizo_controller.Config.{Config, find_server}
use erizo_controller.Config.Load.{
  int_of, text_of, port_of, read_websocket, read_redis, read_rabbitmq, read_other, read_servers,
  assign, init, has_sections,
}
use erizo_controller.Config.Servers.{LastName, read_servers-LastName}

module _ (J : JsonCpp) where
  open J use {Value, member, parse, size}

  -- The assignments from a section leave `server_mapping` alone.
  abbrev HasMapping : Config → Config → Type 0
  HasMapping c c' = c'.server_mapping ≡ c.server_mapping

  read_websocket-HasMapping :
      (v : Value) (c : Config) → Always (HasMapping c) (read_websocket J v c)
  unfolding read_websocket
  read_websocket-HasMapping v c = Always-bind (port_of J v "port") _ λ _.
      Always-bind (or_throw (J.as_bool (member v "ssl"))) _ λ _.
        Always-bind (text_of J v "ssl_key") _ λ _. Always-bind (text_of J v "ssl_cert") _ λ _.
          Always-bind (text_of J v "ssl_passwd") _
            λ _. Always-bind (port_of J v "ssl_port") _ λ _. always_done _ refl

  read_redis-HasMapping : (v : Value) (c : Config) → Always (HasMapping c) (read_redis J v c)
  unfolding read_redis
  read_redis-HasMapping v c = Always-bind (text_of J v "ip") _ λ _.
      Always-bind (port_of J v "port") _ λ _. Always-bind (text_of J v "password") _ λ _.
        Always-bind (int_of J v "conn_timeout") _ λ _. Always-bind (int_of J v "rw_timeout") _ λ _.
          Always-bind (int_of J v "max_conns") _ λ _.
            Always-bind (int_of J v "lock_timeout") _
              λ _. Always-bind (int_of J v "lock_try_time") _ λ _. always_done _ refl

  read_rabbitmq-HasMapping : (v : Value) (c : Config) → Always (HasMapping c) (read_rabbitmq J v c)
  unfolding read_rabbitmq
  read_rabbitmq-HasMapping v c = Always-bind (text_of J v "host") _ λ _.
      Always-bind (port_of J v "port") _ λ _. Always-bind (text_of J v "username") _ λ _.
        Always-bind (text_of J v "password") _ λ _. Always-bind (int_of J v "timeout") _ λ _.
          Always-bind (text_of J v "uniquecast_exchange") _
            λ _. Always-bind (text_of J v "boardcast_exchange") _ λ _. always_done _ refl

  read_other-HasMapping : (v : Value) (c : Config) → Always (HasMapping c) (read_other J v c)
  unfolding read_other
  read_other-HasMapping v c = Always-bind (int_of J v "erizo_controller_worker_num") _ λ _.
      Always-bind (int_of J v "socket_io_thread_num") _ λ _.
        Always-bind (int_of J v "erizo_agent_timeout") _ λ _.
          Always-bind (int_of J v "erizo_controller_timeout") _ λ _.
            Always-bind (int_of J v "erizo_controller_update_interval") _ λ _. always_done _ refl

  abbrev items_of : Value → Value
  items_of root = member (member root "other") "server"

  assign-mapping :
      (root : Value) (c c' : Config)
      → assign J root c ≡ done c'
      → read_servers J (size (items_of root)) 0 (items_of root) c.server_mapping
        ≡ done c'.server_mapping
  unfolding assign
  assign-mapping root c c' h =
      let (c1, e1, h1) = bind_done (read_websocket J (member root "websocket") c) _ h in
      let (c2, e2, h2) = bind_done (read_redis J (member root "redis") c1) _ h1 in
      let (c3, e3, h3) = bind_done (read_rabbitmq J (member root "rabbitmq") c2) _ h2 in
      let (c4, e4, h4) = bind_done (read_other J (member root "other") c3) _ h3 in
      let (m, e, k) =
        bind_done (read_servers J (size (items_of root)) 0 (items_of root) c4.server_mapping) _
          h4 in
      let same : c4.server_mapping ≡ c.server_mapping =
        Always-at (HasMapping c3) c4 (read_other-HasMapping (member root "other") c3) e4
        ∙ Always-at (HasMapping c2) c3 (read_rabbitmq-HasMapping (member root "rabbitmq") c2) e3
        ∙ Always-at (HasMapping c1) c2 (read_redis-HasMapping (member root "redis") c1) e2
        ∙ Always-at (HasMapping c) c1 (read_websocket-HasMapping (member root "websocket") c) e1 in
      rw (sym same, e) (ap (λ (x : Config). done x.server_mapping) (done_back k))

  assigned :
      (text : String) (root : Value) (c c' : Config)
      → parse text ≡ some root
      → init J (some text) c ≡ done (false, c')
      → assign J root c ≡ done c'
  unfolding init
  assigned text root c c' p h = elim (Bool-cases (has_members J root)) [
    | inr f ↦ absurd (not_thrown (rw (init, p, f) at h))
    | inl m ↦ elim (Bool-cases (has_sections J root)) [
      | inr f ↦ absurd (cc (ap (λ (x : Bool × Config). x.0) (done_back (rw (init, p, m, f) at h))))
      | inl s ↦
          let (c1, e, k) = bind_done (assign J root c) _ (rw (init, p, m, s) at h) in
          e ∙ ap (λ (x : Bool × Config). done x.1) (done_back k)
    ]
  ]

  -- After `init` returned 0, `server_mapping` has under every id the name of the last item of the
  -- file's `server` that is taken and has this id, and what it had before where there is no such item.
  pub init-LastName :
      (text : String) (root : Value) (c c' : Config) (id : ℤ)
      → parse text ≡ some root
      → init J (some text) c ≡ done (false, c')
      → LastName J
          (member (member root "other") "server")
          (size (member (member root "other") "server"))
          0
          id
          (find_server id c.server_mapping)
          (find_server id c'.server_mapping)
  init-LastName text root c c' id p h =
      read_servers-LastName J _ 0 (items_of root) c.server_mapping c'.server_mapping id
        (assign-mapping root c c' (assigned text root c c' p h))
