-- ===== src/Entry/Started.antt =====
-- main.cpp: what a start of the program comes to.
use erizo_controller.Base.{Bool, true, false, ◌≡◌, refl, ◌⊎◌, inl, inr, if◌then◌else◌}
use erizo_controller.External.Json.{JsonCpp}
use erizo_controller.Model.Outcome.{Outcome, done, thrown, ◌>>=◌}
use erizo_controller.Process.Path.{init_path}
use erizo_controller.Config.{Config}
use erizo_controller.Config.Load.{init}
use erizo_controller.Route.Table.{IpTableMap}
use erizo_controller.Route.Query.{route_init}
use erizo_controller.Controller.Start.Addressed.{brokers_ready, controller_init_lem}
use erizo_controller.Entry.{Program, Surroundings, start_services, start_program}

module _ (J : JsonCpp) (E : Surroundings J) (p : Program J) where
  -- Why a start returns 1; the last case is the configuration with which the brokers do not answer.
  abbrev Fails : Type 0
  Fails =
      (init_path E.files ≡ true)
      ⊎ ((config : Config) × ((init J E.config_file p.config ≡ done (true, config))
            ⊎ ((init J E.config_file p.config ≡ done (false, config))
                × (table : IpTableMap) × ((route_init E.address E.names E.ip_lines p.table
                      ≡ done (true, table))
                    ⊎ ((route_init E.address E.names E.ip_lines p.table ≡ done (false, table))
                        × (brokers_ready J E.rpc_broker E.signaling_broker config E.uuid
                            ≡ false))))))

  -- What a start comes to: it throws in one of the files, or it returns 1 for one of the reasons with a
  -- controller that is not initialised, or it goes on with the configuration and the table of the
  -- files, Redis, and a controller that is connected.
  abbrev pub Comes : Outcome (Bool × Program J) → Type 0
  Comes thrown =
      (init_path E.files ≡ false)
      × ((init J E.config_file p.config ≡ thrown)
          ⊎ ((config : Config) × (init J E.config_file p.config ≡ done (false, config))
              × (route_init E.address E.names E.ip_lines p.table ≡ thrown)))
  Comes (done (true, q)) = Fails × (q.controller.initialized ≡ false)
  Comes (done (false, q)) =
      (init_path E.files ≡ false)
      × (init J E.config_file p.config ≡ done (false, q.config))
      × (route_init E.address E.names E.ip_lines p.table ≡ done (false, q.table))
      × (q.redis_ready ≡ true)
      × (brokers_ready J E.rpc_broker E.signaling_broker q.config E.uuid ≡ true)
      × (q.controller.initialized ≡ true)

  services-Comes :
      (config : Config)
      → p.controller.initialized ≡ false
      → init_path E.files ≡ false
      → init J E.config_file p.config ≡ done (false, config)
      → Comes (start_services J E (record p { config = config }))
  unfolding start_services
  services-Comes config fresh path loaded =
      read (route_init E.address E.names E.ip_lines p.table) refl
    where
      read :
          (o : Outcome (Bool × IpTableMap))
          → route_init E.address E.names E.ip_lines p.table ≡ o
          → Comes (start_services J E (record p { config = config }))
      read thrown e = rw (start_services, e) (path, inr (config, loaded, e))
      read (done (true, table)) e =
          rw (start_services, e) (inr (config, inr (loaded, table, inl e)), fresh)
      read (done (false, table)) e =
          elim (controller_init_lem J E.rpc_broker E.signaling_broker config E.uuid p.controller
            fresh) [
              | inl (r, f, i, _, _, _) ↦ rw (start_services, e, f) (path, loaded, e, refl, r, i)
              | inr (r, f, i) ↦
                  rw (start_services, e, f) (inr (config, inr (loaded, table, inr (e, r))), i)
            ]

  -- Where the controller was not started before, `main` up to its loop throws where the reading of one
  -- of the files does; or it returns 1, since the path, one of the files or a call of librabbitmq
  -- failed, and leaves a controller that is not initialised; or it goes on: the path was set, the
  -- configuration and the table are those of the files, Redis is initialised, every call of
  -- librabbitmq succeeded, and the controller is initialised.
  pub start_program_lem : p.controller.initialized ≡ false → Comes (start_program J E p)
  unfolding start_program
  start_program_lem fresh = path (init_path E.files) refl
    where
      read :
          (o : Outcome (Bool × Config))
          → init J E.config_file p.config ≡ o
          → init_path E.files ≡ false
          → Comes (
              o >>= λ r.
              if r.0
              then done (true, record p { config = r.1 })
              else start_services J E (record p { config = r.1 }))
      read thrown e f = (f, inl e)
      read (done (true, config)) e f = (inr (config, inl e), fresh)
      read (done (false, config)) e f = services-Comes config fresh f e

      path :
          (b : Bool)
          → init_path E.files ≡ b
          → Comes (
              if b
              then done (true, p)
              else (init J E.config_file p.config >>= λ r.
                  if r.0
                  then done (true, record p { config = r.1 })
                  else start_services J E (record p { config = r.1 })))
      path true e = (inl e, fresh)
      path false e = read (init J E.config_file p.config) refl e
