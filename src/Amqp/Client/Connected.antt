-- ===== src/Amqp/Client/Connected.antt =====
-- rabbitmq/amqp_cli.cpp: `init` succeeds where every call of librabbitmq does, and then alone.
use erizo_controller.Base.{
  ◌⊎◌, inl, inr, ap, ◌∙◌, Bool-cases, ℕ, Bool, true, false, ◌&&◌, not, String, ◌==◌, Option, none,
  some, List, ◌≡◌, refl, if◌then◌else◌,
}
use erizo_controller.Config.{Config}
use erizo_controller.Amqp.Client.{
  Broker, check_error, stringify_bytes, AmqpCli, bind_queue, open_queue, cli_init,
}

module _ (B : Broker) (config : Config) (exchange type binding_key : String) where
  -- The queue is bound, by its own name where there is no other key, and consumed.
  unfoldable pub queue_ready : Option (List ℕ) → Bool
  queue_ready none = false
  queue_ready (some name) =
      not (
        check_error
          (B.queue_bind name exchange (if binding_key == "" then name else B.bytes binding_key)))
      && not (check_error (B.basic_consume name))

  -- Every call succeeds.
  unfoldable pub broker_ready : Bool
  broker_ready =
      B.socket_new
      && (B.socket_open config.rabbitmq_hostname config.rabbitmq_port
          && (not (check_error (B.login config.rabbitmq_username config.rabbitmq_passwd))
              && (not (check_error B.channel_open)
                  && (not (check_error (B.exchange_declare exchange type))
                      && (not (check_error B.queue_declare) && queue_ready B.queue_name)))))

  -- The result and the flag say the same, `ready`, and a key that was given is the address for answers.
  record Says (ready : Bool) (r : Bool × AmqpCli) : Type 0 where
    result : r.0 ≡ not ready
    initialized : r.1.initialized ≡ ready
    reply_to : ready ≡ true → (binding_key == "") ≡ false → r.1.reply_to ≡ binding_key

  Says-no : (cli : AmqpCli) → cli.initialized ≡ false → Says false (true, cli)
  Says-no cli h = record { result = refl; initialized = h; reply_to = λ e. absurd (cc e) }

  -- A call that fails ends the chain.
  Says-not :
      (b rest : Bool) (cli : AmqpCli) (next : Bool × AmqpCli)
      → cli.initialized ≡ false
      → (b ≡ false → Says rest next)
      → Says (not b && rest) (if b then (true, cli) else next)
  Says-not true rest cli next h k = Says-no cli h
  Says-not false rest cli next h k = k refl

  Says-when :
      (b rest : Bool) (cli : AmqpCli) (next : Bool × AmqpCli)
      → cli.initialized ≡ false
      → (b ≡ true → Says rest next)
      → Says (b && rest) (if not b then (true, cli) else next)
  Says-when false rest cli next h k = Says-no cli h
  Says-when true rest cli next h k = k refl

  Says-last :
      (b : Bool) (cli : AmqpCli)
      → cli.initialized ≡ false
      → ((binding_key == "") ≡ false → cli.reply_to ≡ binding_key)
      → Says (not b) (if b then (true, cli) else (false, record cli { initialized = true }))
  Says-last true cli h k = Says-no cli h
  Says-last false cli h k = record { result = refl; initialized = refl; reply_to = λ _. k }

  Says-fresh :
      (b ready : Bool) (cli : AmqpCli) (next : Bool × AmqpCli)
      → b ≡ false
      → Says ready next
      → Says ready (if b then (false, cli) else next)
  Says-fresh true ready cli next h k = absurd (cc h)
  Says-fresh false ready cli next h k = k

  bind_queue-Says :
      (name : List ℕ) (cli : AmqpCli)
      → cli.initialized ≡ false
      → Says (queue_ready (some name)) (bind_queue B config name exchange binding_key cli)
  unfolding queue_ready bind_queue
  bind_queue-Says name cli h =
      let named : AmqpCli = record cli {
        reply_to = if binding_key == "" then B.text (stringify_bytes name) else binding_key;
      } in
      Says-not
        (check_error
          (B.queue_bind name exchange (if binding_key == "" then name else B.bytes binding_key)))
        (not (check_error (B.basic_consume name))) named _ h
        λ _. Says-last (check_error (B.basic_consume name)) named h λ e. rw e refl

  Says-named :
      (o : Option (List ℕ)) (cli : AmqpCli)
      → cli.initialized ≡ false
      → Says (queue_ready o) (elim o [
        | none ↦ (true, cli)
        | some name ↦ bind_queue B config name exchange binding_key cli
      ])
  unfolding queue_ready
  Says-named none cli h = Says-no cli h
  Says-named (some name) cli h = bind_queue-Says name cli h

  -- Where `init` was not called before and the binding key is not empty, there are two cases: each
  -- call of librabbitmq succeeds, and `init` returns 0 and leaves the client initialised, with the key
  -- as the address for answers; or one of them fails, and `init` returns 1 and leaves the client
  -- not initialised.
  pub cli_init_lem :
      (cli : AmqpCli)
      → cli.initialized ≡ false
      → (binding_key == "") ≡ false
      → ((broker_ready ≡ true)
          × ((cli_init B config exchange type binding_key cli).0 ≡ false)
          × ((cli_init B config exchange type binding_key cli).1.initialized ≡ true)
          × ((cli_init B config exchange type binding_key cli).1.reply_to ≡ binding_key))
        ⊎ ((broker_ready ≡ false)
            × ((cli_init B config exchange type binding_key cli).0 ≡ true)
            × ((cli_init B config exchange type binding_key cli).1.initialized ≡ false))
  unfolding cli_init open_queue broker_ready
  cli_init_lem cli h k = elim (Bool-cases broker_ready) [
    | inl t ↦ inl (t, all_says.result ∙ ap not t, all_says.initialized ∙ t, all_says.reply_to t k)
    | inr f ↦ inr (f, all_says.result ∙ ap not f, all_says.initialized ∙ f)
  ]
    where
      cli' : AmqpCli
      cli' = record cli { connected = true }

      all_says : Says broker_ready (cli_init B config exchange type binding_key cli)
      all_says = Says-fresh cli.initialized _ cli _ h (
          Says-when B.socket_new _ cli' _ h λ _.
            Says-when (B.socket_open config.rabbitmq_hostname config.rabbitmq_port) _ cli' _ h λ _.
              Says-not (check_error (B.login config.rabbitmq_username config.rabbitmq_passwd)) _
                cli' _ h
                λ _. Says-not (check_error B.channel_open) _ cli' _ h λ _.
                  Says-not (check_error (B.exchange_declare exchange type)) _ cli' _ h λ _.
                    Says-not (check_error B.queue_declare) _ cli' _ h
                      λ _. Says-named B.queue_name cli' h)
