-- ===== src/Amqp/Client.antt =====
-- rabbitmq/amqp_cli.cpp: `AMQPCli`, whose `init` is a chain of calls of librabbitmq.
pub mod Connected
use erizo_controller.Base.{
  ℕ, ◌+◌, ◌/◌, ◌%◌, Bool, true, false, ◌&&◌, not, String, ◌==◌, Option, none, some, List, [], ◌∷◌,
  ◌++◌, eqb, leb, if◌then◌else◌,
}
use erizo_controller.Config.{Config}

-- `reply_type` of `amqp_rpc_reply_t`
pub data Reply : Type 0 where
  response_normal response_none response_library_exception response_server_exception : Reply

-- What the calls of librabbitmq return to one connection; none of it is code of the repository. A
-- queue's name is a list of bytes, `none` where its copy finds no memory, and `text` makes the
-- `std::string` of bytes.
pub record Broker : Type 0 where
  pub socket_new : Bool
  pub socket_open : String → ℕ → Bool
  pub login : String → String → Reply
  pub channel_open : Reply
  pub exchange_declare : String → String → Reply
  pub queue_declare : Reply
  pub queue_name : Option (List ℕ)
  pub queue_bind : List ℕ → String → List ℕ → Reply
  pub basic_consume : List ℕ → Reply
  pub bytes : String → List ℕ
  pub text : List ℕ → String

-- `checkError`: `true` is its return value 1.
unfoldable pub check_error : Reply → Bool
check_error response_normal = false
check_error response_none = true
check_error response_library_exception = true
check_error response_server_exception = true

-- `oss << n` for the sum of '0' and a digit, which is an `int` of two digits.
abbrev pub show_sum : ℕ → List ℕ
show_sum n = (b'0' + n / 10) ∷ (b'0' + n % 10) ∷ []

-- `stringifyBytes`, as bytes.
unfoldable pub stringify_bytes : List ℕ → List ℕ
stringify_bytes [] = []
stringify_bytes (b ∷ bytes) =
    let rest = stringify_bytes bytes in
    if leb 32 b && not (eqb b 127)
    then b ∷ rest
    else b'\\' ∷ show_sum (b'0' + b / 64)
      ++ (show_sum (b'0' + b / 8 % 8) ++ (show_sum (b'0' + b % 8) ++ rest))

-- `AMQPCli`; `connected` is `conn_ != nullptr`.
pub record AmqpCli : Type 0 where
  pub reply_to : String
  pub connected : Bool
  pub initialized : Bool

abbrev pub new_cli : AmqpCli
new_cli = record { reply_to = ""; connected = false; initialized = false }

module _ (B : Broker) (config : Config) where
  -- From the queue's name on; `true` is the return value 1.
  unfoldable pub bind_queue : List ℕ → String → String → AmqpCli → Bool × AmqpCli
  unfolding stringify_bytes
  bind_queue name exchange binding_key cli =
      let named = binding_key == "" in
      let cli' = record cli {
        reply_to = if named then B.text (stringify_bytes name) else binding_key;
      } in
      if check_error (B.queue_bind name exchange (if named then name else B.bytes binding_key))
      then (true, cli')
      else if check_error (B.basic_consume name)
      then (true, cli')
      else (false, record cli' { initialized = true })

  -- The calls from the login to the queue.
  unfoldable pub open_queue : String → String → String → AmqpCli → Bool × AmqpCli
  open_queue exchange type binding_key cli =
      if check_error (B.login config.rabbitmq_username config.rabbitmq_passwd)
      then (true, cli)
      else if check_error B.channel_open
      then (true, cli)
      else if check_error (B.exchange_declare exchange type)
      then (true, cli)
      else if check_error B.queue_declare
      then (true, cli)
      else elim B.queue_name [
        | none ↦ (true, cli)
        | some name ↦ bind_queue name exchange binding_key cli
      ]

  -- `init`; `true` is the return value 1.
  unfoldable pub cli_init : String → String → String → AmqpCli → Bool × AmqpCli
  cli_init exchange type binding_key cli =
      if cli.initialized
      then (false, cli)
      else let cli' = record cli { connected = true } in
        if not B.socket_new
        then (true, cli')
        else if not (B.socket_open config.rabbitmq_hostname config.rabbitmq_port)
        then (true, cli')
        else open_queue exchange type binding_key cli'

-- `close`
unfoldable pub cli_close : AmqpCli → AmqpCli
cli_close cli = record cli { connected = false; initialized = false }
