-- ===== src/Process/State.antt =====
-- The process as its handlers see it: the singletons `Config`, `ACLRedis` and `ErizoController`
-- with the queues of `AMQPRPC`, `SocketIOServer` and the thread pool. A C++ call that reads or
-- changes it, and that may throw, is an `Exec`.
use erizo_controller.Base.{ℕ, Bool, String, List}
use erizo_controller.External.{Platform}
use erizo_controller.Config.{Config}
use erizo_controller.Model.Outcome.{Outcome, done, thrown}

-- `AMQPRPC::AMQPData`: one message in the send queue.
pub record AmqpData : Type 0 where
  pub exchange : String
  pub queuename : String
  pub binding_key : String
  pub msg : String

-- `SocketIOServer::SIOData`
pub record SioData : Type 0 where
  pub client_id : String
  pub message : String

-- The functions that `asyncTask` is given.
pub data Task : Type 0 where
  signaling_task : String → Task
  subscribe_task : String → String → String → Task
  expire_task : String → Task

pub record World (P : Platform) : Type 0 where
  pub config : Config
  -- `ErizoController::id_`, and `amqp_signaling_->getReplyTo()`
  pub id : String
  pub reply_to : String
  -- `ACLRedis::init_`, and the server
  pub redis_ready : Bool
  pub db : P.redis.Db
  -- the send queues of `AMQPRPC` and of `SocketIOServer`, and the posted tasks, oldest first
  pub sent : List AmqpData
  pub events : List SioData
  pub tasks : List Task
  -- how often the clocks were read, `rand` was called and an agent was asked
  pub ticks : ℕ
  pub draws : ℕ
  pub asked : ℕ

abbrev pub Exec : Platform → Type 0 → Type 0
Exec P A = World P → Outcome A × World P

module _ {P : Platform} where
  abbrev pub pure : {A : Type 0} → A → Exec P A
  pure a w = (done a, w)

  abbrev pub lift : {A : Type 0} → Outcome A → Exec P A
  lift o w = (o, w)

  -- The rest of a block, after a call that returned or threw.
  abbrev pub continue : {A B : Type 0} → Outcome A → (A → Exec P B) → Exec P B
  continue (done a) f w = f a w
  continue thrown f w = (thrown, w)

  infixl 5 ◌>>=◌ ◌>>◌
  abbrev pub ◌>>=◌ : {A B : Type 0} → Exec P A → (A → Exec P B) → Exec P B
  ◌>>=◌ m f w = let (o, w') = m w in continue o f w'

  abbrev pub ◌>>◌ : {A B : Type 0} → Exec P A → Exec P B → Exec P B
  m >> n = m >>= λ _. n

  abbrev pub gets : {A : Type 0} → (World P → A) → Exec P A
  gets f w = (done (f w), w)

  abbrev pub modify : (World P → World P) → Exec P (Unit {0})
  modify f w = (done tt, f w)
