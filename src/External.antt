-- ===== src/External.antt =====
-- What the program links and does not implement, as parameters of the model.
pub mod Json
pub mod Redis
use erizo_controller.Base.{ℕ}
use Json.{JsonCpp}
use Redis.{RedisServer}

-- The libraries and the environment. The environment is what each reading returns: the n-th reading
-- of a clock, the n-th `rand()`, and what the callback of the n-th call to an agent is given.
pub record Platform : Type 1 where
  pub json : JsonCpp
  pub redis : RedisServer
  -- `Utils::getSystemMs`, `Utils::getCurrentMs`
  pub system_ms : ℕ → ℕ
  pub current_ms : ℕ → ℕ
  pub rand : ℕ → ℕ
  pub rpc_answer : ℕ → json.Value
