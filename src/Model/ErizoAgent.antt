-- ===== src/Model/ErizoAgent.antt =====
-- model/erizo_agent.h: `struct ErizoAgent` with its `toJSON` and `fromJSON`.
use erizo_controller.Base.{◌&&◌, Bool, String, Option, [], ◌∷◌, ℕ, ℤ}
use erizo_controller.External.Json.{JsonCpp, string_value, uint_value}
use erizo_controller.Model.Outcome.{Outcome, done, ◌>>=◌, or_throw}
use erizo_controller.Model.Fields.{has, object, decode}

pub record ErizoAgent : Type 0 where
  pub id : String
  pub last_update : ℕ
  pub erizo_process_num : ℤ

module _ (J : JsonCpp) where
  open J use {Value, member, write, as_int, as_string, as_uint64, of_int, of_string, of_uint}

  -- The object that `toJSON` builds.
  unfoldable pub agent_value : ErizoAgent → Value
  agent_value a = object J (
      ("id", of_string a.id)
      ∷ ("last_update", of_uint a.last_update)
      ∷ ("erizo_process_num", of_int a.erizo_process_num)
      ∷ [])

  -- `toJSON`
  unfoldable pub agent_to_json : ErizoAgent → String
  agent_to_json a = write (agent_value a)

  -- The tests of `fromJSON` on the parsed object.
  unfoldable pub agent_has_fields : Value → Bool
  agent_has_fields root = has J root "id" string_value && has J root "last_update" uint_value

  -- The assignments of `fromJSON`.
  unfoldable pub read_agent : Value → Outcome ErizoAgent
  read_agent root = do
    id ← or_throw (as_string (member root "id"))
    last_update ← or_throw (as_uint64 (member root "last_update"))
    erizo_process_num ← or_throw (as_int (member root "erizo_process_num"))
    done (record { id = id; last_update = last_update; erizo_process_num = erizo_process_num })

  -- `fromJSON`: `done none` is its return value 1.
  unfoldable pub agent_from_json : String → Outcome (Option ErizoAgent)
  unfolding agent_has_fields read_agent
  agent_from_json = decode J agent_has_fields read_agent
