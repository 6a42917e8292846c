-- ===== src/Model/Heartbeat.antt =====
-- core/erizo_controller.h: `struct HEARTBEAT` with its `toJSON` and `fromJSON`.
use erizo_controller.Base.{◌&&◌, Bool, String, Option, [], ◌∷◌, ℕ}
use erizo_controller.External.Json.{JsonCpp, string_value, uint_value}
use erizo_controller.Model.Outcome.{Outcome, done, ◌>>=◌, or_throw}
use erizo_controller.Model.Fields.{has, object, decode}

pub record Heartbeat : Type 0 where
  pub id : String
  pub last_update : ℕ

module _ (J : JsonCpp) where
  open J use {Value, member, write, as_string, as_uint64, of_string, of_uint}

  -- The object that `toJSON` builds.
  unfoldable pub heartbeat_value : Heartbeat → Value
  heartbeat_value h =
      object J (("id", of_string h.id) ∷ ("last_update", of_uint h.last_update) ∷ [])

  -- `toJSON`
  unfoldable pub heartbeat_to_json : Heartbeat → String
  heartbeat_to_json h = write (heartbeat_value h)

  -- The tests of `fromJSON` on the parsed object.
  unfoldable pub heartbeat_has_fields : Value → Bool
  heartbeat_has_fields root = has J root "id" string_value && has J root "last_update" uint_value

  -- The assignments of `fromJSON`.
  unfoldable pub read_heartbeat : Value → Outcome Heartbeat
  read_heartbeat root = do
    id ← or_throw (as_string (member root "id"))
    last_update ← or_throw (as_uint64 (member root "last_update"))
    done (record { id = id; last_update = last_update })

  -- `fromJSON`: `done none` is its return value 1.
  unfoldable pub heartbeat_from_json : String → Outcome (Option Heartbeat)
  unfolding heartbeat_has_fields read_heartbeat
  heartbeat_from_json = decode J heartbeat_has_fields read_heartbeat
