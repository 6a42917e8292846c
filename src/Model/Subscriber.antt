-- ===== src/Model/Subscriber.antt =====
-- model/subscriber.h: `struct Subscriber` with its `toJSON` and `fromJSON`.
use erizo_controller.Base.{◌&&◌, Bool, String, Option, [], ◌∷◌}
use erizo_controller.External.Json.{JsonCpp, boolean_value, string_value}
use erizo_controller.Model.Outcome.{Outcome, done, ◌>>=◌, or_throw}
use erizo_controller.Model.Fields.{has, object, decode}

pub record Subscriber : Type 0 where
  pub id : String
  pub client_id : String
  pub erizo_id : String
  pub agent_id : String
  pub subscribe_to : String
  pub reply_to : String
  pub is_bridge : Bool

module _ (J : JsonCpp) where
  open J use {Value, member, write, as_bool, as_string, of_bool, of_string}

  -- The object that `toJSON` builds.
  unfoldable pub subscriber_value : Subscriber → Value
  subscriber_value s = object J (
      ("id", of_string s.id)
      ∷ ("agent_id", of_string s.agent_id)
      ∷ ("erizo_id", of_string s.erizo_id)
      ∷ ("client_id", of_string s.client_id)
      ∷ ("subscribe_to", of_string s.subscribe_to)
      ∷ ("reply_to", of_string s.reply_to)
      ∷ ("is_bridge", of_bool s.is_bridge)
      ∷ [])

  -- `toJSON`
  unfoldable pub subscriber_to_json : Subscriber → String
  subscriber_to_json s = write (subscriber_value s)

  -- The tests of `fromJSON` on the parsed object.
  unfoldable pub subscriber_has_fields : Value → Bool
  subscriber_has_fields root =
      has J root "id" string_value
      && has J root "client_id" string_value
      && has J root "erizo_id" string_value
      && has J root "agent_id" string_value
      && has J root "subscribe_to" string_value
      && has J root "reply_to" string_value
      && has J root "is_bridge" boolean_value

  -- The assignments of `fromJSON`.
  unfoldable pub read_subscriber : Value → Outcome Subscriber
  read_subscriber root = do
    id ← or_throw (as_string (member root "id"))
    client_id ← or_throw (as_string (member root "client_id"))
    erizo_id ← or_throw (as_string (member root "erizo_id"))
    agent_id ← or_throw (as_string (member root "agent_id"))
    subscribe_to ← or_throw (as_string (member root "subscribe_to"))
    reply_to ← or_throw (as_string (member root "reply_to"))
    is_bridge ← or_throw (as_bool (member root "is_bridge"))
    done (record {
      id = id;
      client_id = client_id;
      erizo_id = erizo_id;
      agent_id = agent_id;
      subscribe_to = subscribe_to;
      reply_to = reply_to;
      is_bridge = is_bridge;
    })

  -- `fromJSON`: `done none` is its return value 1.
  unfoldable pub subscriber_from_json : String → Outcome (Option Subscriber)
  unfolding subscriber_has_fields read_subscriber
  subscriber_from_json = decode J subscriber_has_fields read_subscriber
